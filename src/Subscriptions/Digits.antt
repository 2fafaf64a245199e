-- ===== src/Subscriptions/Digits.antt =====
-- The decimal text of a `uint` (internal/analysis/subscriptions.go: `uintToStr`) read back.
use Prim.Native.Char.{code}
use Prim.Native.String.{◌++◌ as append}
use native.Mathlib.Numerals.{unary_clauses}
use eebus_tracer.Prelude.{
  ℕ, zero, suc, ◌+◌, ◌-◌, ◌*◌, ◌/◌, ◌%◌, ◌^◌, ◌<◌, ◌≡◌, ap, ◌∙◌, String, append_empty, append_char,
  ltb, if_elim, nat_eq, ◌==◌, arith,
}
use eebus_tracer.Subscriptions.Payload.{digit, digits_loop, uint_to_str}

-- The number that a text of decimal digits denotes, where `a` has been read in front of it.
abbrev pub read_decimal : ℕ → String → ℕ
read_decimal a String.[] = a
read_decimal a (String.◌∷◌ c s) = read_decimal (a * 10 + (code c - 48)) s

read_decimal_char :
    (a : ℕ) (c : _) (s : String)
    → read_decimal a (append (String.◌∷◌ c "") s) ≡ read_decimal (a * 10 + (code c - 48)) s
read_decimal_char a c s =
    ap (read_decimal a) (append_char c "" s)
    ∙ ap (read_decimal (a * 10 + (code c - 48))) (append_empty s)

read_decimal-digit :
    (d a : ℕ) (s : String)
    → d < 10
    → read_decimal a (append (digit d) s) ≡ read_decimal (a * 10 + d) s
read_decimal-digit zero a s h = read_decimal_char a _ s
read_decimal-digit (suc zero) a s h = read_decimal_char a _ s
read_decimal-digit (suc (suc zero)) a s h = read_decimal_char a _ s
read_decimal-digit (suc (suc (suc zero))) a s h = read_decimal_char a _ s
read_decimal-digit (suc (suc (suc (suc zero)))) a s h = read_decimal_char a _ s
read_decimal-digit (suc (suc (suc (suc (suc zero))))) a s h = read_decimal_char a _ s
read_decimal-digit (suc (suc (suc (suc (suc (suc zero)))))) a s h = read_decimal_char a _ s
read_decimal-digit (suc (suc (suc (suc (suc (suc (suc zero))))))) a s h = read_decimal_char a _ s
read_decimal-digit (suc (suc (suc (suc (suc (suc (suc (suc zero)))))))) a s h =
    read_decimal_char a _ s
read_decimal-digit (suc (suc (suc (suc (suc (suc (suc (suc (suc zero))))))))) a s h =
    read_decimal_char a _ s
read_decimal-digit (suc (suc (suc (suc (suc (suc (suc (suc (suc (suc d)))))))))) a s h =
    absurd (ground (arith, h))

div_lt : (n p : ℕ) → n < p * 10 → n / 10 < p
div_lt n p h = omega arith

read_decimal-digits_loop :
    (fuel n : ℕ) (s : String)
    → n < 10 ^ fuel
    → read_decimal 0 (digits_loop fuel n s) ≡ read_decimal n s
unfolding digits_loop
read_decimal-digits_loop zero n s h = ap (λ m. read_decimal m s) (omega arith)
read_decimal-digits_loop (suc fuel) n s h =
    if_elim (λ t. read_decimal 0 t ≡ read_decimal n s) (ltb 0 n) _ _
      (λ more.
        read_decimal-digits_loop fuel (n / 10) (append (digit (n % 10)) s)
          (div_lt n (10 ^ fuel) (simp unary_clauses at h))
        ∙ read_decimal-digit (n % 10) (n / 10) s (omega arith)
        ∙ ap (λ m. read_decimal m s) (omega arith))
      (λ done. ap (λ m. read_decimal m s) (ground (arith, done)))

-- The decimal text of every number below 2^64 is read back as this number.
pub read_decimal-uint_to_str : (n : ℕ) → n < 2 ^ 64 → read_decimal 0 (uint_to_str n) ≡ n
unfolding uint_to_str
read_decimal-uint_to_str n h =
    if_elim (λ t. read_decimal 0 t ≡ n) (n == 0) _ _ (λ is_zero. ground (arith, is_zero))
      (λ other. read_decimal-digits_loop 20 n "" (omega arith))
