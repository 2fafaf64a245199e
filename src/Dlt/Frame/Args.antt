-- ===== src/Dlt/Frame/Args.antt =====
-- The argument walk of internal/parser/dltbin.go over encoded string arguments.
use eebus_tracer.Prelude.{
  ℕ, zero, suc, ◌+◌, ◌*◌, ◌/◌, ◌%◌, ◌≤◌, ◌<◌, ◌≡◌, ◌≢◌, ◌∙◌, refl, Bool, true, false, List, [], ◌∷◌,
  ◌++◌, append_assoc, length, take, drop, All, ltb, arith, length-append, take-append, drop-append,
}
use eebus_tracer.Dlt.Frame.{trim_zero, append_arg, decode_args, decode_verbose_string_args}
use eebus_tracer.Dlt.Frame.Wire.{encode_arg, encode_args, join_args, IsText}

pub trim_zero-append : (s b : List ℕ) → All (λ c. c ≢ 0) s → trim_zero (s ++ 0 ∷ b) ≡ s
unfolding trim_zero
trim_zero-append [] b h = refl
trim_zero-append (c ∷ s) b h = ground (arith, trim_zero-append s b h.1)

-- The length field says the length.
sized_be : (n : ℕ) → n < 65536 → n / 256 % 256 * 256 + n % 256 ≡ n
sized_be n h = omega arith

sized_le : (n : ℕ) → n < 65536 → n % 256 + n / 256 % 256 * 256 ≡ n
sized_le n h = omega arith

-- The text with its NUL in front of what follows.
abbrev closed : List ℕ → List ℕ
closed s = s ++ 0 ∷ []

length-closed : (s : List ℕ) → length (closed s) ≡ length s + 1
length-closed s = omega (arith, length-append s (0 ∷ []))

text_fits : (s rest : List ℕ) → ltb (length (closed s ++ rest)) (length s + 1) ≡ false
text_fits s rest = ground (arith, length-closed s, length-append (closed s) rest)

text_taken : (s rest : List ℕ) → take (length s + 1) (closed s ++ rest) ≡ closed s
text_taken s rest = rw (← length-closed s) (take-append (closed s) rest)

text_dropped : (s rest : List ℕ) → drop (length s + 1) (closed s ++ rest) ≡ rest
text_dropped s rest = rw (← length-closed s) (drop-append (closed s) rest)

decode_args-string :
    (f : ℕ) (be : Bool) (s rest out : List ℕ)
    → IsText s
    → decode_args (suc f) be (encode_arg be s ++ rest) out
      ≡ decode_args f be rest (append_arg out s)
unfolding decode_args
decode_args-string f true s rest out h = rw (sized_be (length s + 1) h.fits) (
    rw (text_fits s rest, text_taken s rest, text_dropped s rest)
      (rw (trim_zero-append s [] h.no_nul) (ground arith)))
decode_args-string f false s rest out h = rw (sized_le (length s + 1) h.fits) (
    rw (text_fits s rest, text_taken s rest, text_dropped s rest)
      (rw (trim_zero-append s [] h.no_nul) (ground arith)))

-- What the walk makes of the arguments, in the order of the accumulator.
abbrev append_args : List ℕ → List (List ℕ) → List ℕ
append_args out [] = out
append_args out (s ∷ ss) = append_args (append_arg out s) ss

encode_arg-long :
    (be : Bool) (s rest : List ℕ) → suc (length rest) ≤ length (encode_arg be s ++ rest)
encode_arg-long true s rest = omega (arith, length-append (closed s) rest)
encode_arg-long false s rest = omega (arith, length-append (closed s) rest)

decode_args-encode_args :
    (ss : List (List ℕ)) (f : ℕ) (be : Bool) (out : List ℕ)
    → All IsText ss
    → length (encode_args be ss) ≤ f
    → decode_args f be (encode_args be ss) out ≡ append_args out ss
decode_args-encode_args [] zero be out h k = unfold decode_args in refl
decode_args-encode_args [] (suc f) true out h k = unfold decode_args in refl
decode_args-encode_args [] (suc f) false out h k = unfold decode_args in refl
decode_args-encode_args (s ∷ ss) zero be out h k =
    absurd (omega (arith, encode_arg-long be s (encode_args be ss)))
decode_args-encode_args (s ∷ ss) (suc f) be out h k =
    decode_args-string f be s (encode_args be ss) out h.0
    ∙ decode_args-encode_args ss f be (append_arg out s) h.1
        (omega (arith, encode_arg-long be s (encode_args be ss)))

append_arg-ne_nil : (out s : List ℕ) → out ≢ [] → append_arg out s ≡ out ++ (b' ' ∷ s)
unfolding append_arg
append_arg-ne_nil [] s h = absurd (h refl)
append_arg-ne_nil (c ∷ out) s h = refl

append-ne_nil : (a : List ℕ) (c : ℕ) (b : List ℕ) → a ++ (c ∷ b) ≢ []
append-ne_nil [] c b h = cc
append-ne_nil (x ∷ a) c b h = cc

-- Behind an output that is not empty each argument gets its space.
append_args-join :
    (ss : List (List ℕ)) (out s : List ℕ)
    → out ≢ []
    → append_args (append_arg out s) ss ≡ out ++ (b' ' ∷ join_args (s ∷ ss))
append_args-join [] out s h = append_arg-ne_nil out s h
append_args-join (t ∷ ss) out s h = rw (append_arg-ne_nil out s h) (
    append_args-join ss (out ++ (b' ' ∷ s)) t (append-ne_nil out b' ' s)
    ∙ append_assoc out (b' ' ∷ s) (b' ' ∷ join_args (t ∷ ss)))

append_args-nil : (ss : List (List ℕ)) → All IsText ss → append_args [] ss ≡ join_args ss
unfolding append_arg
append_args-nil [] h = refl
append_args-nil (s ∷ []) h = refl
append_args-nil (s ∷ t ∷ ss) h = append_args-join ss s t h.0.ne_nil

-- The decoder gives the texts of the arguments back, joined by spaces, in either byte order.
pub decode_verbose_string_args-encode_args :
    (be : Bool) (ss : List (List ℕ))
    → All IsText ss
    → decode_verbose_string_args (encode_args be ss) be ≡ join_args ss
unfolding decode_verbose_string_args
decode_verbose_string_args-encode_args be ss h =
    decode_args-encode_args ss (length (encode_args be ss)) be [] h (omega arith)
    ∙ append_args-nil ss h
