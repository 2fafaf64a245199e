-- ===== src/Dlt/Bytes.antt =====
-- What internal/parser/dltbin.go uses of Go's `io` and `encoding/binary`, over lists of bytes.
use eebus_tracer.Prelude.{
  ℕ, zero, suc, ◌+◌, ◌*◌, List, [], ◌∷◌, nat_eq, if◌then◌else◌, length, take, drop, ltb,
}

pub data ReadError : Type 0 where
  eof unexpected_eof bad_magic bogus_length : ReadError

pub data Result {ℓ} (A : Type ℓ) : Type ℓ where
  ok : A → Result A
  err : ReadError → Result A

infixl 5 ◌>>=◌
abbrev pub ◌>>=◌ {ℓ κ} : {A : Type ℓ} {B : Type κ} → Result A → (A → Result B) → Result B
m >>= f = elim m [ ok x ↦ f x | err e ↦ err e ]

-- `io.ReadFull` into a buffer of `n` bytes: the bytes and what is left. The reader stands for all
-- bytes that will ever come; it reports EOF only if none was read.
unfoldable pub read_full : ℕ → List ℕ → Result (List ℕ × List ℕ)
read_full zero b = ok ([], b)
read_full (suc n) [] = err eof
read_full (suc n) (x ∷ b) =
    if ltb (length b) n then err unexpected_eof else ok (take (suc n) (x ∷ b), drop (suc n) (x ∷ b))

-- A byte of a slice; the source checks the length first.
abbrev pub byte_at : ℕ → List ℕ → ℕ
byte_at i [] = 0
byte_at zero (x ∷ b) = x
byte_at (suc i) (x ∷ b) = byte_at i b

abbrev pub u16_be : List ℕ → ℕ
u16_be b = byte_at 0 b * 256 + byte_at 1 b

abbrev pub u16_le : List ℕ → ℕ
u16_le b = byte_at 0 b + byte_at 1 b * 256

abbrev pub u32_be : List ℕ → ℕ
u32_be b = byte_at 0 b * 16777216 + byte_at 1 b * 65536 + byte_at 2 b * 256 + byte_at 3 b

abbrev pub u32_le : List ℕ → ℕ
u32_le b = byte_at 0 b + byte_at 1 b * 256 + byte_at 2 b * 65536 + byte_at 3 b * 16777216
