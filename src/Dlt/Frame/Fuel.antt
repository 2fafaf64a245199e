-- ===== src/Dlt/Frame/Fuel.antt =====
-- The fuel of the loop over the arguments (internal/parser/dltbin.go: `decodeVerboseStringArgs`).
use eebus_tracer.Prelude.{
  ℕ, zero, suc, ◌≤◌, ◌≡◌, refl, Bool, List, [], ◌∷◌, length, take, drop, length-drop, if◌then◌else◌,
  arith,
}
use eebus_tracer.Dlt.Bytes.{u16_be, u16_le}
use eebus_tracer.Dlt.Frame.{decode_args, decode_verbose_string_args, append_arg, trim_zero}

-- What is left behind one argument is shorter.
rest_le :
    (fuel sl : ℕ) (p : List ℕ) → length p ≤ suc fuel → length (drop sl (drop 2 (drop 4 p))) ≤ fuel
rest_le fuel sl p h =
    ground (arith, h, length-drop sl (drop 2 (drop 4 p)), length-drop 2 (drop 4 p), length-drop 4 p)

decode_args-fuel :
    (fuel more : ℕ) (be : Bool) (p out : List ℕ)
    → length p ≤ fuel
    → length p ≤ more
    → decode_args fuel be p out ≡ decode_args more be p out
unfolding decode_args
decode_args-fuel zero zero be p out h k = refl
decode_args-fuel zero (suc more) be [] out h k = refl
decode_args-fuel (suc fuel) zero be [] out h k = refl
decode_args-fuel zero (suc more) be (x ∷ p) out h k = absurd (ground (arith, h))
decode_args-fuel (suc fuel) zero be (x ∷ p) out h k = absurd (ground (arith, k))
decode_args-fuel (suc fuel) (suc more) be p out h k =
    let body = drop 4 p in
    let sl = if be then u16_be body else u16_le body in
    let text = drop 2 body in
    rw
      (decode_args-fuel fuel more be (drop sl text) (append_arg out (trim_zero (take sl text)))
        (rest_le fuel sl p h) (rest_le more sl p k))
      refl

-- Any fuel from the number of the payload's bytes on gives the same texts in either byte order: the
-- loop never stops for want of it.
pub decode_verbose_string_args-fuel :
    (more : ℕ) (be : Bool) (p : List ℕ)
    → length p ≤ more
    → decode_verbose_string_args p be ≡ decode_args more be p []
unfolding decode_verbose_string_args
decode_verbose_string_args-fuel more be p h =
    decode_args-fuel (length p) more be p [] (omega arith) h
