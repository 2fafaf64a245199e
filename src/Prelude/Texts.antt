-- ===== src/Prelude/Texts.antt =====
-- The clauses of the concatenation of texts.
use Prim.Native.Nat.{ℕ, ◌<◌}
use Prim.Native.Char.{Char, char, IsScalar}
use mathlib.Core.List.{List, [], ◌∷◌}
use native.Mathlib.Omega.{arith}
use native.Mathlib.Decide.{dec_lt}
use mathlib.Core.Logic.{dite}
use Prim.Native.String.{String, ◌++◌ as append}
use Prim.Native.String.append.{nil, cons}
use mathlib.Core.Path.{◌≡◌}

pub append_empty : (t : String) → append "" t ≡ t
append_empty t = nil t

pub append_char : (c : Char) (s t : String) → append (String.◌∷◌ c s) t ≡ String.◌∷◌ c (append s t)
append_char c s t = cons c s t

scalar : (n : ℕ) → n < 128 → IsScalar n
scalar n h = ground arith

-- The text of ASCII bytes, the others left out.
unfoldable pub text_of : List ℕ → String
unfolding scalar dec_lt
text_of [] = ""
text_of (n ∷ ns) =
    dite (dec_lt n 128) (λ h. String.◌∷◌ (char n (scalar n h)) (text_of ns)) (λ _. text_of ns)
