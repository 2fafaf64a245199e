-- ===== src/Prelude/Tests.antt =====
-- Boolean tests, and equality of keys as an interface (Go's `==` on comparable types).
use Prim.Native.Char.{code}
use Prim.Native.Nat.{ℕ, ◌≤◌, ◌<◌, compare, Ordering}
use Prim.Native.String.{String}
use mathlib.Core.Path.{◌≡◌, refl}
use mathlib.Core.Logic.{◌↔◌, ◌⊎◌, inl, inr}
use mathlib.Core.Bool.{Bool, true, false, not, ◌&&◌}
use mathlib.Core.List.{List, [], ◌∷◌}
use mathlib.Core.Option.{Option, none, some}
use native.Mathlib.Omega.{arith}
use text.Mathlib.Text.{◌==◌ as str_eq}
use text.Mathlib.TextEquality.{eq_iff}

abbrev pub ltb : ℕ → ℕ → Bool
ltb a b = elim (compare a b) [ Ordering.lt ↦ true | _ ↦ false ]

abbrev pub leb : ℕ → ℕ → Bool
leb a b = elim (compare a b) [ Ordering.gt ↦ false | _ ↦ true ]

abbrev pub nat_equals : ℕ → ℕ → Bool
nat_equals a b = elim (compare a b) [ Ordering.eq ↦ true | _ ↦ false ]

infix 1 if◌then◌else◌
abbrev pub if◌then◌else◌ {ℓ} : {A : Type ℓ} → Bool → A → A → A
if true then x else y = x
if false then x else y = y

pub nat_equals_iff : (a b : ℕ) → (nat_equals a b ≡ true) ↔ (a ≡ b)
nat_equals_iff a b = ground arith

pub ltb→lt : (a b : ℕ) → ltb a b ≡ true → a < b
ltb→lt a b h = ground arith

pub leb→le : (a b : ℕ) → leb a b ≡ true → a ≤ b
leb→le a b h = ground arith

pub Bool-cases : (b : Bool) → (b ≡ true) ⊎ (b ≡ false)
Bool-cases true = inl refl
Bool-cases false = inr refl

pub Option-cases {ℓ} : {A : Type ℓ} (o : Option A) → (o ≡ none) ⊎ ((a : A) × (o ≡ some a))
Option-cases none = inl refl
Option-cases (some a) = inr (a, refl)

abbrev pub is_some {ℓ} : {A : Type ℓ} → Option A → Bool
is_some none = false
is_some (some a) = true

pub record Comparable {ℓ} (A : Type ℓ) : Type ℓ where
  pub equals : A → A → Bool
  pub equals_iff : (a b : A) → (equals a b ≡ true) ↔ (a ≡ b)

infix 50 ◌==◌
abbrev pub ◌==◌ {ℓ} : {A : Type ℓ} ⦃e : Comparable A⦄ → A → A → Bool
◌==◌ ⦃e⦄ = e.equals

instance abbrev pub nat_eq : Comparable ℕ
nat_eq = record { equals = nat_equals; equals_iff = nat_equals_iff }

instance abbrev pub string_eq : Comparable String
string_eq = record { equals = str_eq; equals_iff = eq_iff }

pub pair_equals_iff {ℓ κ} :
    {A : Type ℓ} {B : Type κ} (d : Comparable A) (e : Comparable B) (p q : A × B)
    → ((d.equals p.0 q.0 && e.equals p.1 q.1) ≡ true) ↔ (p ≡ q)
pair_equals_iff d e p q = ground (arith, d.equals_iff p.0 q.0, e.equals_iff p.1 q.1)

-- A struct of two comparable fields.
instance abbrev pub pair_eq {ℓ κ} :
    {A : Type ℓ} {B : Type κ} ⦃d : Comparable A⦄ ⦃e : Comparable B⦄ → Comparable (A × B)
pair_eq ⦃d⦄ ⦃e⦄ = record {
  equals = λ p q. d.equals p.0 q.0 && e.equals p.1 q.1;
  equals_iff = pair_equals_iff d e;
}

-- The bytes of an ASCII text.
abbrev pub codes : String → List ℕ
codes String.[] = []
codes (String.◌∷◌ c s) = code c ∷ codes s

-- An operation that succeeds, with a result that satisfies `P`.
abbrev pub Succeeds {ℓ} : {A : Type ℓ} → (A → Type 0) → Option A → Type 0
Succeeds P none = ⊥
Succeeds P (some a) = P a

pub Succeeds-elim {ℓ} :
    {A : Type ℓ} {B : Type ℓ} (P : A → Type 0) (Q : B → Type 0) (o : Option A) (f : A → Option B)
    → Succeeds P o
    → ((a : A) → P a → Succeeds Q (f a))
    → Succeeds Q (elim o [ none ↦ none | some a ↦ f a ])
Succeeds-elim P Q none f h k = h
Succeeds-elim P Q (some a) f h k = k a h

pub Succeeds-map {ℓ} :
    {A : Type ℓ} (P Q : A → Type 0) (o : Option A)
    → Succeeds P o
    → ((a : A) → P a → Q a)
    → Succeeds Q o
Succeeds-map P Q none h k = h
Succeeds-map P Q (some a) h k = k a h

pub Succeeds-and {ℓ} :
    {A : Type ℓ} (P Q : A → Type 0) (o : Option A)
    → Succeeds P o
    → ((a : A) → o ≡ some a → Q a)
    → Succeeds (λ a. P a × Q a) o
Succeeds-and P Q none h k = h
Succeeds-and P Q (some a) h k = (h, k a refl)

-- To split on the test of an `if` that a property stands over.
pub if_elim {ℓ} :
    {A : Type ℓ} (P : A → Type 0) (b : Bool) (x y : A)
    → (b ≡ true → P x)
    → (b ≡ false → P y)
    → P (if b then x else y)
if_elim P true x y h k = h refl
if_elim P false x y h k = k refl

-- The same under a negation.
pub unless_elim {ℓ} :
    {A : Type ℓ} (P : A → Type 0) (b : Bool) (x y : A)
    → (b ≡ false → P x)
    → (b ≡ true → P y)
    → P (if not b then x else y)
unless_elim P true x y h k = k refl
unless_elim P false x y h k = h refl

-- To split on the value that a match stands over.
pub option_elim {ℓ κ} :
    {A : Type ℓ} {B : Type κ} (P : B → Type 0) (o : Option A) (x : B) (f : A → B)
    → (o ≡ none → P x)
    → ((a : A) → o ≡ some a → P (f a))
    → P (elim o [ none ↦ x | some a ↦ f a ])
option_elim P none x f h k = h refl
option_elim P (some a) x f h k = k a refl

pub is_some-Succeeds : {A : Type 0} (o : Option A) → is_some o ≡ true → Succeeds (λ a. o ≡ some a) o
is_some-Succeeds none h = ground arith
is_some-Succeeds (some a) h = refl

-- A property of both branches is one of the `if`.
pub if_both {ℓ} :
    {A : Type ℓ} (P : A → Type 0) (b : Bool) (x y : A) → P x → P y → P (if b then x else y)
if_both P true x y h k = h
if_both P false x y h k = k

-- To split on the value of a test that a match stands over.
pub bool_elim {ℓ} :
    {A : Type ℓ} (P : A → Type 0) (b : Bool) (x y : A)
    → (b ≡ true → P x)
    → (b ≡ false → P y)
    → P (elim b [ true ↦ x | false ↦ y ])
bool_elim P true x y h k = h refl
bool_elim P false x y h k = k refl
