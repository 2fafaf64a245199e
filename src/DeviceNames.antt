-- ===== src/DeviceNames.antt =====
-- The short name of a device (internal/analysis/depgraph.go: `ShortDeviceName`) and the comparisons of
-- names that ignore case. Texts are taken by characters; the separators and the letters whose case is
-- ignored are ASCII.
use Prim.Native.Char.{Char, char, code}
use Prim.Native.String.{◌++◌ as append}
use eebus_tracer.Prelude.{
  append_empty, append_char, ℕ, ◌+◌, ◌≡◌, refl, ap, ◌∙◌, String, Bool, true, false, ◌&&◌, List, [],
  ◌∷◌, Option, none, some, map, codes, leb, ◌==◌, nat_eq, list_eq, if◌then◌else◌, arith,
}

-- `strings.LastIndex` of one character, as the texts before it and from it on.
abbrev pub cut_last : ℕ → String → Option (String × String)
cut_last c String.[] = none
cut_last c (String.◌∷◌ x s) = elim (cut_last c s) [
  | some (before, from) ↦ some (String.◌∷◌ x before, from)
  | none ↦ if code x == c then some ("", String.◌∷◌ x s) else none
]

-- `strings.Index` of one character.
abbrev pub cut_first : ℕ → String → Option (String × String)
cut_first c String.[] = none
cut_first c (String.◌∷◌ x s) =
    let later : Option (String × String) = elim (cut_first c s) [
      | none ↦ none
      | some (before, from) ↦ some (String.◌∷◌ x before, from)
    ] in
    if code x == c then some ("", String.◌∷◌ x s) else later

abbrev tail : String → String
tail String.[] = ""
tail (String.◌∷◌ x s) = s

abbrev begins_with_digit : String → Bool
begins_with_digit String.[] = false
begins_with_digit (String.◌∷◌ x s) = leb 48 (code x) && leb (code x) 57

-- The branches behind the search for an underscore.
unfoldable pub strip_port : String → String
strip_port addr = elim (cut_last 93 addr) [
  | some (before, rest) ↦ elim (cut_first 58 rest) [
    | none ↦ addr
    | some (host_end, port) ↦ append before host_end
  ]
  | none ↦ elim (cut_last 58 addr) [
    | none ↦ addr
    | some (host, from) ↦ if begins_with_digit (tail from) then host else addr
  ]
]

-- `ShortDeviceName`
unfoldable pub short_device_name : String → String
unfolding strip_port
short_device_name addr = elim (cut_last 95 addr) [
  | some (before, from) ↦ tail from
  | none ↦ strip_port addr
]

-- `strings.ToLower`
abbrev pub to_lower : String → List ℕ
to_lower s = map (λ c. if leb 65 c && leb c 90 then c + 32 else c) (codes s)

-- The loop of `matchesEntityType`.
abbrev any_fold : String → List String → Bool
any_fold entity_type [] = false
any_fold entity_type (a ∷ allowed) =
    if to_lower a == to_lower entity_type then true else any_fold entity_type allowed

-- `matchesEntityType`
unfoldable pub matches_entity_type : String → List String → Bool
matches_entity_type entity_type [] = true
matches_entity_type entity_type (a ∷ allowed) = any_fold entity_type (a ∷ allowed)

cut_last-append :
    (c : ℕ) (before after : String) (x : Char)
    → cut_last c after ≡ none
    → code x ≡ c
    → cut_last c (append before (String.◌∷◌ x after)) ≡ some (before, String.◌∷◌ x after)
cut_last-append c String.[] after x h k =
    ap (cut_last c) (append_empty (String.◌∷◌ x after)) ∙ ground (arith, h, k)
cut_last-append c (String.◌∷◌ y before) after x h k =
    ap (cut_last c) (append_char y before (String.◌∷◌ x after))
    ∙ ground (arith, cut_last-append c before after x h k)

-- The short name of a text with an underscore is what follows the last one.
pub short_device_name-append :
    (before after : String)
    → cut_last 95 after ≡ none
    → short_device_name (append before (append "_" after)) ≡ after
unfolding short_device_name
short_device_name-append before after h =
    ap (λ t. short_device_name (append before t))
      (append_char (char 95 tt) "" after ∙ ap (String.◌∷◌ (char 95 tt)) (append_empty after))
    ∙ ground (arith, cut_last-append 95 before after (char 95 tt) h refl)
