-- ===== src/Dlt/CompleteJson/Grammar.antt =====
-- A grammar of the texts that `IsCompleteJSON` (internal/parser/dlt.go) accepts, with no counter.
use eebus_tracer.Prelude.{
  ℕ, zero, suc, ◌≡◌, ◌≢◌, refl, ◌↔◌, Bool, true, false, List, [], ◌∷◌, ◌++◌, arith, nat_eq,
  append_assoc, ap, ◌∙◌, sym, append-nil,
}
use eebus_tracer.Dlt.CompleteJson.{Scan, scan_start, scan_byte, scan, is_complete, is_complete_json}
use eebus_tracer.Dlt.CompleteJson.Prefix.{IsOpen, IsClose, IsValid}

-- What follows an opening quote, up to the closing one. A backslash takes the next byte with it.
pub data StringRest : List ℕ → Type 0 where
  quote : StringRest (b'"' ∷ [])
  char : {b : List ℕ} (c : ℕ) → c ≢ b'"' → c ≢ b'\\' → StringRest b → StringRest (c ∷ b)
  escaped : {b : List ℕ} (c : ℕ) → StringRest b → StringRest (b'\\' ∷ c ∷ b)

abbrev pub IsPlain : ℕ → Type 0
IsPlain c = (c ≢ b'"') × (c ≢ b'{') × (c ≢ b'[') × (c ≢ b'}') × (c ≢ b']')

-- Balanced text: brackets of the two kinds are not told apart, as in the source.
pub data Balanced : List ℕ → Type 0 where
  empty : Balanced []
  plain : {b : List ℕ} (c : ℕ) → IsPlain c → Balanced b → Balanced (c ∷ b)
  string : {s b : List ℕ} → StringRest s → Balanced b → Balanced (b'"' ∷ (s ++ b))
  nested :
      {a b : List ℕ} (o c : ℕ)
      → IsOpen o
      → IsClose c
      → Balanced a
      → Balanced b
      → Balanced (o ∷ (a ++ (c ∷ b)))

-- `d` brackets are still open in front of `b`.
data Layers : ℕ → List ℕ → Type 0 where
  base : {b : List ℕ} → Balanced b → Layers zero b
  layer :
      {a b : List ℕ} (d c : ℕ) → IsClose c → Balanced a → Layers d b → Layers (suc d) (a ++ (c ∷ b))

Layers-plain : {d : ℕ} {b : List ℕ} (c : ℕ) → IsPlain c → Layers d b → Layers d (c ∷ b)
Layers-plain c h (base t) = base (plain c h t)
Layers-plain c h (layer d x k t l) = layer d x k (plain c h t) l

Layers-string : {d : ℕ} {s b : List ℕ} → StringRest s → Layers d b → Layers d (b'"' ∷ (s ++ b))
Layers-string r (base t) = base (string r t)
Layers-string {s = s} r (layer {a} {b} d x k t l) =
    rw (← append_assoc s a (x ∷ b)) (layer d x k (string r t) l)

Layers-open : {d : ℕ} {b : List ℕ} (o : ℕ) → IsOpen o → Layers (suc d) b → Layers d (o ∷ b)
Layers-open o h (layer d c k t (base u)) = base (nested o c h k t u)
Layers-open o h (layer {a} _ c k t (layer {a = a'} {b = b'} d c' k' t' l')) =
    rw (← append_assoc a (c ∷ a') (c' ∷ b')) (layer d c' k' (nested o c h k t t') l')

Layers-close : {d : ℕ} {b : List ℕ} (c : ℕ) → IsClose c → Layers d b → Layers (suc d) (c ∷ b)
Layers-close {d} c k l = layer d c k empty l

abbrev at : ℕ → Bool → Bool → Scan
at d i e = record { depth = d; in_string = i; escape = e }

data Class (c : ℕ) : Type 0 where
  is_quote : c ≡ b'"' → Class c
  is_open : IsOpen c → Class c
  is_close : IsClose c → Class c
  is_plain : IsPlain c → Class c

classify : (c : ℕ) → Class c
classify c = grind (arith, is_quote, is_open, is_close, is_plain)

-- What the scan has in front of it where it ends well.
data Rest (d : ℕ) : Bool → Bool → List ℕ → Type 0 where
  outside : {b : List ℕ} → Layers d b → Rest d false false b
  inside : {s b : List ℕ} → StringRest s → Layers d b → Rest d true false (s ++ b)
  after_escape :
      {s b : List ℕ} (c : ℕ) → StringRest s → Layers d b → Rest d true true (c ∷ (s ++ b))

module _ (d : ℕ) (b : List ℕ) where
  scan_quote : scan (at d false false) (b'"' ∷ b) ≡ scan (at d true false) b
  unfolding scan scan_byte
  scan_quote = refl

  scan_open : (c : ℕ) → IsOpen c → scan (at d false false) (c ∷ b) ≡ scan (at (suc d) false false) b
  unfolding scan scan_byte
  scan_open c h = ground arith

  scan_close :
      (c : ℕ) → IsClose c → scan (at (suc d) false false) (c ∷ b) ≡ scan (at d false false) b
  unfolding scan scan_byte
  scan_close c h = ground arith

  scan_plain : (c : ℕ) → IsPlain c → scan (at d false false) (c ∷ b) ≡ scan (at d false false) b
  unfolding scan scan_byte
  scan_plain c h = ground arith

  scan_char :
      (c : ℕ) → c ≢ b'"' → c ≢ b'\\' → scan (at d true false) (c ∷ b) ≡ scan (at d true false) b
  unfolding scan scan_byte
  scan_char c h k = ground arith

  scan_backslash : scan (at d true false) (b'\\' ∷ b) ≡ scan (at d true true) b
  unfolding scan scan_byte
  scan_backslash = refl

  scan_end_quote : scan (at d true false) (b'"' ∷ b) ≡ scan (at d false false) b
  unfolding scan scan_byte
  scan_end_quote = refl

  scan_escaped : (c : ℕ) → scan (at d true true) (c ∷ b) ≡ scan (at d true false) b
  unfolding scan scan_byte
  scan_escaped c = refl

abbrev Ends : Scan → List ℕ → Type 0
Ends s b = is_complete (scan s b) ≡ true

Ends-nil : (d : ℕ) (i e : Bool) → Ends (at d i e) [] → (d ≡ 0) × (i ≡ false)
unfolding scan is_complete
Ends-nil d i e h = ground arith

Ends-close : (c : ℕ) (b : List ℕ) → IsClose c → ¬ Ends (at 0 false false) (c ∷ b)
unfolding scan scan_byte is_complete
Ends-close c b k h = ground arith

-- A quote comes first in `inside`.
Rest-quote : {d : ℕ} {b : List ℕ} → Rest d true false b → Layers d (b'"' ∷ b)
Rest-quote (inside r l) = Layers-string r l

Rest-Layers : {d : ℕ} {b : List ℕ} → Rest d false false b → Layers d b
Rest-Layers (outside l) = l

Rest-char :
    {d : ℕ} {b : List ℕ} (c : ℕ)
    → c ≢ b'"'
    → c ≢ b'\\'
    → Rest d true false b
    → Rest d true false (c ∷ b)
Rest-char c h k (inside r l) = inside (char c h k r) l

Rest-escape : {d : ℕ} {b : List ℕ} → Rest d true true b → Rest d true false (b'\\' ∷ b)
Rest-escape (after_escape c r l) = inside (escaped c r) l

Rest-escaped : {d : ℕ} {b : List ℕ} (c : ℕ) → Rest d true false b → Rest d true true (c ∷ b)
Rest-escaped c (inside r l) = after_escape c r l

abbrev AllRest : List ℕ → Type 0
AllRest b = (d : ℕ) (i e : Bool) → IsValid (at d i e) → Ends (at d i e) b → Rest d i e b

next_outside :
    (d c : ℕ) (b : List ℕ)
    → Class c
    → AllRest b
    → Ends (at d false false) (c ∷ b)
    → Layers d (c ∷ b)
next_outside d c b (is_quote q) all h =
    rw q (Rest-quote (all d true false (λ x. refl) (rw (← scan_quote d b, ← q) h)))
next_outside d c b (is_open o) all h =
    Layers-open c o (Rest-Layers (all (suc d) false false (λ x. x) (rw (← scan_open d b c o) h)))
next_outside zero c b (is_close k) all h = absurd (Ends-close c b k h)
next_outside (suc d) c b (is_close k) all h =
    Layers-close c k (Rest-Layers (all d false false (λ x. x) (rw (← scan_close d b c k) h)))
next_outside d c b (is_plain p) all h =
    Layers-plain c p (Rest-Layers (all d false false (λ x. x) (rw (← scan_plain d b c p) h)))

data StringClass (c : ℕ) : Type 0 where
  is_end : c ≡ b'"' → StringClass c
  is_backslash : c ≡ b'\\' → StringClass c
  is_char : c ≢ b'"' → c ≢ b'\\' → StringClass c

classify_in_string : (c : ℕ) → StringClass c
classify_in_string c = grind (arith, is_end, is_backslash, is_char)

next_in_string :
    (d c : ℕ) (b : List ℕ)
    → StringClass c
    → AllRest b
    → Ends (at d true false) (c ∷ b)
    → Rest d true false (c ∷ b)
next_in_string d c b (is_end q) all h =
    rw q
      (inside quote (Rest-Layers (all d false false (λ x. x) (rw (← scan_end_quote d b, ← q) h))))
next_in_string d c b (is_backslash q) all h =
    rw q (Rest-escape (all d true true (λ x. refl) (rw (← scan_backslash d b, ← q) h)))
next_in_string d c b (is_char n m) all h =
    Rest-char c n m (all d true false (λ x. refl) (rw (← scan_char d b c n m) h))

scan-Rest : (b : List ℕ) → AllRest b
scan-Rest [] d false false v h = rw ((Ends-nil d false false h).0) (outside (base empty))
scan-Rest [] d false true v h = absurd (ground arith)
scan-Rest [] d true e v h = absurd (ground (arith, Ends-nil d true e h))
scan-Rest (c ∷ b) d false true v h = absurd (ground arith)
scan-Rest (c ∷ b) d false false v h = outside (next_outside d c b (classify c) (scan-Rest b) h)
scan-Rest (c ∷ b) d true false v h = next_in_string d c b (classify_in_string c) (scan-Rest b) h
scan-Rest (c ∷ b) d true true v h =
    Rest-escaped c (scan-Rest b d true false (λ x. refl) (rw (← scan_escaped d b c) h))

Layers-Balanced : {b : List ℕ} → Layers 0 b → Balanced b
Layers-Balanced (base t) = t

scan-StringRest :
    {s : List ℕ} (d : ℕ) (b : List ℕ)
    → StringRest s
    → scan (at d true false) (s ++ b) ≡ scan (at d false false) b
scan-StringRest d b quote = scan_end_quote d b
scan-StringRest d b (char {b = s} c n m r) = scan_char d (s ++ b) c n m ∙ scan-StringRest d b r
scan-StringRest d b (escaped {b = s} c r) =
    scan_backslash d (c ∷ (s ++ b)) ∙ scan_escaped d (s ++ b) c ∙ scan-StringRest d b r

scan-Balanced :
    {t : List ℕ} (d : ℕ) (b : List ℕ)
    → Balanced t
    → scan (at d false false) (t ++ b) ≡ scan (at d false false) b
scan-Balanced d b empty = refl
scan-Balanced d b (plain {b = t} c p u) = scan_plain d (t ++ b) c p ∙ scan-Balanced d b u
scan-Balanced d b (string {s} {b = t} r u) =
    ap (λ x. scan (at d false false) (b'"' ∷ x)) (append_assoc s t b)
    ∙ scan_quote d (s ++ (t ++ b))
    ∙ scan-StringRest d (t ++ b) r
    ∙ scan-Balanced d b u
scan-Balanced d b (nested {a} {b = t} o c h k u v) =
    ap (λ x. scan (at d false false) (o ∷ x)) (append_assoc a (c ∷ t) b)
    ∙ scan_open d (a ++ (c ∷ (t ++ b))) o h
    ∙ scan-Balanced (suc d) (c ∷ (t ++ b)) u
    ∙ scan_close d (t ++ b) c k
    ∙ scan-Balanced d b v

-- The scan accepts the texts of the grammar and no others.
pub is_complete_json-iff-Balanced : (b : List ℕ) → (is_complete_json b ≡ true) ↔ Balanced b
unfolding is_complete_json
is_complete_json-iff-Balanced b = (
  (λ h. Layers-Balanced (Rest-Layers (scan-Rest b 0 false false (λ x. x) h))),
  (λ t. ap is_complete (ap (scan scan_start) (sym (append-nil b)) ∙ scan-Balanced 0 [] t)),
)
