-- ===== src/Dlt/CompleteJson/Prefix.antt =====
-- What `IsCompleteJSON` says of a value that was cut off (internal/parser/dlt.go).
use eebus_tracer.Prelude.{
  ℕ, suc, ◌≡◌, refl, true, false, List, [], ◌∷◌, ◌++◌, some, arith, nat_eq, Option-cases, ◌⊎◌, inl,
  inr,
}
use eebus_tracer.Dlt.CompleteJson.{Scan, scan_start, scan_byte, scan, is_complete_json}

abbrev deeper : Scan → Scan
deeper s = record s { depth = suc s.depth }

scan_byte-deeper :
    (s : Scan) (c : ℕ) {t : Scan}
    → scan_byte s c ≡ some t
    → scan_byte (deeper s) c ≡ some (deeper t)
unfolding scan_byte
scan_byte-deeper s c h = ground arith

scan-deeper : (b : List ℕ) (s t : Scan) → scan s b ≡ some t → scan (deeper s) b ≡ some (deeper t)
unfolding scan
scan-deeper [] s t h = ground arith
scan-deeper (c ∷ b) s t h = elim (Option-cases (scan_byte s c)) [
  | inl e ↦ absurd (ground arith)
  | inr (m, e) ↦ ground (arith, scan_byte-deeper s c e, scan-deeper b m t)
]

pub scan-append :
    (p q : List ℕ) (s : Scan) {t : Scan}
    → scan s (p ++ q) ≡ some t
    → (m : Scan) × (scan s p ≡ some m) × (scan m q ≡ some t)
unfolding scan
scan-append [] q s h = (s, refl, h)
scan-append (c ∷ p) q s {t} h = elim (Option-cases (scan_byte s c)) [
  | inl e ↦ absurd (ground arith)
  | inr (u, e) ↦
      let rest : scan u (p ++ q) ≡ some t = ground arith in
      let (m, first, later) = scan-append p q u rest in (m, ground arith, later)
]

-- The same in the other direction.
pub scan-append_some : (p q : List ℕ) (s m : Scan) → scan s p ≡ some m → scan s (p ++ q) ≡ scan m q
unfolding scan
scan-append_some [] q s m h = ground arith
scan-append_some (c ∷ p) q s m h = elim (Option-cases (scan_byte s c)) [
  | inl e ↦ absurd (ground arith)
  | inr (u, e) ↦ ground (arith, scan-append_some p q u m)
]

abbrev pub IsOpen : ℕ → Type 0
IsOpen c = (c ≡ b'{') ⊎ (c ≡ b'[')

abbrev pub IsClose : ℕ → Type 0
IsClose c = (c ≡ b'}') ⊎ (c ≡ b']')

-- An escape is pending only inside of a string.
abbrev pub IsValid : Scan → Type 0
IsValid s = s.escape ≡ true → s.in_string ≡ true

pub scan_byte-IsValid :
    (s : Scan) (c : ℕ) (t : Scan) → IsValid s → scan_byte s c ≡ some t → IsValid t
unfolding scan_byte
scan_byte-IsValid s c t v h = ground arith

scan-IsValid : (b : List ℕ) (s t : Scan) → IsValid s → scan s b ≡ some t → IsValid t
unfolding scan
scan-IsValid [] s t v h = ground arith
scan-IsValid (c ∷ b) s t v h = elim (Option-cases (scan_byte s c)) [
  | inl e ↦ absurd (ground arith)
  | inr (m, e) ↦ scan-IsValid b m t (scan_byte-IsValid s c m v e) (ground arith)
]

is_complete_scan : (b : List ℕ) → is_complete_json b ≡ true → scan scan_start b ≡ some scan_start
unfolding is_complete_json
is_complete_scan b h = elim (Option-cases (scan scan_start b)) [
  | inl e ↦ absurd (ground arith)
  | inr (m, e) ↦ ground (arith, scan-IsValid b scan_start m (λ x. cc) e)
]

scan_open : (o : ℕ) (b : List ℕ) → IsOpen o → scan scan_start (o ∷ b) ≡ scan (deeper scan_start) b
unfolding scan scan_byte
scan_open o b h = ground arith

scan_close : (c : ℕ) → IsClose c → scan (deeper scan_start) (c ∷ []) ≡ some scan_start
unfolding scan scan_byte
scan_close c h = ground arith

-- A bracket, what is complete, and a bracket make a complete value, and every shorter start of
-- the value that is not empty is refused: this is how a truncated payload is recognised.
pub is_complete_json-prefix :
    (o c : ℕ) (p q : List ℕ)
    → IsOpen o
    → IsClose c
    → is_complete_json (p ++ q) ≡ true
    → (is_complete_json (o ∷ ((p ++ q) ++ c ∷ [])) ≡ true) × (is_complete_json (o ∷ p) ≡ false)
unfolding is_complete_json
is_complete_json-prefix o c p q ho hc h =
    let inner = is_complete_scan (p ++ q) h in
    let (m, start, _) = scan-append p q scan_start inner in
    (
      ground (
        arith,
        scan_open o ((p ++ q) ++ c ∷ []) ho,
        scan_close c hc,
        scan-append_some (p ++ q) (c ∷ []) (deeper scan_start) (deeper scan_start)
            (scan-deeper (p ++ q) scan_start scan_start inner),
      ),
      ground (arith, scan_open o p ho, scan-deeper p scan_start m start),
    )
