-- ===== src/Dlt/Frame/Consumption.antt =====
-- How much of its input the decoder of internal/parser/dltbin.go takes, and how it ends.
use eebus_tracer.Prelude.{
  ℕ, zero, suc, ◌+◌, ◌-◌, ◌≤◌, ◌<◌, ◌≡◌, refl, false, List, [], ◌∷◌, if◌then◌else◌, length, take,
  drop, ltb, arith, Bool-cases, inl, inr, ap, ◌∙◌, sym, ◌||◌, ◌==◌, nat_eq,
}
use eebus_tracer.Dlt.Bytes.{Result, ok, err, eof, unexpected_eof, read_full, ◌>>=◌, u16_be}
use eebus_tracer.Dlt.Frame.RoundTrip.{read_full-append}
use eebus_tracer.Dlt.Frame.{
  DltBinaryMessage, decode_body, read_standard_and_payload, read_dlt_message_stream,
}

-- A chain that succeeds had a first step that succeeded.
pub bind-eq-ok {ℓ κ} :
    {A : Type ℓ} {B : Type κ} (f : A → Result B) (first : Result A) {b : B}
    → (first >>= f) ≡ ok b
    → (x : A) × (f x ≡ ok b) × (first ≡ ok x)
bind-eq-ok f (err why) p = cc
bind-eq-ok f (ok x) p = (x, p, refl)

pub read_full-eq-ok :
    (n : ℕ) (r a r' : List ℕ)
    → read_full n r ≡ ok (a, r')
    → (n ≤ length r) × (a ≡ take n r) × (r' ≡ drop n r)
unfolding read_full
read_full-eq-ok zero r a r' h = ground arith
read_full-eq-ok (suc n) [] a r' h = absurd (ground arith)
read_full-eq-ok (suc n) (x ∷ r) a r' h = ground arith

drop_four : (n : ℕ) (a b c d : ℕ) (r : List ℕ) → 4 ≤ n → drop n (a ∷ b ∷ c ∷ d ∷ r) ≡ drop (n - 4) r
drop_four (suc (suc (suc (suc n)))) a b c d r h =
    let e : suc (suc (suc (suc n))) - 4 ≡ n = omega arith in rw e
drop_four (suc (suc (suc zero))) a b c d r h = absurd (omega arith)
drop_four (suc (suc zero)) a b c d r h = absurd (omega arith)
drop_four (suc zero) a b c d r h = absurd (omega arith)
drop_four zero a b c d r h = absurd (omega arith)

-- Behind the four bytes of the standard header, with the length field's value `n`.
read_rest :
    (n htyp : ℕ) (r r' : List ℕ) (msg : DltBinaryMessage)
    → ◌>>=◌ {B = DltBinaryMessage × List ℕ}
        (read_full (n - 4) r)
        (λ p. ◌>>=◌ {B = DltBinaryMessage × List ℕ} (decode_body htyp p.0) (λ m. ok (m, p.1)))
      ≡ ok (msg, r')
    → (n - 4 ≤ length r) × (r' ≡ drop (n - 4) r)
read_rest n htyp r r' msg h =
    let ((rest, r''), f, e) = bind-eq-ok _ (read_full (n - 4) r) h in
    let (m, g, _) = bind-eq-ok _ (decode_body htyp rest) f in
    let (fits, _, left) = read_full-eq-ok (n - 4) r rest r'' e in (fits, ground arith)

-- A frame that is read takes from the stream exactly as many bytes as its length field says: four or
-- more, and no more than there are. So a loop over a stream makes progress and stays in step.
pub read_standard_and_payload-eq-ok :
    (r r' : List ℕ) (msg : DltBinaryMessage)
    → read_standard_and_payload r ≡ ok (msg, r')
    → let n = u16_be (drop 2 r) in (4 ≤ n) × (n ≤ length r) × (r' ≡ drop n r)
unfolding read_standard_and_payload
read_standard_and_payload-eq-ok [] r' msg h = absurd (ground arith)
read_standard_and_payload-eq-ok (a ∷ []) r' msg h = absurd (ground arith)
read_standard_and_payload-eq-ok (a ∷ b ∷ []) r' msg h = absurd (ground arith)
read_standard_and_payload-eq-ok (a ∷ b ∷ c ∷ []) r' msg h = absurd (ground arith)
read_standard_and_payload-eq-ok (a ∷ b ∷ c ∷ d ∷ r) r' msg h =
    let n = u16_be (c ∷ d ∷ []) in
    let e = read_full-append (a ∷ b ∷ c ∷ d ∷ []) r in
    elim (Bool-cases (ltb n 4)) [
      | inl short ↦ absurd (ground arith)
      | inr long ↦
          let (fits, left) = read_rest n a r r' msg (rw (e, long) at h) in
          (ground arith, omega arith, left ∙ sym (drop_four n a b c d r (ground arith)))
    ]

length-take : (k : ℕ) (b : List ℕ) → k ≤ length b → length (take k b) ≡ k
length-take zero b h = refl
length-take (suc k) [] h = absurd (omega arith)
length-take (suc k) (x ∷ b) h = ap suc (length-take k b (omega arith))

read_full-short :
    (n k : ℕ) (b : List ℕ)
    → k < n
    → k ≤ length b
    → read_full n (take k b) ≡ err (if k == 0 then eof else unexpected_eof)
unfolding read_full
read_full-short zero k b h f = absurd (omega arith)
read_full-short (suc n) zero b h f = refl
read_full-short (suc n) (suc k) [] h f = absurd (omega arith)
read_full-short (suc n) (suc k) (x ∷ b) h f = ground (arith, length-take k b)

-- Where the connection breaks inside of a frame, the reader fails: with "unexpected EOF", but with
-- the plain EOF of a clean end if it breaks right behind the standard header, or before the frame.
pub read_dlt_message_stream-take :
    (a b c d : ℕ) (body : List ℕ) (k ts : ℕ)
    → u16_be (c ∷ d ∷ []) ≡ length body + 4
    → k < length body + 4
    → read_dlt_message_stream (take k (a ∷ b ∷ c ∷ d ∷ body)) ts
      ≡ err (if k == 0 || k == 4 then eof else unexpected_eof)
unfolding read_dlt_message_stream
read_dlt_message_stream-take a b c d body zero ts n h = refl
read_dlt_message_stream-take a b c d body (suc zero) ts n h = refl
read_dlt_message_stream-take a b c d body (suc (suc zero)) ts n h = refl
read_dlt_message_stream-take a b c d body (suc (suc (suc zero))) ts n h = refl
read_dlt_message_stream-take a b c d body (suc (suc (suc (suc k)))) ts n h =
    let long : ltb (length body + 4) 4 ≡ false = ground arith in
    let rest : length body + 4 - 4 ≡ length body = omega arith in
    rw (read_full-append (a ∷ b ∷ c ∷ d ∷ []) (take k body)) (
      rw (n, long, rest, read_full-short (length body) k body (omega arith) (omega arith))
        (ground arith))
