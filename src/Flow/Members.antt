-- ===== src/Flow/Members.antt =====
-- The participants that `ExtractFlowParticipants` (internal/analysis/flow.go) finds.
use mathlib.Core.Path.{subst}
use eebus_tracer.Prelude.{
  ◌≡◌, refl, sym, ap, ◌∙◌, inl, inr, String, Bool, true, false, not, ◌&&◌, ◌||◌, List, [], ◌∷◌,
  ◌++◌, map, any, is_some, if_elim, Option-cases, contains, string_eq, ◌==◌, if◌then◌else◌, arith,
}
use eebus_tracer.Prelude.Maps.{
  keys, lookup, lookup-insert, keys-insert, Entries, Entries-insert, Entries-lookup,
}
use eebus_tracer.Model.{MessageSummary}
use eebus_tracer.Lpc.{Devices, has}
use eebus_tracer.Subscriptions.Tables.{Distinct, insert-Distinct, contains-keys}
use eebus_tracer.Flow.{
  FlowParticipant, Participants, add_if_new, addresses_of, participants_loop,
  extract_flow_participants,
}

abbrev pub addr_of : FlowParticipant → String
addr_of p = p.device_addr

-- The participants are the addresses seen, each once.
record IsListed (p : Participants) : Type 0 where
  pub in_order : map addr_of p.participants ≡ keys p.seen
  pub distinct : Distinct (keys p.seen)
  pub marked : Entries (λ k b. b ≡ true) p.seen

map-snoc :
    (ps : List FlowParticipant) (p : FlowParticipant)
    → map addr_of (ps ++ p ∷ []) ≡ map addr_of ps ++ addr_of p ∷ []
map-snoc [] p = refl
map-snoc (q ∷ ps) p = ap (λ as'. addr_of q ∷ as') (map-snoc ps p)

has-lookup :
    (k : String) (m : Devices) → Entries (λ j b. b ≡ true) m → has k m ≡ is_some (lookup k m)
has-lookup k m h = elim (Option-cases (lookup k m)) [
  | inl missing ↦ ground (arith, missing)
  | inr (b, at) ↦ ground (arith, at, Entries-lookup (λ j c. c ≡ true) k b m h at)
]

add_if_new-IsListed : (addr : String) (p : Participants) → IsListed p → IsListed (add_if_new addr p)
add_if_new-IsListed addr p h =
    if_elim IsListed (addr == "" || has addr p.seen) _ _ (λ known. h)
      (λ fresh.
        let unseen : is_some (lookup addr p.seen) ≡ false =
          sym (has-lookup addr p.seen h.marked) ∙ ground (arith, fresh) in
        record {
          in_order =
              map-snoc p.participants _
              ∙ ap (λ ks. ks ++ addr ∷ []) h.in_order
              ∙ sym (
                  keys-insert addr true p.seen
                  ∙ ap (λ b. if b then keys p.seen else keys p.seen ++ addr ∷ []) unseen);
          distinct = insert-Distinct addr true p.seen h.distinct;
          marked = Entries-insert (λ k b. b ≡ true) addr true p.seen refl h.marked;
        })

participants_loop-IsListed :
    (ss : List MessageSummary) (p : Participants) → IsListed p → IsListed (participants_loop ss p)
unfolding participants_loop
participants_loop-IsListed [] p h = h
participants_loop-IsListed (s ∷ ss) p h =
    participants_loop-IsListed ss _
      (add_if_new-IsListed _ _ (add_if_new-IsListed (addresses_of s).0 p h))

-- The summary names the address, which is not empty.
abbrev pub names : String → MessageSummary → Bool
names a s = not (a == "") && ((addresses_of s).0 == a || (addresses_of s).1 == a)

has-add_if_new :
    (a addr : String) (p : Participants)
    → has a (add_if_new addr p).seen ≡ has a p.seen || (not (a == "") && addr == a)
has-add_if_new a addr p = ground (
  arith,
  lookup-insert addr a true p.seen,
  string_eq.equals_iff addr a,
  string_eq.equals_iff addr "",
  string_eq.equals_iff a "",
)

has-participants_loop :
    (a : String) (ss : List MessageSummary) (p : Participants)
    → has a (participants_loop ss p).seen ≡ has a p.seen || any (names a) ss
unfolding participants_loop
has-participants_loop a [] p = ground arith
has-participants_loop a (s ∷ ss) p = ground (
  arith,
  has-participants_loop a ss (add_if_new (addresses_of s).1 (add_if_new (addresses_of s).0 p)),
  has-add_if_new a (addresses_of s).1 (add_if_new (addresses_of s).0 p),
  has-add_if_new a (addresses_of s).0 p,
)

-- No participant occurs twice, and an address is among them if and only if it is not empty and some
-- summary has it as its source or destination (the network address where it has no device address).
pub extract_flow_participants_lem :
    (ss : List MessageSummary)
    → Distinct (map addr_of (extract_flow_participants ss))
      × ((a : String) → contains (map addr_of (extract_flow_participants ss)) a ≡ any (names a) ss)
unfolding extract_flow_participants lookup
extract_flow_participants_lem ss =
    let start : Participants = record { seen = []; participants = [] } in
    let p = participants_loop ss start in
    let h : IsListed p =
      participants_loop-IsListed ss start
        (record { in_order = refl; distinct = tt; marked = tt }) in
    (
      subst Distinct (sym h.in_order) h.distinct,
      λ a.
          ap (λ ks. contains ks a) h.in_order
          ∙ contains-keys a p.seen
          ∙ sym (has-lookup a p.seen h.marked)
          ∙ has-participants_loop a ss start,
    )
