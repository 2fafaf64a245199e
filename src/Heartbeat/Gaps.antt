-- ===== src/Heartbeat/Gaps.antt =====
-- What the collector of heartbeat gaps (internal/analysis/metrics.go) finds for each pair of devices.
use mathlib.Core.Path.{subst}
use eebus_tracer.Prelude.{
  ◌≡◌, refl, sym, ap, ◌∙◌, Bool, false, not, ◌&&◌, List, [], ◌∷◌, ◌++◌, Option, none, some, length,
  append_assoc, ◌==◌, string_eq, pair_eq, if◌then◌else◌, unless_elim, option_elim, is_some,
  Option-cases, inl, inr, String, ltb, contains, arith,
}
use eebus_tracer.Prelude.Maps.{keys, lookup, insert, lookup-insert, keys-insert}
use eebus_tracer.Model.{Message}
use eebus_tracer.Subscriptions.Tables.{Table, no_entries, Distinct, insert-Distinct, contains-keys}
use eebus_tracer.Heartbeat.{
  PairKey, Point, HeartbeatGap, device_pair_from_msg, points_of, add_point, add_points,
  gaps_between, gaps_of, add_gaps, collect_heartbeat_gaps_by_pair,
}

-- Whether a message is a heartbeat of the pair.
abbrev pub is_heartbeat_of : PairKey → Message → Bool
is_heartbeat_of pair msg =
    msg.function_set == "DeviceDiagnosisHeartbeatData"
    && elim (device_pair_from_msg msg) [ none ↦ false | some p ↦ p == pair ]

-- The heartbeats of one pair, in the order of the messages.
abbrev pub heartbeats_of : PairKey → List Message → List Point
heartbeats_of pair [] = []
heartbeats_of pair (msg ∷ msgs) =
    if is_heartbeat_of pair msg
    then record { ts = msg.timestamp; id = msg.id } ∷ heartbeats_of pair msgs
    else heartbeats_of pair msgs

-- The value in a map to which points are appended, none being written as a missing key.
abbrev extend : Option (List Point) → List Point → Option (List Point)
extend o [] = o
extend none (p ∷ pts) = some (p ∷ pts)
extend (some qs) (p ∷ pts) = some (qs ++ p ∷ pts)

extend_twice :
    (o : Option (List Point)) (p : Point) (pts : List Point)
    → extend (extend o (p ∷ [])) pts ≡ extend o (p ∷ pts)
extend_twice none p [] = refl
extend_twice none p (q ∷ pts) = refl
extend_twice (some qs) p [] = refl
extend_twice (some qs) p (q ∷ pts) = ap some (append_assoc qs (p ∷ []) (q ∷ pts))

lookup-add_point :
    (pair : PairKey) (msg : Message) (t : Table PairKey (List Point))
    → lookup pair (add_point msg t).entries ≡ (
        if is_heartbeat_of pair msg
        then extend (lookup pair t.entries) (record { ts = msg.timestamp; id = msg.id } ∷ [])
        else lookup pair t.entries)
unfolding add_point
lookup-add_point pair msg t = elim (Option-cases (device_pair_from_msg msg)) [
  | inl missing ↦ ground (arith, missing)
  | inr (p, found) ↦ ground (
    arith,
    found,
    (pair_eq {A = String} {B = String}).equals_iff p pair,
    lookup-insert p pair (points_of p t.entries ++ record { ts = msg.timestamp; id = msg.id } ∷ [])
        t.entries,
  )
]

lookup-add_points :
    (pair : PairKey) (msgs : List Message) (t : Table PairKey (List Point))
    → lookup pair (add_points msgs t).entries
      ≡ extend (lookup pair t.entries) (heartbeats_of pair msgs)
unfolding add_points
lookup-add_points pair [] t = refl
lookup-add_points pair (msg ∷ msgs) t = ground (
  arith,
  lookup-add_points pair msgs (add_point msg t),
  lookup-add_point pair msg t,
  extend_twice (lookup pair t.entries) (record { ts = msg.timestamp; id = msg.id })
      (heartbeats_of pair msgs),
)

lookup-add_gaps :
    (pair : PairKey) (order : List PairKey) (points : List (PairKey × List Point))
    (gaps : List (PairKey × List HeartbeatGap))
    → Distinct order
    → lookup pair (add_gaps order points gaps) ≡ (
        if contains order pair && not (ltb (length (points_of pair points)) 2)
        then some (gaps_of pair gaps ++ gaps_between (points_of pair points))
        else lookup pair gaps)
unfolding add_gaps
lookup-add_gaps pair [] points gaps d = refl
lookup-add_gaps pair (p ∷ order) points gaps d = ground (
  arith,
  d.0,
  (pair_eq {A = String} {B = String}).equals_iff p pair,
  lookup-add_gaps pair order points gaps d.1,
  lookup-add_gaps pair order points
      (insert p (gaps_of p gaps ++ gaps_between (points_of p points)) gaps) d.1,
  lookup-insert p pair (gaps_of p gaps ++ gaps_between (points_of p points)) gaps,
)

add_point-Distinct :
    (msg : Message) (t : Table PairKey (List Point))
    → (t.order ≡ keys t.entries) × Distinct (keys t.entries)
    → ((add_point msg t).order ≡ keys (add_point msg t).entries)
      × Distinct (keys (add_point msg t).entries)
unfolding add_point
add_point-Distinct msg t d =
    let P : Table PairKey (List Point) → Type 0 =
      λ u. (u.order ≡ keys u.entries) × Distinct (keys u.entries) in
    unless_elim P (msg.function_set == "DeviceDiagnosisHeartbeatData") _ _ (λ other. d)
      (λ heartbeat.
        option_elim P (device_pair_from_msg msg) _ _ (λ missing. d)
          (λ p found. (
            ap (λ o. if is_some (lookup p t.entries) then o else o ++ p ∷ []) d.0
                ∙ sym (keys-insert p _ t.entries),
            insert-Distinct p _ t.entries d.1,
          )))

add_points-Distinct :
    (msgs : List Message) (t : Table PairKey (List Point))
    → (t.order ≡ keys t.entries) × Distinct (keys t.entries)
    → ((add_points msgs t).order ≡ keys (add_points msgs t).entries)
      × Distinct (keys (add_points msgs t).entries)
unfolding add_points
add_points-Distinct [] t d = d
add_points-Distinct (msg ∷ msgs) t d =
    add_points-Distinct msgs (add_point msg t) (add_point-Distinct msg t d)

-- Per pair.
pub record GapsByPair (msgs : List Message) (order : List PairKey)
    (gaps : List (PairKey × List HeartbeatGap)) : Type 0 where
  pub order_distinct : Distinct order
  pub order_complete :
      (pair : PairKey) → contains order pair ≡ not (ltb (length (heartbeats_of pair msgs)) 1)
  pub gaps_of_pair :
      (pair : PairKey)
      → lookup pair gaps ≡ (
          if ltb (length (heartbeats_of pair msgs)) 2
          then none
          else some (gaps_between (heartbeats_of pair msgs)))

-- For all messages: the order names each pair that sent a heartbeat once and no other, and a pair has
-- the gaps between its consecutive heartbeats exactly if it sent two.
pub collect_heartbeat_gaps_by_pair-GapsByPair :
    (msgs : List Message)
    → GapsByPair msgs
        (collect_heartbeat_gaps_by_pair msgs).0
        (collect_heartbeat_gaps_by_pair msgs).1
unfolding collect_heartbeat_gaps_by_pair
collect_heartbeat_gaps_by_pair-GapsByPair msgs =
    let t = add_points msgs no_entries in
    let d = add_points-Distinct msgs no_entries (refl, tt) in
    let distinct : Distinct t.order = subst Distinct (sym d.0) d.1 in
    record {
      order_distinct = distinct;
      order_complete = λ pair.
          ground (arith, d.0, contains-keys pair t.entries, lookup-add_points pair msgs no_entries);
      gaps_of_pair = λ pair. ground (
        arith,
        d.0,
        contains-keys pair t.entries,
        lookup-add_points pair msgs no_entries,
        lookup-add_gaps pair t.order t.entries [] distinct,
      );
    }
