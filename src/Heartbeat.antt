-- ===== src/Heartbeat.antt =====
-- The heartbeats of each pair of devices and the gaps between them (internal/analysis/metrics.go). The
-- statistics over the gaps are floating-point and left out.
pub mod Gaps
use eebus_tracer.Prelude.{
  ℕ, zero, suc, ◌-◌, ◌^◌, min, String, Bool, true, false, not, ◌&&◌, ◌||◌, List, [], ◌∷◌, ◌++◌,
  Option, none, some, length, ◌==◌, string_eq, pair_eq, if◌then◌else◌, is_some, ltb, leb,
}
use eebus_tracer.Prelude.Maps.{lookup, insert}
use eebus_tracer.Prelude.Int.{ℤ, pos, negsuc}
use eebus_tracer.Model.{Message}
use eebus_tracer.Subscriptions.Tables.{Table, no_entries}

-- `pairKey`: the source and the destination of the messages.
abbrev pub PairKey : Type 0
PairKey = String × String

-- `devicePairFromMsg`
abbrev pub device_pair_from_msg : Message → Option PairKey
device_pair_from_msg msg =
    let by_address = msg.device_source == "" && msg.device_dest == "" in
    let src = if by_address then msg.source_addr else msg.device_source in
    let dst = if by_address then msg.dest_addr else msg.device_dest in
    if src == "" || dst == "" then none else some (src, dst)

-- `time.Time.Sub`, which saturates.
abbrev pub time_sub : ℕ → ℕ → ℤ
time_sub a b =
    if leb b a then pos (min (a - b) (2 ^ 63 - 1)) else negsuc (min (b - a - 1) (2 ^ 63 - 1))

-- `point` in `collectHeartbeatGapsByPair`
pub record Point : Type 0 where
  pub ts : ℕ
  pub id : ℕ

-- `heartbeatGap`
pub record HeartbeatGap : Type 0 where
  pub from_id : ℕ
  pub to_id : ℕ
  pub from : ℕ
  pub to : ℕ
  pub duration : ℤ

-- The points so far of a pair, a nil slice where it has none.
abbrev pub points_of : PairKey → List (PairKey × List Point) → List Point
points_of pair points = elim (lookup pair points) [ none ↦ [] | some pts ↦ pts ]

-- One message of the loop that collects the points.
unfoldable pub add_point : Message → Table PairKey (List Point) → Table PairKey (List Point)
unfolding insert lookup
add_point msg t =
    if not (msg.function_set == "DeviceDiagnosisHeartbeatData")
    then t
    else elim (device_pair_from_msg msg) [
      | none ↦ t
      | some pair ↦ record {
        entries =
            insert pair
              (points_of pair t.entries ++ record { ts = msg.timestamp; id = msg.id } ∷ [])
              t.entries;
        order = if is_some (lookup pair t.entries) then t.order else t.order ++ pair ∷ [];
      }
    ]

unfoldable pub add_points : List Message → Table PairKey (List Point) → Table PairKey (List Point)
unfolding add_point
add_points [] t = t
add_points (msg ∷ msgs) t = add_points msgs (add_point msg t)

-- The gaps behind the point `p`.
abbrev pub gaps_from : Point → List Point → List HeartbeatGap
gaps_from p [] = []
gaps_from p (q ∷ pts) =
    record { from_id = p.id; to_id = q.id; from = p.ts; to = q.ts; duration = time_sub q.ts p.ts }
    ∷ gaps_from q pts

-- The inner loop, which runs from the second point.
abbrev pub gaps_between : List Point → List HeartbeatGap
gaps_between [] = []
gaps_between (p ∷ pts) = gaps_from p pts

abbrev pub gaps_of : PairKey → List (PairKey × List HeartbeatGap) → List HeartbeatGap
gaps_of pair gaps = elim (lookup pair gaps) [ none ↦ [] | some gs ↦ gs ]

-- The outer loop over the pairs.
unfoldable pub add_gaps :
    List PairKey
    → List (PairKey × List Point)
    → List (PairKey × List HeartbeatGap)
    → List (PairKey × List HeartbeatGap)
unfolding insert
add_gaps [] points gaps = gaps
add_gaps (pair ∷ order) points gaps = add_gaps order points (
    if ltb (length (points_of pair points)) 2
    then gaps
    else insert pair (gaps_of pair gaps ++ gaps_between (points_of pair points)) gaps)

-- `collectHeartbeatGapsByPair`
unfoldable pub collect_heartbeat_gaps_by_pair :
    List Message → List PairKey × List (PairKey × List HeartbeatGap)
unfolding add_points add_gaps
collect_heartbeat_gaps_by_pair msgs =
    let t = add_points msgs no_entries in (t.order, add_gaps t.order t.entries [])
