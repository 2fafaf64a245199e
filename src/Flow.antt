-- ===== src/Flow.antt =====
-- The message flow (internal/analysis/flow.go). A latency is kept in nanoseconds; the source gives it in
-- milliseconds as a floating-point number.
pub mod Pairs
pub mod Members
use Prim.Native.String.{◌++◌ as append}
use eebus_tracer.Prelude.{
  ℕ, zero, suc, ◌+◌, String, Bool, true, false, ◌&&◌, ◌||◌, List, [], ◌∷◌, ◌++◌, Option, none, some,
  get_elem?, ◌==◌, string_eq, if◌then◌else◌,
}
use eebus_tracer.Prelude.Maps.{lookup, insert}
use eebus_tracer.Prelude.Int.{ℤ}
use eebus_tracer.Model.{MessageSummary}
use eebus_tracer.DeviceNames.{short_device_name}
use eebus_tracer.Heartbeat.{time_sub}
use eebus_tracer.Lpc.{Devices, has}

-- `FlowParticipant`
pub record FlowParticipant : Type 0 where
  pub device_addr : String
  pub short_name : String

-- `CorrelationPair`
pub record CorrelationPair : Type 0 where
  pub request_id : ℕ
  pub response_id : ℕ
  pub request_index : ℕ
  pub response_index : ℕ
  pub latency : ℤ
  pub relationship : String

-- `seen` and `participants`.
pub record Participants : Type 0 where
  pub seen : Devices
  pub participants : List FlowParticipant

-- `addIfNew`
abbrev pub add_if_new : String → Participants → Participants
add_if_new addr p = if addr == "" || has addr p.seen then p else record {
  seen = insert addr true p.seen;
  participants =
      p.participants ++ record { device_addr = addr; short_name = short_device_name addr } ∷ [];
}

-- The addresses that a summary stands for.
abbrev pub addresses_of : MessageSummary → String × String
addresses_of s =
    if s.device_source == "" && s.device_dest == ""
    then (s.source_addr, s.dest_addr)
    else (s.device_source, s.device_dest)

unfoldable pub participants_loop : List MessageSummary → Participants → Participants
participants_loop [] p = p
participants_loop (s ∷ ss) p =
    participants_loop ss (add_if_new (addresses_of s).1 (add_if_new (addresses_of s).0 p))

-- `ExtractFlowParticipants`
unfoldable pub extract_flow_participants : List MessageSummary → List FlowParticipant
unfolding participants_loop
extract_flow_participants summaries =
    (participants_loop summaries (record { seen = []; participants = [] })).participants

-- The loop that fills `counterIndex`; `i` is the index of the first summary.
unfoldable pub index_counters : ℕ → List MessageSummary → List (String × ℕ) → List (String × ℕ)
index_counters i [] index = index
index_counters i (s ∷ ss) index =
    index_counters (suc i) ss (if s.msg_counter == "" then index else insert s.msg_counter i index)

-- `classifyRelationship`
abbrev pub classify_relationship : String → String → String
classify_relationship req resp = append req (append "-" resp)

-- The pair of a request and its response, with their indices.
abbrev pub make_pair : ℕ → ℕ → MessageSummary → MessageSummary → CorrelationPair
make_pair req_idx i req s = record {
  request_id = req.id;
  response_id = s.id;
  request_index = req_idx;
  response_index = i;
  latency = time_sub s.timestamp req.timestamp;
  relationship = classify_relationship req.cmd_classifier s.cmd_classifier;
}

-- `summaries[reqIdx]` and the pair made of it; the index holds no number out of range.
abbrev pub pair_at : List MessageSummary → ℕ → ℕ → MessageSummary → Option CorrelationPair
pair_at summaries req_idx i s = elim (get_elem? summaries req_idx) [
  | none ↦ none
  | some req ↦ some (make_pair req_idx i req s)
]

-- The body of the loop over the responses; `none` where it goes on without a pair.
unfoldable pub pair_for :
    List MessageSummary → List (String × ℕ) → ℕ → MessageSummary → Option CorrelationPair
pair_for summaries index i s =
    if s.msg_counter_ref == "" then none else elim (lookup s.msg_counter_ref index) [
      | none ↦ none
      | some req_idx ↦ pair_at summaries req_idx i s
    ]

unfoldable pub pairs_from :
    List MessageSummary → List (String × ℕ) → ℕ → List MessageSummary → List CorrelationPair
unfolding pair_for
pairs_from summaries index i [] = []
pairs_from summaries index i (s ∷ ss) =
    let rest = pairs_from summaries index (suc i) ss in
    elim (pair_for summaries index i s) [ none ↦ rest | some p ↦ p ∷ rest ]

-- `BuildCorrelationPairs`
unfoldable pub build_correlation_pairs : List MessageSummary → List CorrelationPair
unfolding index_counters pairs_from
build_correlation_pairs summaries = pairs_from summaries (index_counters 0 summaries []) 0 summaries
