-- ===== src/Flow/Pairs.antt =====
-- Which pairs `BuildCorrelationPairs` and which participants `ExtractFlowParticipants`
-- (internal/analysis/flow.go) find.
use eebus_tracer.Prelude.{
  ℕ, suc, ◌+◌, ◌≡◌, ◌≢◌, refl, sym, ap, ◌∙◌, String, List, [], ◌∷◌, Option, none, some, get_elem?,
  option_elim, Bool-cases, Option-cases, inl, inr, All, ◌==◌, string_eq, if◌then◌else◌, arith,
}
use eebus_tracer.Prelude.Maps.{lookup, insert, lookup-insert}
use eebus_tracer.Model.{MessageSummary}
use eebus_tracer.Flow.{
  CorrelationPair, make_pair, pair_at, index_counters, pair_for, pairs_from,
  build_correlation_pairs,
}

-- The index of the last summary with this counter, where the first has the index `i`.
abbrev pub last_with_counter : String → ℕ → List MessageSummary → Option ℕ
last_with_counter c i [] = none
last_with_counter c i (s ∷ ss) = elim (last_with_counter c (suc i) ss) [
  | some later ↦ some later
  | none ↦ if s.msg_counter == c then some i else none
]

lookup-index_counters :
    (c : String) (i : ℕ) (ss : List MessageSummary) (index : List (String × ℕ))
    → c ≢ ""
    → lookup c (index_counters i ss index)
      ≡ elim (last_with_counter c i ss) [ some at ↦ some at | none ↦ lookup c index ]
unfolding index_counters
lookup-index_counters c i [] index h = refl
lookup-index_counters c i (s ∷ ss) index h = ground (
  arith,
  h,
  string_eq.equals_iff s.msg_counter c,
  string_eq.equals_iff s.msg_counter "",
  lookup-index_counters c (suc i) ss index h,
  lookup-index_counters c (suc i) ss (insert s.msg_counter i index) h,
  lookup-insert s.msg_counter c i index,
)

-- An index found is that of a summary with the counter.
last_with_counter-get_elem? :
    (c : String) (i r : ℕ) (ss : List MessageSummary)
    → last_with_counter c i ss ≡ some r
    → (k : ℕ) × (s : MessageSummary) × (r ≡ i + k) × (get_elem? ss k ≡ some s) × (s.msg_counter ≡ c)
last_with_counter-get_elem? c i r [] h = absurd (ground (arith, h))
last_with_counter-get_elem? c i r (s ∷ ss) h =
    elim (Option-cases (last_with_counter c (suc i) ss)) [
      | inl none_later ↦ (
        0,
        s,
        ground (arith, h, none_later),
        refl,
        (string_eq.equals_iff s.msg_counter c).0 (ground (arith, h, none_later)),
      )
      | inr (q, later) ↦
          let found = last_with_counter-get_elem? c (suc i) q ss later in
          (suc found.0, found.1, ground (arith, h, later, found.2), found.3, found.4)
    ]

-- What a pair is: it joins a summary that refers to a counter with the last one that bears it.
pub record IsPair (ss : List MessageSummary) (p : CorrelationPair) : Type 0 where
  pub request : MessageSummary
  pub response : MessageSummary
  pub request_at : get_elem? ss p.request_index ≡ some request
  pub response_at : get_elem? ss p.response_index ≡ some response
  pub refers : response.msg_counter_ref ≡ request.msg_counter
  pub is_last : last_with_counter response.msg_counter_ref 0 ss ≡ some p.request_index
  pub named : response.msg_counter_ref ≢ ""
  pub request_id_of : p.request_id ≡ request.id
  pub response_id_of : p.response_id ≡ response.id

pair_at-IsPair :
    (ss : List MessageSummary) (i r : ℕ) (s : MessageSummary) (p : CorrelationPair)
    → get_elem? ss i ≡ some s
    → s.msg_counter_ref ≢ ""
    → last_with_counter s.msg_counter_ref 0 ss ≡ some r
    → pair_at ss r i s ≡ some p
    → IsPair ss p
pair_at-IsPair ss i r s p at named last h =
    let found = last_with_counter-get_elem? s.msg_counter_ref 0 r ss last in
    let there : get_elem? ss r ≡ some found.1 = ground (arith, found.2, found.3) in
    let made : p ≡ make_pair r i found.1 s = ground (arith, h, there) in
    record {
      request = found.1;
      response = s;
      request_at = ap (λ q. get_elem? ss q.request_index) made ∙ there;
      response_at = ap (λ q. get_elem? ss q.response_index) made ∙ at;
      refers = sym found.4;
      is_last = last ∙ ap (λ q. some q.request_index) (sym made);
      named = named;
      request_id_of = ap (λ q. q.request_id) made;
      response_id_of = ap (λ q. q.response_id) made;
    }

pair_for-IsPair :
    (ss : List MessageSummary) (i : ℕ) (s : MessageSummary) (p : CorrelationPair)
    → get_elem? ss i ≡ some s
    → pair_for ss (index_counters 0 ss []) i s ≡ some p
    → IsPair ss p
unfolding pair_for lookup
pair_for-IsPair ss i s p at h = elim (Bool-cases (s.msg_counter_ref == "")) [
  | inl empty ↦ absurd (ground (arith, h, empty))
  | inr named ↦
      let ne : s.msg_counter_ref ≢ "" =
        λ e. ground (arith, (string_eq.equals_iff s.msg_counter_ref "").1 e, named) in
      let look = lookup-index_counters s.msg_counter_ref 0 ss [] ne in
      elim (Option-cases (last_with_counter s.msg_counter_ref 0 ss)) [
        | inl none_found ↦ absurd (ground (arith, h, named, look, none_found))
        | inr (r, last) ↦
            pair_at-IsPair ss i r s p at ne last (ground (arith, h, named, look, last))
      ]
]

pairs_from-IsPair :
    (ss : List MessageSummary) (i : ℕ) (rest : List MessageSummary)
    → ((k : ℕ) (s : MessageSummary) → get_elem? rest k ≡ some s → get_elem? ss (k + i) ≡ some s)
    → All (IsPair ss) (pairs_from ss (index_counters 0 ss []) i rest)
unfolding pairs_from
pairs_from-IsPair ss i [] h = tt
pairs_from-IsPair ss i (s ∷ rest) h =
    let others = pairs_from-IsPair ss (suc i) rest (λ k t at. ground (arith, h (suc k) t at)) in
    option_elim (All (IsPair ss)) (pair_for ss (index_counters 0 ss []) i s) _ _ (λ nothing. others)
      (λ p made. (pair_for-IsPair ss i s p (ground (arith, h 0 s refl)) made, others))

-- Every pair in the result joins a summary with a reference, which is not empty, to the summary that
-- bears this counter, the last one of several, with both of their ids and indices.
pub build_correlation_pairs-IsPair :
    (ss : List MessageSummary) → All (IsPair ss) (build_correlation_pairs ss)
unfolding build_correlation_pairs
build_correlation_pairs-IsPair ss = pairs_from-IsPair ss 0 ss (λ k s at. ground (arith, at))
