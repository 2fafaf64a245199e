-- ===== src/Parser/Addresses.antt =====
-- The two spellings of a feature's address: in parts, in the fields of a message
-- (internal/parser/spine.go), and as a whole, in the entries of subscriptions
-- (internal/analysis/subscriptions.go: `formatFeatureAddr`).
use Prim.Native.String.{◌++◌ as append}
use text.Mathlib.TextLemmas.{append-nil, append_assoc}
use eebus_tracer.Prelude.{ℕ, ◌≡◌, sym, ap, ◌∙◌, List, [], ◌∷◌, some, map}
use eebus_tracer.Subscriptions.Payload.{uint_to_str, dotted, format_feature_addr}
use eebus_tracer.Parser.Spine.{join, entity_addr_string, feature_addr_string}

-- The entity's numbers, joined, are the first and the others behind dots.
join-dotted :
    (e : ℕ) (es : List ℕ) → join (map uint_to_str (e ∷ es)) "." ≡ append (uint_to_str e) (dotted es)
unfolding join dotted
join-dotted e [] = sym (append-nil (uint_to_str e))
join-dotted e (f ∷ es) = ap (λ t. append (uint_to_str e) (append "." t)) (join-dotted f es)

-- The whole address that a subscription's entry shows is the entity and the feature of the message's
-- fields with a dot between them, if the entity has a number.
pub format_feature_addr-join :
    (e : ℕ) (es : List ℕ) (feature : ℕ)
    → format_feature_addr (e ∷ es) feature
      ≡ append (entity_addr_string (e ∷ es)) (append "." (feature_addr_string (some feature)))
unfolding format_feature_addr entity_addr_string feature_addr_string
format_feature_addr-join e es feature =
    let last = append "." (uint_to_str feature) in
    sym (ap (λ t. append t last) (join-dotted e es) ∙ append_assoc (uint_to_str e) (dotted es) last)
