-- ===== src/Client/Inspector.antt =====
-- inspector.go: the events that inspectors are called with. An inspector that panics is recovered, so
-- that the calls do not depend on what an inspector does; a copy of a context is the context.
use featureflip_go.Base.{ℕ, Bool, true, false, List, [], ◌∷◌, Option, none, some, Text, map}
use featureflip_go.Models.{Value, EvaluationContext, EvaluationDetail, Reason}

pub record EvaluationEvent : Type 0 where
  pub flag_key : Text
  pub context : EvaluationContext
  pub value : Value
  pub variation_key : Text
  pub reason : Reason
  pub rule_id : Text
  pub prerequisite_key : Text
  pub timestamp : Text

-- The inspectors that are not nil, in order.
unfoldable pub filter_inspectors : List (Option ℕ) → List ℕ
filter_inspectors [] = []
filter_inspectors (none ∷ rest) = filter_inspectors rest
filter_inspectors (some i ∷ rest) = i ∷ filter_inspectors rest

abbrev pub evaluation_event_of :
    Text → Text → EvaluationContext → EvaluationDetail → EvaluationEvent
evaluation_event_of time key ctx detail = record {
  flag_key = key;
  context = ctx;
  value = detail.value;
  variation_key = detail.variation;
  reason = detail.reason;
  rule_id = detail.rule_id;
  prerequisite_key = detail.prerequisite_key;
  timestamp = time;
}

unfoldable pub notify_inspectors :
    List ℕ → Bool → Text → Text → EvaluationContext → EvaluationDetail → List (ℕ × EvaluationEvent)
notify_inspectors inspectors true time key ctx detail = []
notify_inspectors inspectors false time key ctx detail =
    map (λ i. (i, evaluation_event_of time key ctx detail)) inspectors
