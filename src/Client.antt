-- ===== src/Client.antt =====
-- featureflip.go: what the accessors of a handle do. The events that auto-flushing posts are posted
-- before the accessor returns.
pub mod Inspector
pub mod Initial
pub mod Accessors
pub mod Reads
pub mod Live
pub mod Assertions
pub mod Lifecycle
pub mod Listeners
pub mod Shutdown
mod Tests
use featureflip_go.Base.{
  ℕ, Bool, true, false, not, ◌&&◌, List, [], ◌∷◌, Option, none, some, Text, codes, is_empty,
  if◌then◌else◌,
}
use featureflip_go.Models.{
  Value, Flag, EvaluationContext, EvaluationDetail, SdkEvent, Reason, rule_match, fallthrough,
  flag_disabled, flag_not_found, error, prerequisite_failed,
}
use featureflip_go.Platform.{Platform}
use featureflip_go.Store.{Store, get_flag, all_flags, all_segments}
use featureflip_go.Evaluation.{evaluate}
use featureflip_go.Evaluation.Serve.{variation_exists}
use featureflip_go.Events.{EventProcessor, Reply, enqueue}
use Inspector.{EvaluationEvent, notify_inspectors}

-- The fields of the shared core that an accessor reads or changes, and the process-wide set of logged
-- rollouts. An inspector is known by a number.
pub record Core : Type 0 where
  pub store : Store
  pub ep : EventProcessor SdkEvent
  pub inspectors : List ℕ
  pub is_shut_down : Bool
  pub initialized : Bool
  pub seen : List Text

-- What an accessor takes from outside: Go's library, the time in the formats RFC3339 and RFC3339Nano,
-- the clock, and what the events endpoint would reply.
pub record Surroundings : Type 0 where
  pub platform : Platform
  pub time : Text
  pub time_nano : Text
  pub now : ℕ
  pub replies : ℕ → Reply

-- The value that an accessor returns, the core after it, and the calls of inspectors.
pub record Read (T : Type 0) : Type 0 where
  pub value : T
  pub core : Core
  pub notified : List (ℕ × EvaluationEvent)

-- A type that a type assertion can ask for, as values of type `any`.
pub record GoType (T : Type 0) : Type 0 where
  pub wrap : T → Value
  pub assert : Value → Option T

abbrev pub not_found : Value → EvaluationDetail
not_found default_value = record {
  value = default_value;
  variation = [];
  reason = flag_not_found;
  rule_id = [];
  prerequisite_key = [];
}

-- The check of the variation's key after the evaluation.
unfoldable pub checked : Flag → EvaluationDetail → EvaluationDetail
checked flag detail =
    if not (is_empty detail.variation) && not (variation_exists flag.variations detail.variation)
    then record detail { reason = error }
    else detail

-- The detail, and the set of logged rollouts.
unfoldable pub evaluate_flag :
    Platform → Store → Text → EvaluationContext → Value → List Text → EvaluationDetail × List Text
evaluate_flag go s key ctx default_value seen = elim (get_flag key s) [
  | none ↦ (not_found default_value, seen)
  | some flag ↦
      let (detail, logged) =
        evaluate
          (record { platform = go; ctx = ctx; segments = all_segments s; flags = all_flags s }) flag
          seen in
      (checked flag detail, logged)
]

unfoldable pub narrow : {T : Type 0} → GoType T → EvaluationDetail → T → T × EvaluationDetail
narrow ty detail default_value = elim (ty.assert detail.value) [
  | some value ↦ (value, record detail { value = ty.wrap value })
  | none ↦ (default_value, record detail { value = ty.wrap default_value; reason = error })
]

-- wireReasons
unfoldable pub wire_reason : Reason → Text
wire_reason rule_match = codes "rule-match"
wire_reason fallthrough = codes "fallthrough"
wire_reason flag_disabled = codes "flag-disabled"
wire_reason flag_not_found = codes "flag-not-found"
wire_reason prerequisite_failed = codes "prerequisite-failed"
wire_reason error = codes "error"

abbrev pub rule_id_of : EvaluationDetail → Text
rule_id_of detail = elim detail.reason [
  | rule_match ↦ detail.rule_id
  | fallthrough ↦ []
  | flag_disabled ↦ []
  | flag_not_found ↦ []
  | error ↦ []
  | prerequisite_failed ↦ []
]

unfoldable pub evaluation_event : Text → Text → EvaluationContext → EvaluationDetail → SdkEvent
evaluation_event time key ctx detail = record {
  event_type = codes "Evaluation";
  flag_key = key;
  user_id = ctx.user_id;
  variation = detail.variation;
  timestamp = time;
  metadata = none;
  reason = wire_reason detail.reason;
  rule_id = rule_id_of detail;
  prerequisite_key = detail.prerequisite_key;
}

abbrev pub enqueued : Surroundings → SdkEvent → Core → Core
enqueued here event core = record core { ep = (enqueue here.now here.replies event core.ep).0 }

unfoldable pub record_evaluation :
    Surroundings → Text → EvaluationContext → EvaluationDetail → Core → Core
record_evaluation here key ctx detail core =
    enqueued here (evaluation_event here.time key ctx detail) core

-- The end of every accessor: the analytics event and the inspectors.
abbrev pub reported :
    {T : Type 0} → Surroundings → Text → EvaluationContext → T → EvaluationDetail → Core → Read T
reported here key ctx value detail core = record {
  value = value;
  core = record_evaluation here key ctx detail core;
  notified = notify_inspectors core.inspectors core.is_shut_down here.time_nano key ctx detail;
}

abbrev pub unread : {T : Type 0} → T → Core → Read T
unread value core = record { value = value; core = core; notified = [] }

abbrev pub evaluated :
    Surroundings → Text → EvaluationContext → Value → Core → EvaluationDetail × Core
evaluated here key ctx default_value core =
    let (detail, logged) = evaluate_flag here.platform core.store key ctx default_value core.seen in
    (detail, record core { seen = logged })

-- BoolVariation, StringVariation and Float64Variation, by their type; `closed` is isClosed's result.
unfoldable pub variation :
    {T : Type 0} → GoType T → Bool → Surroundings → Text → EvaluationContext → T → Core → Read T
variation ty true here key ctx default_value core = unread default_value core
variation ty false here key ctx default_value core =
    let (detail, after) = evaluated here key ctx (ty.wrap default_value) core in
    let (value, narrowed) = narrow ty detail default_value in
    reported here key ctx value narrowed after
