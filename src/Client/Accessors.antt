-- ===== src/Client/Accessors.antt =====
-- featureflip.go: the accessors of a handle for each type, and the calls that record other events.
use featureflip_go.Base.{ℕ, Bool, true, false, [], Option, none, some, Text, codes}
use featureflip_go.Base.Dict.{Dict}
use featureflip_go.Models.{
  Value, EvaluationContext, EvaluationDetail, SdkEvent, Reason, rule_match, fallthrough,
  flag_disabled, flag_not_found, error, prerequisite_failed,
}
use featureflip_go.Events.{flush}
use featureflip_go.Client.{
  Core, Surroundings, Read, GoType, evaluated, enqueued, reported, unread, variation,
}

abbrev pub as_bool : Value → Option Bool
as_bool (Value.bool b) = some b
as_bool _ = none

abbrev pub as_text : Value → Option Text
as_text (Value.text s) = some s
as_text _ = none

abbrev pub as_float64 : Value → Option ℕ
as_float64 (Value.float64 x) = some x
as_float64 _ = none

abbrev pub bool_type : GoType Bool
bool_type = record { wrap = Value.bool; assert = as_bool }

abbrev pub text_type : GoType Text
text_type = record { wrap = Value.text; assert = as_text }

-- A float64 is its bit pattern.
abbrev pub float64_type : GoType ℕ
float64_type = record { wrap = Value.float64; assert = as_float64 }

unfoldable pub bool_variation :
    Bool → Surroundings → Text → EvaluationContext → Bool → Core → Read Bool
bool_variation = variation bool_type

unfoldable pub string_variation :
    Bool → Surroundings → Text → EvaluationContext → Text → Core → Read Text
string_variation = variation text_type

unfoldable pub float64_variation :
    Bool → Surroundings → Text → EvaluationContext → ℕ → Core → Read ℕ
float64_variation = variation float64_type

abbrev pub json_value : Reason → Value → Value → Value
json_value flag_not_found default_value value = default_value
json_value rule_match default_value value = value
json_value fallthrough default_value value = value
json_value flag_disabled default_value value = value
json_value error default_value value = value
json_value prerequisite_failed default_value value = value

unfoldable pub json_variation :
    Bool → Surroundings → Text → EvaluationContext → Value → Core → Read Value
json_variation true here key ctx default_value core = unread default_value core
json_variation false here key ctx default_value core =
    let (detail, after) = evaluated here key ctx default_value core in
    let value = json_value detail.reason default_value detail.value in
    reported here key ctx value (record detail { value = value }) after

unfoldable pub variation_detail :
    Bool → Surroundings → Text → EvaluationContext → Value → Core → Read EvaluationDetail
variation_detail true here key ctx default_value core =
    unread
      (record {
        value = default_value;
        variation = [];
        reason = error;
        rule_id = [];
        prerequisite_key = [];
      })
      core
variation_detail false here key ctx default_value core =
    let (detail, after) = evaluated here key ctx default_value core in
    reported here key ctx detail detail after

abbrev other_event : Text → Text → Text → EvaluationContext → Option (Dict Value) → SdkEvent
other_event time event_type key ctx metadata = record {
  event_type = event_type;
  flag_key = key;
  user_id = ctx.user_id;
  variation = [];
  timestamp = time;
  metadata = metadata;
  reason = [];
  rule_id = [];
  prerequisite_key = [];
}

unfoldable pub track :
    Bool → Surroundings → Text → EvaluationContext → Option (Dict Value) → Core → Core
track true here key ctx metadata core = core
track false here key ctx metadata core =
    enqueued here (other_event here.time (codes "Custom") key ctx metadata) core

unfoldable pub identify : Bool → Surroundings → EvaluationContext → Core → Core
identify true here ctx core = core
identify false here ctx core =
    enqueued here (other_event here.time (codes "Identify") (codes "$identify") ctx ctx.attributes)
      core

unfoldable pub flush_events : Bool → Surroundings → Core → Core
flush_events true here core = core
flush_events false here core = record core { ep = (flush here.replies core.ep).0 }

unfoldable pub is_initialized : Bool → Core → Bool
is_initialized true core = false
is_initialized false core = core.initialized
