-- ===== src/Models.antt =====
-- models.go: the wire types, the evaluation context and its results. A Go string is the list of its
-- bytes; a Go `int` is an integer without bound.
use featureflip_go.Base.{ℕ, Bool, List, Option, Text}
use featureflip_go.Base.Int.{ℤ}
use featureflip_go.Base.Dict.{Dict}

-- A value of Go's type `any`, as the evaluator and the accessors tell its dynamic types apart. A
-- float is its IEEE-754 bit pattern; `number` is json.Number; `list` stands for any slice or array,
-- `dict` for any map; `other` is a value of any other type, known by a reference number.
mutual
  pub data Value : Type 0 where
    nil : Value
    bool : Bool → Value
    text : Text → Value
    float64 : ℕ → Value
    float32 : ℕ → Value
    int : ℤ → Value
    uint : ℕ → Value
    number : Text → Value
    list : Values → Value
    dict : Fields → Value
    other : ℕ → Value

  pub data Values : Type 0 where
    empty : Values
    item : Value → Values → Values

  pub data Fields : Type 0 where
    end : Fields
    field : Text → Value → Fields → Fields

pub record WeightedVariation : Type 0 where
  pub key : Text
  pub weight : ℤ

pub record ServeConfig : Type 0 where
  pub serve_type : Text
  pub variation : Text
  pub bucket_by : Text
  pub salt : Text
  pub variations : List WeightedVariation

pub record Condition : Type 0 where
  pub attribute : Text
  pub operator : Text
  pub values : List Text
  pub negate : Bool

pub record ConditionGroup : Type 0 where
  pub operator : Text
  pub conditions : List Condition

pub record Rule : Type 0 where
  pub id : Text
  pub priority : ℤ
  pub condition_groups : List ConditionGroup
  pub serve : ServeConfig
  pub segment_key : Text

-- `value` is the json.RawMessage: the bytes of a JSON text.
pub record Variation : Type 0 where
  pub key : Text
  pub value : Text

pub record Prerequisite : Type 0 where
  pub prerequisite_flag_key : Text
  pub expected_variation_key : Text

pub record Flag : Type 0 where
  pub key : Text
  pub version : ℤ
  pub flag_type : Text
  pub enabled : Bool
  pub variations : List Variation
  pub rules : List Rule
  pub fallthrough : ServeConfig
  pub off_variation : Text
  pub prerequisites : List Prerequisite

pub record Segment : Type 0 where
  pub key : Text
  pub version : ℤ
  pub conditions : List Condition
  pub condition_logic : Text

-- `attributes` is `none` for a nil map.
pub record EvaluationContext : Type 0 where
  pub user_id : Text
  pub attributes : Option (Dict Value)

-- The constants of EvaluationReason, the only values of that type that the code makes.
pub data Reason : Type 0 where
  rule_match fallthrough flag_disabled flag_not_found error prerequisite_failed : Reason

pub record EvaluationDetail : Type 0 where
  pub value : Value
  pub variation : Text
  pub reason : Reason
  pub rule_id : Text
  pub prerequisite_key : Text

pub record FlagsResponse : Type 0 where
  pub environment : Text
  pub version : ℤ
  pub flags : List Flag
  pub segments : List Segment

-- `metadata` is `none` for a nil map; the fields that are left out of the JSON text are empty.
pub record SdkEvent : Type 0 where
  pub event_type : Text
  pub flag_key : Text
  pub user_id : Text
  pub variation : Text
  pub timestamp : Text
  pub metadata : Option (Dict Value)
  pub reason : Text
  pub rule_id : Text
  pub prerequisite_key : Text

pub record StreamEvent : Type 0 where
  pub key : Text
  pub version : ℤ
