-- ===== src/Conditions.antt =====
-- conditions.go: attributes, operators, conditions and groups of conditions.
pub mod Operators
pub mod Negation
pub mod Logic
mod Tests
use featureflip_go.Base.{
  ℕ, ◌≡◌, Bool, true, false, not, ◌&&◌, ◌||◌, List, [], ◌∷◌, Option, none, some, Text, codes,
  is_empty, text_eq, if◌then◌else◌, all, any, ◌==◌,
}
use featureflip_go.Base.Int.{pos}
use featureflip_go.Base.Dict.{lookup}
use featureflip_go.Models.{Value, Condition, ConditionGroup, EvaluationContext}
use featureflip_go.Platform.{Platform, ParsedFloat, parsed, out_of_range, malformed}
use featureflip_go.Floats.{float_eq}
use Operators.{
  Operator, equals, not_equals, recognise, normalize_operator, evaluate_operator_checked,
}
use mathlib.Core.Option

-- A value of a map, unless it is nil.
abbrev pub not_nil : Option Value → Option Value
not_nil (some Value.nil) = none
not_nil o = o

-- userId and user_id name the context's user id.
unfoldable pub is_user_alias : Text → Bool
is_user_alias attr = text_eq attr (codes "userId") || text_eq attr (codes "user_id")

abbrev pub find_attribute : Option (List (Text × Value)) → Text → Option Value
find_attribute none attr = none
find_attribute (some attributes) attr = not_nil (lookup attr attributes)

-- `none` where the code's second result is false.
unfoldable pub get_raw_attribute_value : EvaluationContext → Text → Option Value
unfolding is_user_alias
get_raw_attribute_value ctx attr =
    if is_user_alias attr
    then (if is_empty ctx.user_id then none else some (Value.text ctx.user_id))
    else find_attribute ctx.attributes attr

unfoldable pub get_attribute_value : Platform → EvaluationContext → Text → Option Text
get_attribute_value go ctx attr = elim (get_raw_attribute_value ctx attr) [
  | none ↦ none
  | some v ↦ some (go.sprint v)
]

-- A result of ParseFloat without an error.
abbrev pub parsed_only : ParsedFloat → Option ℕ
parsed_only (parsed f) = some f
parsed_only _ = none

unfoldable pub attr_as_float : Platform → Value → Option ℕ
attr_as_float go (Value.number s) = parsed_only (go.parse_float s)
attr_as_float go (Value.float64 f) = some f
attr_as_float go (Value.float32 f) = some (go.float_of_float32 f)
attr_as_float go (Value.int n) = some (go.float_of_int n)
attr_as_float go (Value.uint n) = some (go.float_of_int (pos n))
attr_as_float go _ = none

-- A target that does not parse is skipped.
unfoldable pub equals_target : ℕ → Option ℕ → Bool
equals_target f none = false
equals_target f (some n) = float_eq n f

abbrev pub negated : Bool → Bool → Bool
negated negate result = if negate then not result else result

abbrev is_positive : Operator → Bool
is_positive equals = true
is_positive _ = false

unfoldable pub evaluate_numeric_equality : Platform → Operator → ℕ → List Text → Bool → Bool
evaluate_numeric_equality go op attr_float targets negate =
    let any_equal = any (λ t. equals_target attr_float (parsed_only (go.parse_float t))) targets in
    negated negate (if is_positive op then any_equal else not any_equal)

-- The operator and the number that the equality operators compare, if the attribute is numeric.
numeric_operand : Platform → Option Operator → Value → Option (Operator × ℕ)
numeric_operand go (some equals) raw = Option.map (λ f. (equals, f)) (attr_as_float go raw)
numeric_operand go (some not_equals) raw = Option.map (λ f. (not_equals, f)) (attr_as_float go raw)
numeric_operand go _ raw = none

-- An operator that is not recognised fails closed, whatever Negate is.
checked_result : Bool → Option Bool → Bool
checked_result negate none = false
checked_result negate (some result) = negated negate result

-- The part of evaluateCondition behind the lookup of the attribute.
unfoldable pub evaluate_value : Platform → Condition → Value → Bool
unfolding numeric_operand checked_result
evaluate_value go c raw =
    elim (numeric_operand go (recognise (normalize_operator go c.operator)) raw) [
      | some (op, attr_float) ↦ evaluate_numeric_equality go op attr_float c.values c.negate
      | none ↦
          checked_result c.negate (evaluate_operator_checked go c.operator (go.sprint raw) c.values)
    ]

unfoldable pub evaluate_condition : Platform → Condition → EvaluationContext → Bool
evaluate_condition go c ctx = elim (get_raw_attribute_value ctx c.attribute) [
  | none ↦ c.negate
  | some raw ↦ evaluate_value go c raw
]

abbrev pub is_or : Platform → Text → Bool
is_or go logic = text_eq (go.to_lower logic) (codes "or")

unfoldable pub evaluate_conditions : Platform → List Condition → Text → EvaluationContext → Bool
evaluate_conditions go [] logic ctx = true
evaluate_conditions go (c ∷ cs) logic ctx =
    if is_or go logic
    then any (λ d. evaluate_condition go d ctx) (c ∷ cs)
    else all (λ d. evaluate_condition go d ctx) (c ∷ cs)

unfoldable pub evaluate_condition_groups : Platform → List ConditionGroup → EvaluationContext → Bool
evaluate_condition_groups go groups ctx =
    all (λ g. evaluate_conditions go g.conditions g.operator ctx) groups
