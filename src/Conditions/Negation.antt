-- ===== src/Conditions/Negation.antt =====
-- conditions.go, evaluateCondition: what Negate and the negative operators mean.
use featureflip_go.Base.{
  ◌≡◌, ◌⊎◌, inl, inr, false, not, Option, none, some, Text, arith, Option-cases,
}
use featureflip_go.Models.{Value, Condition, EvaluationContext}
use featureflip_go.Platform.{Platform}
use featureflip_go.Conditions.Operators.{
  Operator, equals, not_equals, contains_op, not_contains, recognise, run, normalize_operator,
  evaluate_operator_checked,
}
use featureflip_go.Conditions.{
  get_raw_attribute_value, evaluate_numeric_equality, evaluate_value, evaluate_condition,
}

-- The arm that a condition's operator takes.
abbrev pub arm : Platform → Condition → Option Operator
arm go c = recognise (normalize_operator go c.operator)

-- The condition with its Negate flipped.
abbrev pub flip : Condition → Condition
flip c = record c { negate = not c.negate }

-- An operator that is not recognised matches nobody who has the attribute, whatever Negate says.
pub evaluate_condition_unrecognised :
    (go : Platform) (c : Condition) (ctx : EvaluationContext) {raw : Value}
    → get_raw_attribute_value ctx c.attribute ≡ some raw
    → arm go c ≡ none
    → evaluate_condition go c ctx ≡ false
unfolding evaluate_condition evaluate_value evaluate_operator_checked
evaluate_condition_unrecognised go c ctx h k = ground arith

evaluate_value-flip :
    (go : Platform) (c : Condition) (raw : Value) (o : Operator)
    → arm go c ≡ some o
    → evaluate_value go (flip c) raw ≡ not (evaluate_value go c raw)
unfolding evaluate_value evaluate_operator_checked evaluate_numeric_equality
evaluate_value-flip go c raw o h = ground arith

-- Wherever a condition can be evaluated, that is its attribute is missing or its operator recognised,
-- flipping its Negate flips its result.
pub evaluate_condition-flip :
    (go : Platform) (c : Condition) (ctx : EvaluationContext)
    → (get_raw_attribute_value ctx c.attribute ≡ none) ⊎ ((o : Operator) × (arm go c ≡ some o))
    → evaluate_condition go (flip c) ctx ≡ not (evaluate_condition go c ctx)
unfolding evaluate_condition
evaluate_condition-flip go c ctx (inl e) = ground arith
evaluate_condition-flip go c ctx (inr (o, h)) =
    elim (Option-cases (get_raw_attribute_value ctx c.attribute)) [
      | inl e ↦ ground arith
      | inr (raw, e) ↦ ground (arith, evaluate_value-flip go c raw o h)
    ]

-- An operator and the one that denies it.
pub data Denies : Operator → Operator → Type 0 where
  equality : Denies equals not_equals
  containment : Denies contains_op not_contains

evaluate_value-Denies :
    (go : Platform) (c : Condition) (op : Text) (raw : Value) {o o' : Operator}
    → Denies o o'
    → arm go c ≡ some o
    → recognise (normalize_operator go op) ≡ some o'
    → evaluate_value go (record c { operator = op }) raw ≡ not (evaluate_value go c raw)
unfolding evaluate_value evaluate_operator_checked evaluate_numeric_equality run
evaluate_value-Denies go c op raw equality h k = ground arith
evaluate_value-Denies go c op raw containment h k = ground arith

-- On a present attribute, numeric or not, NotEquals and NotIn give the opposite of Equals and In, and
-- NotContains that of Contains, so each is the same as its positive operator with Negate flipped.
pub evaluate_condition-Denies :
    (go : Platform) (c : Condition) (op : Text) (ctx : EvaluationContext) {raw : Value}
    {o o' : Operator}
    → get_raw_attribute_value ctx c.attribute ≡ some raw
    → Denies o o'
    → arm go c ≡ some o
    → recognise (normalize_operator go op) ≡ some o'
    → evaluate_condition go (record c { operator = op }) ctx ≡ evaluate_condition go (flip c) ctx
unfolding evaluate_condition
evaluate_condition-Denies go c op ctx {raw} {o} {o'} e d h k =
    ground (arith, evaluate_value-Denies go c op raw d h k, evaluate_value-flip go c raw o h)
