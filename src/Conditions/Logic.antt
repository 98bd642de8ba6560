-- ===== src/Conditions/Logic.antt =====
-- conditions.go, evaluateConditions and evaluateConditionGroups against all and any.
use featureflip_go.Base.{◌≡◌, ◌⊎◌, none, some}
use featureflip_go.Models.{Condition, EvaluationContext}
use featureflip_go.Platform.{Platform}
use featureflip_go.Conditions.Operators.{Operator}
use featureflip_go.Conditions.{get_raw_attribute_value}
use featureflip_go.Conditions.Negation.{arm}

module _ (go : Platform) (ctx : EvaluationContext) where
  -- The condition can be evaluated: its attribute is missing or its operator recognised.
  abbrev pub IsEvaluable : Condition → Type 0
  IsEvaluable c =
      (get_raw_attribute_value ctx c.attribute ≡ none) ⊎ ((o : Operator) × (arm go c ≡ some o))
