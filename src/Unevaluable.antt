-- ===== src/Unevaluable.antt =====
-- unevaluable.go: the entities that this build cannot evaluate. A reason is the field and the value
-- that the code's text names; `none` is the empty text.
pub mod Laws
use featureflip_go.Base.{
  Bool, true, false, not, ◌&&◌, ◌||◌, List, [], ◌∷◌, Option, none, some, Text, codes, is_empty,
  text_eq, if◌then◌else◌,
}
use featureflip_go.Models.{Flag, Rule, ConditionGroup, ServeConfig, Segment}

pub data Unevaluable : Type 0 where
  fallthrough_type : Text → Unevaluable
  rule_type : Text → Text → Unevaluable
  group_operator : Text → Text → Unevaluable
  condition_logic : Text → Unevaluable

unfoldable pub known_serve_type : Text → Bool
known_serve_type t = text_eq t (codes "Fixed") || text_eq t (codes "Rollout")

unfoldable pub known_condition_logic : Text → Bool
known_condition_logic t = text_eq t (codes "And") || text_eq t (codes "Or")

abbrev pub or_else : Option Unevaluable → Option Unevaluable → Option Unevaluable
or_else (some reason) next = some reason
or_else none next = next

unfoldable pub unevaluable_serve_reason : ServeConfig → (Text → Unevaluable) → Option Unevaluable
unevaluable_serve_reason serve reason =
    if is_empty serve.serve_type
    then none
    else if known_serve_type serve.serve_type
    then none
    else some (reason serve.serve_type)

unfoldable pub groups_reason : Text → List ConditionGroup → Option Unevaluable
groups_reason rule_id [] = none
groups_reason rule_id (g ∷ gs) =
    or_else
      (if is_empty g.operator
        then none
        else if known_condition_logic g.operator
        then none
        else some (group_operator rule_id g.operator))
      (groups_reason rule_id gs)

unfoldable pub rules_reason : List Rule → Option Unevaluable
rules_reason [] = none
rules_reason (rule ∷ rules) =
    or_else (unevaluable_serve_reason rule.serve (rule_type rule.id))
      (or_else (groups_reason rule.id rule.condition_groups) (rules_reason rules))

unfoldable pub unevaluable_flag_reason : Flag → Option Unevaluable
unevaluable_flag_reason f =
    or_else (unevaluable_serve_reason f.fallthrough fallthrough_type) (rules_reason f.rules)

unfoldable pub unevaluable_segment_reason : Segment → Option Unevaluable
unevaluable_segment_reason s =
    if is_empty s.condition_logic
    then none
    else if known_condition_logic s.condition_logic
    then none
    else some (condition_logic s.condition_logic)

abbrev pub is_none {ℓ} : {A : Type ℓ} → Option A → Bool
is_none none = true
is_none (some a) = false

unfoldable pub keep {ℓ} : {A : Type ℓ} → (A → Bool) → List A → List A
keep test [] = []
keep test (x ∷ xs) = let rest = keep test xs in if test x then x ∷ rest else rest

unfoldable pub drop_unevaluable : List Flag → List Segment → List Flag × List Segment
drop_unevaluable flags segments = (
  keep (λ f. is_none (unevaluable_flag_reason f)) flags,
  keep (λ s. is_none (unevaluable_segment_reason s)) segments,
)
