-- ===== src/Conditions/Tests.antt =====
-- The theorems on conditions, for a user without attributes but the id.
use featureflip_go.Base.{◌≡◌, refl, false, [], ◌∷◌, some, Text, codes, text_eq}
use featureflip_go.Models.{Value, Condition}
use featureflip_go.Samples.{plain, visitor}
use featureflip_go.Conditions.Operators.{
  equals, not_equals, recognise, normalize_operator, remove_underscores,
}
use featureflip_go.Conditions.{is_user_alias, get_raw_attribute_value, evaluate_condition}
use featureflip_go.Conditions.Negation.{arm, flip, Denies, evaluate_condition-Denies}

abbrev on_id : Text → Condition
on_id operator = record {
  attribute = codes "user_id";
  operator = operator;
  values = codes "u1" ∷ [];
  negate = false;
}

id_found : get_raw_attribute_value visitor (codes "user_id") ≡ some (Value.text (codes "u1"))
unfolding get_raw_attribute_value is_user_alias text_eq
id_found = refl

equals_arm : arm plain (on_id (codes "equals")) ≡ some equals
unfolding recognise normalize_operator remove_underscores text_eq
equals_arm = refl

not_equals_arm : recognise (normalize_operator plain (codes "notequals")) ≡ some not_equals
unfolding recognise normalize_operator remove_underscores text_eq
not_equals_arm = refl

evaluate_condition-Denies_example :
    evaluate_condition plain (on_id (codes "notequals")) visitor
    ≡ evaluate_condition plain (flip (on_id (codes "equals"))) visitor
evaluate_condition-Denies_example =
    evaluate_condition-Denies plain (on_id (codes "equals")) (codes "notequals") visitor id_found
      Denies.equality equals_arm not_equals_arm
