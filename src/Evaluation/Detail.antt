-- ===== src/Evaluation/Detail.antt =====
-- evaluation.go: what every result of an evaluation satisfies, whatever the memo holds.
use featureflip_go.Base.{◌≡◌, ◌≢◌, true, false, [], Option, none, some}
use featureflip_go.Models.{
  Value, Flag, EvaluationDetail, rule_match, flag_not_found, error, prerequisite_failed,
}
use featureflip_go.Platform.{Platform}
use featureflip_go.Evaluation.Serve.{variation_exists, resolve_variation_value}
use featureflip_go.Evaluation.{World}

-- A result of the flag: unless it is an error, it serves a variation that the flag defines; its value
-- is that of its variation, nil if there is none; the rule id and the prerequisite key come with their
-- reasons only.
pub record IsSound (go : Platform) (flag : Flag) (d : EvaluationDetail) : Type 0 where
  pub defined : d.reason ≢ error → variation_exists flag.variations d.variation ≡ true
  pub valued : d.value ≡ resolve_variation_value go flag.variations d.variation
  pub undefined :
      variation_exists flag.variations d.variation ≡ false
      → (d.reason ≡ error) × (d.value ≡ Value.nil)
  pub rule_only : d.reason ≢ rule_match → d.rule_id ≡ []
  pub prerequisite_only : d.reason ≢ prerequisite_failed → d.prerequisite_key ≡ []
  pub found : d.reason ≢ flag_not_found

module _ (w : World) (flag : Flag) where
  abbrev Sound : EvaluationDetail → Type 0
  Sound = IsSound w.platform flag

  -- The detail in an optional result.
  abbrev SoundIfAny : Option EvaluationDetail → Type 0
  SoundIfAny none = Unit {0}
  SoundIfAny (some d) = Sound d
