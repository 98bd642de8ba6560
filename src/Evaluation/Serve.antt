-- ===== src/Evaluation/Serve.antt =====
-- evaluation.go: what a serve configuration serves, and variations by key.
use featureflip_go.Base.{
  ℕ, Bool, List, [], ◌∷◌, ◌++◌, Option, none, some, Text, codes, is_empty, text_eq, if◌then◌else◌,
  any,
}
use featureflip_go.Base.Int.{ℤ, pos, ◌+ℤ◌, ltb_ℤ}
use featureflip_go.Models.{Value, Variation, ServeConfig, WeightedVariation, EvaluationContext}
use featureflip_go.Platform.{Platform, Unmarshalled, decoded, failed}
use featureflip_go.Bucketing.{bucket, bucket_value}

unfoldable pub variation_exists : List Variation → Text → Bool
variation_exists variations key = any (λ v. text_eq v.key key) variations

unmarshalled_value : Unmarshalled → Value
unmarshalled_value (decoded v) = v
unmarshalled_value (failed err) = Value.text (codes "<unmarshal error: " ++ (err ++ codes ">"))

unfoldable pub resolve_variation_value : Platform → List Variation → Text → Value
unfolding unmarshalled_value
resolve_variation_value go [] key = Value.nil
resolve_variation_value go (v ∷ vs) key =
    if text_eq v.key key
    then unmarshalled_value (go.unmarshal v.value)
    else resolve_variation_value go vs key

unfoldable pub bucket_by_of : ServeConfig → Text
bucket_by_of serve = if is_empty serve.bucket_by then codes "user_id" else serve.bucket_by

-- The loop over the weights: the first variation whose cumulative weight is above the bucket.
unfoldable pub walk : ℤ → ℕ → List WeightedVariation → Option Text
walk cumulative b [] = none
walk cumulative b (wv ∷ rest) =
    let later = walk (cumulative +ℤ wv.weight) b rest in
    if ltb_ℤ (pos b) (cumulative +ℤ wv.weight) then some wv.key else later

unfoldable pub last_key : List WeightedVariation → Text
last_key [] = []
last_key (wv ∷ []) = wv.key
last_key (wv ∷ next ∷ rest) = last_key (next ∷ rest)

-- The variation that a bucket falls to, the last one if the weights end below it.
unfoldable pub pick : ℕ → List WeightedVariation → Text
unfolding walk last_key ◌+ℤ◌
pick b variations = elim (walk (pos 0) b variations) [ some key ↦ key | none ↦ last_key variations ]

abbrev or_empty : Option Text → Text
or_empty (some value) = value
or_empty none = []

rollout : Platform → ServeConfig → Text → Option Text
rollout go serve value =
    if is_empty value then none else some (pick (bucket go serve.salt value) serve.variations)

resolve_rollout : Platform → ServeConfig → EvaluationContext → List WeightedVariation → Option Text
unfolding rollout
resolve_rollout go serve ctx [] = some serve.variation
resolve_rollout go serve ctx (wv ∷ rest) =
    rollout go serve (or_empty (bucket_value go ctx (bucket_by_of serve)))

-- `none` where the code's last result is false.
unfoldable pub resolve_serve : Platform → ServeConfig → EvaluationContext → Option Text
unfolding resolve_rollout
resolve_serve go serve ctx =
    if text_eq serve.serve_type (codes "Fixed")
    then some serve.variation
    else resolve_rollout go serve ctx serve.variations
