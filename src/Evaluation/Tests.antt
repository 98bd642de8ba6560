-- ===== src/Evaluation/Tests.antt =====
-- The theorems on the evaluation, at a small configuration.
use featureflip_go.Base.{
  suc, ◌≡◌, ◌≤◌, ◌≢◌, ap, length, refl, [], ◌∷◌, some, Text, arith, codes, none-ne-some, text_eq,
}
use featureflip_go.Base.Dict.{lookup}
use featureflip_go.Base.Int.{pos}
use featureflip_go.Models.{WeightedVariation, rule_match, EvaluationDetail}
use featureflip_go.Samples.{world, plain, b_key, a_flag, b_flag, rank, two_flags-IsRanked}
use featureflip_go.Evaluation.Serve.{pick}
use featureflip_go.Evaluation.{
  State, evaluate, evaluate_with_shared_memo, served, max_prerequisite_depth,
}
use featureflip_go.Evaluation.Reference.{reference}
use featureflip_go.Evaluation.Memo.{IsValid, evaluate-reference, evaluate_with_shared_memo-evaluate}
use featureflip_go.Evaluation.Rollout.{pick_share, total, count_below}

b_found : lookup b_key world.flags ≡ some b_flag
unfolding lookup text_eq
b_found = refl

b_low : rank b_key ≤ max_prerequisite_depth
unfolding text_eq
b_low = omega arith

evaluate-reference_example :
    (evaluate world b_flag []).0 ≡ reference world (suc max_prerequisite_depth) b_flag
evaluate-reference_example =
    evaluate-reference world rank b_key b_flag [] two_flags-IsRanked b_found b_low

abbrev fresh : State
fresh = record { memo = []; seen = [] }

fresh-IsValid : IsValid world rank two_flags-IsRanked fresh.memo
unfolding lookup
fresh-IsValid k d h = absurd (none-ne-some h)

evaluate_with_shared_memo-evaluate_example :
    ((evaluate_with_shared_memo world b_flag fresh).0 ≡ (evaluate world b_flag []).0)
    × IsValid world rank two_flags-IsRanked (evaluate_with_shared_memo world b_flag fresh).1.memo
evaluate_with_shared_memo-evaluate_example =
    evaluate_with_shared_memo-evaluate world rank b_key b_flag fresh [] two_flags-IsRanked b_found
      b_low fresh-IsValid

abbrev served_on : EvaluationDetail
served_on = served plain a_flag (codes "on") rule_match (codes "everyone")

abbrev half : Text → WeightedVariation
half key = record { key = key; weight = pos 50 }

halves_sum : total (half (codes "on") ∷ half (codes "off") ∷ []) ≡ 100
unfolding total
halves_sum = refl

halves-distinct : codes "on" ≢ codes "off"
halves-distinct e =
    let lengths : length (codes "on") ≡ length (codes "off") = ap length e in
    absurd (omega (arith, lengths))

pick_share_example :
    count_below 100
      (λ b. text_eq (pick b (half (codes "on") ∷ half (codes "off") ∷ [])) (codes "off"))
    ≡ 50
pick_share_example =
    pick_share (half (codes "on") ∷ []) [] (half (codes "off")) (omega arith, (omega arith, tt))
      (halves-distinct, tt) tt halves_sum
