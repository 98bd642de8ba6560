-- ===== src/Evaluation.antt =====
-- evaluation.go: the evaluation of a flag. `depth` counts the levels that are left: the code's depth
-- is `max_prerequisite_depth + 1` less the levels, and at none left it is above the maximum.
pub mod Serve
pub mod Unbucketable
pub mod Detail
pub mod Plain
pub mod Reference
pub mod Memo
pub mod Rules
pub mod Rollout
pub mod Agreement
mod Tests
use featureflip_go.Base.{
  ℕ, zero, suc, Bool, true, false, not, ◌&&◌, ◌||◌, List, [], ◌∷◌, Option, none, some, Text,
  is_empty, text_eq, if◌then◌else◌,
}
use featureflip_go.Base.Dict.{Dict, lookup, insert}
use featureflip_go.Base.Int.{ltb_ℤ}
use featureflip_go.Models.{
  Value, Flag, Rule, Segment, Prerequisite, EvaluationContext, EvaluationDetail, Reason, rule_match,
  fallthrough, flag_disabled, flag_not_found, error, prerequisite_failed,
}
use featureflip_go.Platform.{Platform}
use featureflip_go.Conditions.{evaluate_conditions, evaluate_condition_groups}
use Serve.{variation_exists, resolve_variation_value, bucket_by_of, resolve_serve}
use Unbucketable.{warn_unbucketable}

abbrev pub max_prerequisite_depth : ℕ
max_prerequisite_depth = 10

abbrev pub Memo : Type 0
Memo = Dict EvaluationDetail

-- The memo of one evaluation, and the process-wide set of logged rollouts.
pub record State : Type 0 where
  pub memo : Memo
  pub seen : List Text

-- What an evaluation reads: the context, and the store's segments and flags.
pub record World : Type 0 where
  pub platform : Platform
  pub ctx : EvaluationContext
  pub segments : Dict Segment
  pub flags : Dict Flag

abbrev pub is_error : Reason → Bool
is_error error = true
is_error _ = false

malformed : Text → EvaluationDetail
malformed key = record {
  value = Value.nil;
  variation = key;
  reason = error;
  rule_id = [];
  prerequisite_key = [];
}

unfoldable pub serve_off : Platform → Flag → Reason → Text → EvaluationDetail
unfolding malformed
serve_off go flag reason prerequisite_key =
    if variation_exists flag.variations flag.off_variation
    then record {
      value = resolve_variation_value go flag.variations flag.off_variation;
      variation = flag.off_variation;
      reason = reason;
      rule_id = [];
      prerequisite_key = prerequisite_key;
    }
    else malformed flag.off_variation

-- The detail of a variation key that a rule or the fallthrough serves.
unfoldable pub served : Platform → Flag → Text → Reason → Text → EvaluationDetail
unfolding malformed
served go flag key reason rule_id =
    if variation_exists flag.variations key
    then record {
      value = resolve_variation_value go flag.variations key;
      variation = key;
      reason = reason;
      rule_id = rule_id;
      prerequisite_key = [];
    }
    else malformed key

segment_matches : World → Option Segment → Bool
segment_matches w none = false
segment_matches w (some seg) =
    evaluate_conditions w.platform seg.conditions seg.condition_logic w.ctx

unfoldable pub rule_matches : World → Rule → Bool
unfolding segment_matches
rule_matches w rule =
    if is_empty rule.segment_key
    then evaluate_condition_groups w.platform rule.condition_groups w.ctx
    else segment_matches w (lookup rule.segment_key w.segments)

-- The loop over the sorted rules: `none` where no rule serves.
unfoldable pub match_rules :
    World → Flag → List Rule → List Text → Option EvaluationDetail × List Text
match_rules w flag [] seen = (none, seen)
match_rules w flag (rule ∷ rules) seen = elim (rule_matches w rule) [
  | false ↦ match_rules w flag rules seen
  | true ↦ elim (resolve_serve w.platform rule.serve w.ctx) [
    | none ↦
        match_rules w flag rules (warn_unbucketable flag.key rule.id (bucket_by_of rule.serve) seen)
    | some key ↦ (some (served w.platform flag key rule_match rule.id), seen)
  ]
]

unfoldable pub serve_fallthrough : World → Flag → List Text → EvaluationDetail × List Text
serve_fallthrough w flag seen = elim (resolve_serve w.platform flag.fallthrough w.ctx) [
  | none ↦ (
    served w.platform flag flag.fallthrough.variation fallthrough [],
    warn_unbucketable flag.key [] (bucket_by_of flag.fallthrough) seen,
  )
  | some key ↦ (served w.platform flag key fallthrough [], seen)
]

or_fallthrough : World → Flag → Option EvaluationDetail × List Text → EvaluationDetail × List Text
or_fallthrough w flag (some detail, seen) = (detail, seen)
or_fallthrough w flag (none, seen) = serve_fallthrough w flag seen

-- The part of evaluateInternal behind the prerequisites.
unfoldable pub serve_rules : World → Flag → List Text → EvaluationDetail × List Text
unfolding or_fallthrough
serve_rules w flag seen = or_fallthrough w flag (
    match_rules w flag (w.platform.sort_slice (λ a b. ltb_ℤ a.priority b.priority) flag.rules) seen)

-- memo[key] = detail, and return it.
abbrev pub memoize : Text → EvaluationDetail → State → EvaluationDetail × State
memoize key detail s = (detail, record s { memo = insert key detail s.memo })

-- The result of a prerequisite, from the memo or evaluated now; `none` if there is no such flag.
unfoldable pub resolve_prerequisite :
    World
    → (Flag → State → EvaluationDetail × State)
    → Text
    → State
    → Option EvaluationDetail × State
resolve_prerequisite w eval key s = elim (lookup key s.memo) [
  | some detail ↦ (some detail, s)
  | none ↦ elim (lookup key w.flags) [
    | none ↦ (none, s)
    | some flag ↦
        let (detail, t) = eval flag s in let (result, u) = memoize key detail t in (some result, u)
  ]
]

-- What a resolved prerequisite makes of the flag: `none` if it is met.
unfoldable pub prerequisite_verdict :
    Platform → Flag → Prerequisite → Option EvaluationDetail → Option EvaluationDetail
prerequisite_verdict go flag p none =
    some (serve_off go flag prerequisite_failed p.prerequisite_flag_key)
prerequisite_verdict go flag p (some detail) =
    if is_error detail.reason
    then some (serve_off go flag error [])
    else if not (text_eq detail.variation p.expected_variation_key)
    then some (serve_off go flag prerequisite_failed p.prerequisite_flag_key)
    else none

-- A verdict ends the loop; without one it goes on.
abbrev pub or_continue :
    Option EvaluationDetail
    → State
    → Option EvaluationDetail × State
    → Option EvaluationDetail × State
or_continue (some detail) s rest = (some detail, s)
or_continue none s rest = rest

-- The loop over the prerequisites: `none` if all are met.
unfoldable pub check_prerequisites :
    World
    → (Flag → State → EvaluationDetail × State)
    → Flag
    → List Prerequisite
    → State
    → Option EvaluationDetail × State
check_prerequisites w eval flag [] s = (none, s)
check_prerequisites w eval flag (p ∷ ps) s =
    let (resolved, t) = resolve_prerequisite w eval p.prerequisite_flag_key s in
    let rest = check_prerequisites w eval flag ps t in
    or_continue (prerequisite_verdict w.platform flag p resolved) t rest

-- The flag's own result, kept in the memo.
after_prerequisites : World → Flag → Option EvaluationDetail × State → EvaluationDetail × State
after_prerequisites w flag (some detail, s) = memoize flag.key detail s
after_prerequisites w flag (none, s) =
    let (detail, seen) = serve_rules w flag s.seen in
    memoize flag.key detail (record s { seen = seen })

unfoldable pub evaluate_internal : World → ℕ → Flag → State → EvaluationDetail × State
unfolding after_prerequisites
evaluate_internal w zero flag s = (serve_off w.platform flag error [], s)
evaluate_internal w (suc levels) flag s =
    let rest =
      after_prerequisites w flag
        (check_prerequisites w (evaluate_internal w levels) flag flag.prerequisites s) in
    if flag.enabled then rest else (serve_off w.platform flag flag_disabled [], s)

-- evaluateWithSharedMemo: the caller's memo is the state's.
unfoldable pub evaluate_with_shared_memo : World → Flag → State → EvaluationDetail × State
evaluate_with_shared_memo w flag s = evaluate_internal w (suc max_prerequisite_depth) flag s

unfoldable pub evaluate : World → Flag → List Text → EvaluationDetail × List Text
evaluate w flag seen =
    let (detail, s) =
      evaluate_internal w (suc max_prerequisite_depth) flag (record { memo = []; seen = seen }) in
    (detail, s.seen)
