-- ===== src/Evaluation/Agreement.antt =====
-- evaluation.go: two configurations that agree on the flags that an evaluation reaches, and on the
-- segments that their rules name.
use mathlib.Core.List.{Mem, mem-cons_self, mem-cons_of_mem}
use mathlib.Core.List.Perm
use mathlib.Core.Option
use featureflip_go.Base.{
  ℕ, zero, suc, ◌≡◌, refl, ap, ◌∙◌, Bool, true, List, [], ◌∷◌, Option, none, some, Text, All,
  All-mem, All-map, is_empty, ◌⊎◌, inl, inr, if◌then◌else◌, arith,
}
use featureflip_go.Base.Dict.{Dict, lookup}
use featureflip_go.Base.Int.{ltb_ℤ}
use featureflip_go.Evaluation.Unbucketable.{warn_unbucketable}
use featureflip_go.Models.{
  flag_disabled, Flag, Rule, Segment, Prerequisite, EvaluationContext, EvaluationDetail,
}
use featureflip_go.Platform.{Platform}
use featureflip_go.Evaluation.Serve.{bucket_by_of}
use featureflip_go.Evaluation.Rules.{Sorts, sorted_rules}
use featureflip_go.Evaluation.Reference.{reference, reference_verdict, or_rules, rules_detail}
use featureflip_go.Evaluation.{
  World, rule_matches, segment_matches, match_rules, serve_rules, serve_fallthrough, or_fallthrough,
  serve_off,
}

Bool-IsSet : IsSet Bool
Bool-IsSet = hlevel

All-of_mem {ℓ κ} :
    {A : Type ℓ} {P : A → Type κ} (xs : List A) → ((x : A) → Mem x xs → P x) → All P xs
All-of_mem [] h = tt
All-of_mem (x ∷ xs) h = (h x mem-cons_self, All-of_mem xs (λ y m. h y (mem-cons_of_mem x m)))

module _ (go : Platform) (ctx : EvaluationContext) (segments segments' : Dict Segment)
    (flags flags' : Dict Flag) where
  abbrev before : World
  before = record { platform = go; ctx = ctx; segments = segments; flags = flags }

  abbrev after : World
  after = record { platform = go; ctx = ctx; segments = segments'; flags = flags' }

  -- The segment that the rule names, if any, is the same.
  abbrev pub IsSameSegment : Rule → Type 0
  IsSameSegment r =
      (is_empty r.segment_key ≡ true)
      ⊎ (lookup r.segment_key segments ≡ lookup r.segment_key segments')

  rule_matches_agrees : (r : Rule) → IsSameSegment r → rule_matches before r ≡ rule_matches after r
  unfolding rule_matches segment_matches
  rule_matches_agrees r (inl e) = rw e refl
  rule_matches_agrees r (inr e) = rw e refl

  match_rules_agrees :
      (f : Flag) (rules : List Rule) (seen : List Text)
      → All (λ r. rule_matches before r ≡ rule_matches after r) rules
      → match_rules before f rules seen ≡ match_rules after f rules seen
  unfolding match_rules
  match_rules_agrees f [] seen h = refl
  match_rules_agrees f (r ∷ rules) seen h = ground (
    arith,
    h.0,
    match_rules_agrees f rules seen h.1,
    match_rules_agrees f rules (warn_unbucketable f.key r.id (bucket_by_of r.serve) seen) h.1,
  )

  serve_rules_agrees :
      (f : Flag)
      → Sorts go
      → All IsSameSegment f.rules
      → rules_detail before f ≡ rules_detail after f
  unfolding serve_rules or_fallthrough serve_fallthrough
  serve_rules_agrees f sorts h =
      let matches : All (λ r. rule_matches before r ≡ rule_matches after r) f.rules =
        All-map rule_matches_agrees f.rules h in
      let sorted : All (λ r. rule_matches before r ≡ rule_matches after r) (sorted_rules before f) =
        All-of_mem (sorted_rules before f) (λ r m.
          All-mem (λ x. Bool-IsSet _ _) f.rules matches
            (Perm.subset (sorts.keeps (λ a b. ltb_ℤ a.priority b.priority) f.rules) r m)) in
      ap (λ o. (or_fallthrough before f o).0)
        (match_rules_agrees f (sorted_rules before f) [] sorted)
      ∙ or_fallthrough_same (match_rules after f (sorted_rules after f) [])
    where
      or_fallthrough_same :
          (o : Option EvaluationDetail × List Text)
          → (or_fallthrough before f o).0 ≡ (or_fallthrough after f o).0
      or_fallthrough_same (none, seen) = refl
      or_fallthrough_same (some d, seen) = refl

  module _ (Quiet : Text → Type 0) (sorts : Sorts go)
      (held : (k : Text) → Quiet k → lookup k flags ≡ lookup k flags')
      (prerequisites : (k : Text) (f : Flag)
        → Quiet k
        → lookup k flags' ≡ some f
        → All (λ p. Quiet p.prerequisite_flag_key) f.prerequisites)
      (rules : (k : Text) (f : Flag)
        → Quiet k
        → lookup k flags' ≡ some f
        → All IsSameSegment f.rules) where
    verdict_agrees :
        (e e' : Flag → EvaluationDetail) (f : Flag) (ps : List Prerequisite)
        → All (λ p. Quiet p.prerequisite_flag_key) ps
        → ((j : Text) (g : Flag) → Quiet j → lookup j flags' ≡ some g → e g ≡ e' g)
        → reference_verdict before e f ps ≡ reference_verdict after e' f ps
    unfolding reference_verdict
    verdict_agrees e e' f [] quiet same = refl
    verdict_agrees e e' f (p ∷ ps) quiet same = cc (resolved, verdict_agrees e e' f ps quiet.1 same)
      where
        at :
            (o : Option Flag)
            → lookup p.prerequisite_flag_key flags' ≡ o
            → Option.map e o ≡ Option.map e' o
        at none h = refl
        at (some g) h = ap some (same p.prerequisite_flag_key g quiet.0 h)

        resolved :
            Option.map e (lookup p.prerequisite_flag_key flags)
            ≡ Option.map e' (lookup p.prerequisite_flag_key flags')
        resolved = ap (Option.map e) (held p.prerequisite_flag_key quiet.0) ∙ at _ refl

    -- A flag whose key is quiet has one result in both configurations, if they agree on the quiet
    -- keys, and the prerequisites of a quiet flag are quiet and its segments the same.
    pub reference_agrees :
        (levels : ℕ) (k : Text) (f : Flag)
        → Quiet k
        → lookup k flags' ≡ some f
        → reference before levels f ≡ reference after levels f
    unfolding reference
    reference_agrees zero k f quiet h = refl
    reference_agrees (suc levels) k f quiet h =
        ap (λ d. if f.enabled then d else serve_off go f flag_disabled [])
          (ap (or_rules before f) (
              verdict_agrees (reference before levels) (reference after levels) f f.prerequisites
                (prerequisites k f quiet h) (λ j g q at. reference_agrees levels j g q at))
            ∙ or_rules_same (reference_verdict after (reference after levels) f f.prerequisites))
      where
        or_rules_same : (o : Option EvaluationDetail) → or_rules before f o ≡ or_rules after f o
        or_rules_same none = serve_rules_agrees f sorts (rules k f quiet h)
        or_rules_same (some d) = refl
