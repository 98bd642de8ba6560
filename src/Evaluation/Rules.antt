-- ===== src/Evaluation/Rules.antt =====
-- evaluation.go, the loop over the sorted rules: which rule decides. The sort is not stable, so the
-- order of rules of one priority is not fixed.
use mathlib.Core.List.{Mem, Perm}
use mathlib.Core.List.Perm
use mathlib.Core.Logic.Or
use featureflip_go.Base.{
  ◌≡◌, sym, ◌∙◌, Bool, true, false, List, [], ◌∷◌, ◌++◌, Option, none, some, Text, All, All-mem,
  All-map, arith, Option-cases, inl, inr, none-ne-some,
}
use featureflip_go.Base.Int.{ℤ, ltb_ℤ, ◌≤ℤ◌}
use featureflip_go.Models.{Flag, Rule, EvaluationDetail, rule_match}
use featureflip_go.Platform.{Platform}
use featureflip_go.Evaluation.Serve.{resolve_serve, bucket_by_of}
use featureflip_go.Evaluation.Unbucketable.{warn_unbucketable}
use featureflip_go.Evaluation.Reference.{match_rules_seen}
use mathlib.Core.HLevel.{¬_prop}
use featureflip_go.Evaluation.{World, served, rule_matches, match_rules}

-- What a rule serves: `none` if it does not match, or matches and cannot bucket the context.
unfoldable pub rule_serves : World → Rule → Option Text
rule_serves w rule = elim (rule_matches w rule) [
  | false ↦ none
  | true ↦ resolve_serve w.platform rule.serve w.ctx
]

-- In ascending order of the key.
abbrev pub IsSorted : (Rule → ℤ) → List Rule → Type 0
IsSorted key [] = Unit
IsSorted key (x ∷ xs) = All (λ y. key x ≤ℤ key y) xs × IsSorted key xs

-- What sort.Slice promises: the same rules, in ascending order where `less` compares a key.
pub record Sorts (go : Platform) : Type 0 where
  pub keeps :
      (less : Rule → Rule → Bool) (rules : List Rule) → Perm (go.sort_slice less rules) rules
  pub orders :
      (key : Rule → ℤ) (rules : List Rule)
      → IsSorted key (go.sort_slice (λ a b. ltb_ℤ (key a) (key b)) rules)

-- The rule that decides, with those before it.
pub record Decides (w : World) (flag : Flag) (rules : List Rule) (d : EvaluationDetail)
    : Type 0 where
  pub earlier : List Rule
  pub rule : Rule
  pub later : List Rule
  pub key : Text
  pub place : rules ≡ earlier ++ rule ∷ later
  pub passed : All (λ r. rule_serves w r ≡ none) earlier
  pub serves : rule_serves w rule ≡ some key
  pub detail : d ≡ served w.platform flag key rule_match rule.id

match_rules-served :
    (w : World) (flag : Flag) (rule : Rule) (rules : List Rule) (seen : List Text) {key : Text}
    → rule_serves w rule ≡ some key
    → (match_rules w flag (rule ∷ rules) seen).0
      ≡ some (served w.platform flag key rule_match rule.id)
unfolding match_rules rule_serves
match_rules-served w flag rule rules seen h = ground arith

match_rules_passed :
    (w : World) (flag : Flag) (rule : Rule) (rules : List Rule) (seen : List Text)
    → rule_serves w rule ≡ none
    → (match_rules w flag (rule ∷ rules) seen).0 ≡ (match_rules w flag rules seen).0
unfolding match_rules rule_serves
match_rules_passed w flag rule rules seen h = ground (
  arith,
  match_rules_seen w flag rules seen
      (warn_unbucketable flag.key rule.id (bucket_by_of rule.serve) seen),
)

match_rules-none :
    (w : World) (flag : Flag) (rules : List Rule) (seen : List Text)
    → (match_rules w flag rules seen).0 ≡ none
    → All (λ r. rule_serves w r ≡ none) rules
match_rules-none w flag [] seen h = tt
match_rules-none w flag (rule ∷ rules) seen h = elim (Option-cases (rule_serves w rule)) [
  | inl n ↦ (
    n,
    match_rules-none w flag rules seen (sym (match_rules_passed w flag rule rules seen n) ∙ h),
  )
  | inr (key, e) ↦ absurd (none-ne-some (sym h ∙ match_rules-served w flag rule rules seen e))
]

-- The rules in the order in which they are tried.
abbrev pub sorted_rules : World → Flag → List Rule
sorted_rules w flag = w.platform.sort_slice (λ a b. ltb_ℤ a.priority b.priority) flag.rules

passed_over :
    (w : World) (q : Rule) (k : Text) (rules : List Rule)
    → All (λ r. rule_serves w r ≡ none) rules
    → Mem q rules
    → ¬ (rule_serves w q ≡ some k)
passed_over w q k rules h m =
    All-mem {P = λ r. ¬ (rule_serves w r ≡ some k)} (λ r. ¬_prop) rules
      (All-map (λ r n e. none-ne-some (sym n ∙ e)) rules h) m

-- Given what sort.Slice promises: if no rule decides, none of the flag's rules serves the context.
pub match_rules_fallthrough :
    (w : World) (flag : Flag) (seen : List Text)
    → Sorts w.platform
    → (match_rules w flag (sorted_rules w flag) seen).0 ≡ none
    → (q : Rule) → Mem q flag.rules
    → rule_serves w q ≡ none
match_rules_fallthrough w flag seen sorts h q m = elim (Option-cases (rule_serves w q)) [
  | inl n ↦ n
  | inr (k, e) ↦ absurd (
      passed_over w q k (sorted_rules w flag) (match_rules-none w flag (sorted_rules w flag) seen h)
        (Perm.subset (Perm.symm (sorts.keeps (λ a b. ltb_ℤ a.priority b.priority) flag.rules)) q m)
        e)
]
