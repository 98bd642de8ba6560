-- ===== src/Evaluation/Reference.antt =====
-- The evaluation without a memo: an independent description of evaluateInternal, in which every
-- prerequisite is evaluated afresh. It does not depend on the levels once they exceed the flag's
-- rank among its prerequisites.
use mathlib.Core.Option
use featureflip_go.Base.{
  ℕ, zero, suc, ◌<◌, ◌≡◌, refl, sym, ap, ◌∙◌, List, [], ◌∷◌, Option, none, some, Text, All, arith,
  Option-cases, Bool-cases, inl, inr, if◌then◌else◌,
}
use featureflip_go.Base.Dict.{Dict, lookup}
use featureflip_go.Models.{Flag, Rule, Prerequisite, EvaluationDetail, flag_disabled, error}
use featureflip_go.Evaluation.Serve.{resolve_serve}
use featureflip_go.Evaluation.{
  World, serve_off, rule_matches, match_rules, serve_fallthrough, or_fallthrough, serve_rules,
  prerequisite_verdict,
}

abbrev pub or_next : Option EvaluationDetail → Option EvaluationDetail → Option EvaluationDetail
or_next (some detail) next = some detail
or_next none next = next

unfoldable pub reference_verdict :
    World → (Flag → EvaluationDetail) → Flag → List Prerequisite → Option EvaluationDetail
reference_verdict w eval flag [] = none
reference_verdict w eval flag (p ∷ ps) =
    or_next
      (prerequisite_verdict w.platform flag p
        (Option.map eval (lookup p.prerequisite_flag_key w.flags)))
      (reference_verdict w eval flag ps)

-- The detail of the rules and the fallthrough; the set of logged rollouts does not change it.
abbrev pub rules_detail : World → Flag → EvaluationDetail
rules_detail w flag = (serve_rules w flag []).0

abbrev pub or_rules : World → Flag → Option EvaluationDetail → EvaluationDetail
or_rules w flag (some detail) = detail
or_rules w flag none = rules_detail w flag

unfoldable pub reference : World → ℕ → Flag → EvaluationDetail
reference w zero flag = serve_off w.platform flag error []
reference w (suc levels) flag =
    let rest = or_rules w flag (reference_verdict w (reference w levels) flag flag.prerequisites) in
    if flag.enabled then rest else serve_off w.platform flag flag_disabled []

pub match_rules_seen :
    (w : World) (flag : Flag) (rules : List Rule) (s t : List Text)
    → (match_rules w flag rules s).0 ≡ (match_rules w flag rules t).0
unfolding match_rules
match_rules_seen w flag [] s t = refl
match_rules_seen w flag (rule ∷ rules) s t = elim (Bool-cases (rule_matches w rule)) [
  | inl m ↦ elim (Option-cases (resolve_serve w.platform rule.serve w.ctx)) [
    | inl n ↦ rw (m, match_rules, n, match_rules) (match_rules_seen w flag rules _ _)
    | inr (key, e) ↦ rw (m, match_rules, e, match_rules)
  ]
  | inr m ↦ rw (m, match_rules) (match_rules_seen w flag rules s t)
]

fallthrough_seen :
    (w : World) (flag : Flag) (s t : List Text)
    → (serve_fallthrough w flag s).0 ≡ (serve_fallthrough w flag t).0
unfolding serve_fallthrough
fallthrough_seen w flag s t = ground arith

or_fallthrough_seen :
    (w : World) (flag : Flag) (q r : Option EvaluationDetail × List Text)
    → q.0 ≡ r.0
    → (or_fallthrough w flag q).0 ≡ (or_fallthrough w flag r).0
unfolding or_fallthrough
or_fallthrough_seen w flag (none, s) (none, t) h = fallthrough_seen w flag s t
or_fallthrough_seen w flag (none, s) (some d, t) h = cc
or_fallthrough_seen w flag (some c, s) (none, t) h = cc
or_fallthrough_seen w flag (some c, s) (some d, t) h = cc

pub serve_rules_seen :
    (w : World) (flag : Flag) (s : List Text) → (serve_rules w flag s).0 ≡ rules_detail w flag
unfolding serve_rules
serve_rules_seen w flag s = or_fallthrough_seen w flag _ _ (match_rules_seen w flag _ s [])

-- Every flag stands under its own key, and above the flags that it has as prerequisites.
pub record IsRanked (rank : Text → ℕ) (flags : Dict Flag) : Type 0 where
  pub keyed : (k : Text) (f : Flag) → lookup k flags ≡ some f → f.key ≡ k
  pub falls :
      (k : Text) (f : Flag)
      → lookup k flags ≡ some f
      → All
          (λ p.
            (g : Flag)
            → lookup p.prerequisite_flag_key flags ≡ some g
            → rank p.prerequisite_flag_key < rank k)
          f.prerequisites

module _ (w : World) (rank : Text → ℕ) (ranked : IsRanked rank w.flags) where
  abbrev Below : Text → List Prerequisite → Type 0
  Below k = All (λ p.
      (g : Flag)
      → lookup p.prerequisite_flag_key w.flags ≡ some g
      → rank p.prerequisite_flag_key < rank k)

  verdict_agrees :
      (e e' : Flag → EvaluationDetail) (f : Flag) (k : Text) (ps : List Prerequisite)
      → Below k ps
      → ((j : Text) (g : Flag) → lookup j w.flags ≡ some g → rank j < rank k → e g ≡ e' g)
      → reference_verdict w e f ps ≡ reference_verdict w e' f ps
  unfolding reference_verdict
  verdict_agrees e e' f k [] below same = refl
  verdict_agrees e e' f k (p ∷ ps) below same =
      cc (resolved, verdict_agrees e e' f k ps below.1 same)
    where
      at :
          (o : Option Flag)
          → lookup p.prerequisite_flag_key w.flags ≡ o
          → Option.map e o ≡ Option.map e' o
      at none h = refl
      at (some g) h = ap some (same p.prerequisite_flag_key g h (below.0 g h))

      resolved :
          Option.map e (lookup p.prerequisite_flag_key w.flags)
          ≡ Option.map e' (lookup p.prerequisite_flag_key w.flags)
      resolved = at _ refl

  or_rules_agrees :
      (f : Flag) {q r : Option EvaluationDetail} → q ≡ r → or_rules w f q ≡ or_rules w f r
  or_rules_agrees f h = ap (or_rules w f) h

  -- Enough levels: more of them change nothing.
  pub reference_stable :
      (m n : ℕ) (k : Text) (f : Flag)
      → lookup k w.flags ≡ some f
      → rank k < m
      → rank k < n
      → reference w m f ≡ reference w n f
  unfolding reference
  reference_stable zero n k f h a b = absurd (omega arith)
  reference_stable (suc m) zero k f h a b = absurd (omega arith)
  reference_stable (suc m) (suc n) k f h a b =
      ap (λ o. if f.enabled then or_rules w f o else serve_off w.platform f flag_disabled [])
        (verdict_agrees (reference w m) (reference w n) f k f.prerequisites (ranked.falls k f h)
          λ j g e l. reference_stable m n j g e (omega arith) (omega arith))

  -- The reference result of a stored flag.
  abbrev pub result : Text → Flag → EvaluationDetail
  result k f = reference w (suc (rank k)) f

  pub result_step :
      (k : Text) (f : Flag)
      → lookup k w.flags ≡ some f
      → result k f ≡ (
          if f.enabled
          then or_rules w f (reference_verdict w (λ g. result g.key g) f f.prerequisites)
          else serve_off w.platform f flag_disabled [])
  unfolding reference
  result_step k f h =
      ap (λ o. if f.enabled then or_rules w f o else serve_off w.platform f flag_disabled [])
        (verdict_agrees (reference w (rank k)) (λ g. reference w (suc (rank g.key)) g) f k
          f.prerequisites (ranked.falls k f h)
          λ j g e l.
            reference_stable (rank k) (suc (rank j)) j g e l (omega arith)
            ∙ ap (λ i. reference w (suc (rank i)) g) (sym (ranked.keyed j g e)))
