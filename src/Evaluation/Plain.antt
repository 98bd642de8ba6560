-- ===== src/Evaluation/Plain.antt =====
-- evaluation.go: the evaluation of a flag without prerequisites and rules.
use featureflip_go.Base.{◌≡◌, refl, ap, Bool, true, List, [], some, Text}
use featureflip_go.Models.{Flag, Rule, fallthrough}
use featureflip_go.Evaluation.Serve.{resolve_serve}
use featureflip_go.Evaluation.{
  World, evaluate, evaluate_internal, check_prerequisites, after_prerequisites, serve_rules,
  match_rules, or_fallthrough, serve_fallthrough, served,
}

module _ (w : World)
    (sorts_nothing : (less : Rule → Rule → Bool) → w.platform.sort_slice less [] ≡ []) where
  serve_rules-plain :
      (flag : Flag) (key : Text) (seen : List Text)
      → flag.rules ≡ []
      → resolve_serve w.platform flag.fallthrough w.ctx ≡ some key
      → serve_rules w flag seen ≡ (served w.platform flag key fallthrough [], seen)
  unfolding serve_rules match_rules or_fallthrough serve_fallthrough
  serve_rules-plain flag key seen none_given serves =
      rw (serve_rules, none_given, sorts_nothing, serve_fallthrough, serves) refl

  pub evaluate-plain :
      (flag : Flag) (key : Text) (seen : List Text)
      → flag.enabled ≡ true
      → flag.prerequisites ≡ []
      → flag.rules ≡ []
      → resolve_serve w.platform flag.fallthrough w.ctx ≡ some key
      → (evaluate w flag seen).0 ≡ served w.platform flag key fallthrough []
  unfolding evaluate evaluate_internal check_prerequisites after_prerequisites serve_rules served
      serve_fallthrough match_rules
  evaluate-plain flag key seen enabled free none_given serves =
      rw (evaluate, evaluate_internal, enabled, free, check_prerequisites)
        (ap (λ r. r.0) (serve_rules-plain flag key seen none_given serves))
