-- ===== src/Unevaluable/Laws.antt =====
-- unevaluable.go: exactly the entities whose enum values are all known, or absent, are kept.
use mathlib.Core.HLevel.{×_prop}
use mathlib.Core.List.{Mem, Mem-prop, mem-cons, not-mem-nil}
use mathlib.Core.Logic.Or
use featureflip_go.Base.{
  ◌≡◌, refl, inl, inr, ◌↔◌, Bool, true, false, ◌||◌, List, [], ◌∷◌, Option, none, some, Text,
  is_empty, All, arith, Bool-cases, sym, ap, ◌∙◌,
}
use featureflip_go.Models.{Flag, Rule, ConditionGroup, ServeConfig, Segment}
use featureflip_go.Unevaluable.{
  known_serve_type, known_condition_logic, unevaluable_serve_reason, groups_reason, rules_reason,
  unevaluable_flag_reason, unevaluable_segment_reason, drop_unevaluable, keep, is_none, rule_type,
  fallthrough_type, or_else, Unevaluable,
}

abbrev pub IsKnownServe : ServeConfig → Type 0
IsKnownServe s = (is_empty s.serve_type || known_serve_type s.serve_type) ≡ true

abbrev pub IsKnownLogic : Text → Type 0
IsKnownLogic t = (is_empty t || known_condition_logic t) ≡ true

-- Every enum value that the flag carries is absent or known.
pub record IsEvaluable (f : Flag) : Type 0 where
  pub fallthrough_known : IsKnownServe f.fallthrough
  pub rules_known :
      All
        (λ r. IsKnownServe r.serve × All (λ g. IsKnownLogic g.operator) r.condition_groups)
        f.rules

serve_known :
    (s : ServeConfig) (reason : Text → Unevaluable)
    → (unevaluable_serve_reason s reason ≡ none) ↔ IsKnownServe s
unfolding unevaluable_serve_reason
serve_known s reason = ground arith

groups_known :
    (id : Text) (gs : List ConditionGroup)
    → (groups_reason id gs ≡ none) ↔ All (λ g. IsKnownLogic g.operator) gs
unfolding groups_reason
groups_known id [] = (λ h. tt, λ h. refl)
groups_known id (g ∷ gs) = ground (arith, groups_known id gs)

or_else-none : (a b : Option Unevaluable) → (or_else a b ≡ none) ↔ ((a ≡ none) × (b ≡ none))
or_else-none none b = (λ h. (refl, h), λ h. h.1)
or_else-none (some r) b = (λ h. absurd (some-ne-none h), λ h. absurd (some-ne-none h.0))
  where
    some-ne-none : ¬ (some r ≡ none)
    some-ne-none h = cc

rules_known_lem :
    (rs : List Rule)
    → (rules_reason rs ≡ none)
      ↔ All (λ r. IsKnownServe r.serve × All (λ g. IsKnownLogic g.operator) r.condition_groups) rs
unfolding rules_reason
rules_known_lem [] = (λ h. tt, λ h. refl)
rules_known_lem (r ∷ rs) =
    let serve = unevaluable_serve_reason r.serve (rule_type r.id) in
    let groups = groups_reason r.id r.condition_groups in
    (
      λ h.
          let (a, rest) = (or_else-none serve (or_else groups (rules_reason rs))).0 h in
          let (b, c) = (or_else-none groups (rules_reason rs)).0 rest in
          (
            (
              (serve_known r.serve (rule_type r.id)).0 a,
              (groups_known r.id r.condition_groups).0 b,
            ),
            (rules_known_lem rs).0 c,
          ),
      λ h. (or_else-none serve (or_else groups (rules_reason rs))).1 (
        (serve_known r.serve (rule_type r.id)).1 h.0.0,
        (or_else-none groups (rules_reason rs)).1
            ((groups_known r.id r.condition_groups).1 h.0.1, (rules_known_lem rs).1 h.1),
      ),
    )

pub flag_known : (f : Flag) → (unevaluable_flag_reason f ≡ none) ↔ IsEvaluable f
unfolding unevaluable_flag_reason
flag_known f =
    let both =
      or_else-none (unevaluable_serve_reason f.fallthrough fallthrough_type)
        (rules_reason f.rules) in
    (
      λ h. record {
        fallthrough_known = (serve_known f.fallthrough fallthrough_type).0 (both.0 h).0;
        rules_known = (rules_known_lem f.rules).0 (both.0 h).1;
      },
      λ h. both.1 (
        (serve_known f.fallthrough fallthrough_type).1 h.fallthrough_known,
        (rules_known_lem f.rules).1 h.rules_known,
      ),
    )

pub segment_known :
    (s : Segment) → (unevaluable_segment_reason s ≡ none) ↔ IsKnownLogic s.condition_logic
unfolding unevaluable_segment_reason
segment_known s = ground arith

pub is_none_iff {ℓ} : {A : Type ℓ} (o : Option A) → (is_none o ≡ true) ↔ (o ≡ none)
is_none_iff none = (λ h. refl, λ h. refl)
is_none_iff (some a) = (λ h. cc, λ h. cc)

Bool-is_set : IsSet Bool
Bool-is_set = hlevel

contradiction : {b : Bool} → b ≡ false → ¬ (b ≡ true)
contradiction h k = cc

module _ {ℓ} {A : Type ℓ} (test : A → Bool) where
  mem-keep : (a : A) (xs : List A) → Mem a (keep test xs) ↔ (Mem a xs × (test a ≡ true))
  unfolding keep
  mem-keep a [] = (λ m. absurd (not-mem-nil m), λ h. h.0)
  mem-keep a (x ∷ xs) = elim (Bool-cases (test x)) [
    | inl t ↦ rw t (
      λ m.
          Or.elim (×_prop Mem-prop (Bool-is_set _ _)) (mem-cons.0 m)
            (λ e. (mem-cons.1 (Or.inl e), ap test e ∙ t))
            (λ r. (mem-cons.1 (Or.inr ((mem-keep a xs).0 r).0), ((mem-keep a xs).0 r).1)),
      λ h.
          Or.elim Mem-prop (mem-cons.0 h.0) (λ e. mem-cons.1 (Or.inl e))
            (λ r. mem-cons.1 (Or.inr ((mem-keep a xs).1 (r, h.1)))),
    )
    | inr t ↦ rw t (
      λ m. (mem-cons.1 (Or.inr ((mem-keep a xs).0 m).0), ((mem-keep a xs).0 m).1),
      λ h.
          Or.elim Mem-prop (mem-cons.0 h.0) (λ e. absurd (contradiction t (sym (ap test e) ∙ h.1)))
            (λ r. (mem-keep a xs).1 (r, h.1)),
    )
  ]

-- A flag of the snapshot is applied exactly when every serve type and condition logic that it carries
-- is absent or one that this build knows.
pub drop_unevaluable-flags :
    (flags : List Flag) (segments : List Segment) (f : Flag)
    → Mem f (drop_unevaluable flags segments).0 ↔ (Mem f flags × IsEvaluable f)
unfolding drop_unevaluable
drop_unevaluable-flags flags segments f =
    let kept = mem-keep (λ g. is_none (unevaluable_flag_reason g)) f flags in
    let known = is_none_iff (unevaluable_flag_reason f) in
    (
      λ m. ((kept.0 m).0, (flag_known f).0 (known.0 (kept.0 m).1)),
      λ h. kept.1 (h.0, known.1 ((flag_known f).1 h.1)),
    )

-- A segment of the snapshot is applied exactly when its condition logic is absent, And or Or.
pub drop_unevaluable-segments :
    (flags : List Flag) (segments : List Segment) (s : Segment)
    → Mem s (drop_unevaluable flags segments).1 ↔ (Mem s segments × IsKnownLogic s.condition_logic)
unfolding drop_unevaluable
drop_unevaluable-segments flags segments s =
    let kept = mem-keep (λ t. is_none (unevaluable_segment_reason t)) s segments in
    let known = is_none_iff (unevaluable_segment_reason s) in
    (
      λ m. ((kept.0 m).0, (segment_known s).0 (known.0 (kept.0 m).1)),
      λ h. kept.1 (h.0, known.1 ((segment_known s).1 h.1)),
    )
