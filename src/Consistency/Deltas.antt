-- ===== src/Consistency/Deltas.antt =====
-- store.go, setFlag and removeFlag with evaluation.go: the evaluation before and after the change of
-- one flag.
use featureflip_go.Base.{
  ◌≡◌, refl, sym, ◌∙◌, subst, false, List, [], ◌∷◌, Option, none, some, Text, All, All-map,
  is_empty, Bool-cases, inl, inr, if_rule, if_false, text_eq, text_eq_sound, some_eq, none-ne-some,
}
use featureflip_go.Base.Dict.{Dict, lookup, insert, erase, values, lookup-insert, lookup-erase}
use featureflip_go.Models.{Flag, EvaluationContext}
use featureflip_go.Platform.{Platform}
use featureflip_go.Updates.{dependents, is_unchanged, add_prerequisite_dependents}
use featureflip_go.Updates.Closure.{Has, Has-head, Reaches, add_prerequisite_dependents-Reaches}
use featureflip_go.Updates.Covers.{dependents-covers}
use featureflip_go.Updates.Sorting.{member-sorted_keys}
use featureflip_go.Store.{Store, single_change, set_flag, remove_flag}
use featureflip_go.Evaluation.Rules.{Sorts}
use featureflip_go.Evaluation.Agreement.{reference_agrees}
use featureflip_go.Consistency.Lookups.{All-both}
use featureflip_go.Consistency.{IsNamed, Agrees}

values-All {ℓ κ} :
    {V : Type ℓ} (P : V → Type κ) (k : Text) (m : Dict V) {v : V}
    → All P (values m)
    → lookup k m ≡ some v
    → P v
unfolding lookup values
values-All P k [] h e = absurd (none-ne-some e)
values-All P k ((j, w) ∷ m) h e = elim (Bool-cases (text_eq j k)) [
  | inl t ↦ subst P (some_eq (rw t at e)) h.0
  | inr t ↦ values-All P k m h.1 (rw t at e)
]

All-always {ℓ κ} : {A : Type ℓ} {P : A → Type κ} (xs : List A) → ((x : A) → P x) → All P xs
All-always [] h = tt
All-always (x ∷ xs) h = (h x, All-always xs h)

-- A store whose flags differ from another's at one key.
module _ (s : Store) (key : Text) (flags : Dict Flag)
    (elsewhere : (k : Text) → text_eq key k ≡ false → lookup k s.flags ≡ lookup k flags) where
  abbrev Silent : Text → Type 0
  Silent k = ¬ Has k (single_change flags key)

  changes : (k : Text) → Reaches (values flags) (key ∷ []) k → Has k (single_change flags key)
  unfolding single_change
  changes k r =
      member-sorted_keys k (add_prerequisite_dependents (values flags) (key ∷ []))
      ∙ (add_prerequisite_dependents-Reaches (values flags) (key ∷ []) k).1 r

  reached : (k : Text) → Has k (single_change flags key) → Reaches (values flags) (key ∷ []) k
  unfolding single_change
  reached k h =
      (add_prerequisite_dependents-Reaches (values flags) (key ∷ []) k).0
        (sym (member-sorted_keys k (add_prerequisite_dependents (values flags) (key ∷ []))) ∙ h)

  other_key : (k : Text) → Silent k → text_eq key k ≡ false
  other_key k silent = elim (Bool-cases (text_eq key k)) [
    | inl e ↦ absurd (
        silent (
          changes k (
            Reaches.given k
              (subst (λ j. Has j (key ∷ [])) (text_eq_sound key k e) (Has-head key [])))))
    | inr e ↦ e
  ]

  change-held : (k : Text) → Silent k → lookup k s.flags ≡ lookup k flags
  change-held k silent = elsewhere k (other_key k silent)

module _ (go : Platform) (sorts : Sorts go) (s : Store) (key : Text) (flags : Dict Flag)
    (elsewhere : (k : Text) → text_eq key k ≡ false → lookup k s.flags ≡ lookup k flags)
    (keyed : (k : Text) (f : Flag) → lookup k flags ≡ some f → f.key ≡ k)
    (named : IsNamed (record s { flags = flags })) where
  quiet_prerequisites :
      (k : Text) (f : Flag)
      → (Silent s key flags elsewhere) k
      → lookup k flags ≡ some f
      → All (λ p. (Silent s key flags elsewhere) p.prerequisite_flag_key) f.prerequisites
  quiet_prerequisites k f silent h =
      All-map
        (λ p both shown. silent (
          (changes s key flags elsewhere) k (
            Reaches.through p.prerequisite_flag_key k
              ((reached s key flags elsewhere) p.prerequisite_flag_key shown)
              (subst (λ j. Has j (dependents (values flags) p.prerequisite_flag_key)) (keyed k f h)
                (both.0 both.1)))))
        f.prerequisites
        (All-both _ _ f.prerequisites
          (values-All
            (λ g.
              All
                (λ p.
                  is_empty p.prerequisite_flag_key ≡ false
                  → Has g.key (dependents (values flags) p.prerequisite_flag_key))
                g.prerequisites)
            k flags (dependents-covers (values flags)) h)
          (named k f h))

  change-Agrees :
      (ctx : EvaluationContext) (k : Text) (f : Flag)
      → (Silent s key flags elsewhere) k
      → lookup k flags ≡ some f
      → Agrees go ctx s (record s { flags = flags }) k f
  change-Agrees ctx k f silent h = (
    elsewhere k ((other_key s key flags elsewhere) k silent) ∙ h,
    λ levels.
        reference_agrees go ctx s.segments s.segments s.flags flags (Silent s key flags elsewhere)
          sorts (λ j quiet. elsewhere j ((other_key s key flags elsewhere) j quiet))
          quiet_prerequisites (λ j g quiet e. All-always g.rules (λ r. inr refl)) levels k f silent
          h,
  )

-- What a change leaves alone: a flag that is held after it, if flags are then held under their keys
-- and have no prerequisite with the empty key.
abbrev pub Keeps : Platform → EvaluationContext → Text → Flag → Store → Store → Type 0
Keeps go ctx k f s t =
    lookup k t.flags ≡ some f
    → ((j : Text) (g : Flag) → lookup j t.flags ≡ some g → g.key ≡ j)
    → IsNamed t
    → Agrees go ctx s t k f

pub Keeps-same :
    (go : Platform) (ctx : EvaluationContext) (k : Text) (f : Flag) (s : Store)
    → Keeps go ctx k f s s
Keeps-same go ctx k f s h keyed named = (h, λ levels. refl)

module _ (go : Platform) (sorts : Sorts go) (ctx : EvaluationContext) (k : Text) (f : Flag) where
  pub set_flag-Keeps :
      (flag : Flag) (s : Store)
      → ¬ Has k (set_flag go flag s).1
      → Keeps go ctx k f s (set_flag go flag s).0
  unfolding set_flag
  set_flag-Keeps flag s =
      if_rule {A = Store × List Text} (λ r. ¬ Has k r.1 → Keeps go ctx k f s r.0)
        (is_unchanged go.flag_equal flag (lookup flag.key s.flags))
        (λ silent. Keeps-same go ctx k f s)
        (λ silent h keyed named.
          change-Agrees go sorts s flag.key (insert flag.key flag s.flags)
            (λ j e. sym (lookup-insert flag.key j flag s.flags ∙ if_false _ _ e)) keyed named ctx k
            f silent h)

  pub remove_flag-Keeps :
      (key : Text) (s : Store)
      → ¬ Has k (remove_flag key s).1
      → Keeps go ctx k f s (remove_flag key s).0
  unfolding remove_flag
  remove_flag-Keeps key s = at (lookup key s.flags)
    where
      at :
          (o : Option Flag)
          → ¬ Has k
              (elim o as (λ _. Store × List Text) [
                | none ↦ (s, [])
                | some held ↦
                    (record s { flags = erase key s.flags }, single_change (erase key s.flags) key)
              ]).1
          → Keeps go ctx k f s
              (elim o as (λ _. Store × List Text) [
                | none ↦ (s, [])
                | some held ↦
                    (record s { flags = erase key s.flags }, single_change (erase key s.flags) key)
              ]).0
      at none silent = Keeps-same go ctx k f s
      at (some held) silent = λ h keyed named.
          change-Agrees go sorts s key (erase key s.flags)
            (λ j e. sym (lookup-erase key j s.flags ∙ if_false _ _ e)) keyed named ctx k f silent h

-- What is held under a key that a change does not report.
module _ (k : Text) where
  pub set_flag-held :
      (go : Platform) (flag : Flag) (s : Store)
      → ¬ Has k (set_flag go flag s).1
      → lookup k s.flags ≡ lookup k (set_flag go flag s).0.flags
  unfolding set_flag
  set_flag-held go flag s =
      if_rule {A = Store × List Text} (λ r. ¬ Has k r.1 → lookup k s.flags ≡ lookup k r.0.flags)
        (is_unchanged go.flag_equal flag (lookup flag.key s.flags)) (λ silent. refl)
        (λ silent.
          change-held s flag.key (insert flag.key flag s.flags)
            (λ j e. sym (lookup-insert flag.key j flag s.flags ∙ if_false _ _ e)) k silent)

  pub remove_flag-held :
      (key : Text) (s : Store)
      → ¬ Has k (remove_flag key s).1
      → lookup k s.flags ≡ lookup k (remove_flag key s).0.flags
  unfolding remove_flag
  remove_flag-held key s = at (lookup key s.flags)
    where
      removed : Option Flag → Store × List Text
      removed o = elim o as (λ _. Store × List Text) [
        | none ↦ (s, [])
        | some held ↦
            (record s { flags = erase key s.flags }, single_change (erase key s.flags) key)
      ]

      at :
          (o : Option Flag)
          → ¬ Has k (removed o).1
          → lookup k s.flags ≡ lookup k (removed o).0.flags
      at none silent = refl
      at (some held) silent =
          change-held s key (erase key s.flags)
            (λ j e. sym (lookup-erase key j s.flags ∙ if_false _ _ e)) k silent
