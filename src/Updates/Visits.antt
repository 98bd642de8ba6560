-- ===== src/Updates/Visits.antt =====
-- updates.go, addPrerequisiteDependents: one round of the work-list.
use featureflip_go.Base.{
  ℕ, ◌+◌, ◌≤◌, ◌<◌, ◌≡◌, sym, subst, true, false, List, [], ◌∷◌, Text, text_eq_refl, text_eq_sound,
  if◌then◌else◌, length, arith, Bool-cases, if_true, if_false, ◌⊎◌, inl, inr,
}
use featureflip_go.Models.{Flag, Prerequisite}
use featureflip_go.Updates.{member, flag_keys, prerequisite_rows, dependents, visit}
use featureflip_go.Updates.Members.{Has, not-Has_nil, Has-cons, Has-head, Has-cases, Has-append}

-- What a round keeps: the set grows, takes in all of `ds`, and what it gains is queued and among `ds`.
pub record Visited (ds changed queue : List Text) (r : List Text × List Text) : Type 0 where
  pub grows : (k : Text) → Has k changed → Has k r.0
  pub covers : (k : Text) → Has k ds → Has k r.0
  pub keeps : (k : Text) → Has k queue → Has k r.1
  pub queued : (k : Text) → Has k r.0 → Has k changed ⊎ Has k r.1
  pub only : (k : Text) → Has k r.0 → Has k changed ⊎ Has k ds
  pub queue_only : (k : Text) → Has k r.1 → Has k queue ⊎ Has k ds

pub visit-Visited :
    (ds changed queue : List Text) → Visited ds changed queue (visit ds changed queue)
unfolding visit
visit-Visited [] changed queue = record {
  grows = λ k h. h;
  covers = λ k h. absurd (not-Has_nil k h);
  keeps = λ k h. h;
  queued = λ k h. inl h;
  only = λ k h. inl h;
  queue_only = λ k h. inl h;
}
visit-Visited (d ∷ ds) changed queue = elim (Bool-cases (member d changed)) [
  | inl old ↦
      let rest = visit-Visited ds changed queue in
      subst (Visited (d ∷ ds) changed queue) (sym (if_true _ _ old)) (record {
        grows = rest.grows;
        covers = λ k h. elim (Has-cases k d ds h) [
          | inl e ↦ rest.grows k (subst (λ x. Has x changed) e old)
          | inr l ↦ rest.covers k l
        ];
        keeps = rest.keeps;
        queued = rest.queued;
        only = λ k h. elim (rest.only k h) [ inl l ↦ inl l | inr l ↦ inr (Has-cons k d ds l) ];
        queue_only =
            λ k h. elim (rest.queue_only k h) [ inl l ↦ inl l | inr l ↦ inr (Has-cons k d ds l) ];
      })
  | inr new ↦
      let rest = visit-Visited ds (d ∷ changed) (d ∷ queue) in
      subst (Visited (d ∷ ds) changed queue) (sym (if_false _ _ new)) (record {
        grows = λ k h. rest.grows k (Has-cons k d changed h);
        covers = λ k h. elim (Has-cases k d ds h) [
          | inl e ↦ rest.grows k (subst (λ x. Has x (d ∷ changed)) e (Has-head d changed))
          | inr l ↦ rest.covers k l
        ];
        keeps = λ k h. rest.keeps k (Has-cons k d queue h);
        queued = λ k h. elim (rest.queued k h) [
          | inl l ↦ elim (Has-cases k d changed l) [
            | inl e ↦ inr (rest.keeps k (subst (λ x. Has x (d ∷ queue)) e (Has-head d queue)))
            | inr m ↦ inl m
          ]
          | inr l ↦ inr l
        ];
        only = λ k h. elim (rest.only k h) [
          | inl l ↦ elim (Has-cases k d changed l) [
            | inl e ↦ inr (subst (λ x. Has x (d ∷ ds)) e (Has-head d ds))
            | inr m ↦ inl m
          ]
          | inr l ↦ inr (Has-cons k d ds l)
        ];
        queue_only = λ k h. elim (rest.queue_only k h) [
          | inl l ↦ elim (Has-cases k d queue l) [
            | inl e ↦ inr (subst (λ x. Has x (d ∷ ds)) e (Has-head d ds))
            | inr m ↦ inl m
          ]
          | inr l ↦ inr (Has-cons k d ds l)
        ];
      })
]

-- How many flags are not in the set yet.
unfoldable pub unseen : List Flag → List Text → ℕ
unseen [] changed = 0
unseen (f ∷ fs) changed = (if member f.key changed then 0 else 1) + unseen fs changed

pub unseen-cons-le :
    (fs : List Flag) (d : Text) (changed : List Text) → unseen fs (d ∷ changed) ≤ unseen fs changed
unfolding unseen member
unseen-cons-le [] d changed = omega arith
unseen-cons-le (f ∷ fs) d changed = ground (arith, unseen-cons-le fs d changed)

pub unseen-cons-lt :
    (fs : List Flag) (d : Text) (changed : List Text)
    → Has d (flag_keys fs)
    → member d changed ≡ false
    → unseen fs (d ∷ changed) < unseen fs changed
unfolding unseen member flag_keys
unseen-cons-lt [] d changed h n = absurd (contradiction h)
  where
    contradiction : ¬ (false ≡ true)
    contradiction e = cc
unseen-cons-lt (f ∷ fs) d changed h n = ground (
  arith,
  unseen-cons-lt fs d changed,
  unseen-cons-le fs d changed,
  text_eq_sound f.key d,
  text_eq_sound d f.key,
  text_eq_refl d,
)

pub visit_measure :
    (fs : List Flag) (ds changed queue : List Text)
    → ((d : Text) → Has d ds → Has d (flag_keys fs))
    → length (visit ds changed queue).1 + unseen fs (visit ds changed queue).0
      ≤ length queue + unseen fs changed
unfolding visit
visit_measure fs [] changed queue h = omega arith
visit_measure fs (d ∷ ds) changed queue h = ground (
  arith,
  visit_measure fs ds changed queue (λ k m. h k (Has-cons k d ds m)),
  visit_measure fs ds (d ∷ changed) (d ∷ queue) (λ k m. h k (Has-cons k d ds m)),
  unseen-cons-lt fs d changed (h d (Has-head d ds)),
)

pub rows-keys :
    (f : Flag) (ps : List Prerequisite) (key d : Text)
    → Has d (prerequisite_rows f.key ps key)
    → f.key ≡ d
unfolding prerequisite_rows member
rows-keys f [] key d h = absurd (contradiction h)
  where
    contradiction : ¬ (false ≡ true)
    contradiction e = cc
rows-keys f (p ∷ ps) key d h = ground (arith, rows-keys f ps key d, text_eq_sound f.key d)

pub dependents-keys :
    (fs : List Flag) (key d : Text) → Has d (dependents fs key) → Has d (flag_keys fs)
unfolding dependents flag_keys
dependents-keys [] key d h = h
dependents-keys (f ∷ fs) key d h =
    elim (Has-append d (prerequisite_rows f.key f.prerequisites key) (dependents fs key) h) [
      | inl l ↦
          subst (λ x. Has x (f.key ∷ flag_keys fs)) (rows-keys f f.prerequisites key d l)
            (Has-head f.key (flag_keys fs))
      | inr l ↦ Has-cons d f.key (flag_keys fs) (dependents-keys fs key d l)
    ]
