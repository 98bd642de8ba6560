-- ===== src/Updates/Closure.antt =====
-- updates.go, addPrerequisiteDependents: the set it computes is the closure under dependents.
pub use featureflip_go.Updates.Members.{Has, not-Has_nil, Has-cons, Has-head, Has-cases, Has-append}
use featureflip_go.Base.{
  ◌↔◌, ℕ, zero, suc, ◌+◌, ◌≤◌, ◌<◌, ◌≡◌, refl, sym, subst, false, not, List, [], ◌∷◌, Text,
  is_empty, any, length, arith, Bool-cases, ◌⊎◌, inl, inr,
}
use featureflip_go.Models.{Flag, Prerequisite}
use featureflip_go.Updates.{
  prerequisite_rows, dependents, visit, walk, has_rows, add_prerequisite_dependents,
}
use featureflip_go.Updates.Visits.{Visited, visit-Visited, unseen, visit_measure, dependents-keys}

-- `k` depends, through any number of prerequisites, on a key of `start`.
pub data Reaches (flags : List Flag) (start : List Text) : Text → Type 0 where
  given : (k : Text) → Has k start → Reaches flags start k
  through :
      (j k : Text) → Reaches flags start j → Has k (dependents flags j) → Reaches flags start k

-- Closed under dependents.
abbrev pub IsClosed : List Flag → List Text → Type 0
IsClosed flags set = (j k : Text) → Has j set → Has k (dependents flags j) → Has k set

module _ (flags : List Flag) where
  -- A key of the set waits in the queue, or its dependents are in the set.
  abbrev IsPending : List Text → List Text → Type 0
  IsPending changed queue =
      (j : Text)
      → Has j changed
      → Has j queue ⊎ ((k : Text) → Has k (dependents flags j) → Has k changed)

  step-IsPending :
      (key : Text) (changed queue : List Text) {r : List Text × List Text}
      → Visited (dependents flags key) changed queue r
      → IsPending changed (key ∷ queue)
      → IsPending r.0 r.1
  step-IsPending key changed queue v pending j h = elim (v.queued j h) [
    | inr l ↦ inl l
    | inl old ↦ elim (pending j old) [
      | inr all_in ↦ inr (λ k d. v.grows k (all_in k d))
      | inl waits ↦ elim (Has-cases j key queue waits) [
        | inl e ↦ inr (λ k d. v.covers k (subst (λ x. Has k (dependents flags x)) (sym e) d))
        | inr l ↦ inl (v.keeps j l)
      ]
    ]
  ]

  walk-IsClosed :
      (fuel : ℕ) (changed queue : List Text)
      → length queue + unseen flags changed < fuel
      → IsPending changed queue
      → IsClosed flags (walk flags fuel changed queue)
        × ((k : Text) → Has k changed → Has k (walk flags fuel changed queue))
  unfolding walk
  walk-IsClosed zero changed queue l pending = absurd (omega arith)
  walk-IsClosed (suc fuel) changed [] l pending = (
    λ j k h d. elim (pending j h) [
      | inl waits ↦ absurd (not-Has_nil j waits)
      | inr all_in ↦ all_in k d
    ],
    λ k h. h,
  )
  walk-IsClosed (suc fuel) changed (key ∷ queue) l pending =
      let v = visit-Visited (dependents flags key) changed queue in
      let (closed, kept) =
        walk-IsClosed fuel (visit (dependents flags key) changed queue).0
          (visit (dependents flags key) changed queue).1
          (omega (
            arith,
            visit_measure flags (dependents flags key) changed queue (dependents-keys flags key),
          ))
          (step-IsPending key changed queue v pending) in
      (closed, λ k h. kept k (v.grows k h))

  walk-Reaches :
      (start : List Text) (fuel : ℕ) (changed queue : List Text)
      → ((k : Text) → Has k changed → Reaches flags start k)
      → ((k : Text) → Has k queue → Reaches flags start k)
      → (k : Text) → Has k (walk flags fuel changed queue)
      → Reaches flags start k
  unfolding walk
  walk-Reaches start zero changed queue c q k h = c k h
  walk-Reaches start (suc fuel) changed [] c q k h = c k h
  walk-Reaches start (suc fuel) changed (key ∷ queue) c q k h =
      let v = visit-Visited (dependents flags key) changed queue in
      let from_key = q key (Has-head key queue) in
      walk-Reaches start fuel (visit (dependents flags key) changed queue).0
        (visit (dependents flags key) changed queue).1
        (λ j m. elim (v.only j m) [ inl l ↦ c j l | inr l ↦ Reaches.through key j from_key l ])
        (λ j m. elim (v.queue_only j m) [
          | inl l ↦ q j (Has-cons j key queue l)
          | inr l ↦ Reaches.through key j from_key l
        ])
        k h

unseen-le-length : (fs : List Flag) (changed : List Text) → unseen fs changed ≤ length fs
unfolding unseen
unseen-le-length [] changed = omega arith
unseen-le-length (f ∷ fs) changed = ground (arith, unseen-le-length fs changed)

rows_empty :
    (d : Text) (ps : List Prerequisite) (key : Text)
    → any (λ p. not (is_empty p.prerequisite_flag_key)) ps ≡ false
    → prerequisite_rows d ps key ≡ []
unfolding prerequisite_rows
rows_empty d [] key h = refl
rows_empty d (p ∷ ps) key h = ground (arith, rows_empty d ps key)

dependents_empty : (fs : List Flag) (key : Text) → any has_rows fs ≡ false → dependents fs key ≡ []
unfolding dependents
dependents_empty [] key h = refl
dependents_empty (f ∷ fs) key h =
    ground (arith, rows_empty f.key f.prerequisites key, dependents_empty fs key)

Reaches-IsClosed :
    (flags : List Flag) (start set : List Text)
    → ((k : Text) → Has k start → Has k set)
    → IsClosed flags set
    → {k : Text} → Reaches flags start k
    → Has k set
Reaches-IsClosed flags start set within closed (Reaches.given k h) = within k h
Reaches-IsClosed flags start set within closed (Reaches.through j k r h) =
    closed j k (Reaches-IsClosed flags start set within closed r) h

-- The expanded set holds exactly the keys that depend, through any number of prerequisite rows, on a
-- key of the given set, those themselves included; cycles of prerequisites do no harm.
pub add_prerequisite_dependents-Reaches :
    (flags : List Flag) (changed : List Text) (k : Text)
    → Has k (add_prerequisite_dependents flags changed) ↔ Reaches flags changed k
unfolding add_prerequisite_dependents
add_prerequisite_dependents-Reaches flags changed k = elim (Bool-cases (any has_rows flags)) [
  | inl some_rows ↦
      let (closed, kept) =
        walk-IsClosed flags (suc (length changed + length flags)) changed changed
          (omega (arith, unseen-le-length flags changed)) (λ j h. inl h) in
      rw some_rows (
        walk-Reaches flags changed (suc (length changed + length flags)) changed changed
            (λ j h. Reaches.given j h) (λ j h. Reaches.given j h) k,
        Reaches-IsClosed flags changed _ kept closed,
      )
  | inr no_rows ↦ rw no_rows (
    λ h. Reaches.given k h,
    Reaches-IsClosed flags changed changed (λ j h. h)
        (λ i j h d. absurd (not-Has_nil j (subst (Has j) (dependents_empty flags i no_rows) d))),
  )
]
