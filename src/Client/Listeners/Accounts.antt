-- ===== src/Client/Listeners/Accounts.antt =====
-- featureflip.go and shared_core.go: a step of a call, and the listeners that are registered.
use featureflip_go.Base.{
  ℕ, ◌+◌, ◌≤◌, ◌<◌, ◌≡◌, ap, List, [], ◌∷◌, ◌++◌, if◌then◌else◌, if_rule, if_cases, ◌==◌, arith,
  sum, sum-append, one_if, Bool-cases, ◌⊎◌, inl, inr,
}
use featureflip_go.Client.Listeners.{delete}
use featureflip_go.Client.Listeners.Overlap.{
  Task, checking, adding, recording, disposing, taking, dropping, over, Desk, advance,
}

-- How often an id is in a list, and among the registered listeners.
abbrev pub occurs : ℕ → List ℕ → ℕ
occurs id ids = sum (λ j. one_if (j == id)) ids

module _ {ℓ} {L : Type ℓ} where
  abbrev pub registered : ℕ → List (ℕ × L) → ℕ
  registered id ls = sum (λ e. one_if (e.0 == id)) ls

  -- The goroutine is to record the id at its handle, or to unsubscribe it.
  abbrev pub holds : ℕ → Task L → ℕ
  holds id (recording h j) = one_if (j == id)
  holds id (dropping ids) = occurs id ids
  holds id _ = 0

  pub registered-delete :
      (id i : ℕ) (ls : List (ℕ × L))
      → registered id (delete i ls) ≡ (if i == id then 0 else registered id ls)
  unfolding delete
  registered-delete id i [] = ground arith
  registered-delete id i ((j, l) ∷ ls) = ground (arith, registered-delete id i ls)

  registered-add :
      (id n : ℕ) (l : L) (ls : List (ℕ × L))
      → registered id (ls ++ (n, l) ∷ []) ≡ registered id ls + one_if (n == id)
  registered-add id n l ls =
      omega (arith, sum-append (λ (e : ℕ × L). one_if (e.0 == id)) ls ((n, l) ∷ []))

  abbrev pub IsFresh : Desk L → Type 0
  IsFresh d =
      (id : ℕ) → d.registry.next_listener_id ≤ id → registered id d.registry.update_listeners ≡ 0

  -- A goroutine that is to record an id knows whose it is.
  abbrev pub IsFine : Desk L → Task L → Type 0
  IsFine d (recording h id) = (d.owner id ≡ h) × (id < d.registry.next_listener_id)
  IsFine d (checking h l) = Unit
  IsFine d (adding h l) = Unit
  IsFine d (disposing h) = Unit
  IsFine d (taking h) = Unit
  IsFine d (dropping ids) = Unit
  IsFine d over = Unit

  -- The handle's list has the id, so often.
  abbrev pub recorded : ℕ → Desk L → ℕ
  recorded id d = occurs id (d.registry.unsubs (d.owner id))

  pub advance-IsFresh : (p : Task L) (d : Desk L) → IsFresh d → IsFresh (advance p d).1
  unfolding advance
  advance-IsFresh (checking h l) d fresh = fresh
  advance-IsFresh (adding h l) d fresh = λ id le.
      ground (
        arith,
        fresh id,
        registered-add id d.registry.next_listener_id l d.registry.update_listeners,
      )
  advance-IsFresh (recording h i) d fresh = fresh
  advance-IsFresh (disposing h) d fresh =
      if_rule {A = Task L × Desk L} (λ r. IsFresh r.1) (d.registry.disposed h) fresh fresh
  advance-IsFresh (taking h) d fresh = fresh
  advance-IsFresh (dropping []) d fresh = fresh
  advance-IsFresh (dropping (i ∷ ids)) d fresh =
      λ id le. ground (arith, fresh id, registered-delete id i d.registry.update_listeners)
  advance-IsFresh over d fresh = fresh

  -- After a step of a goroutine, the id is accounted for by that goroutine, or as before.
  abbrev pub Covers : ℕ → Task L → Desk L → Task L × Desk L → Type 0
  Covers id p d (q, e) =
      (registered id e.registry.update_listeners ≤ holds id q)
      ⊎ (registered id e.registry.update_listeners + recorded id d + holds id p
          ≤ registered id d.registry.update_listeners + recorded id e + holds id q)

  recording-Covers :
      (h i : ℕ) (d : Desk L) (id : ℕ)
      → d.owner i ≡ h
      → Covers id (recording h i) d (advance (recording h i) d)
  unfolding advance
  recording-Covers h i d id fine = inr (
      if_cases
        (λ ids.
          registered id d.registry.update_listeners + recorded id d + one_if (i == id)
          ≤ registered id d.registry.update_listeners + occurs id ids + 0)
        (h == d.owner id)
        (λ same.
          let whose : h ≡ d.owner id = ground arith in
          omega (
            arith,
            sum-append (λ j. one_if (j == id)) (d.registry.unsubs h) (i ∷ []),
            ap (λ j. occurs id (d.registry.unsubs j)) whose,
          ))
        (λ other. elim (Bool-cases (i == id)) [
          | inl e ↦
              let same_id : i ≡ id = ground arith in absurd (ground (arith, ap d.owner same_id))
          | inr e ↦ omega (arith, ap one_if e)
        ]))

  taking-Covers : (h : ℕ) (d : Desk L) (id : ℕ) → Covers id (taking h) d (advance (taking h) d)
  unfolding advance
  taking-Covers h d id = inr (
      if_cases
        (λ ids.
          registered id d.registry.update_listeners + recorded id d + 0
          ≤ registered id d.registry.update_listeners
            + occurs id ids
            + occurs id (d.registry.unsubs h))
        (h == d.owner id)
        (λ same.
          let whose : h ≡ d.owner id = ground arith in
          omega (arith, ap (λ j. occurs id (d.registry.unsubs j)) whose))
        (λ other. omega arith))

  adding-Covers :
      (h : ℕ) (l : L) (d : Desk L) (id : ℕ)
      → IsFresh d
      → Covers id (adding h l) d (advance (adding h l) d)
  unfolding advance
  adding-Covers h l d id fresh =
      let n = d.registry.next_listener_id in
      let added = registered-add id n l d.registry.update_listeners in
      elim (Bool-cases (n == id)) [
        | inl e ↦ inl (ground (arith, added, fresh id))
        | inr e ↦ inr (
            if_cases
              (λ o.
                registered id (d.registry.update_listeners ++ (n, l) ∷ []) + recorded id d + 0
                ≤ registered id d.registry.update_listeners
                  + occurs id (d.registry.unsubs o)
                  + one_if (n == id))
              (n == id) (λ t. absurd (ground arith)) (λ t. omega (arith, added, ap one_if e)))
      ]

  pub advance-Covers :
      (p : Task L) (d : Desk L) (id : ℕ) → IsFresh d → IsFine d p → Covers id p d (advance p d)
  unfolding advance
  advance-Covers (checking h l) d id fresh fine = inr (ground arith)
  advance-Covers (adding h l) d id fresh fine = adding-Covers h l d id fresh
  advance-Covers (recording h i) d id fresh fine = recording-Covers h i d id fine.0
  advance-Covers (disposing h) d id fresh fine = inr (ground arith)
  advance-Covers (taking h) d id fresh fine = taking-Covers h d id
  advance-Covers (dropping []) d id fresh fine = inr (omega arith)
  advance-Covers (dropping (i ∷ ids)) d id fresh fine =
      let deleted = registered-delete id i d.registry.update_listeners in
      elim (Bool-cases (i == id)) [
        | inl e ↦ inl (ground (arith, deleted))
        | inr e ↦ inr (ground (arith, deleted))
      ]
  advance-Covers over d id fresh fine = inr (omega arith)
