-- ===== src/Client/Listeners/Registered.antt =====
-- featureflip.go and shared_core.go: which listeners are registered, where calls overlap.
use featureflip_go.Base.{
  ℕ, ◌+◌, ◌≤◌, ◌<◌, ◌≡◌, refl, ap, ◌∙◌, subst, false, List, [], ◌∷◌, ◌++◌, if_rule, if_cases, arith,
  sum, sum-middle, All, All-map, All-middle, All-at, inl, inr,
}
use featureflip_go.Client.Listeners.{Registry, delete, delete_all, close, drop_listeners}
use featureflip_go.Client.Listeners.Overlap.{
  Task, checking, adding, recording, disposing, taking, dropping, over, Desk, advance, Call,
  subscribes, closes, unsubscribes, task_of, System, calls, moves, shuts_down, Reach, begins,
  goes_on,
}
use featureflip_go.Client.Listeners.Accounts.{
  occurs, registered, holds, registered-delete, IsFresh, IsFine, recorded, advance-IsFresh,
  advance-Covers,
}

module _ {ℓ} {L : Type ℓ} where
  -- What the steps of others do not undo.
  abbrev Later : Desk L → Desk L → Type 0
  Later d e =
      (d.registry.next_listener_id ≤ e.registry.next_listener_id)
      × ((id : ℕ) → id < d.registry.next_listener_id → e.owner id ≡ d.owner id)

  Later-same : (d : Desk L) → Later d d
  Later-same d = (omega arith, λ id h. refl)

  advance-Later : (p : Task L) (d : Desk L) → Later d (advance p d).1
  unfolding advance
  advance-Later (checking h l) d = Later-same d
  advance-Later (adding h l) d = (omega arith, λ id lt. ground arith)
  advance-Later (recording h i) d = Later-same d
  advance-Later (disposing h) d =
      if_rule {A = Task L × Desk L} (λ r. Later d r.1) (d.registry.disposed h) (Later-same d)
        (Later-same d)
  advance-Later (taking h) d = Later-same d
  advance-Later (dropping []) d = Later-same d
  advance-Later (dropping (i ∷ ids)) d = Later-same d
  advance-Later over d = Later-same d

  Later-fine : (d e : Desk L) (p : Task L) → Later d e → IsFine d p → IsFine e p
  Later-fine d e (recording h i) l fine = (l.1 i fine.1 ∙ fine.0, omega (arith, l.0, fine.1))
  Later-fine d e (checking h m) l fine = tt
  Later-fine d e (adding h m) l fine = tt
  Later-fine d e (disposing h) l fine = tt
  Later-fine d e (taking h) l fine = tt
  Later-fine d e (dropping ids) l fine = tt
  Later-fine d e over l fine = tt

  advance-IsFine : (p : Task L) (d : Desk L) → IsFine (advance p d).1 (advance p d).0
  unfolding advance
  advance-IsFine (checking h l) d = if_rule (IsFine d) (d.registry.disposed h) tt tt
  advance-IsFine (adding h l) d = (ground arith, omega arith)
  advance-IsFine (recording h i) d = tt
  advance-IsFine (disposing h) d =
      if_rule {A = Task L × Desk L} (λ r. IsFine r.1 r.0) (d.registry.disposed h) tt tt
  advance-IsFine (taking h) d = tt
  advance-IsFine (dropping []) d = tt
  advance-IsFine (dropping (i ∷ ids)) d = tt
  advance-IsFine over d = tt

  pub record IsInOrder (s : System L) : Type ℓ where
    pub fresh : IsFresh s.desk
    pub fine : All (IsFine s.desk) s.tasks
    pub accounts :
        (id : ℕ)
        → registered id s.desk.registry.update_listeners
          ≤ recorded id s.desk + sum (holds id) s.tasks

  moved-IsInOrder :
      (d : Desk L) (before : List (Task L)) (p : Task L) (others : List (Task L))
      → IsInOrder (record { desk = d; tasks = before ++ p ∷ others })
      → IsInOrder (record { desk = (advance p d).1; tasks = before ++ (advance p d).0 ∷ others })
  moved-IsInOrder d before p others h =
      let known = All-at (IsFine d) before p others h.fine in
      record {
        fresh = advance-IsFresh p d h.fresh;
        fine =
            All-middle (IsFine d) (IsFine (advance p d).1) before p (advance p d).0 others
              (λ ps. All-map (λ q. Later-fine d (advance p d).1 q (advance-Later p d)) ps)
              (advance-IsFine p d) h.fine;
        accounts = λ id.
            let old = sum-middle (holds id) before p others in
            let new = sum-middle (holds id) before (advance p d).0 others in
            elim (advance-Covers p d id h.fresh known) [
              | inl own ↦ omega (arith, own, new)
              | inr as_before ↦ omega (arith, as_before, h.accounts id, old, new)
            ];
      }

  entry-holds : (c : Call L) (d : Desk L) → IsFine d (task_of c)
  entry-holds (subscribes h l) d = tt
  entry-holds (closes h) d = tt
  entry-holds (unsubscribes id) d = tt

  Reach-IsInOrder : {s : System L} → Reach s → IsInOrder s
  Reach-IsInOrder begins = record { fresh = λ id le. refl; fine = tt; accounts = λ id. omega arith }
  Reach-IsInOrder (goes_on {s} r (calls c)) =
      let h = Reach-IsInOrder r in
      record {
        fresh = h.fresh;
        fine = (entry-holds c s.desk, h.fine);
        accounts = λ id. omega (arith, h.accounts id);
      }
  Reach-IsInOrder (goes_on {s} r (moves before p others e)) =
      moved-IsInOrder s.desk before p others
        (subst (λ ps. IsInOrder (record { desk = s.desk; tasks = ps })) e (Reach-IsInOrder r))
  Reach-IsInOrder (goes_on {s} r shuts_down) =
      let h = Reach-IsInOrder r in
      record { fresh = λ id le. refl; fine = shut s.tasks h.fine; accounts = λ id. omega arith }
    where
      shut :
          (ps : List (Task L))
          → All (IsFine s.desk) ps
          → All (IsFine (record s.desk { registry = drop_listeners s.desk.registry })) ps
      shut ps =
          All-map
            (λ q.
              Later-fine s.desk (record s.desk { registry = drop_listeners s.desk.registry }) q
                (omega arith, λ id h. refl))
            ps

-- In every interleaving of OnUpdate, Close and the functions that OnUpdate returns, no listener is
-- forgotten: for each one in the registry, its function is in the list of the handle it was registered
-- through, or one goroutine at least is to put it there or to call it.
pub registered-accounted {ℓ} :
    {L : Type ℓ} (s : System L) (id : ℕ)
    → Reach s
    → registered id s.desk.registry.update_listeners ≤ recorded id s.desk + sum (holds id) s.tasks
registered-accounted s id r = (Reach-IsInOrder r).accounts id

module _ {ℓ} {L : Type ℓ} where
  registered-delete_all :
      (id : ℕ) (ids : List ℕ) (ls : List (ℕ × L))
      → (registered id (delete_all ids ls) ≤ registered id ls)
        × (1 ≤ occurs id ids → registered id (delete_all ids ls) ≡ 0)
  unfolding delete_all
  registered-delete_all id [] ls = (omega arith, λ h. absurd (omega arith))
  registered-delete_all id (i ∷ ids) ls =
      let rest = registered-delete_all id ids (delete i ls) in
      let deleted = registered-delete id i ls in
      (ground (arith, rest.0, deleted), λ h. ground (arith, rest.0, rest.1, deleted))

  all_over-holds : (id : ℕ) (ps : List (Task L)) → All (λ p. p ≡ over) ps → sum (holds id) ps ≡ 0
  all_over-holds id [] h = refl
  all_over-holds id (p ∷ ps) h = omega (arith, ap (holds id) h.0, all_over-holds id ps h.1)

  -- However calls overlapped before: once none is under way, the Close of a handle that is not closed
  -- leaves no listener that was registered through it.
  pub close-silences :
      (s : System L) (h id : ℕ)
      → Reach s
      → All (λ p. p ≡ over) s.tasks
      → s.desk.registry.disposed h ≡ false
      → s.desk.owner id ≡ h
      → registered id (close h s.desk.registry).update_listeners ≡ 0
  unfolding close
  close-silences s h id r quiet opened whose =
      let removed =
        registered-delete_all id (s.desk.registry.unsubs h) s.desk.registry.update_listeners in
      let here = ap (λ j. occurs id (s.desk.registry.unsubs j)) whose in
      let accounts = registered-accounted s id r in
      let idle = all_over-holds id s.tasks quiet in
      if_cases (λ (t : Registry L). registered id t.update_listeners ≡ 0)
        (s.desk.registry.disposed h) (λ shut. absurd (ground arith))
        (λ live. ground (arith, removed.0, removed.1, here, accounts, idle))
