-- ===== src/Client/Listeners/OverlapTests.antt =====
-- The theorems on calls that overlap, for an OnUpdate that ends and one that a Close comes into.
use featureflip_go.Base.{
  ℕ, ◌+◌, ◌≤◌, ◌≡◌, refl, sym, subst, true, false, List, [], ◌∷◌, ◌++◌, take, drop,
  take-append-drop, All, sum,
}
use featureflip_go.Client.Listeners.{close, delete}
use featureflip_go.Client.Listeners.Overlap.{
  Task, over, Desk, advance, Call, subscribes, closes, task_of, System, at_first, calls, moves,
  Reach, begins, goes_on,
}
use featureflip_go.Client.Listeners.Accounts.{registered, recorded, holds}
use featureflip_go.Client.Listeners.Registered.{registered-accounted, close-silences}

-- The goroutine of a number takes its next step. A listener is a number.
abbrev moved_at : List (Task ℕ) → List (Task ℕ) → Desk ℕ → System ℕ
moved_at before [] d = record { desk = d; tasks = before ++ [] }
moved_at before (p ∷ others) d = record {
  desk = (advance p d).1;
  tasks = before ++ (advance p d).0 ∷ others;
}

abbrev stepped : ℕ → System ℕ → System ℕ
stepped i s = moved_at (take i s.tasks) (drop i s.tasks) s.desk

moved_at-Reach :
    (s : System ℕ) (before others : List (Task ℕ))
    → Reach s
    → s.tasks ≡ before ++ others
    → Reach (moved_at before others s.desk)
moved_at-Reach s before [] r e = subst (λ ps. Reach (record { desk = s.desk; tasks = ps })) e r
moved_at-Reach s before (p ∷ others) r e = goes_on r (moves before p others e)

abbrev scheduled : List ℕ → System ℕ → System ℕ
scheduled [] s = s
scheduled (i ∷ is) s = scheduled is (stepped i s)

scheduled-Reach : (is : List ℕ) (s : System ℕ) → Reach s → Reach (scheduled is s)
scheduled-Reach [] s r = r
scheduled-Reach (i ∷ is) s r =
    scheduled-Reach is (stepped i s)
      (moved_at-Reach s (take i s.tasks) (drop i s.tasks) r (sym (take-append-drop i s.tasks)))

abbrev called : Call ℕ → System ℕ → System ℕ
called c s = record s { tasks = task_of c ∷ s.tasks }

-- An OnUpdate that runs to its end.
abbrev subscribed : System ℕ
subscribed = scheduled (0 ∷ 0 ∷ 0 ∷ []) (called (subscribes 0 10) at_first)

subscribed-Reach : Reach subscribed
subscribed-Reach =
    scheduled-Reach (0 ∷ 0 ∷ 0 ∷ []) (called (subscribes 0 10) at_first)
      (goes_on begins (calls (subscribes 0 10)))

all_over : All (λ p. p ≡ over) subscribed.tasks
unfolding advance
all_over = (refl, tt)

opened : subscribed.desk.registry.disposed 0 ≡ false
unfolding advance
opened = refl

owned : subscribed.desk.owner 0 ≡ 0
unfolding advance
owned = refl

close-silences_example : registered 0 (close 0 subscribed.desk.registry).update_listeners ≡ 0
close-silences_example = close-silences subscribed 0 0 subscribed-Reach all_over opened owned

-- Another OnUpdate looks whether the handle is closed; then Close runs to its end; then the OnUpdate does.
abbrev leaked : System ℕ
leaked =
    scheduled (1 ∷ 0 ∷ 0 ∷ 0 ∷ 0 ∷ 1 ∷ 1 ∷ [])
      (called (closes 0) (called (subscribes 0 11) subscribed))

leaked-Reach : Reach leaked
leaked-Reach =
    scheduled-Reach (1 ∷ 0 ∷ 0 ∷ 0 ∷ 0 ∷ 1 ∷ 1 ∷ [])
      (called (closes 0) (called (subscribes 0 11) subscribed))
      (goes_on (goes_on subscribed-Reach (calls (subscribes 0 11))) (calls (closes 0)))

leak :
    (leaked.tasks ≡ over ∷ over ∷ over ∷ [])
    × (leaked.desk.registry.disposed 0 ≡ true)
    × (leaked.desk.registry.update_listeners ≡ (1, 11) ∷ [])
unfolding advance delete
leak = (refl, refl, refl)

registered-accounted_example :
    registered 1 leaked.desk.registry.update_listeners
    ≤ recorded 1 leaked.desk + sum (holds 1) leaked.tasks
registered-accounted_example = registered-accounted leaked 1 leaked-Reach
