-- ===== src/Client/Listeners/Overlap.antt =====
-- featureflip.go, OnUpdate and Close, and shared_core.go, addUpdateListener and what it returns, under
-- any number of goroutines that each make one call on a handle of a core.
use featureflip_go.Base.{ℕ, suc, ◌≡◌, true, List, [], ◌∷◌, ◌++◌, if◌then◌else◌}
use featureflip_go.Client.Listeners.{Registry, put, no_listeners, unsubscribe, drop_listeners}

-- Where a goroutine is: in OnUpdate before isClosed, before the lock of addUpdateListener, and before
-- the lock of the handle's subscriptions; in Close before its compare-and-swap, before the lock, and in
-- its loop, with the calls that are left; at the end. A call of the function that OnUpdate returns is
-- such a loop of one.
pub data Task {ℓ} (L : Type ℓ) : Type ℓ where
  checking adding : ℕ → L → Task L
  recording : ℕ → ℕ → Task L
  disposing taking : ℕ → Task L
  dropping : List ℕ → Task L
  over : Task L

-- The registry, and for each id the handle of the OnUpdate that got it.
pub record Desk {ℓ} (L : Type ℓ) : Type ℓ where
  pub registry : Registry L
  pub owner : ℕ → ℕ

module _ {ℓ} {L : Type ℓ} where
  abbrev pub registered_as : ℕ → L → Registry L → Registry L
  registered_as id l r = record r {
    update_listeners = r.update_listeners ++ (id, l) ∷ [];
    next_listener_id = suc id;
  }

  -- The next atomic step: a critical section, or an operation on `disposed`.
  unfoldable pub advance : Task L → Desk L → Task L × Desk L
  advance (checking h l) d = (if d.registry.disposed h then over else adding h l, d)
  advance (adding h l) d = (
    recording h d.registry.next_listener_id,
    record {
      registry = registered_as d.registry.next_listener_id l d.registry;
      owner = put d.owner d.registry.next_listener_id h;
    },
  )
  advance (recording h id) d = (
    over,
    record d {
      registry = record d.registry {
        unsubs = put d.registry.unsubs h (d.registry.unsubs h ++ id ∷ []);
      };
    },
  )
  advance (disposing h) d = if d.registry.disposed h then (over, d) else (
    taking h,
    record d { registry = record d.registry { disposed = put d.registry.disposed h true } },
  )
  advance (taking h) d = (
    dropping (d.registry.unsubs h),
    record d { registry = record d.registry { unsubs = put d.registry.unsubs h [] } },
  )
  advance (dropping []) d = (over, d)
  advance (dropping (id ∷ ids)) d =
      (dropping ids, record d { registry = unsubscribe id d.registry })
  advance over d = (over, d)

-- A call; that of an id is one of the function that OnUpdate returned with it.
pub data Call {ℓ} (L : Type ℓ) : Type ℓ where
  subscribes : ℕ → L → Call L
  closes unsubscribes : ℕ → Call L

abbrev pub task_of {ℓ} : {L : Type ℓ} → Call L → Task L
task_of (subscribes h l) = checking h l
task_of (closes h) = disposing h
task_of (unsubscribes id) = dropping (id ∷ [])

pub record System {ℓ} (L : Type ℓ) : Type ℓ where
  pub desk : Desk L
  pub tasks : List (Task L)

abbrev pub at_first {ℓ} : {L : Type ℓ} → System L
at_first = record { desk = record { registry = no_listeners; owner = λ id. 0 }; tasks = [] }

-- A call begins, a goroutine takes its next step, or the core is shut down.
pub data Step {ℓ} {L : Type ℓ} (s : System L) : System L → Type ℓ where
  calls : (c : Call L) → Step s (record s { tasks = task_of c ∷ s.tasks })
  moves :
      (before : List (Task L)) (p : Task L) (others : List (Task L))
      → s.tasks ≡ before ++ p ∷ others
      → Step s
          (record { desk = (advance p s.desk).1; tasks = before ++ (advance p s.desk).0 ∷ others })
  shuts_down :
      Step s (record s { desk = record s.desk { registry = drop_listeners s.desk.registry } })

pub data Reach {ℓ} {L : Type ℓ} : System L → Type ℓ where
  begins : Reach at_first
  goes_on : {s t : System L} → Reach s → Step s t → Reach t
