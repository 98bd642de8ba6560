-- ===== src/Client/Lifecycle.antt =====
-- featureflip.go, Get and Close, and shared_core.go, tryAcquire, release and shutdown: the cores of one
-- SDK key, under any number of goroutines that each get a handle and close it. doInit returns nil on
-- each path, so that Get's branch on its error is not taken. A second Close of a handle does nothing.
pub mod Counts
pub mod Known
pub mod Unique
pub mod Ended
pub mod Reset
mod Tests
use featureflip_go.Base.{
  ℕ, zero, suc, ◌+◌, ◌-◌, ◌≡◌, refl, Bool, true, false, List, [], ◌∷◌, ◌++◌, Option, none, some,
  if◌then◌else◌, leb, ◌==◌,
}

-- A core is known by the number of those that were made before it. `cached` is the entry of liveCores
-- for the key; `owned` says that setOwning was called. A reference count has no upper bound.
pub record Factory : Type 0 where
  pub cached : Option ℕ
  pub created : ℕ
  pub ref_count : ℕ → ℕ
  pub shut_down : ℕ → Bool
  pub owned : ℕ → Bool

-- What follows a release: the end of Close, or in Get the attempt on the core that won the race.
pub data After : Type 0 where
  closed : After
  retry : ℕ → After

-- Where a goroutine is: in Get before its lookup; with what it found; with a core that was shut down;
-- with nothing found; with a new core; with the core published; with its handle. Then Close: before the
-- decrement of release; after one to 0; in shutdown before the map's lock.
pub data Pc : Type 0 where
  start missing finished : Pc
  found stale made published holding racing : ℕ → Pc
  releasing dropped shutting : ℕ → After → Pc

abbrev pub set {ℓ} : {A : Type ℓ} → (ℕ → A) → ℕ → A → ℕ → A
set f i a j = if j == i then a else f j

abbrev pub resume : After → Pc
resume closed = finished
resume (retry r) = racing r

abbrev pub looked_up : Option ℕ → Pc
looked_up none = missing
looked_up (some c) = found c

abbrev pub is_entry : ℕ → Option ℕ → Bool
is_entry c none = false
is_entry c (some d) = d == c

-- `if liveCores[key] == core { delete(liveCores, key) }`
abbrev pub forget : ℕ → Factory → Factory
forget c m = record m { cached = if is_entry c m.cached then none else m.cached }

-- tryAcquire: its result is the first of two places, or the other.
abbrev pub try_acquire : ℕ → Pc → Pc → Factory → Pc × Factory
try_acquire c acquired refused m =
    if leb 1 (m.ref_count c)
    then (acquired, record m { ref_count = set m.ref_count c (m.ref_count c + 1) })
    else (refused, m)

-- The second critical section of Get, for what liveCores has by then.
abbrev pub publish : ℕ → Option ℕ → Factory → Pc × Factory
publish c (some r) m = (releasing c (retry r), m)
publish c none m = (published c, record m { cached = some c; owned = set m.owned c true })

-- release, up to the test of the new count.
abbrev pub release : ℕ → After → Factory → Pc × Factory
release c next m =
    if leb 1 (m.ref_count c)
    then (
      if m.ref_count c - 1 == 0 then dropped c next else resume next,
      record m { ref_count = set m.ref_count c (m.ref_count c - 1) },
    )
    else (resume next, m)

-- The next atomic step of a goroutine: a critical section of liveCoresMu, or a compare-and-swap that
-- succeeds, with the load before it.
unfoldable pub advance : Pc → Factory → Pc × Factory
advance start m = (looked_up m.cached, m)
advance (found c) m = try_acquire c (holding c) (stale c) m
advance (stale c) m = (start, forget c m)
advance missing m =
    (made m.created, record m { created = suc m.created; ref_count = set m.ref_count m.created 1 })
advance (made c) m = publish c m.cached m
advance (published c) m = (holding c, m)
advance (holding c) m = (releasing c closed, m)
advance (releasing c next) m = release c next m
advance (dropped c next) m =
    if m.shut_down c
    then (resume next, m)
    else (shutting c next, record m { shut_down = set m.shut_down c true })
advance (shutting c next) m = (resume next, if m.owned c then forget c m else m)
advance (racing r) m = try_acquire r (holding r) start m
advance finished m = (finished, m)

pub record System : Type 0 where
  pub factory : Factory
  pub pcs : List Pc

abbrev pub new_factory : Factory
new_factory = record {
  cached = none;
  created = 0;
  ref_count = λ c. 0;
  shut_down = λ c. false;
  owned = λ c. false;
}

abbrev pub new_system : System
new_system = record { factory = new_factory; pcs = [] }

-- A goroutine calls Get, or one of them takes its next step.
pub data Step (s : System) : System → Type 0 where
  spawns : Step s (record s { pcs = start ∷ s.pcs })
  moves :
      (before : List Pc) (p : Pc) (others : List Pc)
      → s.pcs ≡ before ++ p ∷ others
      → Step s (record {
        factory = (advance p s.factory).1;
        pcs = before ++ (advance p s.factory).0 ∷ others;
      })

pub data Reach : System → Type 0 where
  begins : Reach new_system
  goes_on : {s t : System} → Reach s → Step s t → Reach t
