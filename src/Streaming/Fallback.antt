-- ===== src/Streaming/Fallback.antt =====
-- streaming.go, run, stop and the two functions that start and stop the fallback poller: the goroutine
-- of run and that of stop, in any order. What holds fallbackMu from its start to its end is one step.
pub mod Safety
pub mod Arming
pub mod Outage
use featureflip_go.Base.{
  ℕ, zero, suc, ◌+◌, ◌≤◌, ◌≡◌, refl, Bool, true, false, not, ◌||◌, List, [], ◌∷◌, Option, none,
  some, if◌then◌else◌, leb, ◌==◌,
}

-- Where the goroutine of run is: in connect, with `delivered`; before the first look at the context,
-- with the result of connect; after it; in the wait for the delay; returned.
pub data Pc : Type 0 where
  connecting returned counted : Bool → Pc
  waiting finished : Pc

-- Where the goroutine of stop is: before cancel, between the two calls, returned.
pub data Stopper : Type 0 where
  before between after : Stopper

-- A poller is named by the number of those that were created before it; `unstopped` are those that
-- were started and not told to stop. pollSource.stop only cancels a context: a poller that was told to
-- stop may still have a poll under way, which may end by updating the store. That is not modelled here.
pub record Source : Type 0 where
  pub consecutive_failures : ℕ
  pub cancelled : Bool
  pub fallback_poll : Option ℕ
  pub created : ℕ
  pub unstopped : List ℕ
  pub pc : Pc
  pub stopper : Stopper

abbrev pub new_source : Source
new_source = record {
  consecutive_failures = 0;
  cancelled = false;
  fallback_poll = none;
  created = 0;
  unstopped = [];
  pc = connecting false;
  stopper = before;
}

abbrev pub is_some {ℓ} : {A : Type ℓ} → Option A → Bool
is_some none = false
is_some (some a) = true

unfoldable pub without : ℕ → List ℕ → List ℕ
without i [] = []
without i (j ∷ js) = let rest = without i js in if j == i then rest else j ∷ rest

unfoldable pub start_fallback_polling : Source → Source
start_fallback_polling s = if is_some s.fallback_poll || s.cancelled then s else record s {
  fallback_poll = some s.created;
  created = suc s.created;
  unstopped = s.created ∷ s.unstopped;
}

abbrev pub stopped : Source → Option ℕ → Source
stopped s none = s
stopped s (some i) = record s { fallback_poll = none; unstopped = without i s.unstopped }

unfoldable pub stop_fallback_polling : Source → Source
stop_fallback_polling s = stopped s s.fallback_poll

-- The bookkeeping of a round, from the result of connect.
unfoldable pub bookkeep : ℕ → Bool → Source → Source
bookkeep threshold true s = stop_fallback_polling (record s { consecutive_failures = 0 })
bookkeep threshold false s =
    let t = record s { consecutive_failures = s.consecutive_failures + 1 } in
    if leb threshold t.consecutive_failures then start_fallback_polling t else t

pub data Step (threshold : ℕ) (s : Source) : Source → Type 0 where
  -- The first event of the connection was handled.
  delivers :
      s.pc ≡ connecting false
      → Step threshold s (record (stop_fallback_polling s) { pc = connecting true })
  returns :
      (reached : Bool)
      → s.pc ≡ connecting reached
      → Step threshold s (record s { pc = returned reached })
  quits :
      (reached : Bool)
      → s.pc ≡ returned reached
      → s.cancelled ≡ true
      → Step threshold s (record s { pc = finished })
  goes_on :
      (reached : Bool)
      → s.pc ≡ returned reached
      → s.cancelled ≡ false
      → Step threshold s (record s { pc = counted reached })
  counts :
      (reached : Bool)
      → s.pc ≡ counted reached
      → Step threshold s (record (bookkeep threshold reached s) { pc = waiting })
  reconnects : s.pc ≡ waiting → Step threshold s (record s { pc = connecting false })
  gives_up : s.pc ≡ waiting → s.cancelled ≡ true → Step threshold s (record s { pc = finished })
  cancels : s.stopper ≡ before → Step threshold s (record s { cancelled = true; stopper = between })
  reaps :
      s.stopper ≡ between → Step threshold s (record (stop_fallback_polling s) { stopper = after })

pub data Reach (threshold : ℕ) : Source → Type 0 where
  start : Reach threshold new_source
  later : {s t : Source} → Reach threshold s → Step threshold s t → Reach threshold t
