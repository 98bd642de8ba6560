-- ===== src/Events/Concurrent.antt =====
-- events.go: an event processor under any number of goroutines that call enqueue, flush and stop, and
-- the goroutine of start. doInit of shared_core.go calls start once, while Get holds the reference of the
-- core that it made, so that the shutdown, which calls stop, comes later.
pub mod Counts
pub mod Conserved
pub mod Bounded
pub mod Tidy
pub mod Known
pub mod Runs
pub mod Ticker
pub mod Waits
pub mod Finished
mod Tests
pub mod Drains
pub mod Latch
pub mod Stops
use featureflip_go.Base.{
  ℕ, suc, ◌-◌, Bool, true, false, not, ◌||◌, List, [], ◌∷◌, ◌++◌, ◌≡◌, if◌then◌else◌, ltb, leb,
  ◌==◌, length, take,
}
use featureflip_go.Base.Int.{ℤ}
use featureflip_go.Events.{
  Outcome, delivered, retryable, rejected, Reply, EventProcessor, new_event_processor_with_bound,
  drain_batch, requeue, append,
}

-- What follows a flush: the end of the call; in autoFlush its deferred function; the loop of start.
pub data Then : Type 0 where
  returns unlatches ticks : Then

-- The loop of drain, of a flush with the number of its drainDone channel, or of stop.
pub data Drain : Type 0 where
  of_flush : ℕ → Then → Drain
  of_stop : Drain

-- Where a goroutine is. In enqueue before the lock; then in autoFlush before its lock, and in its
-- deferred function. In flush before the lock; receiving from a drain's channel; then, in the deferred
-- function, before the lock and before the close. In drain at the top of the loop, in postEvents, and
-- with its result: nil, a permanent failure, another failure. In the select of start; after it. In stop
-- before the lock, before the close, receiving from `done`, before the last lock; and after it.
pub data Worker {ℓ} (A : Type ℓ) : Type ℓ where
  enqueueing : A → Worker A
  auto_flushing unlatching ticking exited stopping signalling joining discarding stopped returned :
      Worker A
  flushing : Then → Worker A
  waiting ending closing : ℕ → Then → Worker A
  looping clearing checking : Drain → Worker A
  posting requeueing : Drain → List A → Worker A

-- The processor with its channels: the number of the last drainDone channel, those closed, whether
-- start was called, whether stopCh and `done` are closed. Then the events that entered the buffer, and
-- those that the endpoint took, that it rejected for good, and that the processor shed.
pub record Processing {ℓ} (A : Type ℓ) : Type ℓ where
  pub processor : EventProcessor A
  pub drains : ℕ
  pub drained : ℕ → Bool
  pub started : Bool
  pub stop_closed : Bool
  pub done_closed : Bool
  pub accepted : List A
  pub taken : List A
  pub refused : List A
  pub shed : List A

module _ {ℓ} {A : Type ℓ} where
  abbrev pub resume : Then → Worker A
  resume returns = returned
  resume unlatches = unlatching
  resume ticks = ticking

  abbrev pub after_drain : Drain → Worker A
  after_drain (of_flush n next) = ending n next
  after_drain of_stop = discarding

  -- The entry of drain from stop.
  abbrev pub final_drain : Bool → Worker A
  final_drain has_client = if has_client then looping of_stop else discarding

  -- The events that trimOldestLocked sheds.
  abbrev pub overflow : ℕ → List A → List A
  overflow max_queue_size buf = take (length buf - max_queue_size) buf

  unfoldable pub accept : A → Processing A → Worker A × Processing A
  accept event m = (
    if leb m.processor.batch_size (length (append event m.processor).buf)
        then auto_flushing
        else returned,
    record m {
      processor = append event m.processor;
      accepted = event ∷ m.accepted;
      shed = overflow m.processor.max_queue_size (m.processor.buf ++ event ∷ []) ++ m.shed;
    },
  )

  unfoldable pub begin_flush : Then → Processing A → Worker A × Processing A
  begin_flush next m = if m.processor.draining then (waiting m.drains next, m) else (
    looping (of_flush (suc m.drains) next),
    record m { processor = record m.processor { draining = true }; drains = suc m.drains },
  )

  -- What drain does with its batch.
  abbrev pub batched : Drain → List A → Worker A
  batched d [] = after_drain d
  batched d (event ∷ events) = posting d (event ∷ events)

  -- The return of postEvents.
  abbrev pub answered : Outcome → Drain → List A → Processing A → Worker A × Processing A
  answered delivered d events m = (clearing d, record m { taken = events ++ m.taken })
  answered rejected d events m = (checking d, record m { refused = events ++ m.refused })
  answered retryable d events m = (requeueing d events, m)

  -- The events that requeue sheds.
  abbrev pub requeue_shed : List A → EventProcessor A → List A
  requeue_shed [] ep = []
  requeue_shed (event ∷ events) ep =
      if ep.closed then event ∷ events else overflow ep.max_queue_size (event ∷ events ++ ep.buf)

  abbrev pub select_tick : Bool → Processing A → Worker A × Processing A
  select_tick true m = (flushing ticks, m)
  select_tick false m =
      if m.stop_closed then (exited, record m { done_closed = true }) else (ticking, m)

  unfoldable pub begin_stop : Processing A → Worker A × Processing A
  begin_stop m = if m.processor.closed then (returned, m) else (
    if m.started then signalling else final_drain m.processor.has_client,
    record m { processor = record m.processor { closed = true } },
  )

  -- The next atomic step of a goroutine: a critical section of mu, a call of postEvents, or an
  -- operation on a channel, which leaves the goroutine where it is if it blocks. The step has a reply
  -- of the endpoint with the clock, and whether the select of start sees a tick.
  unfoldable pub advance : Reply → Bool → Worker A → Processing A → Worker A × Processing A
  advance r tick (enqueueing event) m =
      if not m.processor.has_client || m.processor.closed then (returned, m) else accept event m
  advance r tick auto_flushing m =
      if m.processor.closed
        || (m.processor.auto_flush_in_flight || ltb r.now m.processor.next_auto_flush_at)
      then (returned, m)
      else (
        flushing unlatches,
        record m { processor = record m.processor { auto_flush_in_flight = true } },
      )
  advance r tick unlatching m =
      (returned, record m { processor = record m.processor { auto_flush_in_flight = false } })
  advance r tick (flushing next) m =
      if m.processor.has_client then begin_flush next m else (resume next, m)
  advance r tick (waiting n next) m = (if m.drained n then resume next else waiting n next, m)
  advance r tick (ending n next) m =
      (closing n next, record m { processor = record m.processor { draining = false } })
  advance r tick (closing n next) m =
      (resume next, record m { drained = λ i. if i == n then true else m.drained i })
  advance r tick (looping d) m =
      (batched d (drain_batch m.processor).0, record m { processor = (drain_batch m.processor).1 })
  advance r tick (posting d events) m = answered r.outcome d events m
  advance r tick (clearing d) m =
      (looping d, record m { processor = record m.processor { next_auto_flush_at = 0 } })
  advance r tick (checking d) m = (if m.processor.closed then after_drain d else looping d, m)
  advance r tick (requeueing d events) m = (
    after_drain d,
    record m {
      processor = (requeue r.now events m.processor).0;
      shed = requeue_shed events m.processor ++ m.shed;
    },
  )
  advance r tick ticking m = select_tick tick m
  advance r tick stopping m = begin_stop m
  advance r tick signalling m = (joining, record m { stop_closed = true })
  advance r tick joining m =
      (if m.done_closed then final_drain m.processor.has_client else joining, m)
  advance r tick discarding m = (
    stopped,
    record m { processor = record m.processor { buf = [] }; shed = m.processor.buf ++ m.shed },
  )
  advance r tick exited m = (exited, m)
  advance r tick stopped m = (stopped, m)
  advance r tick returned m = (returned, m)

-- A call that a goroutine makes.
pub data Request {ℓ} (A : Type ℓ) : Type ℓ where
  enqueue_call : A → Request A
  flush_call stop_call : Request A

abbrev pub entry {ℓ} : {A : Type ℓ} → Request A → Worker A
entry (enqueue_call event) = enqueueing event
entry flush_call = flushing returns
entry stop_call = stopping

pub record System {ℓ} (A : Type ℓ) : Type ℓ where
  pub state : Processing A
  pub workers : List (Worker A)

abbrev pub initial {ℓ} : {A : Type ℓ} → EventProcessor A → System A
initial ep = record {
  state = record {
    processor = ep;
    drains = 0;
    drained = λ n. false;
    started = false;
    stop_closed = false;
    done_closed = false;
    accepted = [];
    taken = [];
    refused = [];
    shed = [];
  };
  workers = [];
}

-- start: it sets stopCh and `done` and starts its goroutine.
abbrev pub after_start {ℓ} : {A : Type ℓ} → Processing A → Processing A
after_start m = record m { started = true }

pub data Step {ℓ} {A : Type ℓ} (s : System A) : System A → Type ℓ where
  calls : (c : Request A) → Step s (record s { workers = entry c ∷ s.workers })
  starts :
      s.state.started ≡ false
      → s.state.processor.closed ≡ false
      → Step s (record { state = after_start s.state; workers = ticking ∷ s.workers })
  moves :
      (r : Reply) (tick : Bool) (before : List (Worker A)) (p : Worker A) (others : List (Worker A))
      → s.workers ≡ before ++ p ∷ others
      → Step s (record {
        state = (advance r tick p s.state).1;
        workers = before ++ (advance r tick p s.state).0 ∷ others;
      })

pub data Reach {ℓ} {A : Type ℓ} : System A → Type ℓ where
  begins :
      (has_client : Bool) (batch_size interval : ℕ) (max_queue_size : ℤ)
      → Reach
          (initial (new_event_processor_with_bound has_client batch_size interval max_queue_size))
  goes_on : {s t : System A} → Reach s → Step s t → Reach t
