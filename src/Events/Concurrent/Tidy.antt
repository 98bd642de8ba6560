-- ===== src/Events/Concurrent/Tidy.antt =====
-- events.go: drainDone holds a channel only after a flush has begun.
use featureflip_go.Base.{◌≤◌, Bool, true, false, not, ◌||◌, List, if_rule, ltb, arith, one_if}
use featureflip_go.Events.{Outcome, delivered, retryable, rejected, Reply, drain_batch, append}
use featureflip_go.Events.Concurrent.{
  Drain, Worker, enqueueing, auto_flushing, ticking, stopping, flushing, ending, posting,
  requeueing, Processing, accept, begin_flush, answered, begin_stop, advance,
}
use featureflip_go.Events.Concurrent.Counts.{requeue-flags}

module _ {ℓ} {A : Type ℓ} where
  -- A channel that drainDone holds has a number.
  abbrev pub IsTidy : Processing A → Type 0
  IsTidy m = one_if m.processor.draining ≤ m.drains

  answered-IsTidy :
      (o : Outcome) (d : Drain) (events : List A) (m : Processing A)
      → IsTidy m
      → IsTidy (answered o d events m).1
  answered-IsTidy delivered d events m h = h
  answered-IsTidy rejected d events m h = h
  answered-IsTidy retryable d events m h = h

  abbrev EndsTidy : Worker A × Processing A → Type 0
  EndsTidy t = IsTidy t.1

  pub advance-IsTidy :
      (r : Reply) (tick : Bool) (p : Worker A) (m : Processing A)
      → IsTidy m
      → IsTidy (advance r tick p m).1
  unfolding advance accept append begin_flush begin_stop drain_batch
  advance-IsTidy r tick (enqueueing event) m h =
      if_rule EndsTidy (not m.processor.has_client || m.processor.closed) h h
  advance-IsTidy r tick auto_flushing m h =
      if_rule EndsTidy
        (m.processor.closed
          || (m.processor.auto_flush_in_flight || ltb r.now m.processor.next_auto_flush_at))
        h h
  advance-IsTidy r true ticking m h = h
  advance-IsTidy r false ticking m h = if_rule EndsTidy m.stop_closed h h
  advance-IsTidy r tick stopping m h = if_rule EndsTidy m.processor.closed h h
  advance-IsTidy r tick (flushing next) m h =
      if_rule EndsTidy m.processor.has_client
        (if_rule EndsTidy m.processor.draining h (omega arith)) h
  advance-IsTidy r tick (ending n next) m h = omega arith
  advance-IsTidy r tick (posting d events) m h = answered-IsTidy r.outcome d events m h
  advance-IsTidy r tick (requeueing d events) m h =
      omega (arith, requeue-flags (λ a b c. one_if b) r.now events m.processor)
  advance-IsTidy r tick p m h = h
