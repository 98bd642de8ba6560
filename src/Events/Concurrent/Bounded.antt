-- ===== src/Events/Concurrent/Bounded.antt =====
-- events.go: the bound of the buffer in every interleaving.
use featureflip_go.Base.{Bool, true, false, not, ◌||◌, List, if_rule, ltb, arith}
use featureflip_go.Events.{
  Outcome, delivered, retryable, rejected, Reply, new_event_processor_with_bound, settle, requeue,
}
use featureflip_go.Events.Laws.{IsBounded, settle-IsBounded}
use featureflip_go.Events.Bounds.{drain_batch-IsBounded, append-IsBounded}
use featureflip_go.Events.Concurrent.{
  Drain, Worker, enqueueing, auto_flushing, unlatching, ticking, exited, stopping, signalling,
  joining, discarding, stopped, returned, flushing, waiting, ending, closing, looping, clearing,
  checking, posting, requeueing, Processing, accept, begin_flush, answered, begin_stop, advance,
  System, calls, starts, moves, Reach, begins, goes_on,
}

module _ {ℓ} {A : Type ℓ} where
  answered-IsBounded :
      (o : Outcome) (d : Drain) (events : List A) (m : Processing A)
      → IsBounded m.processor
      → IsBounded (answered o d events m).1.processor
  answered-IsBounded delivered d events m h = h
  answered-IsBounded rejected d events m h = h
  answered-IsBounded retryable d events m h = h

  advance-IsBounded :
      (r : Reply) (tick : Bool) (p : Worker A) (m : Processing A)
      → IsBounded m.processor
      → IsBounded (advance r tick p m).1.processor
  unfolding advance accept begin_flush begin_stop requeue settle
  advance-IsBounded r tick (enqueueing event) m h =
      if_rule {A = Worker A × Processing A} (λ t. IsBounded t.1.processor)
        (not m.processor.has_client || m.processor.closed) h (append-IsBounded event m.processor)
  advance-IsBounded r tick auto_flushing m h =
      if_rule {A = Worker A × Processing A} (λ t. IsBounded t.1.processor)
        (m.processor.closed
          || (m.processor.auto_flush_in_flight || ltb r.now m.processor.next_auto_flush_at))
        h h
  advance-IsBounded r tick unlatching m h = h
  advance-IsBounded r true ticking m h = h
  advance-IsBounded r false ticking m h =
      if_rule {A = Worker A × Processing A} (λ t. IsBounded t.1.processor) m.stop_closed h h
  advance-IsBounded r tick exited m h = h
  advance-IsBounded r tick stopping m h =
      if_rule {A = Worker A × Processing A} (λ t. IsBounded t.1.processor) m.processor.closed h h
  advance-IsBounded r tick signalling m h = h
  advance-IsBounded r tick joining m h = h
  advance-IsBounded r tick discarding m h = omega arith
  advance-IsBounded r tick stopped m h = h
  advance-IsBounded r tick returned m h = h
  advance-IsBounded r tick (flushing next) m h =
      if_rule {A = Worker A × Processing A} (λ t. IsBounded t.1.processor) m.processor.has_client
        (if_rule {A = Worker A × Processing A} (λ t. IsBounded t.1.processor) m.processor.draining h
          h)
        h
  advance-IsBounded r tick (waiting n next) m h = h
  advance-IsBounded r tick (ending n next) m h = h
  advance-IsBounded r tick (closing n next) m h = h
  advance-IsBounded r tick (looping d) m h = drain_batch-IsBounded m.processor h
  advance-IsBounded r tick (clearing d) m h = h
  advance-IsBounded r tick (checking d) m h = h
  advance-IsBounded r tick (posting d events) m h = answered-IsBounded r.outcome d events m h
  advance-IsBounded r tick (requeueing d events) m h =
      settle-IsBounded retryable r.now events m.processor h

-- In every interleaving, the buffer is within its bound.
pub Reach-IsBounded {ℓ} : {A : Type ℓ} (s : System A) → Reach s → IsBounded s.state.processor
unfolding new_event_processor_with_bound
Reach-IsBounded s (begins has_client size interval bound) = omega arith
Reach-IsBounded t (goes_on {s} r (calls c)) = Reach-IsBounded s r
Reach-IsBounded t (goes_on {s} r (starts new opened)) = Reach-IsBounded s r
Reach-IsBounded t (goes_on {s} r (moves reply tick before p others e)) =
    advance-IsBounded reply tick p s.state (Reach-IsBounded s r)
