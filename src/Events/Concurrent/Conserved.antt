-- ===== src/Events/Concurrent/Conserved.antt =====
-- events.go: where the events that entered the buffer are.
use featureflip_go.Base.{
  ℕ, ◌+◌, ◌-◌, ◌≡◌, refl, sym, ap, ◌∙◌, true, false, List, [], ◌∷◌, ◌++◌, if◌then◌else◌, leb,
  length, take, drop, take-append-drop, arith, sum, sum-append, Bool-cases, inl, inr,
}
use featureflip_go.Events.{
  Outcome, delivered, retryable, rejected, EventProcessor, new_event_processor_with_bound,
  trim_oldest, batch_length, drain_batch, requeue, append,
}
use featureflip_go.Events.Concurrent.{
  Then, returns, unlatches, ticks, Drain, of_flush, of_stop, Worker, enqueueing, auto_flushing,
  unlatching, ticking, exited, stopping, signalling, joining, discarding, stopped, returned,
  flushing, waiting, ending, closing, looping, clearing, checking, posting, requeueing, Processing,
  resume, after_drain, overflow, accept, begin_flush, batched, answered, requeue_shed, begin_stop,
  advance, Request, enqueue_call, flush_call, stop_call, entry, System, Reach,
}
use featureflip_go.Events.Concurrent.Counts.{Keeps, Starts, adds}

module _ {ℓ} {A : Type ℓ} (w : A → ℕ) where
  -- The events that a goroutine has taken out of the buffer and that are neither answered nor put back.
  abbrev pub carried : Worker A → ℕ
  carried (posting d events) = sum w events
  carried (requeueing d events) = sum w events
  carried _ = 0

  abbrev pub placed : Processing A → ℕ
  placed m = sum w m.taken + sum w m.refused + sum w m.shed + sum w m.processor.buf

  overflow-sum :
      (n : ℕ) (buf : List A) → sum w (overflow n buf) + sum w (trim_oldest n buf).0 ≡ sum w buf
  unfolding trim_oldest
  overflow-sum n buf =
      sym (sum-append w (take (length buf - n) buf) (drop (length buf - n) buf))
      ∙ ap (sum w) (take-append-drop (length buf - n) buf)

  drain_batch-sum :
      (ep : EventProcessor A)
      → sum w (drain_batch ep).0 + sum w (drain_batch ep).1.buf ≡ sum w ep.buf
  unfolding drain_batch
  drain_batch-sum ep =
      let n = batch_length ep.batch_size ep.buf in
      sym (sum-append w (take n ep.buf) (drop n ep.buf)) ∙ ap (sum w) (take-append-drop n ep.buf)

  requeue-sum :
      (now : ℕ) (events : List A) (ep : EventProcessor A)
      → sum w (requeue_shed events ep) + sum w (requeue now events ep).0.buf
        ≡ sum w events + sum w ep.buf
  unfolding requeue
  requeue-sum now [] ep = refl
  requeue-sum now (e ∷ es) ep = elim (Bool-cases ep.closed) [
    | inl c ↦ rw c refl
    | inr o ↦
        rw o (overflow-sum ep.max_queue_size (e ∷ es ++ ep.buf) ∙ sum-append w (e ∷ es) ep.buf)
  ]

  carried-resume : (next : Then) → carried (resume next) ≡ 0
  carried-resume returns = refl
  carried-resume unlatches = refl
  carried-resume ticks = refl

  carried-after_drain : (d : Drain) → carried (after_drain d) ≡ 0
  carried-after_drain (of_flush n next) = refl
  carried-after_drain of_stop = refl

  carried-batched : (d : Drain) (events : List A) → carried (batched d events) ≡ sum w events
  carried-batched d [] = carried-after_drain d
  carried-batched d (e ∷ es) = refl

  answered-sum :
      (o : Outcome) (d : Drain) (events : List A) (m : Processing A)
      → placed (answered o d events m).1 + carried (answered o d events m).0
        ≡ placed m + sum w events
  answered-sum delivered d events m = omega (arith, sum-append w events m.taken)
  answered-sum rejected d events m = omega (arith, sum-append w events m.refused)
  answered-sum retryable d events m = refl

  answered-accepted :
      (o : Outcome) (d : Drain) (events : List A) (m : Processing A)
      → (answered o d events m).1.accepted ≡ m.accepted
  answered-accepted delivered d events m = refl
  answered-accepted rejected d events m = refl
  answered-accepted retryable d events m = refl

  accept-sum :
      (event : A) (m : Processing A)
      → placed (accept event m).1 + carried (accept event m).0 + sum w m.accepted
        ≡ placed m + sum w (accept event m).1.accepted
  unfolding accept append
  accept-sum event m =
      let buf = m.processor.buf ++ event ∷ [] in
      let n = m.processor.max_queue_size in
      let split = overflow-sum n buf in
      let joined = sum-append w m.processor.buf (event ∷ []) in
      let kept = sum-append w (overflow n buf) m.shed in
      let nowhere : carried (
            if leb m.processor.batch_size (length (trim_oldest n buf).0)
            then auto_flushing
            else returned)
          ≡ 0 =
        ground arith in
      omega arith

  carried-Keeps : Keeps carried placed (λ m. sum w m.accepted)
  unfolding advance begin_flush begin_stop
  carried-Keeps r tick (enqueueing event) m h = ground (arith, accept-sum event m)
  carried-Keeps r tick auto_flushing m h = ground arith
  carried-Keeps r tick unlatching m h = refl
  carried-Keeps r true ticking m h = refl
  carried-Keeps r false ticking m h = ground arith
  carried-Keeps r tick exited m h = refl
  carried-Keeps r tick stopping m h = ground arith
  carried-Keeps r tick signalling m h = refl
  carried-Keeps r tick joining m h = ground arith
  carried-Keeps r tick discarding m h = omega (arith, sum-append w m.processor.buf m.shed)
  carried-Keeps r tick stopped m h = refl
  carried-Keeps r tick returned m h = refl
  carried-Keeps r tick (flushing next) m h = ground (arith, carried-resume next)
  carried-Keeps r tick (waiting n next) m h = ground (arith, carried-resume next)
  carried-Keeps r tick (ending n next) m h = refl
  carried-Keeps r tick (closing n next) m h = ground (arith, carried-resume next)
  carried-Keeps r tick (looping d) m h =
      omega (arith, carried-batched d (drain_batch m.processor).0, drain_batch-sum m.processor)
  carried-Keeps r tick (clearing d) m h = refl
  carried-Keeps r tick (checking d) m h = ground (arith, carried-after_drain d)
  carried-Keeps r tick (posting d events) m h = omega (
    arith,
    answered-sum r.outcome d events m,
    ap (sum w) (answered-accepted r.outcome d events m),
  )
  carried-Keeps r tick (requeueing d events) m h = omega (
    arith,
    carried-after_drain d,
    sum-append w (requeue_shed events m.processor) m.shed,
    requeue-sum r.now events m.processor,
  )

  carried-Starts : Starts carried placed (λ m. sum w m.accepted)
  unfolding new_event_processor_with_bound
  carried-Starts has_client size interval bound = refl

  carried-entry : (c : Request A) → carried (entry c) ≡ 0
  carried-entry (enqueue_call event) = refl
  carried-entry flush_call = refl
  carried-entry stop_call = refl

-- Where the accepted events are, in every interleaving of calls of enqueue, flush and stop with the
-- goroutine of start, whatever the endpoint answers: each one that entered the buffer is, as often as it
-- entered, among those the endpoint took, those it rejected for good, those shed, those in the buffer
-- and those of a send that is under way. Said by sums over any weights of the events.
pub accepted-placed {ℓ} :
    {A : Type ℓ} (w : A → ℕ) (s : System A)
    → Reach s
    → sum w s.state.accepted
      ≡ sum w s.state.taken
        + sum w s.state.refused
        + sum w s.state.shed
        + sum w s.state.processor.buf
        + sum (carried w) s.workers
accepted-placed w s r = omega (
  arith,
  adds (carried w) (placed w) (λ m. sum w m.accepted) (carried-Keeps w) (carried-Starts w)
      (carried-entry w) (λ m h. omega arith) r,
)
