-- ===== src/Events/Concurrent/Latch.antt =====
-- events.go: how many flushes the size of the buffer triggers at a time.
use featureflip_go.Base.{ℕ, ◌+◌, ◌≡◌, refl, ap, true, false, List, [], ◌∷◌, arith, sum, one_if}
use featureflip_go.Events.{
  Outcome, delivered, retryable, rejected, EventProcessor, new_event_processor_with_bound,
  drain_batch, append,
}
use featureflip_go.Events.Concurrent.{
  Then, returns, unlatches, ticks, Drain, of_flush, of_stop, Worker, enqueueing, auto_flushing,
  unlatching, ticking, exited, stopping, signalling, joining, discarding, stopped, returned,
  flushing, waiting, ending, closing, looping, clearing, checking, posting, requeueing, Processing,
  resume, after_drain, accept, begin_flush, batched, answered, begin_stop, advance, Request,
  enqueue_call, flush_call, stop_call, entry, System, Reach,
}
use featureflip_go.Events.Concurrent.Counts.{
  Keeps, Starts, adds, nothing, answered-processor, requeue-flags,
}

-- What follows a flush is the deferred function of autoFlush.
abbrev pub next_latched : Then → ℕ
next_latched unlatches = 1
next_latched returns = 0
next_latched ticks = 0

abbrev pub drain_latched : Drain → ℕ
drain_latched (of_flush n next) = next_latched next
drain_latched of_stop = 0

-- The goroutine has set autoFlushInFlight and has not yet set it back.
abbrev pub latched {ℓ} : {A : Type ℓ} → Worker A → ℕ
latched (looping d) = drain_latched d
latched (posting d events) = drain_latched d
latched (clearing d) = drain_latched d
latched (checking d) = drain_latched d
latched (requeueing d events) = drain_latched d
latched (flushing next) = next_latched next
latched (waiting n next) = next_latched next
latched (ending n next) = next_latched next
latched (closing n next) = next_latched next
latched unlatching = 1
latched _ = 0

module _ {ℓ} (A : Type ℓ) where
  latched-resume : (next : Then) → latched (resume {A = A} next) ≡ next_latched next
  latched-resume returns = refl
  latched-resume unlatches = refl
  latched-resume ticks = refl

  latched-after_drain : (d : Drain) → latched (after_drain {A = A} d) ≡ drain_latched d
  latched-after_drain (of_flush n next) = refl
  latched-after_drain of_stop = refl

module _ {ℓ} {A : Type ℓ} where
  abbrev auto_flush_in_flight_count : EventProcessor A → ℕ
  auto_flush_in_flight_count ep = one_if ep.auto_flush_in_flight

  latched-batched : (d : Drain) (events : List A) → latched (batched d events) ≡ drain_latched d
  latched-batched d [] = latched-after_drain A d
  latched-batched d (e ∷ es) = refl

  latched-answered :
      (o : Outcome) (d : Drain) (events : List A) (m : Processing A)
      → latched (answered o d events m).0 ≡ drain_latched d
  latched-answered delivered d events m = refl
  latched-answered rejected d events m = refl
  latched-answered retryable d events m = refl

  latched-Keeps : Keeps latched nothing (λ m. auto_flush_in_flight_count m.processor)
  unfolding advance accept append begin_flush begin_stop drain_batch
  latched-Keeps r tick (enqueueing event) m h = ground arith
  latched-Keeps r tick auto_flushing m h = ground arith
  latched-Keeps r tick unlatching m h = ground arith
  latched-Keeps r true ticking m h = refl
  latched-Keeps r false ticking m h = ground arith
  latched-Keeps r tick exited m h = refl
  latched-Keeps r tick stopping m h = ground arith
  latched-Keeps r tick signalling m h = ground arith
  latched-Keeps r tick joining m h = ground arith
  latched-Keeps r tick discarding m h = ground arith
  latched-Keeps r tick stopped m h = refl
  latched-Keeps r tick returned m h = refl
  latched-Keeps r tick (flushing next) m h = ground (arith, latched-resume A next)
  latched-Keeps r tick (waiting n next) m h = ground (arith, latched-resume A next)
  latched-Keeps r tick (ending n next) m h = ground arith
  latched-Keeps r tick (closing n next) m h = ground (arith, latched-resume A next)
  latched-Keeps r tick (looping d) m h =
      ground (arith, latched-batched d (drain_batch m.processor).0)
  latched-Keeps r tick (clearing d) m h = ground arith
  latched-Keeps r tick (checking d) m h = ground (arith, latched-after_drain A d)
  latched-Keeps r tick (posting d events) m h = ground (
    arith,
    latched-answered r.outcome d events m,
    ap auto_flush_in_flight_count (answered-processor r.outcome d events m),
  )
  latched-Keeps r tick (requeueing d events) m h =
      ground
        (arith, latched-after_drain A d, requeue-flags (λ a b c. one_if c) r.now events m.processor)

  latched-entry : (c : Request A) → latched (entry c) ≡ 0
  latched-entry (enqueue_call event) = refl
  latched-entry flush_call = refl
  latched-entry stop_call = refl

module _ {ℓ} (A : Type ℓ) where
  latched-Starts : Starts {A = A} latched nothing (λ m. auto_flush_in_flight_count m.processor)
  unfolding new_event_processor_with_bound
  latched-Starts has_client size interval bound = refl

module _ {ℓ} {A : Type ℓ} where
  pub latched-count :
      {s : System A}
      → Reach s
      → sum latched s.workers + 0 ≡ one_if s.state.processor.auto_flush_in_flight
  latched-count r =
      adds latched nothing (λ m. auto_flush_in_flight_count m.processor) latched-Keeps
        (latched-Starts A) latched-entry (λ m h. refl) r
