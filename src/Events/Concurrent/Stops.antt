-- ===== src/Events/Concurrent/Stops.antt =====
-- events.go: how many calls of stop shut a processor down.
use featureflip_go.Base.{ℕ, ◌+◌, ◌≡◌, refl, ap, true, false, List, [], ◌∷◌, arith, sum, one_if}
use featureflip_go.Events.{
  Outcome, delivered, retryable, rejected, EventProcessor, new_event_processor_with_bound,
  drain_batch, append,
}
use featureflip_go.Events.Concurrent.{
  Then, returns, unlatches, ticks, Drain, of_flush, of_stop, Worker, enqueueing, auto_flushing,
  unlatching, ticking, exited, stopping, signalling, joining, discarding, stopped, returned,
  flushing, waiting, ending, closing, looping, clearing, checking, posting, requeueing, Processing,
  resume, after_drain, accept, begin_flush, batched, answered, begin_stop, advance, Request,
  enqueue_call, flush_call, stop_call, entry, System, Reach,
}
use featureflip_go.Events.Concurrent.Counts.{
  Keeps, Starts, adds, nothing, answered-processor, requeue-flags,
}

abbrev pub drain_stops : Drain → ℕ
drain_stops (of_flush n next) = 0
drain_stops of_stop = 1

-- The goroutine is in the call of stop that set `closed`, or has returned from it.
abbrev pub stops {ℓ} : {A : Type ℓ} → Worker A → ℕ
stops (looping d) = drain_stops d
stops (posting d events) = drain_stops d
stops (clearing d) = drain_stops d
stops (checking d) = drain_stops d
stops (requeueing d events) = drain_stops d
stops signalling = 1
stops joining = 1
stops discarding = 1
stops stopped = 1
stops _ = 0

module _ {ℓ} (A : Type ℓ) where
  stops-resume : (next : Then) → stops (resume {A = A} next) ≡ 0
  stops-resume returns = refl
  stops-resume unlatches = refl
  stops-resume ticks = refl

  stops-after_drain : (d : Drain) → stops (after_drain {A = A} d) ≡ drain_stops d
  stops-after_drain (of_flush n next) = refl
  stops-after_drain of_stop = refl

module _ {ℓ} {A : Type ℓ} where
  abbrev closed_count : EventProcessor A → ℕ
  closed_count ep = one_if ep.closed

  stops-batched : (d : Drain) (events : List A) → stops (batched d events) ≡ drain_stops d
  stops-batched d [] = stops-after_drain A d
  stops-batched d (e ∷ es) = refl

  stops-answered :
      (o : Outcome) (d : Drain) (events : List A) (m : Processing A)
      → stops (answered o d events m).0 ≡ drain_stops d
  stops-answered delivered d events m = refl
  stops-answered rejected d events m = refl
  stops-answered retryable d events m = refl

  stops-Keeps : Keeps stops nothing (λ m. closed_count m.processor)
  unfolding advance accept append begin_flush begin_stop drain_batch
  stops-Keeps r tick (enqueueing event) m h = ground arith
  stops-Keeps r tick auto_flushing m h = ground arith
  stops-Keeps r tick unlatching m h = ground arith
  stops-Keeps r true ticking m h = refl
  stops-Keeps r false ticking m h = ground arith
  stops-Keeps r tick exited m h = refl
  stops-Keeps r tick stopping m h = ground arith
  stops-Keeps r tick signalling m h = ground arith
  stops-Keeps r tick joining m h = ground arith
  stops-Keeps r tick discarding m h = ground arith
  stops-Keeps r tick stopped m h = refl
  stops-Keeps r tick returned m h = refl
  stops-Keeps r tick (flushing next) m h = ground (arith, stops-resume A next)
  stops-Keeps r tick (waiting n next) m h = ground (arith, stops-resume A next)
  stops-Keeps r tick (ending n next) m h = ground arith
  stops-Keeps r tick (closing n next) m h = ground (arith, stops-resume A next)
  stops-Keeps r tick (looping d) m h = ground (arith, stops-batched d (drain_batch m.processor).0)
  stops-Keeps r tick (clearing d) m h = ground arith
  stops-Keeps r tick (checking d) m h = ground (arith, stops-after_drain A d)
  stops-Keeps r tick (posting d events) m h = ground (
    arith,
    stops-answered r.outcome d events m,
    ap closed_count (answered-processor r.outcome d events m),
  )
  stops-Keeps r tick (requeueing d events) m h =
      ground
        (arith, stops-after_drain A d, requeue-flags (λ a b c. one_if a) r.now events m.processor)

  stops-entry : (c : Request A) → stops (entry c) ≡ 0
  stops-entry (enqueue_call event) = refl
  stops-entry flush_call = refl
  stops-entry stop_call = refl

module _ {ℓ} (A : Type ℓ) where
  stops-Starts : Starts {A = A} stops nothing (λ m. closed_count m.processor)
  unfolding new_event_processor_with_bound
  stops-Starts has_client size interval bound = refl

module _ {ℓ} {A : Type ℓ} where
  pub stops-count :
      {s : System A} → Reach s → sum stops s.workers + 0 ≡ one_if s.state.processor.closed
  stops-count r =
      adds stops nothing (λ m. closed_count m.processor) stops-Keeps (stops-Starts A) stops-entry
        (λ m h. refl) r
