-- ===== src/Events/Concurrent/Drains.antt =====
-- events.go: how many flushes drain at a time.
use featureflip_go.Base.{ℕ, ◌+◌, ◌≡◌, refl, ap, true, false, List, [], ◌∷◌, arith, sum, one_if}
use featureflip_go.Events.{
  Outcome, delivered, retryable, rejected, EventProcessor, new_event_processor_with_bound,
  drain_batch, append,
}
use featureflip_go.Events.Concurrent.{
  Then, returns, unlatches, ticks, Drain, of_flush, of_stop, Worker, enqueueing, auto_flushing,
  unlatching, ticking, exited, stopping, signalling, joining, discarding, stopped, returned,
  flushing, waiting, ending, closing, looping, clearing, checking, posting, requeueing, Processing,
  resume, after_drain, accept, begin_flush, batched, answered, begin_stop, advance, Request,
  enqueue_call, flush_call, stop_call, entry, System, Reach,
}
use featureflip_go.Events.Concurrent.Counts.{
  Keeps, Starts, adds, nothing, answered-processor, requeue-flags,
}

abbrev pub drain_coalesced : Drain → ℕ
drain_coalesced (of_flush n next) = 1
drain_coalesced of_stop = 0

-- The goroutine has set drainDone and has not yet set it back.
abbrev pub coalesced {ℓ} : {A : Type ℓ} → Worker A → ℕ
coalesced (looping d) = drain_coalesced d
coalesced (posting d events) = drain_coalesced d
coalesced (clearing d) = drain_coalesced d
coalesced (checking d) = drain_coalesced d
coalesced (requeueing d events) = drain_coalesced d
coalesced (ending n next) = 1
coalesced _ = 0

module _ {ℓ} (A : Type ℓ) where
  coalesced-resume : (next : Then) → coalesced (resume {A = A} next) ≡ 0
  coalesced-resume returns = refl
  coalesced-resume unlatches = refl
  coalesced-resume ticks = refl

  coalesced-after_drain : (d : Drain) → coalesced (after_drain {A = A} d) ≡ drain_coalesced d
  coalesced-after_drain (of_flush n next) = refl
  coalesced-after_drain of_stop = refl

module _ {ℓ} {A : Type ℓ} where
  abbrev draining_count : EventProcessor A → ℕ
  draining_count ep = one_if ep.draining

  coalesced-batched :
      (d : Drain) (events : List A) → coalesced (batched d events) ≡ drain_coalesced d
  coalesced-batched d [] = coalesced-after_drain A d
  coalesced-batched d (e ∷ es) = refl

  coalesced-answered :
      (o : Outcome) (d : Drain) (events : List A) (m : Processing A)
      → coalesced (answered o d events m).0 ≡ drain_coalesced d
  coalesced-answered delivered d events m = refl
  coalesced-answered rejected d events m = refl
  coalesced-answered retryable d events m = refl

  coalesced-Keeps : Keeps coalesced nothing (λ m. draining_count m.processor)
  unfolding advance accept append begin_flush begin_stop drain_batch
  coalesced-Keeps r tick (enqueueing event) m h = ground arith
  coalesced-Keeps r tick auto_flushing m h = ground arith
  coalesced-Keeps r tick unlatching m h = ground arith
  coalesced-Keeps r true ticking m h = refl
  coalesced-Keeps r false ticking m h = ground arith
  coalesced-Keeps r tick exited m h = refl
  coalesced-Keeps r tick stopping m h = ground arith
  coalesced-Keeps r tick signalling m h = ground arith
  coalesced-Keeps r tick joining m h = ground arith
  coalesced-Keeps r tick discarding m h = ground arith
  coalesced-Keeps r tick stopped m h = refl
  coalesced-Keeps r tick returned m h = refl
  coalesced-Keeps r tick (flushing next) m h = ground (arith, coalesced-resume A next)
  coalesced-Keeps r tick (waiting n next) m h = ground (arith, coalesced-resume A next)
  coalesced-Keeps r tick (ending n next) m h = ground arith
  coalesced-Keeps r tick (closing n next) m h = ground (arith, coalesced-resume A next)
  coalesced-Keeps r tick (looping d) m h =
      ground (arith, coalesced-batched d (drain_batch m.processor).0)
  coalesced-Keeps r tick (clearing d) m h = ground arith
  coalesced-Keeps r tick (checking d) m h = ground (arith, coalesced-after_drain A d)
  coalesced-Keeps r tick (posting d events) m h = ground (
    arith,
    coalesced-answered r.outcome d events m,
    ap draining_count (answered-processor r.outcome d events m),
  )
  coalesced-Keeps r tick (requeueing d events) m h =
      ground (
        arith,
        coalesced-after_drain A d,
        requeue-flags (λ a b c. one_if b) r.now events m.processor,
      )

  coalesced-entry : (c : Request A) → coalesced (entry c) ≡ 0
  coalesced-entry (enqueue_call event) = refl
  coalesced-entry flush_call = refl
  coalesced-entry stop_call = refl

module _ {ℓ} (A : Type ℓ) where
  coalesced-Starts : Starts {A = A} coalesced nothing (λ m. draining_count m.processor)
  unfolding new_event_processor_with_bound
  coalesced-Starts has_client size interval bound = refl

module _ {ℓ} {A : Type ℓ} where
  pub coalesced-count :
      {s : System A} → Reach s → sum coalesced s.workers + 0 ≡ one_if s.state.processor.draining
  coalesced-count r =
      adds coalesced nothing (λ m. draining_count m.processor) coalesced-Keeps (coalesced-Starts A)
        coalesced-entry (λ m h. refl) r
