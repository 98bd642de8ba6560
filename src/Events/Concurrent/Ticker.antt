-- ===== src/Events/Concurrent/Ticker.antt =====
-- events.go: the goroutine of start is there until `done` is closed.
use featureflip_go.Base.{ℕ, ◌+◌, ◌≡◌, refl, true, false, List, [], ◌∷◌, arith, sum, one_if}
use featureflip_go.Events.{
  Outcome, delivered, retryable, rejected, new_event_processor_with_bound, drain_batch, append,
}
use featureflip_go.Events.Concurrent.{
  Then, returns, unlatches, ticks, Drain, of_flush, of_stop, Worker, enqueueing, auto_flushing,
  unlatching, ticking, exited, stopping, signalling, joining, discarding, stopped, returned,
  flushing, waiting, ending, closing, looping, clearing, checking, posting, requeueing, Processing,
  resume, after_drain, accept, begin_flush, batched, answered, begin_stop, advance, Request,
  enqueue_call, flush_call, stop_call, entry, System, Reach,
}
use featureflip_go.Events.Concurrent.Counts.{Keeps, Starts, adds}

-- What follows a flush is the loop of start.
abbrev pub next_tickers : Then → ℕ
next_tickers unlatches = 0
next_tickers returns = 0
next_tickers ticks = 1

abbrev pub drain_tickers : Drain → ℕ
drain_tickers (of_flush n next) = next_tickers next
drain_tickers of_stop = 0

-- The goroutine is that of start.
abbrev pub tickers {ℓ} : {A : Type ℓ} → Worker A → ℕ
tickers (looping d) = drain_tickers d
tickers (posting d events) = drain_tickers d
tickers (clearing d) = drain_tickers d
tickers (checking d) = drain_tickers d
tickers (requeueing d events) = drain_tickers d
tickers (flushing next) = next_tickers next
tickers (waiting n next) = next_tickers next
tickers (ending n next) = next_tickers next
tickers (closing n next) = next_tickers next
tickers ticking = 1
tickers _ = 0

module _ {ℓ} (A : Type ℓ) where
  tickers-resume : (next : Then) → tickers (resume {A = A} next) ≡ next_tickers next
  tickers-resume returns = refl
  tickers-resume unlatches = refl
  tickers-resume ticks = refl

  tickers-after_drain : (d : Drain) → tickers (after_drain {A = A} d) ≡ drain_tickers d
  tickers-after_drain (of_flush n next) = refl
  tickers-after_drain of_stop = refl

module _ {ℓ} {A : Type ℓ} where
  abbrev pub done_count : Processing A → ℕ
  done_count m = one_if m.done_closed

  abbrev pub started_count : Processing A → ℕ
  started_count m = one_if m.started

  answered-flags :
      (o : Outcome) (d : Drain) (events : List A) (m : Processing A)
      → (done_count (answered o d events m).1 ≡ done_count m)
        × (started_count (answered o d events m).1 ≡ started_count m)
  answered-flags delivered d events m = (refl, refl)
  answered-flags rejected d events m = (refl, refl)
  answered-flags retryable d events m = (refl, refl)

  tickers-batched : (d : Drain) (events : List A) → tickers (batched d events) ≡ drain_tickers d
  tickers-batched d [] = tickers-after_drain A d
  tickers-batched d (e ∷ es) = refl

  tickers-answered :
      (o : Outcome) (d : Drain) (events : List A) (m : Processing A)
      → tickers (answered o d events m).0 ≡ drain_tickers d
  tickers-answered delivered d events m = refl
  tickers-answered rejected d events m = refl
  tickers-answered retryable d events m = refl

  tickers-Keeps : Keeps tickers done_count (λ m. started_count m)
  unfolding advance accept append begin_flush begin_stop drain_batch
  tickers-Keeps r tick (enqueueing event) m h = ground arith
  tickers-Keeps r tick auto_flushing m h = ground arith
  tickers-Keeps r tick unlatching m h = ground arith
  tickers-Keeps r true ticking m h = refl
  tickers-Keeps r false ticking m h = ground arith
  tickers-Keeps r tick exited m h = refl
  tickers-Keeps r tick stopping m h = ground arith
  tickers-Keeps r tick signalling m h = ground arith
  tickers-Keeps r tick joining m h = ground arith
  tickers-Keeps r tick discarding m h = ground arith
  tickers-Keeps r tick stopped m h = refl
  tickers-Keeps r tick returned m h = refl
  tickers-Keeps r tick (flushing next) m h = ground (arith, tickers-resume A next)
  tickers-Keeps r tick (waiting n next) m h = ground (arith, tickers-resume A next)
  tickers-Keeps r tick (ending n next) m h = ground arith
  tickers-Keeps r tick (closing n next) m h = ground (arith, tickers-resume A next)
  tickers-Keeps r tick (looping d) m h =
      ground (arith, tickers-batched d (drain_batch m.processor).0)
  tickers-Keeps r tick (clearing d) m h = ground arith
  tickers-Keeps r tick (checking d) m h = ground (arith, tickers-after_drain A d)
  tickers-Keeps r tick (posting d events) m h =
      let flags = answered-flags r.outcome d events m in
      ground (arith, tickers-answered r.outcome d events m, flags.0, flags.1)
  tickers-Keeps r tick (requeueing d events) m h = ground (arith, tickers-after_drain A d)

  tickers-entry : (c : Request A) → tickers (entry c) ≡ 0
  tickers-entry (enqueue_call event) = refl
  tickers-entry flush_call = refl
  tickers-entry stop_call = refl

module _ {ℓ} (A : Type ℓ) where
  tickers-Starts : Starts {A = A} tickers done_count (λ m. started_count m)
  unfolding new_event_processor_with_bound
  tickers-Starts has_client size interval bound = refl

module _ {ℓ} {A : Type ℓ} where
  pub tickers-count :
      {s : System A}
      → Reach s
      → sum tickers s.workers + one_if s.state.done_closed ≡ one_if s.state.started
  tickers-count r =
      adds tickers done_count started_count tickers-Keeps (tickers-Starts A) tickers-entry
        (λ m h. ground arith) r
