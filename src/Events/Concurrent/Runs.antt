-- ===== src/Events/Concurrent/Runs.antt =====
-- events.go: each drain of a flush is run by one goroutine until its channel is closed.
use featureflip_go.Base.{
  ℕ, ◌+◌, ◌≡◌, refl, true, false, ◌&&◌, List, [], ◌∷◌, leb, ◌==◌, arith, sum, one_if,
}
use featureflip_go.Events.{
  Outcome, delivered, retryable, rejected, new_event_processor_with_bound, drain_batch, append,
}
use featureflip_go.Events.Concurrent.{
  Then, returns, unlatches, ticks, Drain, of_flush, of_stop, Worker, enqueueing, auto_flushing,
  unlatching, ticking, exited, stopping, signalling, joining, discarding, stopped, returned,
  flushing, waiting, ending, closing, looping, clearing, checking, posting, requeueing, Processing,
  resume, after_drain, accept, begin_flush, batched, answered, begin_stop, advance, Request,
  enqueue_call, flush_call, stop_call, entry, System, Reach,
}
use featureflip_go.Events.Concurrent.Counts.{Keeps, Starts, adds}

-- The goroutine runs the drain of a number, or is to close its channel.
abbrev pub drain_runs : ℕ → Drain → ℕ
drain_runs i (of_flush n next) = one_if (n == i)
drain_runs i of_stop = 0

abbrev pub runs {ℓ} : {A : Type ℓ} → ℕ → Worker A → ℕ
runs i (looping d) = drain_runs i d
runs i (posting d events) = drain_runs i d
runs i (clearing d) = drain_runs i d
runs i (checking d) = drain_runs i d
runs i (requeueing d events) = drain_runs i d
runs i (ending n next) = one_if (n == i)
runs i (closing n next) = one_if (n == i)
runs i _ = 0

module _ {ℓ} (A : Type ℓ) (i : ℕ) where
  runs-resume : (next : Then) → runs i (resume {A = A} next) ≡ 0
  runs-resume returns = refl
  runs-resume unlatches = refl
  runs-resume ticks = refl

  runs-after_drain : (d : Drain) → runs i (after_drain {A = A} d) ≡ drain_runs i d
  runs-after_drain (of_flush n next) = refl
  runs-after_drain of_stop = refl

module _ {ℓ} {A : Type ℓ} (i : ℕ) where
  abbrev drained_count : Processing A → ℕ
  drained_count m = one_if (m.drained i)

  abbrev begun_count : Processing A → ℕ
  begun_count m = one_if (leb 1 i && leb i m.drains)

  runs-batched : (d : Drain) (events : List A) → runs i (batched d events) ≡ drain_runs i d
  runs-batched d [] = runs-after_drain A i d
  runs-batched d (e ∷ es) = refl

  answered-runs :
      (o : Outcome) (d : Drain) (events : List A) (m : Processing A)
      → (runs i (answered o d events m).0 ≡ drain_runs i d)
        × (drained_count (answered o d events m).1 ≡ drained_count m)
        × (begun_count (answered o d events m).1 ≡ begun_count m)
  answered-runs delivered d events m = (refl, refl, refl)
  answered-runs rejected d events m = (refl, refl, refl)
  answered-runs retryable d events m = (refl, refl, refl)

  runs-Keeps : Keeps (runs i) drained_count begun_count
  unfolding advance accept append begin_flush begin_stop drain_batch
  runs-Keeps r tick (enqueueing event) m h = ground arith
  runs-Keeps r tick auto_flushing m h = ground arith
  runs-Keeps r tick unlatching m h = refl
  runs-Keeps r true ticking m h = refl
  runs-Keeps r false ticking m h = ground arith
  runs-Keeps r tick exited m h = refl
  runs-Keeps r tick stopping m h = ground arith
  runs-Keeps r tick signalling m h = refl
  runs-Keeps r tick joining m h = ground arith
  runs-Keeps r tick discarding m h = refl
  runs-Keeps r tick stopped m h = refl
  runs-Keeps r tick returned m h = refl
  runs-Keeps r tick (flushing next) m h = ground (arith, runs-resume A i next)
  runs-Keeps r tick (waiting n next) m h = ground (arith, runs-resume A i next)
  runs-Keeps r tick (ending n next) m h = ground arith
  runs-Keeps r tick (closing n next) m h = ground (arith, runs-resume A i next)
  runs-Keeps r tick (looping d) m h = ground (arith, runs-batched d (drain_batch m.processor).0)
  runs-Keeps r tick (clearing d) m h = ground arith
  runs-Keeps r tick (checking d) m h = ground (arith, runs-after_drain A i d)
  runs-Keeps r tick (posting d events) m h =
      let same = answered-runs r.outcome d events m in ground (arith, same.0, same.1, same.2)
  runs-Keeps r tick (requeueing d events) m h = ground (arith, runs-after_drain A i d)

  runs-entry : (c : Request A) → runs i (entry c) ≡ 0
  runs-entry (enqueue_call event) = refl
  runs-entry flush_call = refl
  runs-entry stop_call = refl

module _ {ℓ} (A : Type ℓ) (i : ℕ) where
  runs-Starts : Starts {A = A} (runs i) (drained_count i) (begun_count i)
  unfolding new_event_processor_with_bound
  runs-Starts has_client size interval bound = ground arith

pub runs-count {ℓ} :
    {A : Type ℓ} (i : ℕ) {s : System A}
    → Reach s
    → sum (runs i) s.workers + one_if (s.state.drained i) ≡ one_if (leb 1 i && leb i s.state.drains)
runs-count {A = A} i r =
    adds (runs i) (drained_count i) (begun_count i) (runs-Keeps i) (runs-Starts A i) (runs-entry i)
      (λ m h. ground arith) r
