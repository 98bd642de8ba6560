-- ===== src/Events/Concurrent/Finished.antt =====
-- events.go: what a stop leaves, and how many requests are under way.
use featureflip_go.Base.{
  ℕ, ◌+◌, ◌≤◌, ◌≡◌, refl, ap, ◌∙◌, Bool, true, false, List, [], ◌∷◌, ◌++◌, length, length-drop,
  if_true, arith, sum, sum-middle, one_if, inl, inr, ◌⊎◌,
}
use featureflip_go.Events.{
  Outcome, delivered, retryable, rejected, Reply, EventProcessor, new_event_processor_with_bound,
  batch_length, drain_batch, requeue,
}
use featureflip_go.Events.Concurrent.{
  Then, returns, unlatches, ticks, Drain, of_flush, of_stop, Worker, enqueueing, auto_flushing,
  ticking, stopping, joining, discarding, stopped, flushing, waiting, closing, looping, checking,
  posting, requeueing, Processing, resume, after_drain, accept, begin_flush, batched, answered,
  begin_stop, advance, Request, enqueue_call, flush_call, stop_call, entry, System, calls, starts,
  moves, Reach, begins, goes_on,
}
use featureflip_go.Events.Concurrent.Counts.{answered-processor}
use featureflip_go.Events.Concurrent.Drains.{coalesced, drain_coalesced, coalesced-count}
use featureflip_go.Events.Concurrent.Latch.{latched, latched-count}
use featureflip_go.Events.Concurrent.Stops.{stops, drain_stops, stops-count}
use featureflip_go.Events.Concurrent.Ticker.{tickers, tickers-count}
use featureflip_go.Events.Concurrent.Waits.{known_at}

drain_one : (d : Drain) → drain_coalesced d + drain_stops d ≡ 1
drain_one (of_flush n next) = refl
drain_one of_stop = refl

module _ {ℓ} {A : Type ℓ} where
  -- The goroutine has a request under way.
  abbrev pub requests : Worker A → ℕ
  requests (posting d events) = 1
  requests _ = 0

  requests-one : (p : Worker A) → requests p ≤ coalesced p + stops p
  requests-one (posting d events) = omega (arith, drain_one d)
  requests-one p = omega arith

  requests-sum : (ps : List (Worker A)) → sum requests ps ≤ sum coalesced ps + sum stops ps
  requests-sum [] = omega arith
  requests-sum (p ∷ ps) = omega (arith, requests-one p, requests-sum ps)

  -- In every interleaving there is at most one request under way, and at most two once a stop has
  -- begun; at most one flush drains, and at most one that the size of the buffer has triggered is under
  -- way.
  pub requests-bounded :
      (s : System A)
      → Reach s
      → (sum requests s.workers ≤ 1 + one_if s.state.processor.closed)
        × (sum coalesced s.workers ≤ 1)
        × (sum latched s.workers ≤ 1)
  requests-bounded s r =
      let drains = coalesced-count r in
      let latches = latched-count r in
      let ends = stops-count r in
      (ground (arith, requests-sum s.workers), ground arith, ground arith)

  -- The goroutine has returned from the stop that shut the processor down.
  abbrev quiet : Worker A → ℕ
  quiet stopped = 1
  quiet _ = 0

  requeue-closed :
      (now : ℕ) (events : List A) (ep : EventProcessor A)
      → ep.closed ≡ true
      → (requeue now events ep).0.buf ≡ ep.buf
  unfolding requeue
  requeue-closed now [] ep c = refl
  requeue-closed now (e ∷ es) ep c = ap (λ (t : EventProcessor A × ℕ). t.0.buf) (if_true _ _ c)

  empty-stays :
      (r : Reply) (tick : Bool) (p : Worker A) (m : Processing A)
      → m.processor.closed ≡ true
      → length m.processor.buf ≡ 0
      → length (advance r tick p m).1.processor.buf ≡ 0
  unfolding advance begin_flush begin_stop drain_batch
  empty-stays r tick (enqueueing event) m c h = ground arith
  empty-stays r tick auto_flushing m c h = ground arith
  empty-stays r true ticking m c h = h
  empty-stays r false ticking m c h = ground arith
  empty-stays r tick stopping m c h = ground arith
  empty-stays r tick discarding m c h = refl
  empty-stays r tick (flushing next) m c h = ground arith
  empty-stays r tick (looping d) m c h =
      omega
        (arith, length-drop (batch_length m.processor.batch_size m.processor.buf) m.processor.buf)
  empty-stays r tick (posting d events) m c h =
      ap (λ ep. length ep.buf) (answered-processor r.outcome d events m) ∙ h
  empty-stays r tick (requeueing d events) m c h =
      ap length (requeue-closed r.now events m.processor c) ∙ h
  empty-stays r tick p m c h = h

  quiet-batched : (d : Drain) (events : List A) → quiet (batched d events) ≡ 0
  quiet-batched (of_flush n next) [] = refl
  quiet-batched of_stop [] = refl
  quiet-batched d (e ∷ es) = refl

  quiet-answered :
      (o : Outcome) (d : Drain) (events : List A) (m : Processing A)
      → quiet (answered o d events m).0 ≡ 0
  quiet-answered delivered d events m = refl
  quiet-answered rejected d events m = refl
  quiet-answered retryable d events m = refl

module _ {ℓ} (A : Type ℓ) where
  quiet-resume : (next : Then) → quiet (resume {A = A} next) ≡ 0
  quiet-resume returns = refl
  quiet-resume unlatches = refl
  quiet-resume ticks = refl

  quiet-after_drain : (d : Drain) → quiet (after_drain {A = A} d) ≡ 0
  quiet-after_drain (of_flush n next) = refl
  quiet-after_drain of_stop = refl

module _ {ℓ} {A : Type ℓ} where
  -- Only the last step of a stop brings a goroutine to its end.
  quiet-advance :
      (r : Reply) (tick : Bool) (p : Worker A) (m : Processing A)
      → (quiet (advance r tick p m).0 ≤ quiet p) ⊎ (length (advance r tick p m).1.processor.buf ≡ 0)
  unfolding advance accept begin_flush begin_stop
  quiet-advance r tick (enqueueing event) m = inl (ground arith)
  quiet-advance r tick auto_flushing m = inl (ground arith)
  quiet-advance r true ticking m = inl (omega arith)
  quiet-advance r false ticking m = inl (ground arith)
  quiet-advance r tick stopping m = inl (ground arith)
  quiet-advance r tick joining m = inl (ground arith)
  quiet-advance r tick discarding m = inr refl
  quiet-advance r tick (flushing next) m = inl (ground (arith, quiet-resume A next))
  quiet-advance r tick (waiting n next) m = inl (ground (arith, quiet-resume A next))
  quiet-advance r tick (closing n next) m = inl (ground (arith, quiet-resume A next))
  quiet-advance r tick (looping d) m =
      inl (omega (arith, quiet-batched d (drain_batch m.processor).0))
  quiet-advance r tick (checking d) m = inl (ground (arith, quiet-after_drain A d))
  quiet-advance r tick (posting d events) m =
      inl (omega (arith, quiet-answered r.outcome d events m))
  quiet-advance r tick (requeueing d events) m = inl (omega (arith, quiet-after_drain A d))
  quiet-advance r tick p m = inl (omega arith)

  quiet-one : (p : Worker A) → quiet p ≤ stops p
  quiet-one stopped = omega arith
  quiet-one p = omega arith

  quiet-stops : (ps : List (Worker A)) → sum quiet ps ≤ sum stops ps
  quiet-stops [] = omega arith
  quiet-stops (p ∷ ps) = omega (arith, quiet-stops ps, quiet-one p)

  entry-quiet : (c : Request A) → quiet (entry c) ≡ 0
  entry-quiet (enqueue_call event) = refl
  entry-quiet flush_call = refl
  entry-quiet stop_call = refl

  quiet-empty :
      {s : System A} → Reach s → 1 ≤ sum quiet s.workers → length s.state.processor.buf ≡ 0
  unfolding new_event_processor_with_bound
  quiet-empty (begins has_client size interval bound) some_quiet = refl
  quiet-empty (goes_on {s} r (calls c)) some_quiet = quiet-empty r (omega (arith, entry-quiet c))
  quiet-empty (goes_on {s} r (starts new opened)) some_quiet = quiet-empty r (omega arith)
  quiet-empty (goes_on {s} r (moves reply tick before p others e)) some_quiet =
      elim (quiet-advance reply tick p s.state) [
        | inl no_more ↦
            let still : 1 ≤ sum quiet s.workers = omega (
              arith,
              ap (sum quiet) e,
              sum-middle quiet before p others,
              sum-middle quiet before (advance reply tick p s.state).0 others,
            ) in
            empty-stays reply tick p s.state (ground (arith, stops-count r, quiet-stops s.workers))
              (quiet-empty r still)
        | inr empty ↦ empty
      ]

  length-nil : (l : List A) → length l ≡ 0 → l ≡ []
  length-nil [] h = refl
  length-nil (x ∷ xs) h = absurd (omega arith)

  -- In every interleaving, once the stop that shut the processor down has returned, the processor is
  -- closed and its buffer is empty, and the goroutine of start, if there was one, has ended.
  pub stopped-quiet :
      (s : System A) (before others : List (Worker A))
      → Reach s
      → s.workers ≡ before ++ stopped ∷ others
      → (s.state.processor.closed ≡ true)
        × (s.state.processor.buf ≡ [])
        × (sum tickers s.workers ≡ 0)
  stopped-quiet s before others r e =
      let here : 1 ≤ sum quiet s.workers =
        omega (arith, ap (sum quiet) e, sum-middle quiet before stopped others) in
      (
        ground (arith, stops-count r, quiet-stops s.workers),
        length-nil s.state.processor.buf (quiet-empty r here),
        ground (arith, tickers-count r, known_at s before stopped others r e),
      )
