-- ===== src/Events/Concurrent/Known.antt =====
-- events.go: what the goroutines that wait, or stop a processor, know of its channels.
use featureflip_go.Base.{
  ◌≤◌, ◌≡◌, refl, sym, ◌∙◌, Bool, true, false, not, ◌||◌, List, [], ◌∷◌, if◌then◌else◌, if_rule,
  ltb, leb, length, arith, Bool-cases, inl, inr,
}
use featureflip_go.Events.{Outcome, delivered, retryable, rejected, Reply, drain_batch, append}
use featureflip_go.Events.Concurrent.{
  Then, returns, unlatches, ticks, Drain, of_flush, of_stop, Worker, enqueueing, auto_flushing,
  unlatching, ticking, exited, stopping, signalling, joining, discarding, stopped, returned,
  flushing, waiting, ending, closing, looping, clearing, checking, posting, requeueing, Processing,
  resume, after_drain, final_drain, accept, begin_flush, batched, answered, begin_stop, advance,
}
use featureflip_go.Events.Concurrent.Tidy.{IsTidy}

module _ {ℓ} {A : Type ℓ} where
  -- A goroutine past the receive from `done` on a processor that was started.
  abbrev pub IsJoined : Processing A → Type 0
  IsJoined m = m.started ≡ true → m.done_closed ≡ true

  abbrev pub IsDrainFine : Processing A → Drain → Type 0
  IsDrainFine m (of_flush n next) = Unit
  IsDrainFine m of_stop = IsJoined m

  abbrev pub IsFine : Processing A → Worker A → Type 0
  IsFine m (waiting n next) = (1 ≤ n) × (n ≤ m.drains)
  IsFine m signalling = m.started ≡ true
  IsFine m joining = m.started ≡ true
  IsFine m discarding = IsJoined m
  IsFine m stopped = IsJoined m
  IsFine m (looping d) = IsDrainFine m d
  IsFine m (clearing d) = IsDrainFine m d
  IsFine m (checking d) = IsDrainFine m d
  IsFine m (posting d events) = IsDrainFine m d
  IsFine m (requeueing d events) = IsDrainFine m d
  IsFine m (enqueueing event) = Unit
  IsFine m auto_flushing = Unit
  IsFine m unlatching = Unit
  IsFine m ticking = Unit
  IsFine m exited = Unit
  IsFine m returned = Unit
  IsFine m (flushing next) = Unit
  IsFine m (ending n next) = Unit
  IsFine m (closing n next) = Unit
  IsFine m stopping = Unit

  -- What the steps of others do not undo.
  abbrev pub Later : Processing A → Processing A → Type 0
  Later m n =
      (m.drains ≤ n.drains)
      × (n.started ≡ m.started)
      × (m.done_closed ≡ true → n.done_closed ≡ true)

  Later-drain : (m n : Processing A) (d : Drain) → Later m n → IsDrainFine m d → IsDrainFine n d
  Later-drain m n (of_flush i next) l h = tt
  Later-drain m n of_stop l h = λ e. l.2 (h (sym l.1 ∙ e))

  pub Later-fine : (m n : Processing A) (p : Worker A) → Later m n → IsFine m p → IsFine n p
  Later-fine m n (waiting i next) l h = (h.0, omega arith)
  Later-fine m n signalling l h = l.1 ∙ h
  Later-fine m n joining l h = l.1 ∙ h
  Later-fine m n discarding l h = λ e. l.2 (h (sym l.1 ∙ e))
  Later-fine m n stopped l h = λ e. l.2 (h (sym l.1 ∙ e))
  Later-fine m n (looping d) l h = Later-drain m n d l h
  Later-fine m n (clearing d) l h = Later-drain m n d l h
  Later-fine m n (checking d) l h = Later-drain m n d l h
  Later-fine m n (posting d events) l h = Later-drain m n d l h
  Later-fine m n (requeueing d events) l h = Later-drain m n d l h
  Later-fine m n p l h = tt

  Later-same : (m : Processing A) → Later m m
  Later-same m = (omega arith, refl, λ h. h)

  answered-Later :
      (o : Outcome) (d : Drain) (events : List A) (m : Processing A)
      → Later m (answered o d events m).1
  answered-Later delivered d events m = Later-same m
  answered-Later rejected d events m = Later-same m
  answered-Later retryable d events m = Later-same m

  abbrev After : Processing A → Worker A × Processing A → Type 0
  After m t = Later m t.1

  pub advance-Later :
      (r : Reply) (tick : Bool) (p : Worker A) (m : Processing A) → Later m (advance r tick p m).1
  unfolding advance accept begin_flush begin_stop
  advance-Later r tick (enqueueing event) m =
      if_rule (After m) (not m.processor.has_client || m.processor.closed) (Later-same m)
        (Later-same m)
  advance-Later r tick auto_flushing m =
      if_rule (After m)
        (m.processor.closed
          || (m.processor.auto_flush_in_flight || ltb r.now m.processor.next_auto_flush_at))
        (Later-same m) (Later-same m)
  advance-Later r true ticking m = Later-same m
  advance-Later r false ticking m =
      if_rule (After m) m.stop_closed (omega arith, refl, λ h. refl) (Later-same m)
  advance-Later r tick stopping m =
      if_rule (After m) m.processor.closed (Later-same m) (Later-same m)
  advance-Later r tick (flushing next) m =
      if_rule (After m) m.processor.has_client
        (if_rule (After m) m.processor.draining (Later-same m) (omega arith, refl, λ h. h))
        (Later-same m)
  advance-Later r tick (posting d events) m = answered-Later r.outcome d events m
  advance-Later r tick p m = Later-same m

  resume-IsFine : (m : Processing A) (next : Then) → IsFine m (resume next)
  resume-IsFine m returns = tt
  resume-IsFine m unlatches = tt
  resume-IsFine m ticks = tt

  after_drain-IsFine : (m : Processing A) (d : Drain) → IsDrainFine m d → IsFine m (after_drain d)
  after_drain-IsFine m (of_flush n next) h = tt
  after_drain-IsFine m of_stop h = h

  batched-IsFine :
      (m : Processing A) (d : Drain) (events : List A)
      → IsDrainFine m d
      → IsFine m (batched d events)
  batched-IsFine m d [] h = after_drain-IsFine m d h
  batched-IsFine m d (e ∷ es) h = h

  answered-IsFine :
      (o : Outcome) (d : Drain) (events : List A) (m : Processing A)
      → IsDrainFine m d
      → IsFine m (answered o d events m).0
  answered-IsFine delivered d events m h = h
  answered-IsFine rejected d events m h = h
  answered-IsFine retryable d events m h = h

  final_drain-IsFine :
      (m : Processing A) (has_client : Bool) → IsJoined m → IsFine m (final_drain has_client)
  final_drain-IsFine m true h = h
  final_drain-IsFine m false h = h

  begin_flush-IsFine :
      (next : Then) (m : Processing A)
      → IsTidy m
      → IsFine (begin_flush next m).1 (begin_flush next m).0
  unfolding begin_flush
  begin_flush-IsFine next m tidy = elim (Bool-cases m.processor.draining) [
    | inl e ↦ rw e (ground arith, omega arith)
    | inr e ↦ rw e tt
  ]

  started-IsFine :
      (m : Processing A) (has_client started : Bool)
      → m.started ≡ started
      → IsFine m (if started then signalling else final_drain has_client)
  started-IsFine m has_client true e = e
  started-IsFine m has_client false e = final_drain-IsFine m has_client (λ s. absurd (ground arith))

  done-IsFine :
      (m : Processing A) (has_client done : Bool)
      → m.done_closed ≡ done
      → IsFine m joining
      → IsFine m (if done then final_drain has_client else joining)
  done-IsFine m has_client true e h = final_drain-IsFine m has_client (λ s. e)
  done-IsFine m has_client false e h = h

  abbrev EndsFine : Worker A × Processing A → Type 0
  EndsFine t = IsFine t.1 t.0

  pub advance-IsFine :
      (r : Reply) (tick : Bool) (p : Worker A) (m : Processing A)
      → IsTidy m
      → IsFine m p
      → IsFine (advance r tick p m).1 (advance r tick p m).0
  unfolding advance accept begin_stop
  advance-IsFine r tick (enqueueing event) m tidy h =
      if_rule EndsFine (not m.processor.has_client || m.processor.closed) tt (
        if_rule (IsFine m) (leb m.processor.batch_size (length (append event m.processor).buf)) tt
          tt)
  advance-IsFine r tick auto_flushing m tidy h =
      if_rule EndsFine
        (m.processor.closed
          || (m.processor.auto_flush_in_flight || ltb r.now m.processor.next_auto_flush_at))
        tt tt
  advance-IsFine r tick unlatching m tidy h = tt
  advance-IsFine r true ticking m tidy h = tt
  advance-IsFine r false ticking m tidy h = if_rule EndsFine m.stop_closed tt tt
  advance-IsFine r tick exited m tidy h = tt
  advance-IsFine r tick stopping m tidy h = if_rule EndsFine m.processor.closed tt (
      started-IsFine (record m { processor = record m.processor { closed = true } })
        m.processor.has_client m.started refl)
  advance-IsFine r tick signalling m tidy h = h
  advance-IsFine r tick joining m tidy h = done-IsFine m m.processor.has_client m.done_closed refl h
  advance-IsFine r tick discarding m tidy h = h
  advance-IsFine r tick stopped m tidy h = h
  advance-IsFine r tick returned m tidy h = tt
  advance-IsFine r tick (flushing next) m tidy h =
      if_rule EndsFine m.processor.has_client (begin_flush-IsFine next m tidy)
        (resume-IsFine m next)
  advance-IsFine r tick (waiting n next) m tidy h =
      if_rule (IsFine m) (m.drained n) (resume-IsFine m next) h
  advance-IsFine r tick (ending n next) m tidy h = tt
  advance-IsFine r tick (closing n next) m tidy h =
      resume-IsFine (advance r tick (closing n next) m).1 next
  advance-IsFine r tick (looping d) m tidy h =
      Later-fine m (advance r tick (looping d) m).1 (batched d (drain_batch m.processor).0)
        (Later-same m) (batched-IsFine m d (drain_batch m.processor).0 h)
  advance-IsFine r tick (clearing d) m tidy h =
      Later-drain m (advance r tick (clearing d) m).1 d (Later-same m) h
  advance-IsFine r tick (checking d) m tidy h =
      if_rule (IsFine m) m.processor.closed (after_drain-IsFine m d h) h
  advance-IsFine r tick (posting d events) m tidy h =
      Later-fine m (answered r.outcome d events m).1 (answered r.outcome d events m).0
        (answered-Later r.outcome d events m) (answered-IsFine r.outcome d events m h)
  advance-IsFine r tick (requeueing d events) m tidy h =
      Later-fine m (advance r tick (requeueing d events) m).1 (after_drain d) (Later-same m)
        (after_drain-IsFine m d h)
