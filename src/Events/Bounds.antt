-- ===== src/Events/Bounds.antt =====
-- events.go: the bound of the buffer.
use featureflip_go.Base.{
  ℕ, zero, suc, Bool, true, false, not, ◌||◌, List, [], ◌∷◌, ◌++◌, ltb, leb, length, length-drop,
  arith, if_rule,
}
use featureflip_go.Events.{
  Outcome, Reply, EventProcessor, batch_length, drain_batch, settle, finish, drain_loop, drain,
  flush, auto_flush, append, enqueue, stop,
}
use featureflip_go.Events.Laws.{IsBounded, settle-IsBounded, trim_oldest-bounded}

module _ {ℓ} {A : Type ℓ} where
  abbrev EndsBounded : EventProcessor A × List (List A × Outcome) → Type 0
  EndsBounded r = IsBounded r.0

  pub drain_batch-IsBounded : (ep : EventProcessor A) → IsBounded ep → IsBounded (drain_batch ep).1
  unfolding drain_batch
  drain_batch-IsBounded ep h = omega (arith, length-drop (batch_length ep.batch_size ep.buf) ep.buf)

  finish-bounded :
      (events : List A) (o : Outcome) (rest : EventProcessor A) (settled : EventProcessor A × Bool)
      (further : EventProcessor A × List (List A × Outcome))
      → IsBounded rest
      → IsBounded settled.0
      → EndsBounded further
      → EndsBounded (finish events o rest settled further)
  unfolding finish
  finish-bounded [] o rest settled further r s f = r
  finish-bounded (e ∷ es) o rest (settled, true) further r s f = f
  finish-bounded (e ∷ es) o rest (settled, false) further r s f = s

  drain_loop-bounded :
      (fuel : ℕ) (replies : ℕ → Reply) (n : ℕ) (ep : EventProcessor A)
      → IsBounded ep
      → EndsBounded (drain_loop fuel replies n ep)
  unfolding drain_loop
  drain_loop-bounded zero replies n ep h = h
  drain_loop-bounded (suc fuel) replies n ep h =
      let events = (drain_batch ep).0 in
      let rest = (drain_batch ep).1 in
      let o = (replies n).outcome in
      let now = (replies n).now in
      let bounded = settle-IsBounded o now events rest (drain_batch-IsBounded ep h) in
      finish-bounded events o rest (settle o now events rest) _ (drain_batch-IsBounded ep h) bounded
        (drain_loop-bounded fuel replies (suc n) (settle o now events rest).0 bounded)

  drain-bounded :
      (replies : ℕ → Reply) (ep : EventProcessor A) → IsBounded ep → EndsBounded (drain replies ep)
  unfolding drain
  drain-bounded replies ep h =
      if_rule EndsBounded ep.has_client (drain_loop-bounded (suc (length ep.buf)) replies 0 ep h) h

  flush-bounded :
      (replies : ℕ → Reply) (ep : EventProcessor A) → IsBounded ep → EndsBounded (flush replies ep)
  unfolding flush
  flush-bounded replies ep h =
      if_rule EndsBounded (not ep.has_client || ep.draining) h
        (drain-bounded replies (record ep { draining = true }) h)

  auto_flush-bounded :
      (now : ℕ) (replies : ℕ → Reply) (ep : EventProcessor A)
      → IsBounded ep
      → EndsBounded (auto_flush now replies ep)
  unfolding auto_flush
  auto_flush-bounded now replies ep h =
      if_rule EndsBounded (ep.closed || (ep.auto_flush_in_flight || ltb now ep.next_auto_flush_at))
        h (flush-bounded replies (record ep { auto_flush_in_flight = true }) h)

  pub append-IsBounded : (event : A) (ep : EventProcessor A) → IsBounded (append event ep)
  unfolding append
  append-IsBounded event ep = trim_oldest-bounded ep.max_queue_size (ep.buf ++ event ∷ [])

  enqueue-bounded :
      (now : ℕ) (replies : ℕ → Reply) (event : A) (ep : EventProcessor A)
      → IsBounded ep
      → EndsBounded (enqueue now replies event ep)
  unfolding enqueue
  enqueue-bounded now replies event ep h = if_rule EndsBounded (not ep.has_client || ep.closed) h (
      if_rule EndsBounded (leb ep.batch_size (length (append event ep).buf))
        (auto_flush-bounded now replies (append event ep) (append-IsBounded event ep))
        (append-IsBounded event ep))

  stop-bounded :
      (replies : ℕ → Reply) (ep : EventProcessor A) → IsBounded ep → EndsBounded (stop replies ep)
  unfolding stop
  stop-bounded replies ep h = if_rule EndsBounded ep.closed h (omega arith)

-- The calls on an event processor.
pub data Call {ℓ} (A : Type ℓ) : Type ℓ where
  enqueues : ℕ → A → Call A
  flushes : Call A
  stops : Call A

abbrev pub run {ℓ} :
    {A : Type ℓ}
    → (ℕ → Reply)
    → Call A
    → EventProcessor A
    → EventProcessor A × List (List A × Outcome)
run replies (enqueues now event) ep = enqueue now replies event ep
run replies flushes ep = flush replies ep
run replies stops ep = stop replies ep

-- No call lets the buffer outgrow the bound, whatever the endpoint answers.
pub run-IsBounded {ℓ} :
    {A : Type ℓ} (replies : ℕ → Reply) (call : Call A) (ep : EventProcessor A)
    → IsBounded ep
    → IsBounded (run replies call ep).0
run-IsBounded replies (enqueues now event) ep h = enqueue-bounded now replies event ep h
run-IsBounded replies flushes ep h = flush-bounded replies ep h
run-IsBounded replies stops ep h = stop-bounded replies ep h
