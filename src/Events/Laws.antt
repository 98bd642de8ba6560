-- ===== src/Events/Laws.antt =====
-- events.go: what the loop of drain posts, and what stays in the buffer.
use featureflip_go.Base.{
  if_rule, if_false, ℕ, zero, suc, ◌-◌, ◌≤◌, ◌≡◌, refl, sym, ap, ◌∙◌, subst, true, false, not, ◌||◌,
  List, [], ◌∷◌, ◌++◌, length, drop, length-drop, take-append-drop, arith,
}
use featureflip_go.Events.{
  Outcome, delivered, retryable, rejected, Reply, EventProcessor, trim_oldest, batch_length,
  drain_batch, requeue, settle, finish, drain_loop, drain, flush,
}

-- The events of the posts that the endpoint took or rejected for good.
unfoldable pub settled_events {ℓ} : {A : Type ℓ} → List (List A × Outcome) → List A
settled_events [] = []
settled_events ((events, delivered) ∷ posts) = events ++ settled_events posts
settled_events ((events, rejected) ∷ posts) = events ++ settled_events posts
settled_events ((events, retryable) ∷ posts) = settled_events posts

module _ {ℓ} {A : Type ℓ} where
  abbrev pub IsBounded : EventProcessor A → Type 0
  IsBounded ep = length ep.buf ≤ ep.max_queue_size

  pub trim_oldest-bounded : (n : ℕ) (buf : List A) → length (trim_oldest n buf).0 ≤ n
  unfolding trim_oldest
  trim_oldest-bounded n buf = omega (arith, length-drop (length buf - n) buf)

  trim_oldest-fits : (n : ℕ) (buf : List A) → length buf ≤ n → (trim_oldest n buf).0 ≡ buf
  unfolding trim_oldest
  trim_oldest-fits n buf h =
      let fits : length buf - n ≡ 0 = omega arith in ap (λ k. drop k buf) fits

  pub drain_batch-split :
      (ep : EventProcessor A) → (drain_batch ep).0 ++ (drain_batch ep).1.buf ≡ ep.buf
  unfolding drain_batch
  drain_batch-split ep = take-append-drop (batch_length ep.batch_size ep.buf) ep.buf

  ++_assoc : (xs ys zs : List A) → (xs ++ ys) ++ zs ≡ xs ++ (ys ++ zs)
  ++_assoc [] ys zs = refl
  ++_assoc (x ∷ xs) ys zs = ap (◌∷◌ x) (++_assoc xs ys zs)

  -- The posts, then what the buffer holds after them, are the events that it held.
  abbrev Conserves : List A → EventProcessor A × List (List A × Outcome) → Type ℓ
  Conserves events r = settled_events r.1 ++ r.0.buf ≡ events

  pub settle-closed :
      (o : Outcome) (now : ℕ) (events : List A) (ep : EventProcessor A)
      → (settle o now events ep).0.closed ≡ ep.closed
  unfolding settle requeue
  settle-closed delivered now events ep = refl
  settle-closed rejected now events ep = refl
  settle-closed retryable now [] ep = refl
  settle-closed retryable now (e ∷ es) ep =
      if_rule {A = EventProcessor A × ℕ} (λ r. r.0.closed ≡ ep.closed) ep.closed refl refl

  pub settle-IsBounded :
      (o : Outcome) (now : ℕ) (events : List A) (ep : EventProcessor A)
      → IsBounded ep
      → IsBounded (settle o now events ep).0
  unfolding settle requeue
  settle-IsBounded delivered now events ep h = h
  settle-IsBounded rejected now events ep h = h
  settle-IsBounded retryable now [] ep h = h
  settle-IsBounded retryable now (e ∷ es) ep h =
      if_rule {A = EventProcessor A × ℕ} (λ r. IsBounded r.0) ep.closed h
        (trim_oldest-bounded ep.max_queue_size (e ∷ es ++ ep.buf))

  requeue-buf :
      (now : ℕ) (events : List A) (ep : EventProcessor A)
      → ep.closed ≡ false
      → length (events ++ ep.buf) ≤ ep.max_queue_size
      → (requeue now events ep).0.buf ≡ events ++ ep.buf
  unfolding requeue
  requeue-buf now [] ep opened fits = refl
  requeue-buf now (e ∷ es) ep opened fits =
      subst (λ r. r.0.buf ≡ e ∷ es ++ ep.buf) (sym (if_false {A = EventProcessor A × ℕ} _ _ opened))
        (trim_oldest-fits ep.max_queue_size (e ∷ es ++ ep.buf) fits)

  finish-Conserves :
      (o : Outcome) (now : ℕ) (events : List A) (rest : EventProcessor A)
      (further : EventProcessor A × List (List A × Outcome))
      → rest.closed ≡ false
      → length (events ++ rest.buf) ≤ rest.max_queue_size
      → Conserves (settle o now events rest).0.buf further
      → Conserves (events ++ rest.buf) (finish events o rest (settle o now events rest) further)
  unfolding settle finish settled_events
  finish-Conserves o now [] rest further opened fits h = refl
  finish-Conserves delivered now (e ∷ es) rest further opened fits h =
      ++_assoc (e ∷ es) _ _ ∙ ap (λ l. e ∷ es ++ l) h
  finish-Conserves rejected now (e ∷ es) rest further opened fits h =
      subst
        (λ r. Conserves (e ∷ es ++ rest.buf) (finish (e ∷ es) rejected rest (rest, not r) further))
        (sym opened) (++_assoc (e ∷ es) _ _ ∙ ap (λ l. e ∷ es ++ l) h)
  finish-Conserves retryable now (e ∷ es) rest further opened fits h =
      requeue-buf now (e ∷ es) rest opened fits

  pub drain_batch-rest :
      (ep : EventProcessor A)
      → ep.closed ≡ false
      → IsBounded ep
      → ((drain_batch ep).1.closed ≡ false)
        × (length ((drain_batch ep).0 ++ (drain_batch ep).1.buf)
            ≤ (drain_batch ep).1.max_queue_size)
        × IsBounded (drain_batch ep).1
  unfolding drain_batch
  drain_batch-rest ep opened bounded = (
    opened,
    subst (λ l. length l ≤ ep.max_queue_size) (sym (drain_batch-split ep)) bounded,
    omega (arith, length-drop (batch_length ep.batch_size ep.buf) ep.buf),
  )

  drain_loop-Conserves :
      (fuel : ℕ) (replies : ℕ → Reply) (n : ℕ) (ep : EventProcessor A)
      → ep.closed ≡ false
      → IsBounded ep
      → Conserves ep.buf (drain_loop fuel replies n ep)
  unfolding drain_loop settled_events
  drain_loop-Conserves zero replies n ep opened bounded = refl
  drain_loop-Conserves (suc fuel) replies n ep opened bounded =
      let events = (drain_batch ep).0 in
      let rest = (drain_batch ep).1 in
      let o = (replies n).outcome in
      let now = (replies n).now in
      let (running, fits, short) = drain_batch-rest ep opened bounded in
      subst (λ l. Conserves l (drain_loop (suc fuel) replies n ep)) (drain_batch-split ep)
        (finish-Conserves o now events rest _ running fits (
          drain_loop-Conserves fuel replies (suc n) (settle o now events rest).0
            (settle-closed o now events rest ∙ running) (settle-IsBounded o now events rest short)))

  drain-Conserves :
      (replies : ℕ → Reply) (ep : EventProcessor A)
      → ep.closed ≡ false
      → IsBounded ep
      → Conserves ep.buf (drain replies ep)
  unfolding drain settled_events
  drain-Conserves replies ep opened bounded =
      if_rule {A = EventProcessor A × List (List A × Outcome)} (Conserves ep.buf) ep.has_client
        (drain_loop-Conserves (suc (length ep.buf)) replies 0 ep opened bounded) refl

  -- Whatever the endpoint answers, a flush of an open processor loses nothing, repeats nothing and
  -- keeps the order: the batches that the endpoint took or rejected for good, in the order of the
  -- posts, and then what the buffer holds afterwards, are the events that it held before.
  pub flush-conserves :
      (replies : ℕ → Reply) (ep : EventProcessor A)
      → ep.closed ≡ false
      → IsBounded ep
      → settled_events (flush replies ep).1 ++ (flush replies ep).0.buf ≡ ep.buf
  unfolding flush settled_events
  flush-conserves replies ep opened bounded =
      if_rule {A = EventProcessor A × List (List A × Outcome)} (Conserves ep.buf)
        (not ep.has_client || ep.draining) refl
        (drain-Conserves replies (record ep { draining = true }) opened bounded)
