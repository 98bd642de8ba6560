-- ===== src/Events/Empties.antt =====
-- events.go: a flush of which no send fails for a time empties the buffer.
use featureflip_go.Base.{
  if_true, if_false, ℕ, zero, suc, ◌≤◌, ◌<◌, ◌≡◌, ◌≢◌, refl, sym, ◌∙◌, subst, true, false, not,
  ◌||◌, List, [], ◌∷◌, ◌++◌, length, take, drop, length-append, arith,
}
use featureflip_go.Events.{
  Outcome, delivered, retryable, rejected, Reply, EventProcessor, batch_length, drain_batch, settle,
  finish, drain_loop, drain, flush,
}
use featureflip_go.Events.Laws.{
  IsBounded, settle-closed, settle-IsBounded, drain_batch-rest, drain_batch-split,
}

module _ {ℓ} {A : Type ℓ} where
  batch_length_positive : (size : ℕ) (x : A) (xs : List A) → 1 ≤ batch_length size (x ∷ xs)
  unfolding batch_length
  batch_length_positive size x xs = ground arith

  take_nonempty : (n : ℕ) (x : A) (xs : List A) → 1 ≤ n → take n (x ∷ xs) ≢ []
  take_nonempty zero x xs h = absurd (omega arith)
  take_nonempty (suc n) x xs h = λ e. cc

  drop_nil : (n : ℕ) → drop {A = A} n [] ≡ []
  drop_nil zero = refl
  drop_nil (suc n) = refl

  rest_empty :
      (size : ℕ) (buf : List A)
      → take (batch_length size buf) buf ≡ []
      → drop (batch_length size buf) buf ≡ []
  rest_empty size [] h = drop_nil (batch_length size [])
  rest_empty size (x ∷ xs) h =
      absurd (take_nonempty (batch_length size (x ∷ xs)) x xs (batch_length_positive size x xs) h)

  pub drain_batch_empty :
      (ep : EventProcessor A) → (drain_batch ep).0 ≡ [] → (drain_batch ep).1.buf ≡ []
  unfolding drain_batch
  drain_batch_empty ep h = rest_empty ep.batch_size ep.buf h

  length-nonempty : (xs ys zs : List A) → xs ≢ [] → xs ++ ys ≡ zs → length ys < length zs
  length-nonempty [] ys zs h e = absurd (h refl)
  length-nonempty (x ∷ xs) ys zs h e =
      subst (λ l. length ys < length l) e (omega (arith, length-append xs ys))

  settle-buf :
      (o : Outcome) (now : ℕ) (events : List A) (ep : EventProcessor A)
      → o ≢ retryable
      → (settle o now events ep).0.buf ≡ ep.buf
  unfolding settle
  settle-buf delivered now events ep h = refl
  settle-buf rejected now events ep h = refl
  settle-buf retryable now events ep h = absurd (h refl)

  finish-empties :
      (o : Outcome) (now : ℕ) (events : List A) (rest : EventProcessor A)
      (further : EventProcessor A × List (List A × Outcome))
      → o ≢ retryable
      → rest.closed ≡ false
      → (events ≡ [] → rest.buf ≡ [])
      → (events ≢ [] → further.0.buf ≡ [])
      → (finish events o rest (settle o now events rest) further).0.buf ≡ []
  unfolding settle finish
  finish-empties o now [] rest further fine opened h k = h refl
  finish-empties delivered now (e ∷ es) rest further fine opened h k = k (λ q. cc)
  finish-empties rejected now (e ∷ es) rest further fine opened h k =
      subst (λ r. (finish (e ∷ es) rejected rest (rest, not r) further).0.buf ≡ []) (sym opened)
        (k (λ q. cc))
  finish-empties retryable now (e ∷ es) rest further fine opened h k = absurd (fine refl)

  drain_loop-empties :
      (fuel : ℕ) (replies : ℕ → Reply) (n : ℕ) (ep : EventProcessor A)
      → ((i : ℕ) → (replies i).outcome ≢ retryable)
      → ep.closed ≡ false
      → IsBounded ep
      → length ep.buf < fuel
      → (drain_loop fuel replies n ep).0.buf ≡ []
  unfolding drain_loop
  drain_loop-empties zero replies n ep fine opened bounded enough = absurd (omega arith)
  drain_loop-empties (suc fuel) replies n ep fine opened bounded enough =
      let events = (drain_batch ep).0 in
      let rest = (drain_batch ep).1 in
      let o = (replies n).outcome in
      let now = (replies n).now in
      let (running, fits, short) = drain_batch-rest ep opened bounded in
      finish-empties o now events rest _ (fine n) running (drain_batch_empty ep) (λ some_events.
        drain_loop-empties fuel replies (suc n) (settle o now events rest).0 fine
          (settle-closed o now events rest ∙ running) (settle-IsBounded o now events rest short)
          (subst (λ l. length l < fuel) (sym (settle-buf o now events rest (fine n)))
            (omega
              (arith, length-nonempty events rest.buf ep.buf some_events (drain_batch-split ep)))))

  drain-empties :
      (replies : ℕ → Reply) (ep : EventProcessor A)
      → ((i : ℕ) → (replies i).outcome ≢ retryable)
      → ep.has_client ≡ true
      → ep.closed ≡ false
      → IsBounded ep
      → (drain replies ep).0.buf ≡ []
  unfolding drain
  drain-empties replies ep fine client opened bounded =
      subst (λ r. r.0.buf ≡ [])
        (sym (if_true {A = EventProcessor A × List (List A × Outcome)} _ _ client))
        (drain_loop-empties (suc (length ep.buf)) replies 0 ep fine opened bounded (omega arith))

  -- A flush of an open processor that no drain is running on empties the buffer, unless a request
  -- fails in a way that is worth a retry: the fuel of the loop is enough for every batch.
  pub flush-empties :
      (replies : ℕ → Reply) (ep : EventProcessor A)
      → ((i : ℕ) → (replies i).outcome ≢ retryable)
      → ep.has_client ≡ true
      → ep.draining ≡ false
      → ep.closed ≡ false
      → IsBounded ep
      → (flush replies ep).0.buf ≡ []
  unfolding flush
  flush-empties replies ep fine client idle opened bounded =
      let ready : (not ep.has_client || ep.draining) ≡ false = ground arith in
      subst (λ r. r.0.buf ≡ [])
        (sym (if_false {A = EventProcessor A × List (List A × Outcome)} _ _ ready))
        (drain-empties replies (record ep { draining = true }) fine client opened bounded)
