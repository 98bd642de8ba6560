-- ===== src/Events/Closed.antt =====
-- events.go: a processor that was stopped.
use featureflip_go.Base.{
  ℕ, zero, suc, ◌≡◌, refl, ap, ◌∙◌, Bool, true, false, not, ◌||◌, List, [], ◌∷◌, if_rule, if_cases,
  if_true, take, arith,
}
use featureflip_go.Events.{
  Outcome, Reply, EventProcessor, batch_length, drain_batch, settle, finish, drain_loop, drain,
  flush, enqueue, stop,
}
use featureflip_go.Events.Laws.{settle-closed}

module _ {ℓ} {A : Type ℓ} where
  finish-closed :
      (c : Bool) (events : List A) (o : Outcome) (rest : EventProcessor A)
      (settled : EventProcessor A × Bool) (further : EventProcessor A × List (List A × Outcome))
      → rest.closed ≡ c
      → settled.0.closed ≡ c
      → further.0.closed ≡ c
      → (finish events o rest settled further).0.closed ≡ c
  unfolding finish
  finish-closed c [] o rest settled further r s f = r
  finish-closed c (e ∷ es) o rest (settled, true) further r s f = f
  finish-closed c (e ∷ es) o rest (settled, false) further r s f = s

  drain_loop-closed :
      (fuel : ℕ) (replies : ℕ → Reply) (n : ℕ) (ep : EventProcessor A)
      → (drain_loop fuel replies n ep).0.closed ≡ ep.closed
  unfolding drain_loop drain_batch
  drain_loop-closed zero replies n ep = refl
  drain_loop-closed (suc fuel) replies n ep =
      let events = (drain_batch ep).0 in
      let rest = (drain_batch ep).1 in
      let o = (replies n).outcome in
      let settled = settle o (replies n).now events rest in
      let same = settle-closed o (replies n).now events rest in
      finish-closed ep.closed events o rest settled (drain_loop fuel replies (suc n) settled.0) refl
        same (drain_loop-closed fuel replies (suc n) settled.0 ∙ same)

  drain-closed :
      (replies : ℕ → Reply) (ep : EventProcessor A) → (drain replies ep).0.closed ≡ ep.closed
  unfolding drain
  drain-closed replies ep =
      if_rule {A = EventProcessor A × List (List A × Outcome)} (λ r. r.0.closed ≡ ep.closed)
        ep.has_client (drain_loop-closed _ replies 0 ep) refl

  -- The first stop of a processor closes it and leaves nothing in its buffer.
  pub stop-ends :
      (replies : ℕ → Reply) (ep : EventProcessor A)
      → ep.closed ≡ false
      → ((stop replies ep).0.closed ≡ true) × ((stop replies ep).0.buf ≡ [])
  unfolding stop
  stop-ends replies ep opened =
      if_cases {A = EventProcessor A × List (List A × Outcome)}
        (λ r. (r.0.closed ≡ true) × (r.0.buf ≡ [])) ep.closed (λ shut. absurd (ground arith))
        (λ live. (drain-closed replies (record ep { closed = true }), refl))

  -- A closed processor takes no event, and one with an empty buffer posts nothing.
  pub enqueue-closed :
      (now : ℕ) (replies : ℕ → Reply) (event : A) (ep : EventProcessor A)
      → ep.closed ≡ true
      → enqueue now replies event ep ≡ (ep, [])
  unfolding enqueue
  enqueue-closed now replies event ep shut =
      if_true {A = EventProcessor A × List (List A × Outcome)} {b = not ep.has_client || ep.closed}
        _ _ (ground arith)

  take_nil : (n : ℕ) → take {A = A} n [] ≡ []
  take_nil zero = refl
  take_nil (suc n) = refl

  finish-nil :
      (events : List A) (o : Outcome) (rest : EventProcessor A) (settled : EventProcessor A × Bool)
      (further : EventProcessor A × List (List A × Outcome))
      → events ≡ []
      → (finish events o rest settled further).1 ≡ []
  unfolding finish
  finish-nil [] o rest settled further h = refl
  finish-nil (e ∷ es) o rest settled further h = absurd (cc h)

  drain_loop-empty :
      (fuel : ℕ) (replies : ℕ → Reply) (ep : EventProcessor A)
      → ep.buf ≡ []
      → (drain_loop (suc fuel) replies 0 ep).1 ≡ []
  unfolding drain_loop drain_batch
  drain_loop-empty fuel replies ep empty =
      finish-nil (drain_batch ep).0 _ _ _ _
        (ap (λ b. take (batch_length ep.batch_size b) b) empty ∙ take_nil _)

  pub flush-empty :
      (replies : ℕ → Reply) (ep : EventProcessor A) → ep.buf ≡ [] → (flush replies ep).1 ≡ []
  unfolding flush drain
  flush-empty replies ep empty =
      if_rule {A = EventProcessor A × List (List A × Outcome)} (λ r. r.1 ≡ [])
        (not ep.has_client || ep.draining) refl
        (if_rule {A = EventProcessor A × List (List A × Outcome)} (λ r. r.1 ≡ []) ep.has_client
          (drain_loop-empty _ replies (record ep { draining = true }) empty) refl)
