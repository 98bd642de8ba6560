-- ===== src/Events/Concurrent/Counts.antt =====
-- events.go: how many goroutines flush, drain, hold the latch or stop a processor.
use featureflip_go.Base.{
  false, ℕ, ◌+◌, ◌≤◌, ◌≡◌, refl, subst, Bool, List, [], ◌∷◌, if_rule, arith, sum, sum-middle,
  le-sum,
}
use featureflip_go.Base.Int.{ℤ}
use featureflip_go.Events.{
  Outcome, delivered, retryable, rejected, Reply, EventProcessor, new_event_processor_with_bound,
  requeue,
}
use featureflip_go.Events.Concurrent.{
  ticking, Drain, Worker, Processing, answered, advance, Request, entry, System, initial,
  after_start, calls, starts, moves, Reach, begins, goes_on,
}

-- A count of the goroutines and a part of the state that add up to another part.
module _ {ℓ} {A : Type ℓ} (f : Worker A → ℕ) (u v : Processing A → ℕ) where
  abbrev pub Adds : System A → Type 0
  Adds s = sum f s.workers + u s.state ≡ v s.state

  -- A step keeps the balance.
  abbrev pub Keeps : Type ℓ
  Keeps =
      (r : Reply) (tick : Bool) (p : Worker A) (m : Processing A)
      → f p + u m ≤ v m
      → u (advance r tick p m).1 + f (advance r tick p m).0 + v m
        ≡ u m + f p + v (advance r tick p m).1

  abbrev pub Starts : Type 0
  Starts =
      (has_client : Bool) (size interval : ℕ) (bound : ℤ)
      → Adds (initial (new_event_processor_with_bound has_client size interval bound))

  -- The call of start keeps it, too.
  abbrev pub Ticks : Type ℓ
  Ticks =
      (m : Processing A)
      → m.started ≡ false
      → u (after_start m) + f ticking + v m ≡ u m + v (after_start m)

  pub adds :
      Keeps
      → Starts
      → ((c : Request A) → f (entry c) ≡ 0)
      → Ticks
      → {s : System A} → Reach s
      → Adds s
  adds keeps begun enters ticked (begins has_client size interval bound) =
      begun has_client size interval bound
  adds keeps begun enters ticked (goes_on {s} r (calls c)) =
      omega (arith, adds keeps begun enters ticked r, enters c)
  adds keeps begun enters ticked (goes_on {s} r (starts new opened)) =
      omega (arith, adds keeps begun enters ticked r, ticked s.state new)
  adds keeps begun enters ticked (goes_on {s} r (moves reply tick before p others e)) =
      let h = subst (λ ps. sum f ps + u s.state ≡ v s.state) e (adds keeps begun enters ticked r) in
      let le : f p + u s.state ≤ v s.state = omega (arith, h, le-sum f before p others) in
      omega (
        arith,
        h,
        keeps reply tick p s.state le,
        sum-middle f before p others,
        sum-middle f before (advance reply tick p s.state).0 others,
      )

module _ {ℓ} {A : Type ℓ} where
  abbrev pub nothing : Processing A → ℕ
  nothing m = 0

  pub answered-processor :
      (o : Outcome) (d : Drain) (events : List A) (m : Processing A)
      → (answered o d events m).1.processor ≡ m.processor
  answered-processor delivered d events m = refl
  answered-processor rejected d events m = refl
  answered-processor retryable d events m = refl

  -- The flags that requeue leaves as they are.
  pub requeue-flags :
      {B : Type 0} (g : Bool → Bool → Bool → B) (now : ℕ) (events : List A) (ep : EventProcessor A)
      → g
          (requeue now events ep).0.closed
          (requeue now events ep).0.draining
          (requeue now events ep).0.auto_flush_in_flight
        ≡ g ep.closed ep.draining ep.auto_flush_in_flight
  unfolding requeue
  requeue-flags g now [] ep = refl
  requeue-flags g now (e ∷ es) ep =
      if_rule {A = EventProcessor A × ℕ}
        (λ r.
          g r.0.closed r.0.draining r.0.auto_flush_in_flight
          ≡ g ep.closed ep.draining ep.auto_flush_in_flight)
        ep.closed refl refl
