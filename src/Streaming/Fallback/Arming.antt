-- ===== src/Streaming/Fallback/Arming.antt =====
-- streaming.go: when a source holds a fallback poller, in every interleaving of run and stop.
use featureflip_go.Base.{
  ℕ, ◌+◌, ◌<◌, ◌≡◌, refl, sym, ap, ◌∙◌, subst, Bool, true, false, not, ◌&&◌, ◌||◌, Option, none,
  some, if_rule, leb, arith, Bool-cases, inl, inr,
}
use featureflip_go.Streaming.Fallback.{
  Pc, connecting, returned, counted, waiting, finished, Source, is_some, stopped,
  start_fallback_polling, stop_fallback_polling, bookkeep, Step, delivers, returns, quits, goes_on,
  counts, reconnects, gives_up, cancels, reaps, Reach, start, later,
}
use featureflip_go.Streaming.Fallback.Safety.{
  stop-poll, stop-cancelled, IsOwner, IsStopped, Reach-IsOwner,
}

-- A source that is not cancelled polls, by where run is: not once the connection has delivered an
-- event, and otherwise if the failures have come to the threshold.
abbrev pub should_poll : ℕ → Pc → ℕ → Bool
should_poll threshold (connecting delivered) failures = not delivered && leb threshold failures
should_poll threshold (returned reached) failures = not reached && leb threshold failures
should_poll threshold (counted reached) failures = not reached && leb threshold failures
should_poll threshold waiting failures = leb threshold failures
should_poll threshold finished failures = false

abbrev pub IsArmed : ℕ → Source → Type 0
IsArmed threshold s =
    s.cancelled ≡ false
    → is_some s.fallback_poll ≡ should_poll threshold s.pc s.consecutive_failures

abbrev Watched : ℕ → Pc → Source → Type 0
Watched threshold p s =
    s.cancelled ≡ false → is_some s.fallback_poll ≡ should_poll threshold p s.consecutive_failures

module _ (threshold : ℕ) where
  at_pc : (s : Source) (p : Pc) → s.pc ≡ p → IsArmed threshold s → Watched threshold p s
  at_pc s p e h c = h c ∙ ap (λ q. should_poll threshold q s.consecutive_failures) e

  start-some :
      (s : Source) → s.cancelled ≡ false → is_some (start_fallback_polling s).fallback_poll ≡ true
  unfolding start_fallback_polling
  start-some s c = rw c (elim (Bool-cases (is_some s.fallback_poll)) [
    | inl running ↦ rw running running
    | inr idle ↦ rw idle refl
  ])

  pub start-failures :
      (s : Source) → (start_fallback_polling s).consecutive_failures ≡ s.consecutive_failures
  unfolding start_fallback_polling
  start-failures s =
      if_rule {A = Source} (λ t. t.consecutive_failures ≡ s.consecutive_failures)
        (is_some s.fallback_poll || s.cancelled) refl refl

  start-cancelled : (s : Source) → (start_fallback_polling s).cancelled ≡ s.cancelled
  unfolding start_fallback_polling
  start-cancelled s =
      if_rule {A = Source} (λ t. t.cancelled ≡ s.cancelled) (is_some s.fallback_poll || s.cancelled)
        refl refl

  fails :
      (s : Source)
      → Watched threshold (counted false) s
      → s.cancelled ≡ false
      → is_some (bookkeep threshold false s).fallback_poll
        ≡ leb threshold (bookkeep threshold false s).consecutive_failures
  unfolding bookkeep
  fails s h c =
      let t = record s { consecutive_failures = s.consecutive_failures + 1 } in
      elim (Bool-cases (leb threshold (s.consecutive_failures + 1))) [
        | inl enough ↦
            rw enough (start-some t c ∙ sym (ap (leb threshold) (start-failures t) ∙ enough))
        | inr few ↦
            let below : leb threshold s.consecutive_failures ≡ false = ground arith in
            rw few (h c ∙ below ∙ sym few)
      ]

  pub bookkeep-cancelled :
      (reached : Bool) (s : Source) → (bookkeep threshold reached s).cancelled ≡ s.cancelled
  unfolding bookkeep
  bookkeep-cancelled true s = stop-cancelled (record s { consecutive_failures = 0 })
  bookkeep-cancelled false s =
      if_rule {A = Source} (λ t. t.cancelled ≡ s.cancelled)
        (leb threshold (s.consecutive_failures + 1))
        (start-cancelled (record s { consecutive_failures = s.consecutive_failures + 1 })) refl

  stopped-failures :
      (s : Source) → (stop_fallback_polling s).consecutive_failures ≡ s.consecutive_failures
  unfolding stop_fallback_polling
  stopped-failures s = at s.fallback_poll
    where
      at : (o : Option ℕ) → (stopped s o).consecutive_failures ≡ s.consecutive_failures
      at none = refl
      at (some i) = refl

  stop-idle : (s : Source) → is_some (stop_fallback_polling s).fallback_poll ≡ false
  stop-idle s = ap is_some (stop-poll s)

  module _ (positive : 0 < threshold) where
    counts-IsArmed :
        (reached : Bool) (s : Source)
        → Watched threshold (counted reached) s
        → IsArmed threshold (record (bookkeep threshold reached s) { pc = waiting })
    unfolding bookkeep stop_fallback_polling
    counts-IsArmed true s h c =
        stop-idle (record s { consecutive_failures = 0 })
        ∙ sym (
            ap (leb threshold) (stopped-failures (record s { consecutive_failures = 0 }))
            ∙ ground arith)
    counts-IsArmed false s h c = fails s h (sym (bookkeep-cancelled false s) ∙ c)

    Step-IsArmed :
        {s t : Source} → IsOwner s → IsArmed threshold s → Step threshold s t → IsArmed threshold t
    Step-IsArmed {s} o h (delivers e) c = stop-idle s
    Step-IsArmed {s} o h (returns r e) c = at_pc s (connecting r) e h c
    Step-IsArmed {s} o h (quits r e d) c = cc
    Step-IsArmed {s} o h (goes_on r e d) c = at_pc s (returned r) e h c
    Step-IsArmed {s} o h (counts r e) c = counts-IsArmed r s (at_pc s (counted r) e h) c
    Step-IsArmed {s} o h (reconnects e) c = at_pc s waiting e h c
    Step-IsArmed {s} o h (gives_up e d) c = cc
    Step-IsArmed {s} o h (cancels e) c = cc
    Step-IsArmed {s} o h (reaps e) c =
        let cancelled : s.cancelled ≡ true =
          subst (λ p. IsStopped p s.cancelled s.fallback_poll) e o.1 in
        let other : s.cancelled ≡ false = sym (stop-cancelled s) ∙ c in cc

    Reach-IsArmed : {s : Source} → Reach threshold s → IsArmed threshold s
    Reach-IsArmed start = λ c. ground arith
    Reach-IsArmed (later r m) = Step-IsArmed (Reach-IsOwner threshold r) (Reach-IsArmed r) m

-- While the source is not cancelled, whatever the interleaving, there is a fallback poller exactly if
-- the consecutive failures have come to the threshold and the present connection has not delivered an
-- event; the threshold is positive.
pub fallback_poll-should_poll :
    (threshold : ℕ) (s : Source)
    → 0 < threshold
    → Reach threshold s
    → s.cancelled ≡ false
    → is_some s.fallback_poll ≡ should_poll threshold s.pc s.consecutive_failures
fallback_poll-should_poll threshold s positive r c = Reach-IsArmed threshold positive r c
