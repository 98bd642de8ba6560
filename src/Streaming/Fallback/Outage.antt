-- ===== src/Streaming/Fallback/Outage.antt =====
-- streaming.go: what becomes of a source whose connections deliver nothing.
use featureflip_go.Base.{ℕ, zero, suc, ◌+◌, ◌<◌, ◌≡◌, refl, ◌∙◌, true, false, if_rule, leb, arith}
use featureflip_go.Streaming.Fallback.{
  counted, waiting, Source, is_some, bookkeep, returns, goes_on, counts, reconnects, Reach, later,
}
use featureflip_go.Streaming.Fallback.Arming.{
  start-failures, bookkeep-cancelled, fallback_poll-should_poll,
}

-- One round of the loop in which the connection delivers nothing.
abbrev pub failed_round : ℕ → Source → Source
failed_round threshold s = record (bookkeep threshold false (record s { pc = counted false })) {
  pc = waiting;
}

abbrev pub failed_rounds : ℕ → ℕ → Source → Source
failed_rounds threshold zero s = s
failed_rounds threshold (suc n) s = failed_rounds threshold n (failed_round threshold s)

module _ (threshold : ℕ) where
  round-Reach :
      (s : Source)
      → Reach threshold s
      → s.pc ≡ waiting
      → s.cancelled ≡ false
      → Reach threshold (failed_round threshold s)
  round-Reach s r e c =
      later (later (later (later r (reconnects e)) (returns false refl)) (goes_on false refl c))
        (counts false refl)

  round-failures :
      (s : Source) → (failed_round threshold s).consecutive_failures ≡ s.consecutive_failures + 1
  unfolding bookkeep
  round-failures s =
      if_rule {A = Source} (λ t. t.consecutive_failures ≡ s.consecutive_failures + 1)
        (leb threshold (s.consecutive_failures + 1))
        (start-failures threshold
          (record s { consecutive_failures = s.consecutive_failures + 1; pc = counted false }))
        refl

  rounds-Reach :
      (n : ℕ) (s : Source)
      → Reach threshold s
      → s.pc ≡ waiting
      → s.cancelled ≡ false
      → Reach threshold (failed_rounds threshold n s)
        × ((failed_rounds threshold n s).pc ≡ waiting)
        × ((failed_rounds threshold n s).cancelled ≡ false)
        × ((failed_rounds threshold n s).consecutive_failures ≡ s.consecutive_failures + n)
  rounds-Reach zero s r e c = (r, e, c, omega arith)
  rounds-Reach (suc n) s r e c =
      let ih =
        rounds-Reach n (failed_round threshold s) (round-Reach s r e c) refl
          (bookkeep-cancelled threshold false (record s { pc = counted false }) ∙ c) in
      (ih.0, ih.1, ih.2, ih.3 ∙ omega (arith, round-failures s))

-- From any reachable wait of a source that is not cancelled, as many rounds as the threshold, each with
-- a connection that delivers nothing, are steps of the source, and lead to one that holds a fallback
-- poller.
pub failed_rounds-polls :
    (threshold : ℕ) (s : Source)
    → 0 < threshold
    → Reach threshold s
    → s.pc ≡ waiting
    → s.cancelled ≡ false
    → Reach threshold (failed_rounds threshold threshold s)
      × (is_some (failed_rounds threshold threshold s).fallback_poll ≡ true)
failed_rounds-polls threshold s positive r e c =
    let (there, at, live, count) = rounds-Reach threshold threshold s r e c in
    (
      there,
      fallback_poll-should_poll threshold (failed_rounds threshold threshold s) positive there live
          ∙ rw (at, count) (ground arith),
    )
