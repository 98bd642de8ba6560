-- ===== src/Streaming/Tests.antt =====
-- The theorems on the stream: at a small stream, at the delays of a source, at a source whose first
-- connection fails, and at a poll and an event.
use featureflip_go.Base.{
  ℕ, ◌≤◌, true, false, none-ne-some, length, ◌-◌, ◌/◌, ◌<◌, suc, ◌≡◌, refl, List, [], ◌∷◌, arith,
  codes,
}
use featureflip_go.Base.Int.{pos, ◌≤ℤ◌}
use featureflip_go.Streaming.Frames.{Frame}
use featureflip_go.Streaming.Backoff.{backoff_delay, level, backoff_delay_bounds}
use featureflip_go.Base.Dict.{lookup}
use featureflip_go.Samples.{plain, b_key}
use featureflip_go.Store.{new_store}
use featureflip_go.Http.{unanswered}
use featureflip_go.Samples.Server.{codec, server}
use featureflip_go.Streaming.Fallback.{
  counted, waiting, between, after, Source, new_source, is_some, start_fallback_polling,
  stop_fallback_polling, bookkeep, returns, goes_on, counts, cancels, reaps, Reach, start, later,
}
use featureflip_go.Streaming.Fallback.Safety.{owned, unstopped-owned}
use featureflip_go.Streaming.Fallback.Arming.{should_poll, fallback_poll-should_poll}
use featureflip_go.Streaming.Fallback.Outage.{failed_rounds, failed_rounds-polls}
use featureflip_go.Streaming.Invariant.{
  IsSound, Update, event, polled, apply_updates, apply_updates-IsSound,
}

abbrev ping : Frame
ping = record { event_type = codes "ping"; payload = codes "{}" }

-- A payload on three lines, the second empty.
abbrev sync : Frame
sync = record { event_type = codes "sync"; payload = b'{' ∷ b'\n' ∷ b'\n' ∷ b'}' ∷ [] }

-- The longest jitter, and the defaults of the source in nanoseconds.
abbrev longest : ℕ → ℕ
longest n = n - 1

longest_fair : (n : ℕ) → longest (suc n) < suc n
longest_fair n = omega arith

backoff_delay_bounds_example :
    (pos (level 3000000000 30000000000 3 / 2)
      ≤ℤ backoff_delay longest (pos 3000000000) (pos 30000000000) 3)
    × (backoff_delay longest (pos 3000000000) (pos 30000000000) 3
        ≤ℤ pos (level 3000000000 30000000000 3))
backoff_delay_bounds_example =
    backoff_delay_bounds longest 3000000000 30000000000 3 longest_fair (omega arith) (omega arith)
      (omega arith)

-- A source with a threshold of 1 whose first connection failed.
abbrev failing : Source
failing = record (bookkeep 1 false (record new_source { pc = counted false })) { pc = waiting }

failing_reached : Reach 1 failing
failing_reached =
    later (later (later start (returns false refl)) (goes_on false refl refl)) (counts false refl)

-- It has a poller, and stop is under way.
abbrev stopping : Source
stopping = record (stop_fallback_polling (record failing { cancelled = true; stopper = between })) {
  stopper = after;
}

stopping_reached : Reach 1 stopping
unfolding bookkeep start_fallback_polling
stopping_reached = later (later failing_reached (cancels refl)) (reaps refl)

unstopped-owned_example :
    (stopping.unstopped ≡ owned after stopping.fallback_poll) × (length stopping.unstopped ≤ 1)
unstopped-owned_example = unstopped-owned 1 stopping stopping_reached

not_cancelled : failing.cancelled ≡ false
unfolding bookkeep start_fallback_polling
not_cancelled = refl

fallback_poll-should_poll_example :
    is_some failing.fallback_poll ≡ should_poll 1 waiting failing.consecutive_failures
fallback_poll-should_poll_example =
    fallback_poll-should_poll 1 failing (omega arith) failing_reached not_cancelled

failed_rounds-polls_example :
    Reach 1 (failed_rounds 1 1 failing) × (is_some (failed_rounds 1 1 failing).fallback_poll ≡ true)
failed_rounds-polls_example =
    failed_rounds-polls 1 failing (omega arith) failing_reached refl not_cancelled

-- A delivery of a flag that this build knows, after a failed poll.
new_store-IsSound : IsSound new_store
unfolding lookup
new_store-IsSound = (λ k f h. absurd (none-ne-some h), λ k r h. absurd (none-ne-some h))

abbrev history : List Update
history = polled unanswered ∷ event server (codes "flag.created") b_key ∷ []

apply_updates-IsSound_example : IsSound (apply_updates plain codec history new_store)
apply_updates-IsSound_example =
    apply_updates-IsSound plain codec history new_store new_store-IsSound
