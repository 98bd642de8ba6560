-- ===== src/Events/Concurrent/Tests.antt =====
-- The theorems on the interleavings, for a processor of events that are numbers, with batches of two
-- and room for three: a flush waits for another one's drain, and a stop for the goroutine of start.
use featureflip_go.Base.{
  ℕ, ◌+◌, ◌≤◌, ◌≡◌, refl, sym, subst, true, false, List, [], ◌∷◌, ◌++◌, take, drop,
  take-append-drop, sum, one_if,
}
use featureflip_go.Base.Int.{pos}
use featureflip_go.Events.{
  Outcome, delivered, retryable, EventProcessor, new_event_processor_with_bound, bound, trim_oldest,
  batch_length, drain_batch, requeue, append,
}
use featureflip_go.Events.Concurrent.{
  returns, unlatches, of_flush, Worker, ticking, exited, stopped, returned, waiting, ending,
  posting, Processing, accept, begin_flush, begin_stop, advance, Request, enqueue_call, flush_call,
  stop_call, entry, System, initial, calls, starts, after_start, moves, Reach, begins, goes_on,
}
use featureflip_go.Events.Concurrent.Conserved.{carried, accepted-placed}
use featureflip_go.Events.Laws.{IsBounded}
use featureflip_go.Events.Concurrent.Bounded.{Reach-IsBounded}
use featureflip_go.Events.Concurrent.Waits.{IsServed, blocked-IsServed}
use featureflip_go.Events.Concurrent.Finished.{requests, requests-bounded, stopped-quiet}
use featureflip_go.Events.Concurrent.Drains.{coalesced}
use featureflip_go.Events.Concurrent.Latch.{latched}
use featureflip_go.Events.Concurrent.Ticker.{tickers}

-- The goroutine of a number takes its next step, with a reply.
abbrev moved_at : List (Worker ℕ) → List (Worker ℕ) → Outcome → Processing ℕ → System ℕ
moved_at before [] o m = record { state = m; workers = before ++ [] }
moved_at before (p ∷ others) o m = record {
  state = (advance (record { outcome = o; now = 9 }) false p m).1;
  workers = before ++ (advance (record { outcome = o; now = 9 }) false p m).0 ∷ others;
}

abbrev stepped : ℕ → Outcome → System ℕ → System ℕ
stepped i o s = moved_at (take i s.workers) (drop i s.workers) o s.state

moved_at-Reach :
    (s : System ℕ) (o : Outcome) (before others : List (Worker ℕ))
    → Reach s
    → s.workers ≡ before ++ others
    → Reach (moved_at before others o s.state)
moved_at-Reach s o before [] r e =
    subst (λ ps. Reach (record { state = s.state; workers = ps })) e r
moved_at-Reach s o before (p ∷ others) r e = goes_on r (moves _ false before p others e)

data Action : Type 0 where
  request : Request ℕ → Action
  step : ℕ → Outcome → Action

abbrev scheduled : List Action → System ℕ → System ℕ
scheduled [] s = s
scheduled (request c ∷ acts) s = scheduled acts (record s { workers = entry c ∷ s.workers })
scheduled (step i o ∷ acts) s = scheduled acts (stepped i o s)

scheduled-Reach : (acts : List Action) (s : System ℕ) → Reach s → Reach (scheduled acts s)
scheduled-Reach [] s r = r
scheduled-Reach (request c ∷ acts) s r =
    scheduled-Reach acts (record s { workers = entry c ∷ s.workers }) (goes_on r (calls c))
scheduled-Reach (step i o ∷ acts) s r = scheduled-Reach acts (stepped i o s) (
    moved_at-Reach s o (take i s.workers) (drop i s.workers) r (sym (take-append-drop i s.workers)))

abbrev processor : EventProcessor ℕ
processor = new_event_processor_with_bound true 2 30 (pos 3)

abbrev begun : System ℕ
begun = record (initial processor) {
  state = after_start (initial processor).state;
  workers = ticking ∷ [];
}

begun-Reach : Reach begun
unfolding new_event_processor_with_bound
begun-Reach = goes_on (begins true 2 30 (pos 3)) (starts refl refl)

-- Two events are tracked; the second sets off a flush, and an explicit flush comes to wait for it.
abbrev first_half : List Action
first_half =
    request (enqueue_call 7)
    ∷ step 0 delivered
    ∷ request (enqueue_call 8)
    ∷ step 0 delivered
    ∷ step 0 delivered
    ∷ step 0 delivered
    ∷ step 0 delivered
    ∷ request flush_call
    ∷ step 0 delivered
    ∷ []

abbrev flushing_both : System ℕ
flushing_both = scheduled first_half begun

both_reached : Reach flushing_both
both_reached = scheduled-Reach first_half begun begun-Reach

both_workers :
    flushing_both.workers
    ≡ []
      ++ waiting 1 returns ∷ posting (of_flush 1 unlatches) (7 ∷ 8 ∷ []) ∷ returned ∷ ticking ∷ []
unfolding advance accept append begin_flush begin_stop drain_batch trim_oldest batch_length
    new_event_processor_with_bound bound
both_workers = refl

-- Then a third event comes, which the stop sends.
abbrev second_half : List Action
second_half =
    request (enqueue_call 9)
    ∷ step 0 delivered
    ∷ request stop_call
    ∷ step 0 delivered
    ∷ step 0 delivered
    ∷ step 5 delivered
    ∷ step 0 delivered
    ∷ step 0 delivered
    ∷ []

abbrev both_posting : System ℕ
both_posting = scheduled second_half flushing_both

posting_reached : Reach both_posting
posting_reached = scheduled-Reach second_half flushing_both both_reached

requests-bounded_example :
    (sum requests both_posting.workers ≤ 1 + one_if both_posting.state.processor.closed)
    × (sum coalesced both_posting.workers ≤ 1)
    × (sum latched both_posting.workers ≤ 1)
requests-bounded_example = requests-bounded both_posting posting_reached

both_post : sum requests both_posting.workers ≡ 2
unfolding advance accept append begin_flush begin_stop drain_batch trim_oldest batch_length
    new_event_processor_with_bound bound
both_post = refl

blocked-IsServed_example : IsServed flushing_both (waiting 1 returns)
blocked-IsServed_example =
    blocked-IsServed flushing_both [] (waiting 1 returns)
      (posting (of_flush 1 unlatches) (7 ∷ 8 ∷ []) ∷ returned ∷ ticking ∷ []) both_reached
      both_workers

-- The endpoint takes the batch of the stop and fails to take the other one, which is shed.
abbrev rest : List Action
rest =
    step 0 delivered
    ∷ step 0 delivered
    ∷ step 0 delivered
    ∷ step 3 retryable
    ∷ step 3 retryable
    ∷ step 0 delivered
    ∷ []

abbrev at_end : System ℕ
at_end = scheduled rest both_posting

end_reached : Reach at_end
end_reached = scheduled-Reach rest both_posting posting_reached

end_workers :
    at_end.workers
    ≡ [] ++ stopped ∷ returned ∷ waiting 1 returns ∷ ending 1 unlatches ∷ returned ∷ exited ∷ []
unfolding advance accept append begin_flush begin_stop drain_batch trim_oldest batch_length requeue
    new_event_processor_with_bound bound
end_workers = refl

stopped-quiet_example :
    (at_end.state.processor.closed ≡ true)
    × (at_end.state.processor.buf ≡ [])
    × (sum tickers at_end.workers ≡ 0)
stopped-quiet_example =
    stopped-quiet at_end []
      (returned ∷ waiting 1 returns ∷ ending 1 unlatches ∷ returned ∷ exited ∷ []) end_reached
      end_workers

accepted-placed_example :
    sum (λ n. n) at_end.state.accepted
    ≡ sum (λ n. n) at_end.state.taken
      + sum (λ n. n) at_end.state.refused
      + sum (λ n. n) at_end.state.shed
      + sum (λ n. n) at_end.state.processor.buf
      + sum (carried (λ n. n)) at_end.workers
accepted-placed_example = accepted-placed (λ n. n) at_end end_reached

sheds_two : at_end.state.shed ≡ 7 ∷ 8 ∷ []
unfolding advance accept append begin_flush begin_stop drain_batch trim_oldest batch_length requeue
    new_event_processor_with_bound bound
sheds_two = refl

Reach-IsBounded_example : IsBounded both_posting.state.processor
Reach-IsBounded_example = Reach-IsBounded both_posting posting_reached
