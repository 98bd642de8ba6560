-- ===== src/Events/Concurrent/Waits.antt =====
-- events.go: what a goroutine that receives from a channel waits for, and who is to close it.
use featureflip_go.Base.{
  ◌+◌, ◌≡◌, subst, Bool, List, [], ◌∷◌, ◌++◌, arith, sum, one_if, All, All-map, All-middle, All-at,
}
use featureflip_go.Events.{Reply, new_event_processor_with_bound}
use featureflip_go.Events.Concurrent.{
  Drain, of_flush, of_stop, Worker, signalling, joining, discarding, stopped, waiting, looping,
  clearing, checking, posting, requeueing, Processing, advance, Request, enqueue_call, flush_call,
  stop_call, entry, System, after_start, calls, starts, moves, Reach, begins, goes_on,
}
use featureflip_go.Events.Concurrent.Stops.{stops, drain_stops, stops-count}
use featureflip_go.Events.Concurrent.Tidy.{IsTidy, advance-IsTidy}
use featureflip_go.Events.Concurrent.Known.{
  IsFine, IsDrainFine, Later, Later-fine, advance-Later, advance-IsFine,
}
use featureflip_go.Events.Concurrent.Runs.{runs, runs-count}
use featureflip_go.Events.Concurrent.Ticker.{tickers, tickers-count}

module _ {ℓ} {A : Type ℓ} where
  pub record IsKnown (s : System A) : Type ℓ where
    pub tidy : IsTidy s.state
    pub fine : All (IsFine s.state) s.workers

  entry-IsFine : (m : Processing A) (c : Request A) → IsFine m (entry c)
  entry-IsFine m (enqueue_call event) = tt
  entry-IsFine m flush_call = tt
  entry-IsFine m stop_call = tt

  Later-others :
      (m n : Processing A)
      → Later m n
      → (ps : List (Worker A)) → All (IsFine m) ps
      → All (IsFine n) ps
  Later-others m n l ps h = All-map (λ p. Later-fine m n p l) ps h

  moved-IsKnown :
      (r : Reply) (tick : Bool) (m : Processing A) (before : List (Worker A)) (p : Worker A)
      (others : List (Worker A))
      → IsTidy m
      → All (IsFine m) (before ++ p ∷ others)
      → IsKnown (record {
        state = (advance r tick p m).1;
        workers = before ++ (advance r tick p m).0 ∷ others;
      })
  moved-IsKnown r tick m before p others tidy h = record {
    tidy = advance-IsTidy r tick p m tidy;
    fine =
        All-middle (IsFine m) (IsFine (advance r tick p m).1) before p (advance r tick p m).0 others
          (Later-others m (advance r tick p m).1 (advance-Later r tick p m))
          (advance-IsFine r tick p m tidy (All-at (IsFine m) before p others h)) h;
  }

  -- Before a stop has begun, nothing is known that the call of start undoes.
  unstopped_drain :
      (m : Processing A) (d : Drain)
      → drain_stops d ≡ 0
      → IsDrainFine m d
      → IsDrainFine (after_start m) d
  unstopped_drain m (of_flush n next) none h = tt
  unstopped_drain m of_stop none h = absurd (omega arith)

  unstopped_one :
      (m : Processing A) (p : Worker A) → stops p ≡ 0 → IsFine m p → IsFine (after_start m) p
  unstopped_one m (waiting n next) none h = h
  unstopped_one m signalling none h = absurd (omega arith)
  unstopped_one m joining none h = absurd (omega arith)
  unstopped_one m discarding none h = absurd (omega arith)
  unstopped_one m stopped none h = absurd (omega arith)
  unstopped_one m (looping d) none h = unstopped_drain m d none h
  unstopped_one m (clearing d) none h = unstopped_drain m d none h
  unstopped_one m (checking d) none h = unstopped_drain m d none h
  unstopped_one m (posting d events) none h = unstopped_drain m d none h
  unstopped_one m (requeueing d events) none h = unstopped_drain m d none h
  unstopped_one m p none h = tt

  unstopped-IsFine :
      (m : Processing A) (ps : List (Worker A))
      → sum stops ps ≡ 0
      → All (IsFine m) ps
      → All (IsFine (after_start m)) ps
  unstopped-IsFine m [] none h = tt
  unstopped-IsFine m (p ∷ ps) none h =
      (unstopped_one m p (omega arith) h.0, unstopped-IsFine m ps (omega arith) h.1)

  pub Reach-IsKnown : {s : System A} → Reach s → IsKnown s
  unfolding new_event_processor_with_bound
  Reach-IsKnown (begins has_client size interval bound) = record { tidy = omega arith; fine = tt }
  Reach-IsKnown (goes_on {s} r (calls c)) =
      let h = Reach-IsKnown r in record { tidy = h.tidy; fine = (entry-IsFine s.state c, h.fine) }
  Reach-IsKnown (goes_on {s} r (starts new opened)) =
      let h = Reach-IsKnown r in
      record {
        tidy = h.tidy;
        fine = (tt, unstopped-IsFine s.state s.workers (ground (arith, stops-count r)) h.fine);
      }
  Reach-IsKnown (goes_on {s} r (moves reply tick before p others e)) =
      let h = Reach-IsKnown r in
      moved-IsKnown reply tick s.state before p others h.tidy
        (subst (All (IsFine s.state)) e h.fine)

  pub known_at :
      (s : System A) (before : List (Worker A)) (p : Worker A) (others : List (Worker A))
      → Reach s
      → s.workers ≡ before ++ p ∷ others
      → IsFine s.state p
  known_at s before p others r e =
      All-at (IsFine s.state) before p others
        (subst (All (IsFine s.state)) e (Reach-IsKnown r).fine)

  -- A goroutine that receives from a channel: the channel is closed, or one goroutine is to close it.
  abbrev pub IsServed : System A → Worker A → Type 0
  IsServed s (waiting n next) = sum (runs n) s.workers + one_if (s.state.drained n) ≡ 1
  IsServed s joining = sum tickers s.workers + one_if s.state.done_closed ≡ 1
  IsServed s p = Unit

  -- Nothing waits for what will not come: in every interleaving, for a flush that waits for another
  -- one's drain, either that drain's channel is closed or exactly one goroutine is on that drain, which
  -- closes the channel at its end; for a stop that waits for the goroutine of start, either that one's
  -- channel is closed or exactly one goroutine is that of start.
  pub blocked-IsServed :
      (s : System A) (before : List (Worker A)) (p : Worker A) (others : List (Worker A))
      → Reach s
      → s.workers ≡ before ++ p ∷ others
      → IsServed s p
  blocked-IsServed s before (waiting n next) others r e =
      let known = known_at s before (waiting n next) others r e in
      ground (arith, runs-count n r, known.0, known.1)
  blocked-IsServed s before joining others r e =
      ground (arith, tickers-count r, known_at s before joining others r e)
  blocked-IsServed s before p others r e = tt
