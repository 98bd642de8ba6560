-- ===== src/Polling/Paced.antt =====
-- polling.go: what the goroutine of run has done is what its polls do.
use featureflip_go.Base.{
  ℕ, suc, ◌+◌, ◌≤◌, ◌≡◌, refl, sym, ap, ◌∙◌, true, List, [], ◌∷◌, ◌++◌, Option, Text, if_rule,
  if_cases, length, length-append, arith, one_if,
}
use featureflip_go.Platform.{Platform}
use featureflip_go.Http.{Codec, Answer}
use featureflip_go.Store.{Store}
use featureflip_go.Polling.{poll}
use featureflip_go.Polling.Loop.{
  Place, first, selecting, polling, returned, PollSource, new_poll_source, Happening, ticks,
  cancels, takes_done, takes_tick, answers, at_select, has_ticker, polled, at_poll, take_done,
  take_tick, happen, run,
}

-- The polls with these answers, one after the other: the store, and the calls of onUpdate.
unfoldable pub after_polls :
    Platform → Codec → List Answer → Store → Store × List (Option (List Text))
after_polls go codec [] s = (s, [])
after_polls go codec (answer ∷ rest) s =
    let (last, more) = after_polls go codec rest (poll go codec answer s).0 in
    (last, (poll go codec answer s).1 ∷ more)

abbrev pub tick_count : List Happening → ℕ
tick_count [] = 0
tick_count (ticks ∷ hs) = suc (tick_count hs)
tick_count (cancels ∷ hs) = tick_count hs
tick_count (takes_done ∷ hs) = tick_count hs
tick_count (takes_tick ∷ hs) = tick_count hs
tick_count (answers a ∷ hs) = tick_count hs

-- A poll that is under way, and a tick that is not taken.
abbrev owed : Place → ℕ
owed first = 1
owed selecting = 0
owed polling = 1
owed returned = 0

tick_count-cons :
    (n : ℕ) (x : Happening) (hs : List Happening)
    → n + tick_count (x ∷ []) + tick_count hs ≤ n + tick_count (x ∷ hs)
tick_count-cons n ticks hs = omega arith
tick_count-cons n cancels hs = omega arith
tick_count-cons n takes_done hs = omega arith
tick_count-cons n takes_tick hs = omega arith
tick_count-cons n (answers a) hs = omega arith

module _ (go : Platform) (codec : Codec) (start : Store) where
  after_polls-append :
      (xs : List Answer) (a : Answer) (s : Store)
      → (after_polls go codec (xs ++ a ∷ []) s) ≡ (
        (poll go codec a (after_polls go codec xs s).0).0,
        (after_polls go codec xs s).1 ++ (poll go codec a (after_polls go codec xs s).0).1 ∷ [],
      )
  unfolding after_polls
  after_polls-append [] a s = refl
  after_polls-append (x ∷ xs) a s =
      ap (λ r. (r.0, (poll go codec x s).1 ∷ r.1)) (after_polls-append xs a (poll go codec x s).0)

  -- What the loop has done is what its polls do, in order, and it makes no poll but the first without
  -- a tick; `n` ticks have come.
  pub record IsPaced (n : ℕ) (s : PollSource) : Type 0 where
    pub stored : s.store ≡ (after_polls go codec s.answers start).0
    pub told : s.announced ≡ (after_polls go codec s.answers start).1
    pub paced : length s.answers + owed s.place + one_if s.tick ≤ 1 + n
    pub ended : s.place ≡ returned → s.cancelled ≡ true

  polled-IsPaced :
      (n : ℕ) (a : Answer) (s : PollSource)
      → owed s.place ≡ 1
      → IsPaced n s
      → IsPaced n (polled go codec a s)
  polled-IsPaced n a s busy h = record {
    stored =
        ap (λ t. (poll go codec a t).0) h.stored
        ∙ sym (
            ap (λ (r : Store × List (Option (List Text))). r.0)
              (after_polls-append s.answers a start));
    told =
        rw
          (
            ap (λ (r : Store × List (Option (List Text))). r.1)
                (after_polls-append s.answers a start),
            h.told,
            h.stored,
          )
          refl;
    paced = omega (arith, h.paced, length-append s.answers (a ∷ []));
    ended = λ e. cc;
  }

  later : (n : ℕ) (s : PollSource) → IsPaced n s → (m : ℕ) → n ≤ m → IsPaced m s
  later n s h m le = record {
    stored = h.stored;
    told = h.told;
    paced = omega (arith, h.paced);
    ended = h.ended;
  }

  take_done-IsPaced :
      (n : ℕ) (s : PollSource) → s.place ≡ selecting → IsPaced n s → IsPaced n (take_done s)
  take_done-IsPaced n s here h =
      if_cases (IsPaced n) s.cancelled
        (λ c. record {
          stored = h.stored;
          told = h.told;
          paced = omega (arith, h.paced);
          ended = λ e. c;
        })
        (λ c. h)

  take_tick-IsPaced :
      (n : ℕ) (s : PollSource) → s.place ≡ selecting → IsPaced n s → IsPaced n (take_tick s)
  take_tick-IsPaced n s here h =
      if_cases (IsPaced n) s.tick
        (λ t. record {
          stored = h.stored;
          told = h.told;
          paced = omega (arith, h.paced, ap one_if t);
          ended = λ e. cc;
        })
        (λ t. h)

  happen-IsPaced :
      (n : ℕ) (x : Happening) (s : PollSource)
      → IsPaced n s
      → IsPaced (n + tick_count (x ∷ [])) (happen go codec x s)
  unfolding happen
  happen-IsPaced n ticks s h =
      if_rule (IsPaced (n + 1)) (has_ticker s.place)
        (record {
          stored = h.stored;
          told = h.told;
          paced = omega (arith, h.paced);
          ended = h.ended;
        })
        (later n s h (n + 1) (omega arith))
  happen-IsPaced n cancels s h = record {
    stored = h.stored;
    told = h.told;
    paced = omega (arith, h.paced);
    ended = λ e. refl;
  }
  happen-IsPaced n takes_done s h = later n _ (at s.place refl) (n + 0) (omega arith)
    where
      at : (p : Place) → s.place ≡ p → IsPaced n (at_select take_done p s)
      at first e = h
      at selecting e = take_done-IsPaced n s e h
      at polling e = h
      at returned e = h
  happen-IsPaced n takes_tick s h = later n _ (at s.place refl) (n + 0) (omega arith)
    where
      at : (p : Place) → s.place ≡ p → IsPaced n (at_select take_tick p s)
      at first e = h
      at selecting e = take_tick-IsPaced n s e h
      at polling e = h
      at returned e = h
  happen-IsPaced n (answers a) s h = later n _ (at s.place refl) (n + 0) (omega arith)
    where
      at : (p : Place) → s.place ≡ p → IsPaced n (at_poll (polled go codec a) p s)
      at first e = polled-IsPaced n a s (ap owed e) h
      at selecting e = h
      at polling e = polled-IsPaced n a s (ap owed e) h
      at returned e = h

  run-IsPaced :
      (hs : List Happening) (n : ℕ) (s : PollSource)
      → IsPaced n s
      → IsPaced (n + tick_count hs) (run go codec hs s)
  unfolding run
  run-IsPaced [] n s h = later n s h (n + 0) (omega arith)
  run-IsPaced (x ∷ hs) n s h =
      later (n + tick_count (x ∷ []) + tick_count hs) _
        (run-IsPaced hs (n + tick_count (x ∷ [])) (happen go codec x s) (happen-IsPaced n x s h))
        (n + tick_count (x ∷ hs)) (tick_count-cons n x hs)

  -- Whatever happens, in whatever order, to a poller that is run: the store and the calls of onUpdate
  -- are those of its polls, one after the other, in the order of the answers; there is at most one poll
  -- more than there were ticks; and it has returned only if stop was called.
  pub run-paced :
      (hs : List Happening) → IsPaced (tick_count hs) (run go codec hs (new_poll_source start))
  unfolding after_polls
  run-paced hs =
      later (0 + tick_count hs) _
        (run-IsPaced hs 0 (new_poll_source start)
          (record { stored = refl; told = refl; paced = omega arith; ended = λ e. cc }))
        (tick_count hs) (omega arith)
