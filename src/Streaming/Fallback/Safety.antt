-- ===== src/Streaming/Fallback/Safety.antt =====
-- streaming.go: which fallback pollers were started and not told to stop, in every interleaving of run
-- and stop.
use featureflip_go.Base.{
  ℕ, ◌+◌, ◌≤◌, ◌≡◌, refl, sym, ap, ◌∙◌, subst, Bool, true, false, ◌||◌, List, [], ◌∷◌, Option, none,
  some, if_rule, leb, arith, Bool-cases, inl, inr, length,
}
use featureflip_go.Streaming.Fallback.{
  Stopper, before, between, after, Source, is_some, without, start_fallback_polling, stopped,
  stop_fallback_polling, bookkeep, Step, delivers, returns, quits, goes_on, counts, reconnects,
  gives_up, cancels, reaps, Reach, start, later,
}

abbrev pub held : Option ℕ → List ℕ
held none = []
held (some i) = i ∷ []

-- What stop has done so far.
abbrev pub IsStopped : Stopper → Bool → Option ℕ → Type 0
IsStopped before cancelled poller = Unit
IsStopped between cancelled poller = cancelled ≡ true
IsStopped after cancelled poller = (cancelled ≡ true) × (poller ≡ none)

-- Which pollers a source owns.
abbrev pub IsOwner : Source → Type 0
IsOwner s = (s.unstopped ≡ held s.fallback_poll) × IsStopped s.stopper s.cancelled s.fallback_poll

without-held : (p : Option ℕ) (i : ℕ) → p ≡ some i → without i (held p) ≡ []
unfolding without
without-held p i e = rw e (ground arith)

stopped-unstopped :
    (s : Source) (p : Option ℕ)
    → s.fallback_poll ≡ p
    → s.unstopped ≡ held p
    → (stopped s p).unstopped ≡ []
unfolding without
stopped-unstopped s none e h = h
stopped-unstopped s (some i) e h = rw h (ground arith)

stopped-poll :
    (s : Source) (p : Option ℕ) → s.fallback_poll ≡ p → (stopped s p).fallback_poll ≡ none
stopped-poll s none e = e
stopped-poll s (some i) e = refl

stopped-cancelled : (s : Source) (p : Option ℕ) → (stopped s p).cancelled ≡ s.cancelled
stopped-cancelled s none = refl
stopped-cancelled s (some i) = refl

stopped-stopper : (s : Source) (p : Option ℕ) → (stopped s p).stopper ≡ s.stopper
stopped-stopper s none = refl
stopped-stopper s (some i) = refl

none-IsStopped : (p : Stopper) (c : Bool) (o : Option ℕ) → IsStopped p c o → IsStopped p c none
none-IsStopped before c o h = h
none-IsStopped between c o h = h
none-IsStopped after c o h = (h.0, refl)

pub stop-poll : (s : Source) → (stop_fallback_polling s).fallback_poll ≡ none
unfolding stop_fallback_polling
stop-poll s = stopped-poll s s.fallback_poll refl

pub stop-cancelled : (s : Source) → (stop_fallback_polling s).cancelled ≡ s.cancelled
unfolding stop_fallback_polling
stop-cancelled s = stopped-cancelled s s.fallback_poll

-- After stop_fallback_polling, every poller that was started has been told to stop.
stop-unstopped : (s : Source) → IsOwner s → (stop_fallback_polling s).unstopped ≡ []
unfolding stop_fallback_polling
stop-unstopped s h = stopped-unstopped s s.fallback_poll refl h.0

stop-IsOwner : (s : Source) → IsOwner s → IsOwner (stop_fallback_polling s)
stop-IsOwner s h = (
  stop-unstopped s h ∙ ap held (sym (stop-poll s)),
  unfold stop_fallback_polling in
      rw (stopped-stopper s s.fallback_poll, stopped-cancelled s s.fallback_poll, stop-poll s)
        (none-IsStopped s.stopper s.cancelled s.fallback_poll h.1),
)

idle : (o : Option ℕ) → is_some o ≡ false → o ≡ none
idle none h = refl
idle (some i) h = cc

uncancelled-IsStopped :
    (p : Stopper) (c : Bool) (o : Option ℕ) (i : ℕ)
    → c ≡ false
    → IsStopped p c o
    → IsStopped p c (some i)
uncancelled-IsStopped before c o i e h = h
uncancelled-IsStopped between c o i e h = h
uncancelled-IsStopped after c o i e h = cc

start-IsOwner : (s : Source) → IsOwner s → IsOwner (start_fallback_polling s)
unfolding start_fallback_polling
start-IsOwner s h = elim (Bool-cases (is_some s.fallback_poll || s.cancelled)) [
  | inl bails ↦ rw bails h
  | inr free ↦ rw free (
    ap (◌∷◌ s.created) (h.0 ∙ ap held (idle s.fallback_poll (ground arith))),
    uncancelled-IsStopped s.stopper s.cancelled s.fallback_poll s.created (ground arith) h.1,
  )
]

bookkeep-IsOwner :
    (threshold : ℕ) (reached : Bool) (s : Source)
    → IsOwner s
    → IsOwner (bookkeep threshold reached s)
unfolding bookkeep
bookkeep-IsOwner threshold true s h = stop-IsOwner (record s { consecutive_failures = 0 }) h
bookkeep-IsOwner threshold false s h =
    if_rule IsOwner (leb threshold (s.consecutive_failures + 1))
      (start-IsOwner (record s { consecutive_failures = s.consecutive_failures + 1 }) h) h

Step-IsOwner : (threshold : ℕ) {s t : Source} → IsOwner s → Step threshold s t → IsOwner t
Step-IsOwner threshold {s} h (delivers e) = stop-IsOwner s h
Step-IsOwner threshold h (returns r e) = h
Step-IsOwner threshold h (quits r e c) = h
Step-IsOwner threshold h (goes_on r e c) = h
Step-IsOwner threshold {s} h (counts r e) = bookkeep-IsOwner threshold r s h
Step-IsOwner threshold h (reconnects e) = h
Step-IsOwner threshold h (gives_up e c) = h
Step-IsOwner threshold {s} h (cancels e) = (h.0, refl)
Step-IsOwner threshold {s} h (reaps e) =
    let cancelled : s.cancelled ≡ true =
      subst (λ p. IsStopped p s.cancelled s.fallback_poll) e h.1 in
    ((stop-IsOwner s h).0, (stop-cancelled s ∙ cancelled, stop-poll s))

pub Reach-IsOwner : (threshold : ℕ) {s : Source} → Reach threshold s → IsOwner s
Reach-IsOwner threshold start = (refl, tt)
Reach-IsOwner threshold (later r m) = Step-IsOwner threshold (Reach-IsOwner threshold r) m

length-held : (o : Option ℕ) → length (held o) ≤ 1
length-held none = omega arith
length-held (some i) = omega arith

-- The pollers that should not have been told to stop: none once stop has returned, else the one that
-- the source holds.
abbrev pub owned : Stopper → Option ℕ → List ℕ
owned before o = held o
owned between o = held o
owned after o = []

owned-held : (p : Stopper) (c : Bool) (o : Option ℕ) → IsStopped p c o → held o ≡ owned p o
owned-held before c o h = refl
owned-held between c o h = refl
owned-held after c o h = ap held h.1

-- Whatever the interleaving of run and stop: of the pollers that were started, exactly the one that the
-- source holds has not been told to stop, so at most one has not, and all have been told to stop once
-- stop has returned, whether run has returned or not.
pub unstopped-owned :
    (threshold : ℕ) (s : Source)
    → Reach threshold s
    → (s.unstopped ≡ owned s.stopper s.fallback_poll) × (length s.unstopped ≤ 1)
unstopped-owned threshold s r =
    let h = Reach-IsOwner threshold r in
    (
      h.0 ∙ owned-held s.stopper s.cancelled s.fallback_poll h.1,
      subst (λ l. length l ≤ 1) (sym h.0) (length-held s.fallback_poll),
    )
