-- ===== src/Client/Lifecycle/Reset.antt =====
-- featureflip.go: DebugRefCount and ResetForTesting, for one key and with no other goroutine.
use featureflip_go.Base.{
  ℕ, zero, suc, ◌-◌, ◌≤◌, ◌≡◌, refl, ap, ◌∙◌, subst, true, false, not, ◌&&◌, none, some,
  if◌then◌else◌, if_rule, sym, if_true, if_false, leb, ◌==◌, arith,
}
use featureflip_go.Client.Lifecycle.{
  Factory, closed, Pc, finished, releasing, dropped, shutting, release, is_entry, set, advance,
}

unfoldable pub debug_ref_count : Factory → ℕ
debug_ref_count m = elim m.cached [ none ↦ 0 | some c ↦ m.ref_count c ]

-- The next step, and a call of release from its start to its end: three steps at most.
abbrev step : Pc × Factory → Pc × Factory
step (p, m) = advance p m

unfoldable pub released : ℕ → Factory → Factory
released c m = (step (step (step (releasing c closed, m)))).1

-- The loop, by the rounds that are left.
unfoldable pub reset_loop : ℕ → ℕ → Factory → Factory
reset_loop zero c m = m
reset_loop (suc rounds) c m =
    let rest = reset_loop rounds c (released c m) in
    if leb 1 (m.ref_count c) && not (m.shut_down c) then rest else m

unfoldable pub reset_for_testing : Factory → Factory
reset_for_testing m = elim m.cached [
  | none ↦ m
  | some c ↦ reset_loop (m.ref_count c) c (record m { cached = none })
]

abbrev pub IsClear : ℕ → Factory → Type 0
IsClear c m = (m.ref_count c ≡ 0) × (m.shut_down c ≡ true) × (m.cached ≡ none)

abbrev IsHeld : ℕ → ℕ → Factory → Type 0
IsHeld n c m = (m.ref_count c ≡ n) × (m.shut_down c ≡ false) × (m.cached ≡ none)

lowered : ℕ → Factory → Factory
lowered c m = record m { ref_count = set m.ref_count c (m.ref_count c - 1) }

release-alive :
    (c : ℕ) (m : Factory)
    → 1 ≤ m.ref_count c
    → release c closed m
      ≡ (if m.ref_count c - 1 == 0 then dropped c closed else finished, lowered c m)
unfolding lowered
release-alive c m alive = if_true {A = Pc × Factory} {b = leb 1 (m.ref_count c)} _ _ (ground arith)

-- Not the last reference.
released-IsHeld :
    (n c : ℕ) (m : Factory) → IsHeld (suc (suc n)) c m → IsHeld (suc n) c (released c m)
unfolding released advance lowered
released-IsHeld n c m h =
    let more : (m.ref_count c - 1 == 0) ≡ false = ground (arith, h.0) in
    let first : release c closed m ≡ (finished, lowered c m) =
      release-alive c m (omega (arith, h.0))
      ∙ ap (λ p. (p, lowered c m)) (if_false (dropped c closed) finished more) in
    subst (λ r. IsHeld (suc n) c (step (step r)).1) (sym first) (ground (arith, h.0), h.1, h.2)

released-IsClear : (c : ℕ) (m : Factory) → IsHeld 1 c m → IsClear c (released c m)
unfolding released advance lowered
released-IsClear c m h =
    let last : (m.ref_count c - 1 == 0) ≡ true = ground (arith, h.0) in
    let first : release c closed m ≡ (dropped c closed, lowered c m) =
      release-alive c m (omega (arith, h.0))
      ∙ ap (λ p. (p, lowered c m)) (if_true (dropped c closed) finished last) in
    let second : advance (dropped c closed) (lowered c m)
        ≡ (shutting c closed, record (lowered c m) { shut_down = set m.shut_down c true }) =
      if_false _ _ h.1 in
    subst (λ r. IsClear c (step (step r)).1) (sym first)
      (subst (λ r. IsClear c (step r).1) (sym second)
        (if_rule (IsClear c) (m.owned c)
          (
            ground (arith, h.0),
            ground arith,
            if_rule (λ o. o ≡ none) (is_entry c m.cached) refl h.2,
          )
          (ground (arith, h.0), ground arith, h.2)))

goes_round :
    (n c : ℕ) (m : Factory)
    → IsHeld (suc n) c m
    → (leb 1 (m.ref_count c) && not (m.shut_down c)) ≡ true
goes_round n c m h = ground (arith, h.0, h.1)

reset_loop-IsClear :
    (n c : ℕ) (m : Factory) → IsHeld (suc n) c m → IsClear c (reset_loop (suc n) c m)
unfolding reset_loop
reset_loop-IsClear zero c m h =
    subst (IsClear c) (sym (if_true _ _ (goes_round 0 c m h))) (released-IsClear c m h)
reset_loop-IsClear (suc n) c m h =
    subst (IsClear c) (sym (if_true _ _ (goes_round (suc n) c m h)))
      (reset_loop-IsClear n c (released c m) (released-IsHeld n c m h))

rounds-IsClear :
    (n c : ℕ) (m : Factory)
    → m.ref_count c ≡ n
    → 1 ≤ n
    → m.shut_down c ≡ false
    → IsClear c (reset_loop n c (record m { cached = none }))
rounds-IsClear zero c m count some_left live = absurd (omega arith)
rounds-IsClear (suc n) c m count some_left live =
    reset_loop-IsClear n c (record m { cached = none }) (count, live, refl)

debug_ref_count-none : (m : Factory) → m.cached ≡ none → debug_ref_count m ≡ 0
unfolding debug_ref_count
debug_ref_count-none m e = rw (debug_ref_count, e) refl

-- Where the core of the cache has references and its shutdown has not begun, the loop of
-- ResetForTesting ends, with as many rounds as there are references: the cache has no entry then, and
-- the core no reference and is shut down, and DebugRefCount gives 0.
pub reset_for_testing-IsClear :
    (c : ℕ) (m : Factory)
    → m.cached ≡ some c
    → 1 ≤ m.ref_count c
    → m.shut_down c ≡ false
    → IsClear c (reset_for_testing m) × (debug_ref_count (reset_for_testing m) ≡ 0)
unfolding reset_for_testing
reset_for_testing-IsClear c m entry some_left live =
    let after = reset_loop (m.ref_count c) c (record m { cached = none }) in
    let here : reset_for_testing m ≡ after = rw (reset_for_testing, entry) refl in
    let clear = rounds-IsClear (m.ref_count c) c m refl some_left live in
    subst (λ r. IsClear c r × (debug_ref_count r ≡ 0)) (sym here)
      (clear, debug_ref_count-none after clear.2)
