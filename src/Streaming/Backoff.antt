-- ===== src/Streaming/Backoff.antt =====
-- streaming.go, backoffDelay and withJitter. A time.Duration is an int64 of nanoseconds.
use native.Mathlib.Nat.{two-pow-succ, one-le-pow}
use featureflip_go.Base.{
  leb→le, ℕ, zero, suc, ◌+◌, ◌-◌, ◌*◌, ◌/◌, ◌^◌, ◌%◌, ◌≤◌, ◌<◌, min, ◌≡◌, sym, ap, subst, ◌∙◌,
  false, not, ◌||◌, if◌then◌else◌, leb, arith, Bool-cases, inl, inr,
}
use featureflip_go.Base.Int.{ℤ, pos, negsuc, sub_ℕ, ltb_ℤ, ◌≤ℤ◌}

-- The int64 that a sum wraps around to.
abbrev pub wrap_int64 : ℕ → ℤ
wrap_int64 n =
    if leb 0x8000000000000000 (n % 0x10000000000000000)
    then sub_ℕ (n % 0x10000000000000000) 0x10000000000000000
    else pos (n % 0x10000000000000000)

-- `rand n` is rand.Int63n(n).
unfoldable pub with_jitter : (ℕ → ℕ) → ℤ → ℤ
with_jitter rand (negsuc n) = negsuc n
with_jitter rand (pos zero) = pos zero
with_jitter rand (pos (suc n)) = pos (suc n / 2 + rand (suc n / 2 + 1))

-- The bits of an int64, and `d *= 2` on them.
abbrev pub bits64 : ℤ → ℕ
bits64 (pos n) = n % 0x10000000000000000
bits64 (negsuc n) = 0x10000000000000000 - 1 - n

unfoldable pub double : ℤ → ℤ
double d = wrap_int64 (bits64 d + bits64 d)

-- The loop, by the rounds that are left.
unfoldable pub backoff_loop : (ℕ → ℕ) → ℤ → ℕ → ℤ → ℤ
backoff_loop rand max_delay zero d = with_jitter rand d
backoff_loop rand max_delay (suc rounds) d =
    let rest = backoff_loop rand max_delay rounds (double d) in
    if not (ltb_ℤ (pos 0) (double d)) || not (ltb_ℤ (double d) max_delay)
    then with_jitter rand max_delay
    else rest

unfoldable pub backoff_delay : (ℕ → ℕ) → ℤ → ℤ → ℕ → ℤ
backoff_delay rand base max_delay failures =
    if leb failures 1
    then with_jitter rand base
    else backoff_loop rand max_delay (failures - 1) base

double_small : (d : ℕ) → d + d < 0x8000000000000000 → double (pos d) ≡ pos (d + d)
unfolding double
double_small d h = ground arith

double_large :
    (d : ℕ)
    → d < 0x8000000000000000
    → 0x8000000000000000 ≤ d + d
    → ltb_ℤ (pos 0) (double (pos d)) ≡ false
unfolding double
double_large d h k = ground arith

-- The delay before its jitter.
abbrev pub level : ℕ → ℕ → ℕ → ℕ
level base max_delay failures = min max_delay (base * 2 ^ (failures - 1))

doubled : (d r : ℕ) → d * 2 ^ suc r ≡ (d + d) * 2 ^ r
doubled d r = grind (arith, two-pow-succ r)

le-mul-pow : (d r : ℕ) → d ≤ d * 2 ^ r
le-mul-pow d r = grind (arith, one-le-pow r 2)

-- From the ceiling on, the delay is the ceiling.
at_ceiling : (max_delay d r : ℕ) → max_delay ≤ d + d → min max_delay (d * 2 ^ suc r) ≡ max_delay
at_ceiling max_delay d r h = omega (arith, doubled d r, le-mul-pow (d + d) r)

backoff_loop-level :
    (rand : ℕ → ℕ) (max_delay rounds d : ℕ)
    → 0 < d
    → d ≤ max_delay
    → max_delay < 0x8000000000000000
    → backoff_loop rand (pos max_delay) rounds (pos d)
      ≡ with_jitter rand (pos (min max_delay (d * 2 ^ rounds)))
unfolding backoff_loop
backoff_loop-level rand max_delay zero d p l m = ap (λ n. with_jitter rand (pos n)) (omega arith)
backoff_loop-level rand max_delay (suc rounds) d p l m =
    elim (Bool-cases (leb 0x8000000000000000 (d + d))) [
      | inl wraps ↦
          let stops = double_large d (omega arith) (leb→le _ _ wraps) in
          rw stops (
            ap (λ n. with_jitter rand (pos n)) (sym (at_ceiling max_delay d rounds (ground arith))))
      | inr fits ↦ rw (double_small d (ground arith)) (elim (Bool-cases (leb max_delay (d + d))) [
        | inl above ↦ ground (arith, at_ceiling max_delay d rounds)
        | inr below ↦
            ground (arith, doubled d rounds, backoff_loop-level rand max_delay rounds (d + d))
      ])
    ]

backoff_delay-level :
    (rand : ℕ → ℕ) (base max_delay failures : ℕ)
    → 0 < base
    → base ≤ max_delay
    → max_delay < 0x8000000000000000
    → backoff_delay rand (pos base) (pos max_delay) failures
      ≡ with_jitter rand (pos (level base max_delay failures))
unfolding backoff_delay
backoff_delay-level rand base max_delay failures p l m = elim (Bool-cases (leb failures 1)) [
  | inl first ↦
      let none_before : failures - 1 ≡ 0 = ground arith in
      rw first (
        ap (λ n. with_jitter rand (pos n))
          (sym (ap (λ r. min max_delay (base * 2 ^ r)) none_before ∙ omega arith)))
  | inr more ↦ rw more (backoff_loop-level rand max_delay (failures - 1) base p l m)
]

with_jitter_bounds :
    (rand : ℕ → ℕ) (d : ℕ)
    → ((n : ℕ) → rand (suc n) < suc n)
    → (pos (d / 2) ≤ℤ with_jitter rand (pos d)) × (with_jitter rand (pos d) ≤ℤ pos d)
unfolding with_jitter
with_jitter_bounds rand zero fair = omega arith
with_jitter_bounds rand (suc d) fair =
    let e : suc (suc d / 2) ≡ suc d / 2 + 1 = omega arith in
    let drawn : rand (suc d / 2 + 1) < suc d / 2 + 1 =
      subst (λ n. rand n < n) e (fair (suc d / 2)) in
    omega arith

-- For any number of failures and any base and ceiling of an int64, the delay before a reconnect is
-- jittered between one half and the whole of the base, doubled for each failure after the first and
-- capped by the ceiling: doubling never wraps around to a negative delay.
pub backoff_delay_bounds :
    (rand : ℕ → ℕ) (base max_delay failures : ℕ)
    → ((n : ℕ) → rand (suc n) < suc n)
    → 0 < base
    → base ≤ max_delay
    → max_delay < 0x8000000000000000
    → (pos (level base max_delay failures / 2)
        ≤ℤ backoff_delay rand (pos base) (pos max_delay) failures)
      × (backoff_delay rand (pos base) (pos max_delay) failures
          ≤ℤ pos (level base max_delay failures))
backoff_delay_bounds rand base max_delay failures fair p l m =
    rw (backoff_delay-level rand base max_delay failures p l m)
      (with_jitter_bounds rand (level base max_delay failures) fair)
