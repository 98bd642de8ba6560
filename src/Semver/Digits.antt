-- ===== src/Semver/Digits.antt =====
-- conditions.go, compareNumericString: digit strings of any length compare as the numbers they spell.
use native.Mathlib.Nat.{pow-suc, mul-le-mul_right, pow-le-pow_right}
use featureflip_go.Base.{
  ℕ, suc, ◌+◌, ◌-◌, ◌*◌, ◌^◌, ◌≤◌, ◌<◌, ◌≡◌, refl, ◌≢◌, true, [], ◌∷◌, Text, Ordering, arith,
  compare, is_digit, decimal, length, all, text_compare,
}
use featureflip_go.Semver.{is_all_digits, trim_left_zeros, compare_numeric_string}

digits_head : (c : ℕ) (s : Text) → all is_digit (c ∷ s) ≡ true → is_digit c ≡ true
digits_head c s h = ground arith

digits_tail : (c : ℕ) (s : Text) → all is_digit (c ∷ s) ≡ true → all is_digit s ≡ true
digits_tail c s h = ground arith

decimal-lt : (s : Text) → all is_digit s ≡ true → decimal s < 10 ^ length s
unfolding decimal
decimal-lt [] h = omega arith
decimal-lt (c ∷ s) h = omega (
  arith,
  decimal-lt s (digits_tail c s h),
  pow-suc 10 (length s),
  mul-le-mul_right {m = c - b'0'} {n = 9} (10 ^ length s) (small h),
)
  where
    small : all is_digit (c ∷ s) ≡ true → c - b'0' ≤ 9
    small h = ground arith

decimal-trim_left_zeros : (s : Text) → decimal (trim_left_zeros s) ≡ decimal s
unfolding decimal trim_left_zeros
decimal-trim_left_zeros [] = refl
decimal-trim_left_zeros (c ∷ s) = ground (arith, decimal-trim_left_zeros s)

digits-trim_left_zeros :
    (s : Text) → all is_digit s ≡ true → all is_digit (trim_left_zeros s) ≡ true
unfolding trim_left_zeros
digits-trim_left_zeros [] h = refl
digits-trim_left_zeros (c ∷ s) h = ground (arith, digits-trim_left_zeros s)

-- What is left starts with a digit other than 0.
abbrev IsTrimmed : Text → Type 0
IsTrimmed [] = Unit {0}
IsTrimmed (c ∷ s) = b'0' ≢ c

trim_left_zeros-IsTrimmed : (s : Text) → IsTrimmed (trim_left_zeros s)
unfolding trim_left_zeros
trim_left_zeros-IsTrimmed [] = tt
trim_left_zeros-IsTrimmed (c ∷ s) = ground (arith, trim_left_zeros-IsTrimmed s)

block_lt : (p q n v w : ℕ) → v < n → p < q → p * n + v < q * n + w
block_lt p q n v w h k = omega (arith, mul-le-mul_right {m = suc p} {n = q} n k)

-- The leading digits decide, unless they are equal.
leading_compare :
    (x y n v w : ℕ)
    → is_digit x ≡ true
    → is_digit y ≡ true
    → v < n
    → w < n
    → compare ((x - b'0') * n + v) ((y - b'0') * n + w) ≡ elim (compare x y) as (λ o. Ordering) [
      | Ordering.lt ↦ Ordering.lt
      | Ordering.eq ↦ compare v w
      | Ordering.gt ↦ Ordering.gt
    ]
leading_compare x y n v w h k lv lw =
    ground (arith, block_lt (x - b'0') (y - b'0') n v w lv, block_lt (y - b'0') (x - b'0') n w v lw)

digits_compare :
    (a b : Text)
    → all is_digit a ≡ true
    → all is_digit b ≡ true
    → length a ≡ length b
    → text_compare a b ≡ compare (decimal a) (decimal b)
unfolding text_compare decimal
digits_compare [] [] h k e = refl
digits_compare [] (y ∷ b) h k e = absurd (omega arith)
digits_compare (x ∷ a) [] h k e = absurd (omega arith)
digits_compare (x ∷ a) (y ∷ b) h k e =
    let same : length b ≡ length a = omega arith in
    let shorter : decimal b < 10 ^ length a = rw (← same) (decimal-lt b (digits_tail y b k)) in
    rw same (
      ground (
        arith,
        leading_compare x y (10 ^ length a) (decimal a) (decimal b) (digits_head x a h)
            (digits_head y b k) (decimal-lt a (digits_tail x a h)) shorter,
        digits_compare a b (digits_tail x a h) (digits_tail y b k) (omega arith),
      ))

-- A shorter trimmed string is the smaller number.
shorter_lt :
    (a b : Text)
    → all is_digit a ≡ true
    → all is_digit b ≡ true
    → IsTrimmed b
    → length a < length b
    → decimal a < decimal b
unfolding decimal
shorter_lt a [] h k t l = absurd (omega arith)
shorter_lt a (y ∷ b) h k t l = omega (
  arith,
  decimal-lt a h,
  pow-le-pow_right {n = 10} (omega arith) {i = length a} {j = length b} (omega arith),
  mul-le-mul_right {m = 1} {n = y - b'0'} (10 ^ length b) (digit_pos y b k t),
)
  where
    digit_pos : (y : ℕ) (b : Text) → all is_digit (y ∷ b) ≡ true → b'0' ≢ y → 1 ≤ y - b'0'
    digit_pos y b k t = ground arith

is_all_digits-all : (s : Text) → is_all_digits s ≡ true → all is_digit s ≡ true
unfolding is_all_digits
is_all_digits-all [] h = cc
is_all_digits-all (c ∷ s) h = h

-- Two strings of digits, of any length and with any leading zeros, compare as the numbers that they
-- spell.
pub compare_numeric_string-decimal :
    (a b : Text)
    → is_all_digits a ≡ true
    → is_all_digits b ≡ true
    → compare_numeric_string a b ≡ compare (decimal a) (decimal b)
unfolding compare_numeric_string
compare_numeric_string-decimal a b h k =
    let da = digits-trim_left_zeros a (is_all_digits-all a h) in
    let db = digits-trim_left_zeros b (is_all_digits-all b k) in
    let ta = trim_left_zeros a in
    let tb = trim_left_zeros b in
    rw (← decimal-trim_left_zeros a, ← decimal-trim_left_zeros b)
      (ground (
        arith,
        digits_compare ta tb da db,
        shorter_lt ta tb da db (trim_left_zeros-IsTrimmed b),
        shorter_lt tb ta db da (trim_left_zeros-IsTrimmed a),
      ))
