-- ===== src/Bucketing/Literals.antt =====
-- bucketing.go, integerLiteralText: equal integers bucket alike.
use native.Mathlib.Nat.{one-le-pow, mul-le-mul_right}
use featureflip_go.Base.{
  ℕ, ◌-◌, ◌^◌, ◌≡◌, refl, Bool, true, [], ◌∷◌, Text, codes, is_empty, is_digit, all, any, trim,
  trim_left, trim_right, decimal, arith, if◌then◌else◌, ◌==◌, length,
}
use featureflip_go.Bucketing.{trim_minus, is_integer_literal, integer_literal_text}

abbrev among : Text → ℕ → Bool
among set c = any (λ x. x == c) set

trim_right-empty : (set s : Text) → is_empty (trim_right set s) ≡ all (among set) s
unfolding trim_right
trim_right-empty set [] = refl
trim_right-empty set (c ∷ s) = ground (arith, trim_right-empty set s)

trim-empty : (set s : Text) → is_empty (trim set s) ≡ all (among set) s
unfolding trim trim_left
trim-empty set [] = unfold trim_right in refl
trim-empty set (c ∷ s) = ground (arith, trim-empty set s, trim_right-empty set (c ∷ s))

decimal_zeros : (s : Text) → all is_digit s ≡ true → (decimal s == 0) ≡ all (among (codes "-0")) s
unfolding decimal
decimal_zeros [] h = refl
decimal_zeros (c ∷ s) h = ground (
  arith,
  decimal_zeros s,
  mul-le-mul_right {m = 1} {n = c - b'0'} (10 ^ length s),
  one-le-pow (length s) 10,
)

minus_zeros : (s : Text) → all (among (codes "-0")) (trim_minus s) ≡ all (among (codes "-0")) s
minus_zeros [] = refl
minus_zeros (c ∷ s) = ground arith

-- An integer literal that spells zero, with or without a minus sign and however many zeros, has the
-- text "0"; any other keeps its digits.
pub integer_literal_text_value :
    (s : Text)
    → is_integer_literal s ≡ true
    → integer_literal_text s ≡ (if decimal (trim_minus s) == 0 then codes "0" else s)
unfolding integer_literal_text
integer_literal_text_value s h =
    rw (trim-empty (codes "-0") s, ← minus_zeros s, ← decimal_zeros (trim_minus s) (digits s h))
      refl
  where
    digits : (s : Text) → is_integer_literal s ≡ true → all is_digit (trim_minus s) ≡ true
    digits s h = unfold is_integer_literal in ground arith
