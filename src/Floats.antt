-- ===== src/Floats.antt =====
-- Go's float64 by its IEEE-754 bit pattern: the comparison operators of the language.
use featureflip_go.Base.{ℕ, ◌%◌, Bool, ◌&&◌, not, ltb, leb, ◌==◌, if◌then◌else◌}
use featureflip_go.Base.Int.{ℤ, pos, sub_ℕ, ltb_ℤ, pos_part, neg_part}

abbrev pub sign_bit : ℕ
sign_bit = 9223372036854775808

-- The bits of +Inf.
abbrev pub infinity : ℕ
infinity = 9218868437227405312

-- The bits without the sign; their order is that of the absolute values.
abbrev pub magnitude : ℕ → ℕ
magnitude x = x % sign_bit

abbrev pub is_nan : ℕ → Bool
is_nan x = ltb infinity (magnitude x)

abbrev pub is_negative : ℕ → Bool
is_negative x = leb sign_bit x

-- An integer that orders the floats other than NaN as their values are ordered; both zeros are 0.
abbrev pub rank : ℕ → ℤ
rank x = if is_negative x then sub_ℕ 0 (magnitude x) else pos (magnitude x)

-- a < b, a <= b and a == b: false if one of them is NaN.
unfoldable pub float_lt : ℕ → ℕ → Bool
float_lt a b = not (is_nan a) && not (is_nan b) && ltb_ℤ (rank a) (rank b)

unfoldable pub float_le : ℕ → ℕ → Bool
float_le a b = not (is_nan a) && not (is_nan b) && not (ltb_ℤ (rank b) (rank a))

unfoldable pub float_eq : ℕ → ℕ → Bool
float_eq a b =
    not (is_nan a)
    && not (is_nan b)
    && pos_part (rank a) == pos_part (rank b)
    && neg_part (rank a) == neg_part (rank b)
