-- ===== src/Bucketing/Number.antt =====
-- canonical_number.go: a float spelled as ECMAScript's Number::toString spells it.
use featureflip_go.Base.{
  ℕ, zero, suc, ◌+◌, ◌-◌, ◌/◌, ◌%◌, not, ◌&&◌, [], ◌∷◌, ◌++◌, Option, none, some, Text, codes,
  is_empty, length, take, drop, replicate, trim_right, if◌then◌else◌, ◌==◌, ltb,
}
use featureflip_go.Base.Int.{ℤ, pos, negsuc, ◌+ℤ◌, ltb_ℤ, pos_part, neg_part}
use featureflip_go.Platform.{Platform}
use featureflip_go.Floats.{sign_bit, infinity, magnitude, is_nan, is_negative}
use featureflip_go.Semver.{cut}
use featureflip_go.DateTime.{parse_int}

-- strconv.Itoa of a number that has at most as many digits as there is fuel; a float's exponent has
-- three.
unfoldable pub itoa : ℕ → ℕ → Text
itoa zero n = []
itoa (suc fuel) n =
    let rest = itoa fuel (n / 10) in
    if ltb n 10 then (b'0' + n) ∷ [] else rest ++ (b'0' + n % 10) ∷ []

-- strings.Replace(s, ".", "", 1).
unfoldable pub remove_dot : Text → Text
remove_dot [] = []
remove_dot (c ∷ s) = let rest = remove_dot s in if c == b'.' then s else c ∷ rest

abbrev atoi : Option Text → ℤ
atoi none = pos 0
atoi (some s) = elim (parse_int s) [ none ↦ pos 0 | some n ↦ n ]

-- "0" if there are no digits left.
abbrev or_zero : Text → Text
or_zero digits = if is_empty digits then codes "0" else digits

exponent_form : Text → ℤ → Text
unfolding itoa
exponent_form digits e =
    (if ltb 1 (length digits) then take 1 digits ++ b'.' ∷ drop 1 digits else take 1 digits)
    ++ b'e' ∷ ((if ltb_ℤ e (pos 0) then b'-' else b'+') ∷ itoa 4 (pos_part e + neg_part e))

-- The shortest digits and the place `n` of the decimal point among them.
unfoldable pub place_point : Text → ℤ → Text
unfolding exponent_form ◌+ℤ◌
place_point digits n =
    if not (ltb_ℤ n (pos (length digits))) && not (ltb_ℤ (pos 21) n)
    then digits ++ replicate (pos_part n - length digits) b'0'
    else if ltb_ℤ (pos 0) n && not (ltb_ℤ (pos 21) n)
    then take (pos_part n) digits ++ b'.' ∷ drop (pos_part n) digits
    else if ltb_ℤ (negsuc 5) n && not (ltb_ℤ (pos 0) n)
    then codes "0." ++ (replicate (neg_part n) b'0' ++ digits)
    else exponent_form digits (n +ℤ negsuc 0)

spell : Text × Option Text → Text
unfolding place_point remove_dot trim_right
spell (mantissa, exponent) =
    place_point (or_zero (trim_right (codes "0") (remove_dot mantissa))) (atoi exponent +ℤ pos 1)

-- A finite float above 0.
unfoldable pub canonical_positive : Platform → ℕ → ℕ → Text
unfolding spell cut parse_int
canonical_positive go x bit_size = spell (cut b'e' (go.format_exponent x bit_size))

unfoldable pub canonical_number : Platform → ℕ → ℕ → Text
unfolding canonical_positive
canonical_number go x bit_size =
    if is_nan x
    then codes "NaN"
    else if x == infinity
    then codes "Infinity"
    else if x == infinity + sign_bit
    then codes "-Infinity"
    else if magnitude x == 0
    then codes "0"
    else if is_negative x
    then b'-' ∷ canonical_positive go (magnitude x) bit_size
    else canonical_positive go x bit_size
