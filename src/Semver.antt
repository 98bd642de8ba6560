-- ===== src/Semver.antt =====
-- conditions.go: semantic versions. A comparison's sign -1, 0 or 1 is an Ordering.
pub mod Digits
pub mod Order
pub mod Parse
pub mod RoundTrip
mod Tests
use featureflip_go.Base.{
  ℕ, ◌+◌, Bool, true, false, ◌&&◌, ◌||◌, not, List, [], ◌∷◌, Option, none, some, Text, codes,
  is_empty, Ordering, ltb, is_digit, ◌==◌, if◌then◌else◌, length, all, any, text_compare,
}
use featureflip_go.Platform.{Platform}

pub record SemverVersion : Type 0 where
  pub release : List Text
  pub prerelease : List Text

unfoldable pub is_all_digits : Text → Bool
is_all_digits [] = false
is_all_digits (c ∷ s) = all is_digit (c ∷ s)

-- strings.TrimLeft(s, "0").
unfoldable pub trim_left_zeros : Text → Text
trim_left_zeros [] = []
trim_left_zeros (c ∷ s) = let rest = trim_left_zeros s in if c == b'0' then rest else c ∷ s

compare_trimmed : Text → Text → Ordering
compare_trimmed a b =
    if length a == length b
    then text_compare a b
    else if ltb (length a) (length b)
    then Ordering.lt
    else Ordering.gt

unfoldable pub compare_numeric_string : Text → Text → Ordering
unfolding trim_left_zeros compare_trimmed
compare_numeric_string a b = compare_trimmed (trim_left_zeros a) (trim_left_zeros b)

unfoldable pub compare_prerelease_id : Text → Text → Ordering
compare_prerelease_id a b =
    if is_all_digits a && is_all_digits b
    then compare_numeric_string a b
    else if is_all_digits a
    then Ordering.lt
    else if is_all_digits b
    then Ordering.gt
    else text_compare a b

abbrev pub followed_by : Ordering → Ordering → Ordering
followed_by Ordering.eq second = second
followed_by first second = first

-- The loop over the identifiers that both lists have, and the comparison of the lengths after it.
unfoldable pub compare_identifiers : List Text → List Text → Ordering
compare_identifiers [] [] = Ordering.eq
compare_identifiers [] (b ∷ bs) = Ordering.lt
compare_identifiers (a ∷ as') [] = Ordering.gt
compare_identifiers (a ∷ as') (b ∷ bs) =
    followed_by (compare_prerelease_id a b) (compare_identifiers as' bs)

unfoldable pub compare_prerelease : List Text → List Text → Ordering
compare_prerelease [] [] = Ordering.eq
compare_prerelease [] (b ∷ bs) = Ordering.gt
compare_prerelease (a ∷ as') [] = Ordering.lt
compare_prerelease (a ∷ as') (b ∷ bs) = compare_identifiers (a ∷ as') (b ∷ bs)

-- The loop over the release segments: a missing one counts as "0".
unfoldable pub compare_release : List Text → List Text → Ordering
compare_release [] [] = Ordering.eq
compare_release [] (b ∷ bs) =
    followed_by (compare_numeric_string (codes "0") b) (compare_release [] bs)
compare_release (a ∷ as') [] =
    followed_by (compare_numeric_string a (codes "0")) (compare_release as' [])
compare_release (a ∷ as') (b ∷ bs) =
    followed_by (compare_numeric_string a b) (compare_release as' bs)

unfoldable pub compare_semver_parts : SemverVersion → SemverVersion → Ordering
compare_semver_parts a b =
    followed_by (compare_release a.release b.release) (compare_prerelease a.prerelease b.prerelease)

-- The part of a text before the first `c`, and the part behind it if there is a `c`: the two
-- slices at strings.IndexByte(s, c).
unfoldable pub cut : ℕ → Text → Text × Option Text
cut c [] = ([], none)
cut c (x ∷ s) =
    let (before, after) = cut c s in if x == c then ([], some s) else (x ∷ before, after)

abbrev prepend : ℕ → List Text → List Text
prepend c [] = (c ∷ []) ∷ []
prepend c (piece ∷ pieces) = (c ∷ piece) ∷ pieces

-- strings.Split(s, "."): the pieces, at least one.
unfoldable pub split_dots : Text → List Text
split_dots [] = [] ∷ []
split_dots (c ∷ s) =
    let pieces = split_dots s in if c == b'.' then [] ∷ pieces else prepend c pieces

-- The optional leading "v" or "V".
abbrev pub strip_v : Text → Text
strip_v [] = []
strip_v (c ∷ s) = if c == b'v' || c == b'V' then s else c ∷ s

parse_prerelease : Option Text → Option (List Text)
parse_prerelease none = some []
parse_prerelease (some pre) =
    if is_empty pre
    then none
    else if any is_empty (split_dots pre)
    then none
    else some (split_dots pre)

parse_core : Text → List Text → Option SemverVersion
parse_core core prerelease =
    if is_empty core
    then none
    else if all is_all_digits (split_dots core)
    then some (record { release = split_dots core; prerelease = prerelease })
    else none

parse_parts : Text × Option Text → Option SemverVersion
unfolding parse_prerelease parse_core
parse_parts (core, suffix) = elim (parse_prerelease suffix) [
  | none ↦ none
  | some prerelease ↦ parse_core core prerelease
]

-- parseSemver behind its call of strings.TrimSpace.
unfoldable pub parse_trimmed : Text → Option SemverVersion
unfolding parse_parts cut split_dots is_all_digits
parse_trimmed [] = none
parse_trimmed (c ∷ s) = parse_parts (cut b'-' (cut b'+' (strip_v (c ∷ s))).0)

unfoldable pub parse_semver : Platform → Text → Option SemverVersion
unfolding parse_trimmed
parse_semver go value = parse_trimmed (go.trim_space value)

satisfies : (Ordering → Bool) → SemverVersion → Option SemverVersion → Bool
satisfies cmp left none = false
satisfies cmp left (some right) = cmp (compare_semver_parts left right)

compare_targets : Platform → (Ordering → Bool) → Option SemverVersion → List Text → Bool
compare_targets go cmp none targets = false
compare_targets go cmp (some left) targets =
    any (λ t. satisfies cmp left (parse_semver go t)) targets

unfoldable pub compare_semver : Platform → Text → List Text → (Ordering → Bool) → Bool
unfolding compare_targets satisfies
compare_semver go value targets cmp = compare_targets go cmp (parse_semver go value) targets
