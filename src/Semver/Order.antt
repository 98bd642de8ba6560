-- ===== src/Semver/Order.antt =====
-- Semantic-version precedence is a total preorder.
use featureflip_go.Base.{
  ℕ, zero, suc, ◌+◌, ◌≤◌, ◌≡◌, refl, ◌≢◌, List, [], ◌∷◌, Text, codes, Ordering, arith, length,
  text_compare, swap_ordering, text_compare-swap,
}
use featureflip_go.Semver.{
  trim_left_zeros, compare_numeric_string, compare_prerelease_id, followed_by, compare_identifiers,
  compare_prerelease, compare_release, compare_semver_parts,
}

-- The order of `a` and `c` from those of `a`, `b` and of `b`, `c`, where neither is `gt`.
abbrev pub join : Ordering → Ordering → Ordering
join Ordering.eq second = second
join first second = first

-- `cmp` is a total preorder: the mirrored call has the mirrored sign, and signs compose.
pub record IsPreorder {ℓ} {A : Type ℓ} (cmp : A → A → Ordering) : Type ℓ where
  pub mirrored : (a b : A) → cmp b a ≡ swap_ordering (cmp a b)
  pub composed :
      (a b c : A)
      → cmp a b ≢ Ordering.gt
      → cmp b c ≢ Ordering.gt
      → cmp a c ≡ join (cmp a b) (cmp b c)

text_compare-composed :
    (a b c : Text)
    → text_compare a b ≢ Ordering.gt
    → text_compare b c ≢ Ordering.gt
    → text_compare a c ≡ join (text_compare a b) (text_compare b c)
unfolding text_compare
text_compare-composed [] [] c h k = refl
text_compare-composed [] (y ∷ ys) [] h k = absurd (k refl)
text_compare-composed [] (y ∷ ys) (z ∷ zs) h k = refl
text_compare-composed (x ∷ xs) [] c h k = absurd (h refl)
text_compare-composed (x ∷ xs) (y ∷ ys) [] h k = absurd (k refl)
text_compare-composed (x ∷ xs) (y ∷ ys) (z ∷ zs) h k =
    ground (arith, text_compare-composed xs ys zs)

pub text_compare-IsPreorder : IsPreorder text_compare
text_compare-IsPreorder = record { mirrored = text_compare-swap; composed = text_compare-composed }

compare_numeric_string-IsPreorder : IsPreorder compare_numeric_string
unfolding compare_numeric_string
compare_numeric_string-IsPreorder = record {
  mirrored = λ a b. ground (arith, text_compare-swap (trim_left_zeros a) (trim_left_zeros b));
  composed = λ a b c.
      ground
        (arith, text_compare-composed (trim_left_zeros a) (trim_left_zeros b) (trim_left_zeros c));
}

compare_prerelease_id-IsPreorder : IsPreorder compare_prerelease_id
unfolding compare_prerelease_id
compare_prerelease_id-IsPreorder = record {
  mirrored =
      λ a b. ground (arith, text_compare-swap a b, compare_numeric_string-IsPreorder.mirrored a b);
  composed = λ a b c.
      ground (arith, text_compare-composed a b c, compare_numeric_string-IsPreorder.composed a b c);
}

compare_identifiers-mirrored :
    (a b : List Text) → compare_identifiers b a ≡ swap_ordering (compare_identifiers a b)
unfolding compare_identifiers
compare_identifiers-mirrored [] [] = refl
compare_identifiers-mirrored [] (y ∷ b) = refl
compare_identifiers-mirrored (x ∷ a) [] = refl
compare_identifiers-mirrored (x ∷ a) (y ∷ b) =
    ground (arith, compare_prerelease_id-IsPreorder.mirrored x y, compare_identifiers-mirrored a b)

compare_identifiers-composed :
    (a b c : List Text)
    → compare_identifiers a b ≢ Ordering.gt
    → compare_identifiers b c ≢ Ordering.gt
    → compare_identifiers a c ≡ join (compare_identifiers a b) (compare_identifiers b c)
unfolding compare_identifiers
compare_identifiers-composed [] [] c h k = refl
compare_identifiers-composed [] (y ∷ b) [] h k = absurd (k refl)
compare_identifiers-composed [] (y ∷ b) (z ∷ c) h k = refl
compare_identifiers-composed (x ∷ a) [] c h k = absurd (h refl)
compare_identifiers-composed (x ∷ a) (y ∷ b) [] h k = absurd (k refl)
compare_identifiers-composed (x ∷ a) (y ∷ b) (z ∷ c) h k =
    ground
      (arith, compare_prerelease_id-IsPreorder.composed x y z, compare_identifiers-composed a b c)

compare_prerelease-IsPreorder : IsPreorder compare_prerelease
unfolding compare_prerelease
compare_prerelease-IsPreorder = record { mirrored = mirror; composed = compose }
  where
    mirror : (a b : List Text) → compare_prerelease b a ≡ swap_ordering (compare_prerelease a b)
    mirror [] [] = refl
    mirror [] (y ∷ b) = refl
    mirror (x ∷ a) [] = refl
    mirror (x ∷ a) (y ∷ b) = compare_identifiers-mirrored (x ∷ a) (y ∷ b)

    compose :
        (a b c : List Text)
        → compare_prerelease a b ≢ Ordering.gt
        → compare_prerelease b c ≢ Ordering.gt
        → compare_prerelease a c ≡ join (compare_prerelease a b) (compare_prerelease b c)
    compose [] [] c h k = refl
    compose [] (y ∷ b) c h k = absurd (h refl)
    compose (x ∷ a) [] [] h k = refl
    compose (x ∷ a) [] (z ∷ c) h k = absurd (k refl)
    compose (x ∷ a) (y ∷ b) [] h k = ground arith
    compose (x ∷ a) (y ∷ b) (z ∷ c) h k = compare_identifiers-composed (x ∷ a) (y ∷ b) (z ∷ c) h k

compare_release-mirrored :
    (a b : List Text) → compare_release b a ≡ swap_ordering (compare_release a b)
unfolding compare_release
compare_release-mirrored [] [] = refl
compare_release-mirrored [] (y ∷ b) =
    ground (
      arith,
      compare_numeric_string-IsPreorder.mirrored (codes "0") y,
      compare_release-mirrored [] b,
    )
compare_release-mirrored (x ∷ a) [] =
    ground (
      arith,
      compare_numeric_string-IsPreorder.mirrored x (codes "0"),
      compare_release-mirrored a [],
    )
compare_release-mirrored (x ∷ a) (y ∷ b) =
    ground (arith, compare_numeric_string-IsPreorder.mirrored x y, compare_release-mirrored a b)

-- The first segment, or the "0" that stands for a missing one.
abbrev first_segment : List Text → Text
first_segment [] = codes "0"
first_segment (x ∷ a) = x

abbrev other_segments : List Text → List Text
other_segments [] = []
other_segments (x ∷ a) = a

zero_segment : compare_numeric_string (codes "0") (codes "0") ≡ Ordering.eq
unfolding compare_numeric_string text_compare
zero_segment = refl

-- One round of the loop, with the missing segments filled in.
compare_release_step :
    (a b : List Text)
    → compare_release a b
      ≡ followed_by
          (compare_numeric_string (first_segment a) (first_segment b))
          (compare_release (other_segments a) (other_segments b))
unfolding compare_release
compare_release_step [] [] = rw zero_segment
compare_release_step [] (y ∷ b) = refl
compare_release_step (x ∷ a) [] = refl
compare_release_step (x ∷ a) (y ∷ b) = refl

compare_release-composed :
    (n : ℕ) (a b c : List Text)
    → length a ≤ n
    → length b ≤ n
    → length c ≤ n
    → compare_release a b ≢ Ordering.gt
    → compare_release b c ≢ Ordering.gt
    → compare_release a c ≡ join (compare_release a b) (compare_release b c)
compare_release-composed zero [] [] [] la lb lc h k = unfold compare_release in refl
compare_release-composed zero [] [] (z ∷ c) la lb lc h k = absurd (omega arith)
compare_release-composed zero [] (y ∷ b) c la lb lc h k = absurd (omega arith)
compare_release-composed zero (x ∷ a) b c la lb lc h k = absurd (omega arith)
compare_release-composed (suc n) a b c la lb lc h k = ground (
  arith,
  compare_release_step a b,
  compare_release_step b c,
  compare_release_step a c,
  compare_numeric_string-IsPreorder.composed (first_segment a) (first_segment b) (first_segment c),
  compare_release-composed n (other_segments a) (other_segments b) (other_segments c) (fewer a la)
      (fewer b lb) (fewer c lc),
)
  where
    fewer : (l : List Text) → length l ≤ suc n → length (other_segments l) ≤ n
    fewer [] h = omega arith
    fewer (x ∷ l) h = omega arith

compare_release-IsPreorder : IsPreorder compare_release
compare_release-IsPreorder = record {
  mirrored = compare_release-mirrored;
  composed = λ a b c.
      compare_release-composed (length a + (length b + length c)) a b c (omega arith) (omega arith)
        (omega arith);
}

-- Precedence of parsed versions is a total preorder: exchanging the versions mirrors the result,
-- so a version precedes another or the other way round or they rank alike, and the results compose,
-- so that `lt` and `eq` are transitive and versions that rank alike rank alike against any third.
pub compare_semver_parts-IsPreorder : IsPreorder compare_semver_parts
unfolding compare_semver_parts
compare_semver_parts-IsPreorder = record {
  mirrored = λ a b. ground (
    arith,
    compare_release-mirrored a.release b.release,
    compare_prerelease-IsPreorder.mirrored a.prerelease b.prerelease,
  );
  composed = λ a b c. ground (
    arith,
    compare_release-IsPreorder.composed a.release b.release c.release,
    compare_prerelease-IsPreorder.composed a.prerelease b.prerelease c.prerelease,
  );
}
