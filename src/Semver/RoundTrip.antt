-- ===== src/Semver/RoundTrip.antt =====
-- conditions.go, parseSemver: written versions, with and without build metadata.
use mathlib.Core.List.{append-nil}
use featureflip_go.Base.{
  ℕ, ◌≡◌, refl, ◌≢◌, Bool, true, not, List, [], ◌∷◌, ◌++◌, some, Text, arith, all, is_digit, ◌==◌,
  ap, subst, ◌∙◌,
}
use featureflip_go.Platform.{Platform}
use featureflip_go.Semver.{SemverVersion, is_all_digits, parse_trimmed, parse_semver}
use featureflip_go.Semver.Parse.{
  is_visible, lacks, print, IsPrintable, StartsWithDigit, core-StartsWithDigit, release-lacks,
  join_dots, all-append, all-join_dots, parse_trimmed-print, parse_trimmed_build,
}

-- Digits are visible.
digits-visible : (p : Text) → is_all_digits p ≡ true → all is_visible p ≡ true
unfolding is_all_digits
digits-visible [] h = refl
digits-visible (c ∷ p) h = rest (c ∷ p) h
  where
    rest : (s : Text) → all is_digit s ≡ true → all is_visible s ≡ true
    rest [] h = refl
    rest (x ∷ s) h = ground (arith, rest s)

release-visible : (ps : List Text) → all is_all_digits ps ≡ true → all (all is_visible) ps ≡ true
release-visible [] h = refl
release-visible (p ∷ ps) h = ground (arith, digits-visible p, release-visible ps)

-- What holds of the digits, the dot, the dash and every byte of the identifiers holds of the bytes of
-- the written version.
print-all :
    (f : ℕ → Bool)
    → f b'.' ≡ true
    → f b'-' ≡ true
    → (rs qs : List Text) → all (all f) rs ≡ true
    → all (all f) qs ≡ true
    → all f (print (record { release = rs; prerelease = qs })) ≡ true
unfolding print
print-all f dot dash rs [] h k = all-join_dots f dot rs h
print-all f dot dash rs (q ∷ qs) h k =
    all-append f (join_dots rs) (b'-' ∷ join_dots (q ∷ qs)) (all-join_dots f dot rs h)
      (rw (dash, all-join_dots f dot (q ∷ qs) k) refl)

print-StartsWithDigit :
    (rs qs : List Text)
    → rs ≢ []
    → all is_all_digits rs ≡ true
    → StartsWithDigit (print (record { release = rs; prerelease = qs }))
unfolding print
print-StartsWithDigit rs [] n h =
    subst StartsWithDigit (append-nil (join_dots rs)) (core-StartsWithDigit rs [] n h)
print-StartsWithDigit rs (q ∷ qs) n h = core-StartsWithDigit rs (b'-' ∷ join_dots (q ∷ qs)) n h

build_ignored :
    (t build : Text)
    → StartsWithDigit t
    → lacks b'+' t ≡ true
    → parse_trimmed (t ++ b'+' ∷ build) ≡ parse_trimmed t
build_ignored [] build d h = absurd d
build_ignored (c ∷ s) build d h = parse_trimmed_build c s build h

-- Given that strings.TrimSpace leaves a text of visible ASCII bytes as it is: a version whose release
-- segments are digits, at least one, and whose prerelease identifiers are not empty and hold visible
-- ASCII bytes but no dot and no plus sign, is read back by parseSemver from its printed form, alone or
-- followed by a plus sign and build metadata of visible ASCII bytes.
pub parse_semver-print :
    (go : Platform)
    → ((t : Text) → all is_visible t ≡ true → go.trim_space t ≡ t)
    → (v : SemverVersion) (build : Text) → IsPrintable v
    → all is_visible build ≡ true
    → (parse_semver go (print v) ≡ some v) × (parse_semver go (print v ++ b'+' ∷ build) ≡ some v)
unfolding parse_semver
parse_semver-print go trims v build h b =
    let seen : all is_visible (print v) ≡ true =
      print-all is_visible refl refl v.release v.prerelease
        (release-visible v.release h.release_digits) h.visible in
    (
      ap parse_trimmed (trims (print v) seen) ∙ parse_trimmed-print v h,
      ap parse_trimmed (
            trims (print v ++ b'+' ∷ build) (all-append is_visible (print v) (b'+' ∷ build) seen b))
          ∙ build_ignored (print v) build
              (print-StartsWithDigit v.release v.prerelease h.has_release h.release_digits)
              (print-all (λ x. not (x == b'+')) refl refl v.release v.prerelease
                (release-lacks b'+' refl v.release h.release_digits) h.plusless)
          ∙ parse_trimmed-print v h,
    )
