-- ===== src/Semver/Tests.antt =====
-- The theorems on versions, at single versions.
use featureflip_go.Base.{◌≡◌, refl, true, [], ◌∷◌, some, codes, decimal, compare, ◌++◌, all}
use featureflip_go.Semver.{SemverVersion, compare_numeric_string, is_all_digits, parse_semver}
use featureflip_go.Semver.Digits.{compare_numeric_string-decimal}
use featureflip_go.Semver.Parse.{is_visible, IsPrintable, print}
use featureflip_go.Semver.RoundTrip.{parse_semver-print}
use featureflip_go.Samples.{plain}

padded_digits : is_all_digits (codes "007") ≡ true
unfolding is_all_digits
padded_digits = refl

ten_digits : is_all_digits (codes "10") ≡ true
unfolding is_all_digits
ten_digits = refl

compare_numeric_string-decimal_example :
    compare_numeric_string (codes "007") (codes "10")
    ≡ compare (decimal (codes "007")) (decimal (codes "10"))
compare_numeric_string-decimal_example =
    compare_numeric_string-decimal (codes "007") (codes "10") padded_digits ten_digits

abbrev candidate : SemverVersion
candidate = record {
  release = codes "1" ∷ codes "20" ∷ [];
  prerelease = codes "rc" ∷ codes "1" ∷ [];
}

candidate-IsPrintable : IsPrintable candidate
unfolding is_all_digits
candidate-IsPrintable = record {
  has_release = λ e. cc;
  release_digits = refl;
  named = refl;
  dotless = refl;
  plusless = refl;
  visible = refl;
}

visible_build : all is_visible (codes "b7") ≡ true
visible_build = refl

parse_semver-print_example :
    (parse_semver plain (print candidate) ≡ some candidate)
    × (parse_semver plain (print candidate ++ b'+' ∷ codes "b7") ≡ some candidate)
parse_semver-print_example =
    parse_semver-print plain (λ t h. refl) candidate (codes "b7") candidate-IsPrintable
      visible_build
