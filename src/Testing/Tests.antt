-- ===== src/Testing/Tests.antt =====
-- The theorem on overrides, for two texts, on a platform where a text is its own JSON.
use featureflip_go.Base.{◌≡◌, refl, Bool, false, [], ◌∷◌, Option, none, some, Text, codes, text_eq}
use featureflip_go.Base.Dict.{Dict, lookup}
use featureflip_go.Models.{Value, Rule}
use featureflip_go.Samples.Sort.{insertion_sort}
use featureflip_go.Samples.{plain, visitor}
use featureflip_go.Events.{Outcome}
use featureflip_go.Client.{Surroundings, variation}
use featureflip_go.Client.Accessors.{text_type}
use featureflip_go.Client.Assertions.{text_type-IsAssertion}
use featureflip_go.Testing.{for_testing}
use featureflip_go.Testing.Overrides.{variation-for_testing}

abbrev here : Surroundings
here = record {
  platform = plain;
  time = codes "2026-01-02T03:04:05Z";
  time_nano = codes "2026-01-02T03:04:05.000000006Z";
  now = 7;
  replies = λ n. record { outcome = Outcome.delivered; now = 8 };
}

abbrev marshal : Value → Option Text
marshal (Value.text s) = some s
marshal _ = none

abbrev other_override : Dict Value
other_override = (codes "b", Value.text (codes "right")) ∷ []

no_other : lookup (codes "a") other_override ≡ none
unfolding lookup text_eq
no_other = refl

sorts_nothing : (less : Rule → Rule → Bool) → plain.sort_slice less [] ≡ []
unfolding insertion_sort
sorts_nothing less = refl

variation-for_testing_example :
    (variation text_type false here
      (codes "a")
      visitor
      (codes "none")
      (for_testing plain marshal ((codes "a", Value.text (codes "left")) ∷ other_override))).value
    ≡ codes "left"
variation-for_testing_example =
    variation-for_testing text_type here marshal (codes "a") visitor (codes "none") (codes "left")
      (codes "left") [] other_override text_type-IsAssertion sorts_nothing refl refl no_other
