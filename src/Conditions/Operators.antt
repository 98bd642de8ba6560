-- ===== src/Conditions/Operators.antt =====
-- conditions.go: the operators, normalizeOperator and evaluateOperatorChecked.
use featureflip_go.Base.{
  ℕ, Bool, true, false, not, List, [], ◌∷◌, Option, none, some, Text, codes, text_eq, if◌then◌else◌,
  any, ◌==◌, has_prefix, has_suffix, contains, Ordering,
}
use featureflip_go.Platform.{Platform, ParsedFloat, parsed}
use featureflip_go.Floats.{float_lt, float_le}
use featureflip_go.Semver.{compare_semver}
use featureflip_go.DateTime.{compare_date_time, before, after}

-- The labels of the switch, one for those that share an arm.
pub data Operator : Type 0 where
  equals not_equals contains_op not_contains starts_with ends_with matches_regex : Operator
  greater_than less_than greater_than_or_equal less_than_or_equal : Operator
  before_op after_op : Operator
  semver_equals semver_greater_than semver_greater_than_or_equal : Operator
  semver_less_than semver_less_than_or_equal : Operator

-- strings.ReplaceAll(op, "_", "").
unfoldable pub remove_underscores : Text → Text
remove_underscores [] = []
remove_underscores (c ∷ s) = let rest = remove_underscores s in if c == b'_' then rest else c ∷ rest

unfoldable pub normalize_operator : Platform → Text → Text
unfolding remove_underscores
normalize_operator go op = go.to_lower (remove_underscores op)

-- The labels in the order of the switch.
abbrev pub labels : List (Text × Operator)
labels =
    (codes "equals", equals)
    ∷ (codes "in", equals)
    ∷ (codes "notequals", not_equals)
    ∷ (codes "notin", not_equals)
    ∷ (codes "contains", contains_op)
    ∷ (codes "notcontains", not_contains)
    ∷ (codes "startswith", starts_with)
    ∷ (codes "endswith", ends_with)
    ∷ (codes "matchesregex", matches_regex)
    ∷ (codes "greaterthan", greater_than)
    ∷ (codes "lessthan", less_than)
    ∷ (codes "greaterthanorequal", greater_than_or_equal)
    ∷ (codes "lessthanorequal", less_than_or_equal)
    ∷ (codes "before", before_op)
    ∷ (codes "after", after_op)
    ∷ (codes "semverequals", semver_equals)
    ∷ (codes "semvergreaterthan", semver_greater_than)
    ∷ (codes "semvergreaterthanorequal", semver_greater_than_or_equal)
    ∷ (codes "semverlessthan", semver_less_than)
    ∷ (codes "semverlessthanorequal", semver_less_than_or_equal)
    ∷ []

find_label : Text → List (Text × Operator) → Option Operator
find_label op [] = none
find_label op ((label, o) ∷ rest) = if text_eq op label then some o else find_label op rest

-- Which arm of the switch a normalized operator takes; `none` is the default arm.
unfoldable pub recognise : Text → Option Operator
unfolding find_label text_eq
recognise op = find_label op labels

numeric_target : (ℕ → ℕ → Bool) → ℕ → ParsedFloat → Bool
numeric_target cmp a (parsed b) = cmp a b
numeric_target cmp a _ = false

numeric_targets : Platform → (ℕ → ℕ → Bool) → ParsedFloat → List Text → Bool
numeric_targets go cmp (parsed a) targets =
    any (λ t. numeric_target cmp a (go.parse_float t)) targets
numeric_targets go cmp _ targets = false

unfoldable pub compare_numeric : Platform → Text → List Text → (ℕ → ℕ → Bool) → Bool
unfolding numeric_targets numeric_target
compare_numeric go value targets cmp = numeric_targets go cmp (go.parse_float value) targets

abbrev regex_matches : Option Bool → Bool
regex_matches (some matched) = matched
regex_matches none = false

abbrev pub is_eq : Ordering → Bool
is_eq Ordering.eq = true
is_eq _ = false

abbrev pub is_gt : Ordering → Bool
is_gt Ordering.gt = true
is_gt _ = false

abbrev pub is_lt : Ordering → Bool
is_lt Ordering.lt = true
is_lt _ = false

-- Some target, lower-cased, stands in the relation to the lower-cased value.
abbrev pub any_folded : Platform → (Text → Text → Bool) → Text → List Text → Bool
any_folded go related value targets = any (λ t. related (go.to_lower value) (go.to_lower t)) targets

-- The arms of the switch.
unfoldable pub run : Platform → Operator → Text → List Text → Bool
run go equals value targets = any_folded go (λ v t. text_eq t v) value targets
run go not_equals value targets = not (any_folded go (λ v t. text_eq t v) value targets)
run go contains_op value targets = any_folded go contains value targets
run go not_contains value targets = not (any_folded go contains value targets)
run go starts_with value targets = any_folded go has_prefix value targets
run go ends_with value targets = any_folded go has_suffix value targets
run go matches_regex value targets = any (λ t. regex_matches (go.match_regex t value)) targets
run go greater_than value targets = compare_numeric go value targets (λ a b. float_lt b a)
run go less_than value targets = compare_numeric go value targets float_lt
run go greater_than_or_equal value targets = compare_numeric go value targets (λ a b. float_le b a)
run go less_than_or_equal value targets = compare_numeric go value targets float_le
run go before_op value targets = compare_date_time go value targets before
run go after_op value targets = compare_date_time go value targets after
run go semver_equals value targets = compare_semver go value targets is_eq
run go semver_greater_than value targets = compare_semver go value targets is_gt
run go semver_greater_than_or_equal value targets =
    compare_semver go value targets (λ c. not (is_lt c))
run go semver_less_than value targets = compare_semver go value targets is_lt
run go semver_less_than_or_equal value targets =
    compare_semver go value targets (λ c. not (is_gt c))

-- `none` where the code's second result is false.
unfoldable pub evaluate_operator_checked : Platform → Text → Text → List Text → Option Bool
evaluate_operator_checked go op value targets = elim (recognise (normalize_operator go op)) [
  | none ↦ none
  | some o ↦ some (run go o value targets)
]

unfoldable pub evaluate_operator : Platform → Text → Text → List Text → Bool
evaluate_operator go op value targets = elim (evaluate_operator_checked go op value targets) [
  | none ↦ false
  | some result ↦ result
]
