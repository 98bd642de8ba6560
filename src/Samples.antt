-- ===== src/Samples.antt =====
-- Concrete functions of the platform and a small configuration, for the examples of the theorems.
pub mod Equal
pub mod Sort
pub mod Server
use featureflip_go.Base.{
  ℕ, Bool, true, false, List, [], ◌∷◌, Option, none, some, Text, codes, trim, text_eq,
  if◌then◌else◌, ◌≡◌, refl, sym, ap, ◌∙◌, subst, ◌⊎◌, inl, inr, Bool-cases, if_true, if_false,
  some_eq, none-ne-some, text_eq_sound, is_empty, All, arith, ◌<◌, ◌≤◌,
}
use featureflip_go.Base.Dict.{Dict, lookup}
use featureflip_go.Base.Int.{ℤ, pos, negsuc}
use featureflip_go.Models.{
  Value, Flag, Rule, Segment, Prerequisite, EvaluationContext, ServeConfig, Variation, Condition,
  ConditionGroup, WeightedVariation,
}
use featureflip_go.Platform.{Platform, ParsedFloat, Unmarshalled, Instant}
use featureflip_go.Evaluation.{World, max_prerequisite_depth}
use featureflip_go.Evaluation.Rules.{Sorts}
use featureflip_go.Evaluation.Reference.{IsRanked}
use Equal.{flag_eq, segment_eq}
use Sort.{insertion_sort, insertion_sort-Perm, insertion_sort-IsSorted}

-- A platform without letters of two cases, numbers or patterns.
abbrev pub plain : Platform
plain = record {
  to_lower = λ s. s;
  trim_space = λ s. s;
  sprint = λ v. [];
  parse_float = λ s. ParsedFloat.malformed;
  float_of_int = λ z. 0;
  float_of_float32 = λ x. x;
  format_exponent = λ bits x. [];
  match_regex = λ pattern s. none;
  has_space_or_format = λ s. false;
  parse_rfc3339 = λ s. some (record { seconds = pos 60; nanos = 5 });
  parse_utc_date_time = λ s. none;
  parse_utc_date = λ s. none;
  md5 = λ s. 1 ∷ 2 ∷ 3 ∷ 4 ∷ [];
  unmarshal = λ s. Unmarshalled.decoded (Value.text s);
  sort_slice = insertion_sort;
  flag_equal = flag_eq;
  segment_equal = segment_eq;
}

abbrev pub fixed : Text → ServeConfig
fixed key = record {
  serve_type = codes "Fixed";
  variation = key;
  bucket_by = [];
  salt = [];
  variations = [];
}

abbrev pub on_off : List Variation
on_off =
    record { key = codes "on"; value = codes "true" }
    ∷ record { key = codes "off"; value = codes "false" }
    ∷ []

abbrev pub is_member : Condition
is_member = record {
  attribute = codes "plan";
  operator = codes "equals";
  values = codes "pro" ∷ [];
  negate = false;
}

-- A rule for users on the plan.
abbrev pub members_only : Rule
members_only = record {
  id = codes "members";
  priority = pos 1;
  condition_groups = record { operator = codes "and"; conditions = is_member ∷ [] } ∷ [];
  serve = fixed (codes "off");
  segment_key = [];
}

-- A rule for everyone.
abbrev pub everyone : Rule
everyone = record {
  id = codes "everyone";
  priority = pos 2;
  condition_groups = [];
  serve = fixed (codes "on");
  segment_key = [];
}

abbrev pub flag_of : Text → List Rule → List Prerequisite → Flag
flag_of key rules prerequisites = record {
  key = key;
  version = pos 1;
  flag_type = codes "boolean";
  enabled = true;
  variations = on_off;
  rules = rules;
  fallthrough = fixed (codes "on");
  off_variation = codes "off";
  prerequisites = prerequisites;
}

abbrev pub a_key : Text
a_key = codes "a"

abbrev pub b_key : Text
b_key = codes "b"

abbrev pub a_flag : Flag
a_flag = flag_of a_key (everyone ∷ members_only ∷ []) []

-- It needs `a` to be on.
abbrev pub b_flag : Flag
b_flag =
    flag_of b_key []
      (record { prerequisite_flag_key = a_key; expected_variation_key = codes "on" } ∷ [])

abbrev pub two_flags : Dict Flag
two_flags = (a_key, a_flag) ∷ (b_key, b_flag) ∷ []

abbrev pub visitor : EvaluationContext
visitor = record { user_id = codes "u1"; attributes = none }

abbrev pub world : World
world = record { platform = plain; ctx = visitor; segments = []; flags = two_flags }

pub plain-Sorts : Sorts plain
plain-Sorts = record { keeps = insertion_sort-Perm; orders = insertion_sort-IsSorted }

-- A prerequisite of `b` stands below it.
abbrev pub rank : Text → ℕ
rank k = if text_eq b_key k then 1 else 0

held_cases :
    (k : Text) (f : Flag)
    → lookup k two_flags ≡ some f
    → ((a_key ≡ k) × (a_flag ≡ f)) ⊎ ((b_key ≡ k) × (b_flag ≡ f))
unfolding lookup
held_cases k f h = elim (Bool-cases (text_eq a_key k)) [
  | inl e ↦ inl (text_eq_sound a_key k e, some_eq (sym (if_true _ _ e) ∙ h))
  | inr e ↦ elim (Bool-cases (text_eq b_key k)) [
    | inl c ↦
        inr (text_eq_sound b_key k c, some_eq (sym (if_true _ _ c) ∙ sym (if_false _ _ e) ∙ h))
    | inr c ↦ absurd (none-ne-some (sym (if_false _ _ c) ∙ sym (if_false _ _ e) ∙ h))
  ]
]

abbrev Falls : Text → Flag → Type 0
Falls k f =
    All
      (λ p.
        (g : Flag)
        → lookup p.prerequisite_flag_key two_flags ≡ some g
        → rank p.prerequisite_flag_key < rank k)
      f.prerequisites

a_below_b : rank a_key < rank b_key
unfolding text_eq
a_below_b = omega arith

pub b_low : rank b_key ≤ max_prerequisite_depth
unfolding text_eq
b_low = omega arith

pub two_flags-IsRanked : IsRanked rank two_flags
two_flags-IsRanked = record {
  keyed = λ k f h. elim (held_cases k f h) [
    | inl (e, c) ↦ ap (λ x. x.key) (sym c) ∙ e
    | inr (e, c) ↦ ap (λ x. x.key) (sym c) ∙ e
  ];
  falls = λ k f h. elim (held_cases k f h) [
    | inl (e, c) ↦ subst (Falls k) c tt
    | inr (e, c) ↦ subst (Falls k) c ((λ g at. subst (λ j. rank a_key < rank j) e a_below_b), tt)
  ];
}

-- No prerequisite of theirs has the empty key.
pub two_flags-IsNamed :
    (k : Text) (f : Flag)
    → lookup k two_flags ≡ some f
    → All (λ p. is_empty p.prerequisite_flag_key ≡ false) f.prerequisites
two_flags-IsNamed k f h = elim (held_cases k f h) [
  | inl (e, c) ↦
      subst (λ g. All (λ p. is_empty p.prerequisite_flag_key ≡ false) g.prerequisites) c tt
  | inr (e, c) ↦
      subst (λ g. All (λ p. is_empty p.prerequisite_flag_key ≡ false) g.prerequisites) c (refl, tt)
]
