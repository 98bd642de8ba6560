-- ===== src/Bucketing.antt =====
-- bucketing.go and canonical_number.go: the text and the bucket of a rollout.
pub mod Number
pub mod Literals
use featureflip_go.Base.{
  ℕ, suc, ◌+◌, ◌*◌, ◌%◌, ◌≡◌, Bool, true, false, not, ◌&&◌, ◌||◌, List, [], ◌∷◌, ◌++◌, Option, none,
  some, Text, codes, is_empty, is_digit, all, trim, if◌then◌else◌, ◌==◌,
}
use featureflip_go.Base.Dict.{lookup}
use featureflip_go.Models.{Value, EvaluationContext}
use featureflip_go.Platform.{Platform, ParsedFloat, parsed, out_of_range, malformed}
use featureflip_go.Conditions.{is_user_alias, get_raw_attribute_value, not_nil, find_attribute}
use Number.{canonical_number}

-- binary.LittleEndian.Uint32 of the first four bytes.
unfoldable pub little_endian : List ℕ → ℕ
little_endian (a ∷ b ∷ c ∷ d ∷ rest) = a + 256 * (b + 256 * (c + 256 * d))
little_endian _ = 0

unfoldable pub bucket : Platform → Text → Text → ℕ
unfolding little_endian
bucket go salt value = little_endian (go.md5 (salt ++ b':' ∷ value)) % 100

-- strings.TrimPrefix(s, "-").
abbrev pub trim_minus : Text → Text
trim_minus [] = []
trim_minus (c ∷ s) = if c == b'-' then s else c ∷ s

unfoldable pub is_integer_literal : Text → Bool
is_integer_literal s = not (is_empty (trim_minus s)) && all is_digit (trim_minus s)

unfoldable pub integer_literal_text : Text → Text
integer_literal_text s = if is_empty (trim (codes "-0") s) then codes "0" else s

number_text : Platform → Text → ParsedFloat → Text
number_text go s (parsed f) = canonical_number go f 64
number_text go s (out_of_range f) = canonical_number go f 64
number_text go s malformed = s

-- The type switch, and the kinds that have no text; `none` where the code's last result is false.
unfoldable pub bucket_text : Platform → Value → Option Text
unfolding number_text
bucket_text go (Value.bool true) = some (codes "true")
bucket_text go (Value.bool false) = some (codes "false")
bucket_text go (Value.float64 x) = some (canonical_number go x 64)
bucket_text go (Value.float32 x) = some (canonical_number go (go.float_of_float32 x) 32)
bucket_text go (Value.number s) =
    some
      (if is_integer_literal s then integer_literal_text s else number_text go s (go.parse_float s))
bucket_text go (Value.list items) = none
bucket_text go (Value.dict fields) = none
bucket_text go v = some (go.sprint v)

-- The aliases fall back to an attribute of their name.
unfoldable pub bucket_attribute : EvaluationContext → Text → Option Value
bucket_attribute ctx attr = elim (get_raw_attribute_value ctx attr) [
  | some v ↦ some v
  | none ↦ if is_user_alias attr then find_attribute ctx.attributes attr else none
]

unfoldable pub bucket_value : Platform → EvaluationContext → Text → Option Text
bucket_value go ctx attr = elim (bucket_attribute ctx attr) [
  | none ↦ none
  | some v ↦ bucket_text go v
]
