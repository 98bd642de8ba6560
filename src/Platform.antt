-- ===== src/Platform.antt =====
-- What the code uses of Go's standard library and does not implement itself, as a record of
-- functions: Unicode case folding, number and JSON parsing, regular expressions, hashing and the
-- unstable sort. Theorems that need more of one of them than its type say so by a hypothesis.
use featureflip_go.Base.{ℕ, Bool, List, Option, Text}
use featureflip_go.Base.Int.{ℤ}
use featureflip_go.Models.{Value, Rule, Flag, Segment}

-- strconv.ParseFloat: a float64 bit pattern; the same with ErrRange; a syntax error.
pub data ParsedFloat : Type 0 where
  parsed : ℕ → ParsedFloat
  out_of_range : ℕ → ParsedFloat
  malformed : ParsedFloat

-- json.Unmarshal into an `any`: the value, or the text of the error.
pub data Unmarshalled : Type 0 where
  decoded : Value → Unmarshalled
  failed : Text → Unmarshalled

-- A time.Time as seconds since the epoch, rounded down, and nanoseconds.
pub record Instant : Type 0 where
  pub seconds : ℤ
  pub nanos : ℕ

pub record Platform : Type 0 where
  -- strings.ToLower, strings.TrimSpace
  pub to_lower : Text → Text
  pub trim_space : Text → Text
  -- fmt.Sprintf("%v", v)
  pub sprint : Value → Text
  -- strconv.ParseFloat(s, 64) and the conversions to float64
  pub parse_float : Text → ParsedFloat
  pub float_of_int : ℤ → ℕ
  pub float_of_float32 : ℕ → ℕ
  -- strconv.FormatFloat(x, 'e', -1, bitSize) of a finite positive x
  pub format_exponent : ℕ → ℕ → Text
  -- regexp.MatchString(pattern, s); none: the pattern does not compile
  pub match_regex : Text → Text → Option Bool
  -- hasForbiddenOperandChar's unicode.IsSpace and unicode.Cf over the runes of a text
  pub has_space_or_format : Text → Bool
  -- time.Parse(time.RFC3339, s), and time.ParseInLocation with the layouts
  -- "2006-01-02T15:04:05" and "2006-01-02" in UTC
  pub parse_rfc3339 : Text → Option Instant
  pub parse_utc_date_time : Text → Option Instant
  pub parse_utc_date : Text → Option Instant
  -- md5.Sum, its bytes
  pub md5 : Text → List ℕ
  pub unmarshal : Text → Unmarshalled
  -- sort.Slice(rules, less)
  pub sort_slice : (Rule → Rule → Bool) → List Rule → List Rule
  -- reflect.DeepEqual on flags and on segments
  pub flag_equal : Flag → Flag → Bool
  pub segment_equal : Segment → Segment → Bool
