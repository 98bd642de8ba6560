-- ===== src/DateTime.antt =====
-- conditions.go: date operands. A time.Time is an Instant.
pub mod Iso
pub mod Parts
pub mod Range
mod Tests
use featureflip_go.Base.{
  ℕ, ◌+◌, ◌≡◌, Bool, true, false, not, ◌&&◌, ◌||◌, List, [], ◌∷◌, ◌++◌, Option, none, some, Text,
  codes, is_empty, is_digit, decimal, text_eq, text_compare, Ordering, ltb, leb, ◌==◌,
  if◌then◌else◌, length, take, drop, all, any, trim,
}
use featureflip_go.Base.Int.{ℤ, pos, negsuc, sub_ℕ, ltb_ℤ, pos_part, neg_part}
use featureflip_go.Platform.{Platform, Instant}

abbrev pub min_unix_seconds : ℤ
min_unix_seconds = negsuc 62135596799

abbrev pub max_unix_seconds : ℤ
max_unix_seconds = pos 253402300799

-- "\t\n\v\f\r "
abbrev pub operand_whitespace : Text
operand_whitespace = 9 ∷ 10 ∷ 11 ∷ 12 ∷ 13 ∷ 32 ∷ []

-- An ASCII byte is a rune: unicode.IsSpace holds of no ASCII rune but the space, which is allowed,
-- and those below it; unicode.Cf of none. The other runes are the platform's to judge.
unfoldable pub has_forbidden_operand_char : Platform → Text → Bool
has_forbidden_operand_char go s =
    any (λ r. not (r == b' ') && (ltb r 0x20 || r == 0x7f)) s || go.has_space_or_format s

-- strconv.ParseInt(s, 10, 64): none is an error, of syntax or of range.
abbrev max_int64 : ℕ
max_int64 = 9223372036854775807

parse_magnitude : Bool → Text → Option ℤ
parse_magnitude negative s =
    if is_empty s || not (all is_digit s)
    then none
    else if negative
    then (if leb (decimal s) (max_int64 + 1) then some (sub_ℕ 0 (decimal s)) else none)
    else if leb (decimal s) max_int64
    then some (pos (decimal s))
    else none

unfoldable pub parse_int : Text → Option ℤ
unfolding parse_magnitude decimal
parse_int [] = none
parse_int (c ∷ s) =
    if c == b'-'
    then parse_magnitude true s
    else if c == b'+'
    then parse_magnitude false s
    else parse_magnitude false (c ∷ s)

-- The submatches of isoOperand.
pub record IsoMatch : Type 0 where
  pub date : Text
  pub hour : Text
  pub minute : Text
  pub second : Text
  pub fraction : Text
  pub offset : Text

-- A text that starts with the shape, where `d` stands for a digit, and what follows it.
unfoldable pub scan : Text → Text → Option (Text × Text)
scan [] s = some ([], s)
scan (p ∷ ps) [] = none
scan (p ∷ ps) (c ∷ s) =
    let rest = scan ps s in
    if (if p == b'd' then is_digit c else c == p)
    then elim rest [ none ↦ none | some (matched, after) ↦ some (c ∷ matched, after) ]
    else none

unfoldable pub span_digits : Text → Text × Text
span_digits [] = ([], [])
span_digits (c ∷ s) =
    let (digits, after) = span_digits s in if is_digit c then (c ∷ digits, after) else ([], c ∷ s)

infixl 5 ◌>>=◌
abbrev ◌>>=◌ {ℓ κ} : {A : Type ℓ} {B : Type κ} → Option A → (A → Option B) → Option B
none >>= f = none
some a >>= f = f a

-- (?::(\d{2}))?
unfoldable pub iso_seconds : Text → Option (Text × Text)
iso_seconds [] = some ([], [])
iso_seconds (c ∷ s) = if c == b':' then scan (codes "dd") s else some ([], c ∷ s)

-- (\.\d+)?
unfoldable pub iso_fraction : Text → Option (Text × Text)
iso_fraction [] = some ([], [])
iso_fraction (c ∷ s) =
    let (digits, after) = span_digits s in
    if c == b'.'
    then (if is_empty digits then none else some (c ∷ digits, after))
    else some ([], c ∷ s)

abbrev drop_colon : Text → Text
drop_colon [] = []
drop_colon (c ∷ s) = if c == b':' then s else c ∷ s

-- The pair of digits ends the text.
abbrev ends : Option (Text × Text) → Bool
ends (some (digits, [])) = true
ends (some (digits, c ∷ s)) = false
ends none = false

-- (Z|[+-]\d{2}:?\d{2})? and the end of the text
unfoldable pub iso_offset : Text → Option Text
iso_offset [] = some []
iso_offset (c ∷ s) =
    if text_eq (c ∷ s) (codes "Z")
    then some (c ∷ s)
    else if c == b'+' || c == b'-'
    then (scan (codes "dd") s >>= λ (hours, after).
        if ends (scan (codes "dd") (drop_colon after)) then some (c ∷ s) else none)
    else none

-- What follows the date and the separator.
iso_time : Text → Text → Option IsoMatch
unfolding iso_seconds iso_fraction iso_offset scan span_digits text_eq
iso_time date s = do
  (hour, after_hour) ← scan (codes "dd") s
  (colon, after_colon) ← scan (codes ":") after_hour
  (minute, after_minute) ← scan (codes "dd") after_colon
  (second, after_second) ← iso_seconds after_minute
  (fraction, after_fraction) ← iso_fraction after_second
  offset ← iso_offset after_fraction
  some (record {
    date = date;
    hour = hour;
    minute = minute;
    second = second;
    fraction = fraction;
    offset = offset;
  })

iso_rest : Text → Text → Option IsoMatch
unfolding iso_time
iso_rest date [] =
    some (record { date = date; hour = []; minute = []; second = []; fraction = []; offset = [] })
iso_rest date (c ∷ s) = if c == b'T' || c == b' ' then iso_time date s else none

-- isoOperand.FindStringSubmatch; the empty text for a group that did not take part.
unfoldable pub iso_operand : Text → Option IsoMatch
unfolding iso_rest scan
iso_operand s = scan (codes "dddd-dd-dd") s >>= λ (date, after). iso_rest date after

abbrev is_lt : Ordering → Bool
is_lt Ordering.lt = true
is_lt _ = false

-- +0500 to +05:00
abbrev extend_offset : Text → Text
extend_offset off =
    if length off == 5 && not (text_eq off (codes "Z"))
    then take 3 off ++ b':' ∷ drop 3 off
    else off

-- `none` where the code's last result is false; else the canonical text and whether the operand
-- has an offset.
canonical : IsoMatch → Option (Text × Bool)
canonical m =
    if is_empty m.hour
    then some (m.date, false)
    else if not (is_lt (text_compare m.hour (codes "24")))
    then none
    else some (
      m.date
          ++ b'T'
            ∷ (m.hour
                ++ b':'
                  ∷ (m.minute
                      ++ b':'
                        ∷ ((if is_empty m.second then codes "00" else m.second)
                            ++ (m.fraction ++ extend_offset m.offset)))),
      not (is_empty (extend_offset m.offset)),
    )

unfoldable pub canonicalize_iso : Text → Option (Text × Bool)
unfolding iso_operand canonical text_eq text_compare
canonicalize_iso s = iso_operand s >>= canonical

unfoldable pub in_date_time_offset_range : Instant → Option Instant
in_date_time_offset_range t =
    if ltb_ℤ t.seconds min_unix_seconds || ltb_ℤ max_unix_seconds t.seconds then none else some t

abbrev first_parsed : Option Instant → Option Instant → Option Instant
first_parsed (some t) other = some t
first_parsed none other = other

parse_iso : Platform → Option (Text × Bool) → Option Instant
unfolding in_date_time_offset_range
parse_iso go none = none
parse_iso go (some (text, true)) = go.parse_rfc3339 text >>= in_date_time_offset_range
parse_iso go (some (text, false)) =
    first_parsed (go.parse_utc_date_time text) (go.parse_utc_date text)
    >>= in_date_time_offset_range

parse_trimmed : Platform → Text → Option Instant
unfolding parse_iso has_forbidden_operand_char parse_int canonicalize_iso
parse_trimmed go s =
    if is_empty s || has_forbidden_operand_char go s then none else elim (parse_int s) [
      | some n ↦ in_date_time_offset_range (record { seconds = n; nanos = 0 })
      | none ↦ parse_iso go (canonicalize_iso s)
    ]

unfoldable pub parse_date_time : Platform → Text → Option Instant
unfolding parse_trimmed trim
parse_date_time go s = parse_trimmed go (trim operand_whitespace s)

-- Time.Before and Time.After.
unfoldable pub before : Instant → Instant → Bool
before a b = ltb_ℤ a.seconds b.seconds || (not (ltb_ℤ b.seconds a.seconds) && ltb a.nanos b.nanos)

abbrev pub after : Instant → Instant → Bool
after a b = before b a

satisfies : (Instant → Instant → Bool) → Instant → Option Instant → Bool
satisfies cmp a none = false
satisfies cmp a (some b) = cmp a b

compare_targets : Platform → (Instant → Instant → Bool) → Option Instant → List Text → Bool
compare_targets go cmp none targets = false
compare_targets go cmp (some a) targets = any (λ t. satisfies cmp a (parse_date_time go t)) targets

unfoldable pub compare_date_time : Platform → Text → List Text → (Instant → Instant → Bool) → Bool
unfolding compare_targets satisfies
compare_date_time go value targets cmp = compare_targets go cmp (parse_date_time go value) targets
