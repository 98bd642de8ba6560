-- ===== src/DateTime/Range.antt =====
-- conditions.go, parseDateTime: which instants it can give.
use featureflip_go.Base.{
  ◌≡◌, Bool, true, false, ◌||◌, Option, none, some, none-ne-some, Text, arith, is_empty, trim,
  Bool-cases, inl, inr,
}
use featureflip_go.Base.Int.{ℤ, ◌≤ℤ◌}
use featureflip_go.Platform.{Platform, Instant}
use featureflip_go.DateTime.{
  min_unix_seconds, max_unix_seconds, operand_whitespace, has_forbidden_operand_char, parse_int,
  canonicalize_iso, in_date_time_offset_range, ◌>>=◌, first_parsed, parse_iso, parse_trimmed,
  parse_date_time,
}

-- The instant is one that DateTimeOffset can hold.
pub record IsRepresentable (t : Instant) : Type 0 where
  pub not_early : min_unix_seconds ≤ℤ t.seconds
  pub not_late : t.seconds ≤ℤ max_unix_seconds

in_range-IsRepresentable :
    (s : Instant) {t : Instant} → in_date_time_offset_range s ≡ some t → IsRepresentable t
unfolding in_date_time_offset_range
in_range-IsRepresentable s h = ground arith

bind_in_range :
    (o : Option Instant) {t : Instant}
    → (o >>= in_date_time_offset_range) ≡ some t
    → IsRepresentable t
bind_in_range none h = absurd (none-ne-some h)
bind_in_range (some s) h = in_range-IsRepresentable s h

parse_iso-IsRepresentable :
    (go : Platform) (o : Option (Text × Bool)) {t : Instant}
    → parse_iso go o ≡ some t
    → IsRepresentable t
unfolding parse_iso
parse_iso-IsRepresentable go none h = absurd (none-ne-some h)
parse_iso-IsRepresentable go (some (s, true)) h = bind_in_range (go.parse_rfc3339 s) h
parse_iso-IsRepresentable go (some (s, false)) h =
    bind_in_range (first_parsed (go.parse_utc_date_time s) (go.parse_utc_date s)) h

parse_number-IsRepresentable :
    (go : Platform) (s : Text) (n : Option ℤ) {t : Instant}
    → elim n as (λ _. Option Instant) [
      | some n ↦ in_date_time_offset_range (record { seconds = n; nanos = 0 })
      | none ↦ parse_iso go (canonicalize_iso s)
    ]
      ≡ some t
    → IsRepresentable t
parse_number-IsRepresentable go s none h = parse_iso-IsRepresentable go (canonicalize_iso s) h
parse_number-IsRepresentable go s (some n) h = in_range-IsRepresentable _ h

parse_trimmed-IsRepresentable :
    (go : Platform) (s : Text) {t : Instant} → parse_trimmed go s ≡ some t → IsRepresentable t
unfolding parse_trimmed
parse_trimmed-IsRepresentable go s h =
    elim (Bool-cases (is_empty s || has_forbidden_operand_char go s)) [
      | inl e ↦ absurd (none-ne-some (rw e at h))
      | inr e ↦ parse_number-IsRepresentable go s (parse_int s) (rw e at h)
    ]

-- Whatever a date operand is, and however the platform's parsers read it, the instant it stands for
-- lies between the first second of the year 1 and the last of the year 9999.
pub parse_date_time-IsRepresentable :
    (go : Platform) (s : Text) {t : Instant} → parse_date_time go s ≡ some t → IsRepresentable t
unfolding parse_date_time
parse_date_time-IsRepresentable go s h =
    parse_trimmed-IsRepresentable go (trim operand_whitespace s) h
