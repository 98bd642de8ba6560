-- ===== src/DateTime/Iso.antt =====
-- conditions.go, isoOperand and canonicalizeISO: the forms of a date and time, and the one that comes of
-- all of them.
use featureflip_go.Base.{
  ℕ, ◌/◌, ◌%◌, ◌<◌, ◌≡◌, refl, ◌∙◌, ◌⊎◌, true, ◌∷◌, ◌++◌, Option, none, some, Text, codes, arith,
  is_empty, is_digit, text_compare, ltb, if◌then◌else◌, all,
}
use featureflip_go.DateTime.{
  IsoMatch, scan, iso_time, iso_rest, iso_operand, is_lt, canonical, canonicalize_iso,
}
use featureflip_go.DateTime.Parts.{
  two, Offset, written_offset, with_colon, has_offset, IsOffset, scan_pair, iso_offset-written,
  extend_offset-with_colon, is_empty-with_colon, written_offset-IsApart, written_fraction,
  iso_fraction-written, written_second, second_of, IsSecond, iso_seconds-written,
}

-- A year below 10000, a month and a day.
abbrev pub written_date : ℕ → ℕ → ℕ → Text
written_date year month day =
    two (year / 100) ++ (two (year % 100) ++ b'-' ∷ (two month ++ b'-' ∷ two day))

scan-two :
    (ps : Text) (n : ℕ) (t u v : Text)
    → n < 100
    → scan ps t ≡ some (u, v)
    → scan (b'd' ∷ b'd' ∷ ps) (two n ++ t) ≡ some (two n ++ u, v)
unfolding scan
scan-two ps n t u v h e = rw e (ground arith)

scan-dash :
    (ps t u v : Text) → scan ps t ≡ some (u, v) → scan (b'-' ∷ ps) (b'-' ∷ t) ≡ some (b'-' ∷ u, v)
unfolding scan
scan-dash ps t u v e = rw e refl

scan_date :
    (year month day : ℕ) (t : Text)
    → year < 10000
    → month < 100
    → day < 100
    → scan (codes "dddd-dd-dd") (written_date year month day ++ t)
      ≡ some (written_date year month day, t)
scan_date year month day t y m d = scan-two (codes "dd-dd-dd") (year / 100) _ _ _ (omega arith) (
    scan-two (codes "-dd-dd") (year % 100) _ _ _ (omega arith) (
      scan-dash (codes "dd-dd") _ _ _
        (scan-two (codes "-dd") month _ _ _ m (scan-dash (codes "dd") _ _ _ (scan_pair day t d)))))

-- What an operand says: a date, an hour and a minute, the second, the digits of the fraction (none where
-- there is no fraction) and the offset.
pub record DateTimeText : Type 0 where
  pub year : ℕ
  pub month : ℕ
  pub day : ℕ
  pub hour : ℕ
  pub minute : ℕ
  pub second : Option ℕ
  pub fraction : Text
  pub offset : Offset

pub record IsWritable (w : DateTimeText) : Type 0 where
  pub year_fits : w.year < 10000
  pub month_fits : w.month < 100
  pub day_fits : w.day < 100
  pub hour_fits : w.hour < 100
  pub minute_fits : w.minute < 100
  pub second_fits : IsSecond w.second
  pub fraction_digits : all is_digit w.fraction ≡ true
  pub offset_fits : IsOffset w.offset

abbrev written_time : DateTimeText → Text
written_time w =
    two w.hour
    ++ b':'
      ∷ (two w.minute
          ++ (written_second w.second ++ (written_fraction w.fraction ++ written_offset w.offset)))

-- An operand with its date and time apart by `separator`.
abbrev pub written : ℕ → DateTimeText → Text
written separator w = written_date w.year w.month w.day ++ separator ∷ written_time w

-- The form of RFC 3339, but for an absent offset.
abbrev pub full : DateTimeText → Text
full w =
    written_date w.year w.month w.day
    ++ b'T'
      ∷ (two w.hour
          ++ b':'
            ∷ (two w.minute
                ++ b':'
                  ∷ ((elim w.second [ none ↦ codes "00" | some n ↦ two n ])
                      ++ (written_fraction w.fraction ++ with_colon w.offset))))

abbrev matched : DateTimeText → IsoMatch
matched w = record {
  date = written_date w.year w.month w.day;
  hour = two w.hour;
  minute = two w.minute;
  second = second_of w.second;
  fraction = written_fraction w.fraction;
  offset = written_offset w.offset;
}

iso_time-written :
    (w : DateTimeText)
    → IsWritable w
    → iso_time (written_date w.year w.month w.day) (written_time w) ≡ some (matched w)
unfolding iso_time
iso_time-written w f = simp (
  scan_pair w.hour _ f.hour_fits,
  scan_pair w.minute _ f.minute_fits,
  iso_seconds-written w.second w.fraction (written_offset w.offset) f.second_fits
      (written_offset-IsApart w.offset),
  iso_fraction-written w.fraction (written_offset w.offset) f.fraction_digits
      (written_offset-IsApart w.offset),
  iso_offset-written w.offset f.offset_fits,
)

before_midnight : (h : ℕ) → h < 100 → is_lt (text_compare (two h) (codes "24")) ≡ ltb h 24
unfolding text_compare
before_midnight h k = ground arith

rest_written :
    (separator : ℕ)
    → (separator ≡ b'T') ⊎ (separator ≡ b' ')
    → (date s : Text) → iso_rest date (separator ∷ s) ≡ iso_time date s
unfolding iso_rest
rest_written separator h date s = ground arith

iso_operand-written :
    (separator : ℕ) (w : DateTimeText)
    → (separator ≡ b'T') ⊎ (separator ≡ b' ')
    → IsWritable w
    → iso_operand (written separator w) ≡ some (matched w)
unfolding iso_operand
iso_operand-written separator w h f =
    rw (scan_date w.year w.month w.day _ f.year_fits f.month_fits f.day_fits) (
      rest_written separator h (written_date w.year w.month w.day) (written_time w)
      ∙ iso_time-written w f)

whole_second :
    (n : Option ℕ)
    → (if is_empty (second_of n) then codes "00" else second_of n)
      ≡ elim n as (λ _. Text) [ none ↦ codes "00" | some n ↦ two n ]
whole_second none = refl
whole_second (some n) = refl

canonical-matched :
    (w : DateTimeText)
    → IsWritable w
    → canonical (matched w) ≡ (if ltb w.hour 24 then some (full w, has_offset w.offset) else none)
unfolding canonical
canonical-matched w f =
    rw
      (
        before_midnight w.hour f.hour_fits,
        whole_second w.second,
        extend_offset-with_colon w.offset,
        is_empty-with_colon w.offset,
      )
      (ground arith)

-- A date and time that is written with a T or a space between the two, with or without seconds, with or
-- without a fraction of at least one digit, and with no offset, Z or signed hours and minutes with or
-- without a colon between them, each number in two digits and the year in four, comes out of
-- canonicalizeISO in the one form with a T, seconds (00 where there were none) and a colon in the
-- offset, together with whether it has an offset; but where the hour is 24 or more it is refused.
pub canonicalize_iso-written :
    (separator : ℕ) (w : DateTimeText)
    → (separator ≡ b'T') ⊎ (separator ≡ b' ')
    → IsWritable w
    → canonicalize_iso (written separator w)
      ≡ (if ltb w.hour 24 then some (full w, has_offset w.offset) else none)
unfolding canonicalize_iso
canonicalize_iso-written separator w h f =
    rw (iso_operand-written separator w h f) (canonical-matched w f)
