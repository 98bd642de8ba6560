-- ===== src/DateTime/Tests.antt =====
-- The theorems on date operands: at a small timestamp, and at a local time with an offset.
use featureflip_go.Base.{◌≡◌, refl, true, none, arith, [], inr, some, codes, trim, decimal}
use featureflip_go.Base.Int.{pos}
use featureflip_go.Platform.{Instant}
use featureflip_go.Samples.{plain}
use featureflip_go.DateTime.{
  has_forbidden_operand_char, parse_int, in_date_time_offset_range, parse_date_time, parse_trimmed,
  canonicalize_iso,
}
use featureflip_go.DateTime.Iso.{DateTimeText, IsWritable, canonicalize_iso-written}
use featureflip_go.DateTime.Parts.{basic}
use featureflip_go.DateTime.Range.{IsRepresentable, parse_date_time-IsRepresentable}

abbrev minute_past : Instant
minute_past = record { seconds = pos 60; nanos = 0 }

minute_read : parse_date_time plain (codes " 60 ") ≡ some minute_past
unfolding parse_date_time parse_trimmed trim parse_int has_forbidden_operand_char
    in_date_time_offset_range decimal
minute_read = refl

parse_date_time-IsRepresentable_example : IsRepresentable minute_past
parse_date_time-IsRepresentable_example =
    parse_date_time-IsRepresentable plain (codes " 60 ") minute_read

-- 2024-01-02 10:30+0530
abbrev morning : DateTimeText
morning = record {
  year = 2024;
  month = 1;
  day = 2;
  hour = 10;
  minute = 30;
  second = none;
  fraction = [];
  offset = basic true 5 30;
}

morning-IsWritable : IsWritable morning
morning-IsWritable = record {
  year_fits = omega arith;
  month_fits = omega arith;
  day_fits = omega arith;
  hour_fits = omega arith;
  minute_fits = omega arith;
  second_fits = tt;
  fraction_digits = refl;
  offset_fits = (omega arith, omega arith);
}

canonicalize_iso-written_example :
    canonicalize_iso (codes "2024-01-02 10:30+0530")
    ≡ some (codes "2024-01-02T10:30:00+05:30", true)
canonicalize_iso-written_example =
    canonicalize_iso-written b' ' morning (inr refl) morning-IsWritable
