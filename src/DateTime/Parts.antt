-- ===== src/DateTime/Parts.antt =====
-- conditions.go, isoOperand: how the parts of a date operand are written, and that each is found.
use featureflip_go.Base.{
  ℕ, ◌+◌, ◌/◌, ◌%◌, ◌<◌, ◌≡◌, refl, Bool, true, false, not, [], ◌∷◌, ◌++◌, Option, none, some, Text,
  codes, arith, is_empty, is_digit, text_eq, ◌==◌, if◌then◌else◌, all,
}
use featureflip_go.DateTime.{
  scan, span_digits, ◌>>=◌, iso_seconds, iso_fraction, drop_colon, ends, iso_offset, extend_offset,
}

-- A number below 100 in two digits.
abbrev pub two : ℕ → Text
two n = (b'0' + n / 10) ∷ (b'0' + n % 10) ∷ []

-- How an operand says its offset: not at all, Z, or a sign, hours and minutes, with a colon between the
-- two or without.
pub data Offset : Type 0 where
  absent zulu : Offset
  basic extended : Bool → ℕ → ℕ → Offset

abbrev sign : Bool → ℕ
sign true = b'+'
sign false = b'-'

abbrev pub written_offset : Offset → Text
written_offset absent = []
written_offset zulu = b'Z' ∷ []
written_offset (basic ahead h m) = sign ahead ∷ (two h ++ two m)
written_offset (extended ahead h m) = sign ahead ∷ (two h ++ b':' ∷ two m)

abbrev pub with_colon : Offset → Text
with_colon absent = []
with_colon zulu = b'Z' ∷ []
with_colon (basic ahead h m) = sign ahead ∷ (two h ++ b':' ∷ two m)
with_colon (extended ahead h m) = sign ahead ∷ (two h ++ b':' ∷ two m)

abbrev pub has_offset : Offset → Bool
has_offset absent = false
has_offset _ = true

abbrev pub IsOffset : Offset → Type 0
IsOffset (basic ahead h m) = (h < 100) × (m < 100)
IsOffset (extended ahead h m) = (h < 100) × (m < 100)
IsOffset _ = Unit

pub scan_pair : (n : ℕ) (t : Text) → n < 100 → scan (codes "dd") (two n ++ t) ≡ some (two n, t)
unfolding scan
scan_pair n t h = ground arith

drop_colon-two : (n : ℕ) → n < 100 → drop_colon (two n) ≡ two n
drop_colon-two n h = ground arith

-- The two pairs of digits after the sign, without and with a colon.
basic_ends :
    (x y : ℕ) (s : Text)
    → x < 100
    → y < 100
    → (scan (codes "dd") (two x ++ two y) >>= λ (hours, after).
        if ends (scan (codes "dd") (drop_colon after)) then some s else none)
      ≡ some s
basic_ends x y s h k =
    rw (scan_pair x (two y) h) (rw (drop_colon-two y k) (rw (scan_pair y [] k) refl))

extended_ends :
    (x y : ℕ) (s : Text)
    → x < 100
    → y < 100
    → (scan (codes "dd") (two x ++ b':' ∷ two y) >>= λ (hours, after).
        if ends (scan (codes "dd") (drop_colon after)) then some s else none)
      ≡ some s
extended_ends x y s h k = rw (scan_pair x (b':' ∷ two y) h) (rw (scan_pair y [] k) refl)

pub iso_offset-written :
    (o : Offset) → IsOffset o → iso_offset (written_offset o) ≡ some (written_offset o)
unfolding iso_offset text_eq
iso_offset-written absent h = refl
iso_offset-written zulu h = refl
iso_offset-written (basic true x y) h = basic_ends x y _ h.0 h.1
iso_offset-written (basic false x y) h = basic_ends x y _ h.0 h.1
iso_offset-written (extended true x y) h = extended_ends x y _ h.0 h.1
iso_offset-written (extended false x y) h = extended_ends x y _ h.0 h.1

pub extend_offset-with_colon : (o : Offset) → extend_offset (written_offset o) ≡ with_colon o
unfolding text_eq
extend_offset-with_colon absent = refl
extend_offset-with_colon zulu = refl
extend_offset-with_colon (basic true x y) = refl
extend_offset-with_colon (basic false x y) = refl
extend_offset-with_colon (extended true x y) = refl
extend_offset-with_colon (extended false x y) = refl

pub is_empty-with_colon : (o : Offset) → not (is_empty (with_colon o)) ≡ has_offset o
is_empty-with_colon absent = refl
is_empty-with_colon zulu = refl
is_empty-with_colon (basic x y z) = refl
is_empty-with_colon (extended x y z) = refl

-- The text starts with no digit, no dot and no colon.
abbrev IsApart : Text → Type 0
IsApart [] = Unit
IsApart (c ∷ s) = (is_digit c ≡ false) × ((c == b'.') ≡ false) × ((c == b':') ≡ false)

pub written_offset-IsApart : (o : Offset) → IsApart (written_offset o)
written_offset-IsApart absent = tt
written_offset-IsApart zulu = (refl, refl, refl)
written_offset-IsApart (basic true x y) = (refl, refl, refl)
written_offset-IsApart (basic false x y) = (refl, refl, refl)
written_offset-IsApart (extended true x y) = (refl, refl, refl)
written_offset-IsApart (extended false x y) = (refl, refl, refl)

span_digits-append :
    (d t : Text) → all is_digit d ≡ true → IsApart t → span_digits (d ++ t) ≡ (d, t)
unfolding span_digits
span_digits-append [] [] h k = refl
span_digits-append [] (c ∷ t) h k = rw (k.0) refl
span_digits-append (c ∷ d) t h k = ground (arith, span_digits-append d t)

-- The digits after the decimal point, if there is one.
abbrev pub written_fraction : Text → Text
written_fraction [] = []
written_fraction (c ∷ d) = b'.' ∷ c ∷ d

pub iso_fraction-written :
    (d t : Text)
    → all is_digit d ≡ true
    → IsApart t
    → iso_fraction (written_fraction d ++ t) ≡ some (written_fraction d, t)
unfolding iso_fraction
iso_fraction-written [] [] h k = refl
iso_fraction-written [] (c ∷ t) h k = rw (k.1) refl
iso_fraction-written (c ∷ d) t h k = rw (span_digits-append (c ∷ d) t h k) refl

-- The seconds, if they are written.
abbrev pub written_second : Option ℕ → Text
written_second none = []
written_second (some n) = b':' ∷ two n

abbrev pub second_of : Option ℕ → Text
second_of none = []
second_of (some n) = two n

abbrev pub IsSecond : Option ℕ → Type 0
IsSecond none = Unit
IsSecond (some n) = n < 100

no_seconds :
    (d t : Text)
    → IsApart t
    → iso_seconds (written_fraction d ++ t) ≡ some ([], written_fraction d ++ t)
unfolding iso_seconds
no_seconds [] [] k = refl
no_seconds [] (c ∷ t) k = rw (k.2) refl
no_seconds (c ∷ d) t k = refl

pub iso_seconds-written :
    (n : Option ℕ) (d t : Text)
    → IsSecond n
    → IsApart t
    → iso_seconds (written_second n ++ (written_fraction d ++ t))
      ≡ some (second_of n, written_fraction d ++ t)
iso_seconds-written none d t h k = no_seconds d t k
iso_seconds-written (some n) d t h k = unfold iso_seconds in scan_pair n (written_fraction d ++ t) h
