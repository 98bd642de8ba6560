-- ===== src/Base/Strings.antt =====
-- A Go string: the list of its bytes.
use Prim.Native.Nat.{ℕ, ◌+◌, ◌-◌, ◌*◌, ◌^◌, compare, Ordering}
use Prim.Native.Char.{code}
use Prim.Native.String.{String}
use mathlib.Core.Path.{◌≡◌, refl}
use mathlib.Core.Logic.{◌↔◌, ◌⊎◌, ◌≢◌}
use mathlib.Core.Bool.{Bool, true, false, ◌&&◌, ◌||◌}
use mathlib.Core.List.{List, [], ◌∷◌}
use native.Mathlib.Omega.{arith}
use featureflip_go.Base.Lists.{length, any}
use featureflip_go.Base.Tests.{leb, ◌==◌, if◌then◌else◌}

abbrev pub Text : Type 0
Text = List ℕ

-- The bytes of an ASCII literal.
abbrev pub codes : String → Text
codes String.[] = []
codes (String.◌∷◌ c s) = code c ∷ codes s

-- `a == b` on strings.
unfoldable pub text_eq : Text → Text → Bool
text_eq [] [] = true
text_eq [] (y ∷ ys) = false
text_eq (x ∷ xs) [] = false
text_eq (x ∷ xs) (y ∷ ys) = (x == y) && text_eq xs ys

pub text_eq_refl : (s : Text) → text_eq s s ≡ true
unfolding text_eq
text_eq_refl [] = refl
text_eq_refl (x ∷ xs) = ground (arith, text_eq_refl xs)

pub text_eq_sound : (s t : Text) → text_eq s t ≡ true → s ≡ t
unfolding text_eq
text_eq_sound [] [] h = refl
text_eq_sound [] (y ∷ ys) h = cc
text_eq_sound (x ∷ xs) [] h = cc
text_eq_sound (x ∷ xs) (y ∷ ys) h = ground (arith, text_eq_sound xs ys)

pub text_eq_iff : (s t : Text) → (text_eq s t ≡ true) ↔ (s ≡ t)
text_eq_iff s t = (text_eq_sound s t, λ e. subst_eq e)
  where
    subst_eq : s ≡ t → text_eq s t ≡ true
    subst_eq e = rw e (text_eq_refl t)

pub text_eq_cases : (s t : Text) → (s ≡ t) ⊎ (text_eq s t ≡ false)
text_eq_cases s t = ground (arith, text_eq_sound s t)

pub text_eq_ne : (s t : Text) → s ≢ t → text_eq s t ≡ false
text_eq_ne s t h = ground (arith, text_eq_sound s t)

-- `strings.Compare`, and the order of `sort.Strings`: byte by byte.
unfoldable pub text_compare : Text → Text → Ordering
text_compare [] [] = Ordering.eq
text_compare [] (y ∷ ys) = Ordering.lt
text_compare (x ∷ xs) [] = Ordering.gt
text_compare (x ∷ xs) (y ∷ ys) = elim (compare x y) [
  | Ordering.lt ↦ Ordering.lt
  | Ordering.eq ↦ text_compare xs ys
  | Ordering.gt ↦ Ordering.gt
]

abbrev pub swap_ordering : Ordering → Ordering
swap_ordering Ordering.lt = Ordering.gt
swap_ordering Ordering.eq = Ordering.eq
swap_ordering Ordering.gt = Ordering.lt

pub text_compare_refl : (s : Text) → text_compare s s ≡ Ordering.eq
unfolding text_compare
text_compare_refl [] = refl
text_compare_refl (x ∷ xs) = ground (arith, text_compare_refl xs)

pub text_compare-swap : (s t : Text) → text_compare t s ≡ swap_ordering (text_compare s t)
unfolding text_compare
text_compare-swap [] [] = refl
text_compare-swap [] (y ∷ ys) = refl
text_compare-swap (x ∷ xs) [] = refl
text_compare-swap (x ∷ xs) (y ∷ ys) = ground (arith, text_compare-swap xs ys)

pub text_compare_eq : (s t : Text) → text_compare s t ≡ Ordering.eq → s ≡ t
unfolding text_compare
text_compare_eq [] [] h = refl
text_compare_eq [] (y ∷ ys) h = cc
text_compare_eq (x ∷ xs) [] h = cc
text_compare_eq (x ∷ xs) (y ∷ ys) h = ground (arith, text_compare_eq xs ys)

pub text_compare_trans :
    (r s t : Text)
    → text_compare r s ≡ Ordering.lt
    → text_compare s t ≡ Ordering.lt
    → text_compare r t ≡ Ordering.lt
unfolding text_compare
text_compare_trans [] [] t h k = cc
text_compare_trans [] (y ∷ ys) [] h k = cc
text_compare_trans [] (y ∷ ys) (z ∷ zs) h k = refl
text_compare_trans (x ∷ xs) [] t h k = cc
text_compare_trans (x ∷ xs) (y ∷ ys) [] h k = cc
text_compare_trans (x ∷ xs) (y ∷ ys) (z ∷ zs) h k = ground (arith, text_compare_trans xs ys zs)

-- `strings.HasPrefix(s, p)`.
unfoldable pub has_prefix : Text → Text → Bool
has_prefix s [] = true
has_prefix [] (y ∷ ys) = false
has_prefix (x ∷ xs) (y ∷ ys) = (x == y) && has_prefix xs ys

-- `strings.HasSuffix(s, p)`: some tail of `s` is `p`.
unfoldable pub has_suffix : Text → Text → Bool
unfolding text_eq
has_suffix [] p = text_eq [] p
has_suffix (x ∷ xs) p = text_eq (x ∷ xs) p || has_suffix xs p

-- `strings.Contains(s, p)`: `p` starts at some position of `s`.
unfoldable pub contains : Text → Text → Bool
unfolding has_prefix
contains [] p = has_prefix [] p
contains (x ∷ xs) p = has_prefix (x ∷ xs) p || contains xs p

abbrev pub is_digit : ℕ → Bool
is_digit c = leb b'0' c && leb c b'9'

-- The number that a digit string spells.
unfoldable pub decimal : Text → ℕ
decimal [] = 0
decimal (c ∷ s) = (c - b'0') * 10 ^ length s + decimal s

abbrev pub is_empty : Text → Bool
is_empty [] = true
is_empty (c ∷ s) = false

-- The bytes of `s` behind those of `set` that it starts with, and strings.Trim(s, set), for an
-- ASCII set.
unfoldable pub trim_left : Text → Text → Text
trim_left set [] = []
trim_left set (c ∷ s) = let rest = trim_left set s in if any (λ x. x == c) set then rest else c ∷ s

unfoldable pub trim_right : Text → Text → Text
trim_right set [] = []
trim_right set (c ∷ s) =
    let rest = trim_right set s in if is_empty rest && any (λ x. x == c) set then [] else c ∷ rest

unfoldable pub trim : Text → Text → Text
unfolding trim_left trim_right
trim set s = trim_right set (trim_left set s)
