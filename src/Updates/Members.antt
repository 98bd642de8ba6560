-- ===== src/Updates/Members.antt =====
-- updates.go: the sets of keys, and what is in them.
use featureflip_go.Base.{
  ◌≡◌, true, List, [], ◌∷◌, ◌++◌, Text, text_eq_refl, text_eq_sound, arith, ◌⊎◌, inr,
}
use featureflip_go.Updates.{member}

abbrev pub Has : Text → List Text → Type 0
Has k set = member k set ≡ true

pub not-Has_nil : (k : Text) → ¬ Has k []
unfolding member
not-Has_nil k h = cc

pub Has-cons : (k j : Text) (set : List Text) → Has k set → Has k (j ∷ set)
unfolding member
Has-cons k j set h = ground arith

pub Has-head : (k : Text) (set : List Text) → Has k (k ∷ set)
unfolding member
Has-head k set = ground (arith, text_eq_refl k)

pub Has-cases : (k j : Text) (set : List Text) → Has k (j ∷ set) → (j ≡ k) ⊎ Has k set
unfolding member
Has-cases k j set h = ground (arith, text_eq_sound j k)

pub Has-append : (k : Text) (xs ys : List Text) → Has k (xs ++ ys) → Has k xs ⊎ Has k ys
unfolding member
Has-append k [] ys h = inr h
Has-append k (x ∷ xs) ys h = ground (arith, Has-append k xs ys)
