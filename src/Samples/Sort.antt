-- ===== src/Samples/Sort.antt =====
-- Insertion sort: it does what the code needs of sort.Slice.
use mathlib.Core.List.Perm
use mathlib.Core.List.{Perm}
use featureflip_go.Base.{
  Bool, List, [], ◌∷◌, All, All-map, if◌then◌else◌, if_rule, Bool-cases, inl, inr, arith,
}
use featureflip_go.Base.Int.{ℤ, ltb_ℤ, ◌≤ℤ◌}
use featureflip_go.Models.{Rule}
use featureflip_go.Evaluation.Rules.{IsSorted}

unfoldable pub place : (Rule → Rule → Bool) → Rule → List Rule → List Rule
place less x [] = x ∷ []
place less x (y ∷ ys) = let rest = place less x ys in if less y x then y ∷ rest else x ∷ y ∷ ys

unfoldable pub insertion_sort : (Rule → Rule → Bool) → List Rule → List Rule
insertion_sort less [] = []
insertion_sort less (x ∷ xs) = place less x (insertion_sort less xs)

place-Perm :
    (less : Rule → Rule → Bool) (x : Rule) (ys : List Rule) → Perm (place less x ys) (x ∷ ys)
unfolding place
place-Perm less x [] = Perm.refl _
place-Perm less x (y ∷ ys) =
    if_rule (λ l. Perm l (x ∷ y ∷ ys)) (less y x)
      (Perm.trans (Perm.cons y (place-Perm less x ys)) (Perm.swap x y ys)) (Perm.refl _)

pub insertion_sort-Perm :
    (less : Rule → Rule → Bool) (xs : List Rule) → Perm (insertion_sort less xs) xs
unfolding insertion_sort
insertion_sort-Perm less [] = Perm.refl _
insertion_sort-Perm less (x ∷ xs) =
    Perm.trans (place-Perm less x (insertion_sort less xs))
      (Perm.cons x (insertion_sort-Perm less xs))

module _ (key : Rule → ℤ) where
  abbrev less : Rule → Rule → Bool
  less a b = ltb_ℤ (key a) (key b)

  above_place :
      (b x : Rule) (ys : List Rule)
      → key b ≤ℤ key x
      → All (λ y. key b ≤ℤ key y) ys
      → All (λ y. key b ≤ℤ key y) (place less x ys)
  unfolding place
  above_place b x [] l h = (l, tt)
  above_place b x (y ∷ ys) l h =
      if_rule (All (λ z. key b ≤ℤ key z)) (less y x) (h.0, above_place b x ys l h.1) (l, h)

  place-IsSorted : (x : Rule) (ys : List Rule) → IsSorted key ys → IsSorted key (place less x ys)
  unfolding place
  place-IsSorted x [] h = (tt, tt)
  place-IsSorted x (y ∷ ys) h = elim (Bool-cases (less y x)) [
    | inl e ↦ rw e (above_place y x ys (ground arith) h.0, place-IsSorted x ys h.1)
    | inr e ↦
        let low : key x ≤ℤ key y = ground arith in
        rw e ((low, All-map (λ z l. omega arith) ys h.0), h)
  ]

  pub insertion_sort-IsSorted : (xs : List Rule) → IsSorted key (insertion_sort less xs)
  unfolding insertion_sort
  insertion_sort-IsSorted [] = tt
  insertion_sort-IsSorted (x ∷ xs) =
      place-IsSorted x (insertion_sort less xs) (insertion_sort-IsSorted xs)
