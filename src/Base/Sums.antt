-- ===== src/Base/Sums.antt =====
-- Sums over a list of native numbers, and predicates on a list with an entry in the middle.
use Prim.Native.Nat.{ℕ, ◌+◌, ◌≤◌}
use mathlib.Core.Path.{◌≡◌}
use mathlib.Core.Bool.{Bool}
use mathlib.Core.List.{List, [], ◌∷◌, ◌++◌}
use featureflip_go.Base.Tests.{if◌then◌else◌}
use native.Mathlib.Omega.{arith}

abbrev pub one_if : Bool → ℕ
one_if b = if b then 1 else 0

module _ {ℓ} {A : Type ℓ} where
  abbrev pub sum : (A → ℕ) → List A → ℕ
  sum f [] = 0
  sum f (p ∷ ps) = f p + sum f ps

  pub sum-append : (f : A → ℕ) (ps qs : List A) → sum f (ps ++ qs) ≡ sum f ps + sum f qs
  sum-append f [] qs = omega arith
  sum-append f (p ∷ ps) qs = omega (arith, sum-append f ps qs)

  pub sum-middle :
      (f : A → ℕ) (ps : List A) (p : A) (qs : List A)
      → sum f (ps ++ p ∷ qs) ≡ sum f ps + f p + sum f qs
  sum-middle f ps p qs = omega (arith, sum-append f ps (p ∷ qs))

  pub le-sum : (f : A → ℕ) (ps : List A) (p : A) (qs : List A) → f p ≤ sum f (ps ++ p ∷ qs)
  le-sum f ps p qs = omega (arith, sum-middle f ps p qs)
