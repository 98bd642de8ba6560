-- ===== src/Evaluation/Rollout.antt =====
-- evaluation.go, resolveServe: the shares of a percentage rollout.
use mathlib.Core.List.{append-nil}
use native.Mathlib.Nat.{add_assoc}
use featureflip_go.Base.{
  ℕ, zero, suc, ◌+◌, ◌-◌, ◌≤◌, ◌<◌, min, ◌≡◌, refl, ◌≢◌, sym, ap, ◌∙◌, Bool, true, false, ◌&&◌,
  List, [], ◌∷◌, ◌++◌, some, Text, text_eq, text_eq_refl, text_eq_ne, All, All-left, All-right,
  arith, ltb, leb, le→ltb, lt→ltb, Bool-cases, inl, inr, if◌then◌else◌,
}
use featureflip_go.Base.Int.{ℤ, pos, pos_part, ◌+ℤ◌, ◌≤ℤ◌}
use featureflip_go.Models.{WeightedVariation}
use featureflip_go.Evaluation.Serve.{walk, pick}

-- No weight is negative.
abbrev pub IsWeighted : List WeightedVariation → Type 0
IsWeighted = All (λ v. pos 0 ≤ℤ v.weight)

unfoldable pub total : List WeightedVariation → ℕ
total [] = 0
total (v ∷ vs) = pos_part v.weight + total vs

-- How many of the numbers below `n` pass the test.
unfoldable pub count_below : ℕ → (ℕ → Bool) → ℕ
count_below zero test = 0
count_below (suc n) test = (if test n then 1 else 0) + count_below n test

cumulative : (c : ℕ) (z : ℤ) → pos 0 ≤ℤ z → pos c +ℤ z ≡ pos (c + pos_part z)
unfolding ◌+ℤ◌
cumulative c (pos n) h = ground arith
cumulative c (ℤ.negsuc n) h = absurd (omega arith)

walk_step :
    (c b : ℕ) (v : WeightedVariation) (vs : List WeightedVariation)
    → pos 0 ≤ℤ v.weight
    → walk (pos c) b (v ∷ vs) ≡ (
        if ltb b (c + pos_part v.weight)
        then some v.key
        else walk (pos (c + pos_part v.weight)) b vs)
unfolding walk
walk_step c b v vs h = rw (cumulative c v.weight h) (ground arith)

-- Below the total the walk ends at one of the variations, whatever follows them.
walk_ends :
    (c b : ℕ) (vs rest : List WeightedVariation) (key : Text)
    → IsWeighted vs
    → All (λ v. v.key ≢ key) vs
    → b < c + total vs
    → c ≤ b
    → (k : Text) × (walk (pos c) b (vs ++ rest) ≡ some k) × (k ≢ key)
unfolding total
walk_ends c b [] rest key h n l m = absurd (omega arith)
walk_ends c b (v ∷ vs) rest key h n l m = elim (Bool-cases (ltb b (c + pos_part v.weight))) [
  | inl hit ↦ (v.key, walk_step c b v (vs ++ rest) h.0 ∙ rw hit, n.0)
  | inr miss ↦
      let (k, e, d) =
        walk_ends (c + pos_part v.weight) b vs rest key h.1 n.1 (omega arith) (ground arith) in
      (k, walk_step c b v (vs ++ rest) h.0 ∙ rw miss e, d)
]

-- From the total on the walk passes all of them.
walk_passes :
    (c b : ℕ) (vs rest : List WeightedVariation)
    → IsWeighted vs
    → c + total vs ≤ b
    → walk (pos c) b (vs ++ rest) ≡ walk (pos (c + total vs)) b rest
unfolding total
walk_passes c b [] rest h l = ap (λ n. walk (pos n) b rest) (omega arith)
walk_passes c b (v ∷ vs) rest h l =
    let missed : ltb b (c + pos_part v.weight) ≡ false =
      le→ltb b (c + pos_part v.weight) (omega arith) in
    walk_step c b v (vs ++ rest) h.0
    ∙ rw missed (
        walk_passes (c + pos_part v.weight) b vs rest h.1 (omega arith)
        ∙ ap (λ n. walk (pos n) b rest) (add_assoc c (pos_part v.weight) (total vs)))

within : ℕ → ℕ → ℕ → Bool
within lo hi b = leb lo b && ltb b hi

count_within : (n lo hi : ℕ) → count_below n (within lo hi) ≡ min n hi - min n lo
unfolding count_below within
count_within zero lo hi = omega arith
count_within (suc n) lo hi = ground (arith, count_within n lo hi)

count_agrees :
    (n : ℕ) (p q : ℕ → Bool) → ((b : ℕ) → b < n → p b ≡ q b) → count_below n p ≡ count_below n q
unfolding count_below
count_agrees zero p q h = refl
count_agrees (suc n) p q h =
    ground (arith, h n (omega arith), count_agrees n p q (λ b l. h b (omega arith)))

pick_found :
    (b : ℕ) (vs : List WeightedVariation) (k : Text) → walk (pos 0) b vs ≡ some k → pick b vs ≡ k
unfolding pick
pick_found b vs k h = rw (h, pick)

module _ (pre post : List WeightedVariation) (v : WeightedVariation)
    (weighted : IsWeighted (pre ++ v ∷ post)) (pre_distinct : All (λ u. u.key ≢ v.key) pre)
    (post_distinct : All (λ u. u.key ≢ v.key) post) where
  pre-IsWeighted : IsWeighted pre
  pre-IsWeighted = All-left (λ u. pos 0 ≤ℤ u.weight) pre (v ∷ post) weighted

  suffix-IsWeighted : IsWeighted (v ∷ post)
  suffix-IsWeighted = All-right (λ u. pos 0 ≤ℤ u.weight) pre (v ∷ post) weighted

  total-append : total (pre ++ v ∷ post) ≡ total pre + (pos_part v.weight + total post)
  unfolding total
  total-append = go pre
    where
      go :
          (us : List WeightedVariation)
          → total (us ++ v ∷ post) ≡ total us + (pos_part v.weight + total post)
      go [] = omega arith
      go (u ∷ us) = omega (arith, go us)

  abbrev variations : List WeightedVariation
  variations = pre ++ v ∷ post

  below_interval : (b : ℕ) → b < total pre → text_eq (pick b variations) v.key ≡ false
  below_interval b l =
      let (k, e, d) =
        walk_ends 0 b pre (v ∷ post) v.key pre-IsWeighted pre_distinct (omega arith)
          (omega arith) in
      rw (pick_found b variations k e) (text_eq_ne k v.key d)

  reach :
      (b : ℕ)
      → total pre ≤ b
      → walk (pos 0) b variations ≡ (
          if ltb b (total pre + pos_part v.weight)
          then some v.key
          else walk (pos (total pre + pos_part v.weight)) b post)
  reach b l =
      walk_passes 0 b pre (v ∷ post) pre-IsWeighted (omega arith)
      ∙ ap (λ n. walk (pos n) b (v ∷ post)) (omega arith)
      ∙ walk_step (total pre) b v post suffix-IsWeighted.0

  in_interval :
      (b : ℕ)
      → total pre ≤ b
      → b < total pre + pos_part v.weight
      → text_eq (pick b variations) v.key ≡ true
  in_interval b l h =
      rw
        (pick_found b variations v.key
          (reach b l ∙ rw (lt→ltb b (total pre + pos_part v.weight) h)))
        (text_eq_refl v.key)

  above_interval :
      (b : ℕ)
      → total pre + pos_part v.weight ≤ b
      → b < total variations
      → text_eq (pick b variations) v.key ≡ false
  above_interval b l h =
      let (k, e, d) =
        walk_ends (total pre + pos_part v.weight) b post [] v.key suffix-IsWeighted.1 post_distinct
          (omega (arith, total-append)) l in
      rw
        (pick_found b variations k (
          reach b (omega arith)
          ∙ rw (le→ltb b (total pre + pos_part v.weight) l)
              (ap (walk (pos (total pre + pos_part v.weight)) b) (sym (append-nil post)) ∙ e)))
        (text_eq_ne k v.key d)

  -- Which buckets go to `v`.
  pick_interval :
      (b : ℕ)
      → b < total variations
      → text_eq (pick b variations) v.key ≡ within (total pre) (total pre + pos_part v.weight) b
  unfolding within
  pick_interval b l = ground (arith, below_interval b, in_interval b, above_interval b)

  -- In a rollout whose weights are not negative and sum to 100, of the hundred buckets exactly as
  -- many serve a variation as its weight says, if no other variation has its key.
  pub pick_share :
      total (pre ++ v ∷ post) ≡ 100
      → count_below 100 (λ b. text_eq (pick b (pre ++ v ∷ post)) v.key) ≡ pos_part v.weight
  pick_share sum =
      count_agrees 100 _ _ (λ b l. pick_interval b (omega arith))
      ∙ count_within 100 (total pre) (total pre + pos_part v.weight)
      ∙ omega (arith, total-append)
