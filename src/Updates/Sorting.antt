-- ===== src/Updates/Sorting.antt =====
-- updates.go, sortedKeys: the keys of the set, each as often, in ascending order.
use featureflip_go.Base.{
  ◌≡◌, refl, ◌≢◌, ap, ◌∙◌, ◌||◌, List, [], ◌∷◌, Text, Ordering, text_eq, text_compare,
  text_compare-swap, All, All-map, arith,
}
use featureflip_go.Semver.Order.{text_compare-IsPreorder}
use featureflip_go.Updates.{member, insert_sorted, sorted_keys}

member-insert_sorted :
    (k j : Text) (set : List Text) → member k (insert_sorted j set) ≡ (text_eq j k || member k set)
unfolding member insert_sorted
member-insert_sorted k j [] = refl
member-insert_sorted k j (i ∷ set) = ground (arith, member-insert_sorted k j set)

-- Sorting loses no key and makes up none.
pub member-sorted_keys : (k : Text) (set : List Text) → member k (sorted_keys set) ≡ member k set
unfolding sorted_keys member
member-sorted_keys k [] = refl
member-sorted_keys k (j ∷ set) =
    member-insert_sorted k j (sorted_keys set)
    ∙ ap (λ b. text_eq j k || b) (member-sorted_keys k set)

-- No key is followed by a smaller one.
abbrev pub IsAscending : List Text → Type 0
IsAscending [] = Unit
IsAscending (k ∷ ks) = All (λ j. text_compare k j ≢ Ordering.gt) ks × IsAscending ks

above_insert :
    (k j : Text) (ks : List Text)
    → text_compare k j ≢ Ordering.gt
    → All (λ i. text_compare k i ≢ Ordering.gt) ks
    → All (λ i. text_compare k i ≢ Ordering.gt) (insert_sorted j ks)
unfolding insert_sorted
above_insert k j [] h hs = (h, tt)
above_insert k j (i ∷ ks) h hs = split (text_compare j i) (above_insert k j ks h hs.1)
  where
    split :
        (o : Ordering)
        → All (λ i. text_compare k i ≢ Ordering.gt) (insert_sorted j ks)
        → All
            (λ i. text_compare k i ≢ Ordering.gt)
            (elim o as (λ _. List Text) [ Ordering.gt ↦ i ∷ insert_sorted j ks | _ ↦ j ∷ i ∷ ks ])
    split Ordering.lt rest = (h, hs)
    split Ordering.eq rest = (h, hs)
    split Ordering.gt rest = (hs.0, rest)

not_gt_trans :
    (a b c : Text)
    → text_compare a b ≢ Ordering.gt
    → text_compare b c ≢ Ordering.gt
    → text_compare a c ≢ Ordering.gt
not_gt_trans a b c h k = ground (arith, text_compare-IsPreorder.composed a b c)

insert_sorted-IsAscending :
    (k : Text) (ks : List Text) → IsAscending ks → IsAscending (insert_sorted k ks)
unfolding insert_sorted
insert_sorted-IsAscending k [] h = (tt, tt)
insert_sorted-IsAscending k (j ∷ ks) h =
    split (text_compare k j) refl (insert_sorted-IsAscending k ks h.1)
  where
    below : text_compare k j ≢ Ordering.gt → IsAscending (k ∷ j ∷ ks)
    below n = ((n, All-map (λ i q. not_gt_trans k j i n q) ks h.0), h)

    split :
        (o : Ordering)
        → text_compare k j ≡ o
        → IsAscending (insert_sorted k ks)
        → IsAscending
            (elim o as (λ _. List Text) [ Ordering.gt ↦ j ∷ insert_sorted k ks | _ ↦ k ∷ j ∷ ks ])
    split Ordering.lt e rest = below (λ g. cc)
    split Ordering.eq e rest = below (λ g. cc)
    split Ordering.gt e rest = (above_insert j k ks (λ g. cc (text_compare-swap k j)) h.0, rest)

-- The keys come in ascending byte order.
pub sorted_keys-IsAscending : (set : List Text) → IsAscending (sorted_keys set)
unfolding sorted_keys
sorted_keys-IsAscending [] = tt
sorted_keys-IsAscending (k ∷ set) =
    insert_sorted-IsAscending k (sorted_keys set) (sorted_keys-IsAscending set)
