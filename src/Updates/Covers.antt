-- ===== src/Updates/Covers.antt =====
-- updates.go, diffSnapshot: each loop keeps the keys that it found and covers what it reads.
use featureflip_go.Base.{
  ◌≡◌, sym, subst, true, false, List, [], ◌∷◌, ◌++◌, Text, text_eq_refl, is_empty, if◌then◌else◌,
  All, All-map, arith, Bool-cases, if_true, if_false, ◌⊎◌, inl, inr,
}
use featureflip_go.Base.Dict.{Dict, lookup}
use featureflip_go.Models.{Flag, Segment, Prerequisite}
use featureflip_go.Platform.{Platform}
use featureflip_go.Updates.{
  member, add, prerequisite_rows, dependents, is_unchanged, changed_flags, changed_segments,
  removed_keys, refers_to, segment_dependents,
}
use featureflip_go.Updates.Closure.{Has, Has-cons, Has-head}

pub Has-add : (k j : Text) (set : List Text) → Has k set → Has k (add j set)
unfolding add
Has-add k j set h = elim (Bool-cases (member j set)) [
  | inl old ↦ rw old h
  | inr new ↦ rw new (Has-cons k j set h)
]

pub Has-add_self : (j : Text) (set : List Text) → Has j (add j set)
unfolding add
Has-add_self j set = elim (Bool-cases (member j set)) [
  | inl old ↦ rw old old
  | inr new ↦ rw new (Has-head j set)
]

module _ (go : Platform) (previous : Dict Flag) where
  pub changed_flags-grows :
      (fs : List Flag) (set : List Text) (k : Text)
      → Has k set
      → Has k (changed_flags go previous fs set)
  unfolding changed_flags
  changed_flags-grows [] set k h = h
  changed_flags-grows (f ∷ fs) set k h =
      elim (Bool-cases (is_unchanged go.flag_equal f (lookup f.key previous))) [
        | inl same ↦ rw same (changed_flags-grows fs set k h)
        | inr moved ↦ rw moved (changed_flags-grows fs (add f.key set) k (Has-add k f.key set h))
      ]

  pub changed_flags-covers :
      (fs : List Flag) (set : List Text)
      → All
          (λ f.
            (is_unchanged go.flag_equal f (lookup f.key previous) ≡ true)
            ⊎ Has f.key (changed_flags go previous fs set))
          fs
  unfolding changed_flags
  changed_flags-covers [] set = tt
  changed_flags-covers (f ∷ fs) set = (
    head (Bool-cases (is_unchanged go.flag_equal f (lookup f.key previous))),
    changed_flags-covers fs
        (if is_unchanged go.flag_equal f (lookup f.key previous) then set else add f.key set),
  )
    where
      head :
          (is_unchanged go.flag_equal f (lookup f.key previous) ≡ true)
            ⊎ (is_unchanged go.flag_equal f (lookup f.key previous) ≡ false)
          → (is_unchanged go.flag_equal f (lookup f.key previous) ≡ true)
            ⊎ Has f.key (
                changed_flags go previous fs (
                  if is_unchanged go.flag_equal f (lookup f.key previous)
                  then set
                  else add f.key set))
      head (inl same) = inl same
      head (inr moved) = inr (
          changed_flags-grows fs _ f.key
            (subst (Has f.key) (sym (if_false _ _ moved)) (Has-add_self f.key set)))

pub removed_keys-grows :
    (ks next set : List Text) (k : Text) → Has k set → Has k (removed_keys ks next set)
unfolding removed_keys
removed_keys-grows [] next set k h = h
removed_keys-grows (j ∷ ks) next set k h =
    removed_keys-grows ks next (if member j next then set else add j set) k
      (grown (Bool-cases (member j next)))
  where
    grown :
        (member j next ≡ true) ⊎ (member j next ≡ false)
        → Has k (if member j next then set else add j set)
    grown (inl e) = subst (Has k) (sym (if_true _ _ e)) h
    grown (inr e) = subst (Has k) (sym (if_false _ _ e)) (Has-add k j set h)

pub removed_keys-covers :
    (ks next set : List Text) → All (λ k. Has k next ⊎ Has k (removed_keys ks next set)) ks
unfolding removed_keys
removed_keys-covers [] next set = tt
removed_keys-covers (j ∷ ks) next set = (
  head (Bool-cases (member j next)),
  removed_keys-covers ks next (if member j next then set else add j set),
)
  where
    head :
        (member j next ≡ true) ⊎ (member j next ≡ false)
        → Has j next ⊎ Has j (removed_keys ks next (if member j next then set else add j set))
    head (inl e) = inl e
    head (inr e) =
        inr (
          removed_keys-grows ks next _ j
            (subst (Has j) (sym (if_false _ _ e)) (Has-add_self j set)))

pub segment_dependents-grows :
    (segments : List Text) (fs : List Flag) (set : List Text) (k : Text)
    → Has k set
    → Has k (segment_dependents segments fs set)
unfolding segment_dependents
segment_dependents-grows segments [] set k h = h
segment_dependents-grows segments (f ∷ fs) set k h =
    segment_dependents-grows segments fs (if refers_to segments f then add f.key set else set) k
      (grown (Bool-cases (refers_to segments f)))
  where
    grown :
        (refers_to segments f ≡ true) ⊎ (refers_to segments f ≡ false)
        → Has k (if refers_to segments f then add f.key set else set)
    grown (inl e) = subst (Has k) (sym (if_true _ _ e)) (Has-add k f.key set h)
    grown (inr e) = subst (Has k) (sym (if_false _ _ e)) h

pub segment_dependents-covers :
    (segments : List Text) (fs : List Flag) (set : List Text)
    → All (λ f. (refers_to segments f ≡ false) ⊎ Has f.key (segment_dependents segments fs set)) fs
unfolding segment_dependents
segment_dependents-covers segments [] set = tt
segment_dependents-covers segments (f ∷ fs) set = (
  head (Bool-cases (refers_to segments f)),
  segment_dependents-covers segments fs (if refers_to segments f then add f.key set else set),
)
  where
    head :
        (refers_to segments f ≡ true) ⊎ (refers_to segments f ≡ false)
        → (refers_to segments f ≡ false)
          ⊎ Has f.key
              (segment_dependents segments fs (if refers_to segments f then add f.key set else set))
    head (inr e) = inl e
    head (inl e) = inr (
        segment_dependents-grows segments fs _ f.key
          (subst (Has f.key) (sym (if_true _ _ e)) (Has-add_self f.key set)))

-- A flag depends on each prerequisite that it names.
pub rows-grows :
    (d : Text) (p : Prerequisite) (ps : List Prerequisite) (key : Text)
    → Has d (prerequisite_rows d ps key)
    → Has d (prerequisite_rows d (p ∷ ps) key)
unfolding prerequisite_rows member
rows-grows d p ps key h = ground (arith, text_eq_refl d)

pub rows_head :
    (d : Text) (p : Prerequisite) (ps : List Prerequisite)
    → is_empty p.prerequisite_flag_key ≡ false
    → Has d (prerequisite_rows d (p ∷ ps) p.prerequisite_flag_key)
unfolding prerequisite_rows member
rows_head d p ps h = ground (arith, text_eq_refl d, text_eq_refl p.prerequisite_flag_key)

pub rows-covers :
    (d : Text) (ps : List Prerequisite)
    → All
        (λ p.
          is_empty p.prerequisite_flag_key ≡ false
          → Has d (prerequisite_rows d ps p.prerequisite_flag_key))
        ps
rows-covers d [] = tt
rows-covers d (p ∷ ps) = (
  rows_head d p ps,
  All-map (λ q h e. rows-grows d p ps q.prerequisite_flag_key (h e)) ps (rows-covers d ps),
)

pub Has-append_left : (k : Text) (xs ys : List Text) → Has k xs → Has k (xs ++ ys)
unfolding member
Has-append_left k [] ys h = cc
Has-append_left k (x ∷ xs) ys h = ground (arith, Has-append_left k xs ys)

pub Has-append_right : (k : Text) (xs ys : List Text) → Has k ys → Has k (xs ++ ys)
Has-append_right k [] ys h = h
Has-append_right k (x ∷ xs) ys h = Has-cons k x (xs ++ ys) (Has-append_right k xs ys h)

pub dependents-covers :
    (fs : List Flag)
    → All
        (λ f.
          All
            (λ p.
              is_empty p.prerequisite_flag_key ≡ false
              → Has f.key (dependents fs p.prerequisite_flag_key))
            f.prerequisites)
        fs
unfolding dependents
dependents-covers [] = tt
dependents-covers (f ∷ fs) = (
  All-map (λ p h e. Has-append_left f.key _ _ (h e)) f.prerequisites
      (rows-covers f.key f.prerequisites),
  All-map
      (λ g h.
        All-map
          (λ p i e.
            Has-append_right g.key (prerequisite_rows f.key f.prerequisites p.prerequisite_flag_key)
              _ (i e))
          g.prerequisites h)
      fs (dependents-covers fs),
)

module _ (go : Platform) (previous : Dict Segment) where
  changed_segments-grows :
      (ss : List Segment) (set : List Text) (k : Text)
      → Has k set
      → Has k (changed_segments go previous ss set)
  unfolding changed_segments
  changed_segments-grows [] set k h = h
  changed_segments-grows (s ∷ ss) set k h =
      elim (Bool-cases (is_unchanged go.segment_equal s (lookup s.key previous))) [
        | inl same ↦ rw same (changed_segments-grows ss set k h)
        | inr moved ↦ rw moved (changed_segments-grows ss (add s.key set) k (Has-add k s.key set h))
      ]

  pub changed_segments-covers :
      (ss : List Segment) (set : List Text)
      → All
          (λ s.
            (is_unchanged go.segment_equal s (lookup s.key previous) ≡ true)
            ⊎ Has s.key (changed_segments go previous ss set))
          ss
  unfolding changed_segments
  changed_segments-covers [] set = tt
  changed_segments-covers (s ∷ ss) set = (
    elim (Bool-cases (is_unchanged go.segment_equal s (lookup s.key previous))) [
      | inl same ↦ inl same
      | inr moved ↦ inr (
          changed_segments-grows ss _ s.key
            (subst (Has s.key) (sym (if_false _ _ moved)) (Has-add_self s.key set)))
    ],
    changed_segments-covers ss
        (if is_unchanged go.segment_equal s (lookup s.key previous) then set else add s.key set),
  )
