-- ===== src/Updates/Diff.antt =====
-- updates.go, diffSnapshot: what a flag whose key is not reported has kept.
use featureflip_go.Base.{
  ◌↔◌, ◌≡◌, sym, ◌∙◌, true, false, List, [], ◌∷◌, Text, is_empty, All, All-map, ◌⊎◌, inl, inr,
}
use featureflip_go.Base.Dict.{Dict, lookup, keys}
use featureflip_go.Models.{Flag, Segment}
use featureflip_go.Platform.{Platform}
use featureflip_go.Updates.{
  dependents, add_prerequisite_dependents, is_unchanged, changed_flags, flag_keys, refers_to,
  segment_dependents, direct_changes, segment_changes, diff_snapshot,
}
use featureflip_go.Updates.Closure.{Has, Reaches, add_prerequisite_dependents-Reaches}
use featureflip_go.Updates.Sorting.{member-sorted_keys}
use featureflip_go.Updates.Covers.{
  changed_flags-covers, removed_keys-grows, removed_keys-covers, segment_dependents-grows,
  segment_dependents-covers, dependents-covers,
}

module _ (go : Platform) (previous_flags : Dict Flag) (previous_segments : Dict Segment)
    (next_flags : List Flag) (next_segments : List Segment) where
  abbrev pub Reported : Text → Type 0
  Reported k = Has k (diff_snapshot go previous_flags previous_segments next_flags next_segments)

  -- The flags that are reported for their own sake or for a segment's.
  abbrev moved : List Text
  moved =
      segment_dependents (segment_changes go previous_segments next_segments) next_flags
        (direct_changes go previous_flags next_flags)

  Reported-Reaches : (k : Text) → Reported k ↔ Reaches next_flags moved k
  unfolding diff_snapshot
  Reported-Reaches k =
      let same = member-sorted_keys k (add_prerequisite_dependents next_flags moved) in
      let closed = add_prerequisite_dependents-Reaches next_flags moved k in
      (λ h. closed.0 (sym same ∙ h), λ r. same ∙ closed.1 r)

  -- What a flag of the new snapshot has kept if it is not reported: its configuration, the segments
  -- that its rules refer to, and the results of its prerequisites.
  pub record IsKept (f : Flag) : Type 0 where
    pub configuration : is_unchanged go.flag_equal f (lookup f.key previous_flags) ≡ true
    pub segments : refers_to (segment_changes go previous_segments next_segments) f ≡ false
    pub prerequisites :
        All
          (λ p. is_empty p.prerequisite_flag_key ≡ false → ¬ Reported p.prerequisite_flag_key)
          f.prerequisites

  -- A flag of the new snapshot that the diff does not report is held with an equal configuration,
  -- refers to no segment that was added, edited or removed, and has only prerequisites that are not
  -- reported either (those with the empty key aside). A held key that is gone from the snapshot is
  -- always reported.
  pub diff_snapshot-IsKept :
      All (λ f. ¬ Reported f.key → IsKept f) next_flags
      × All (λ k. ¬ Reported k → Has k (flag_keys next_flags)) (keys previous_flags)
  diff_snapshot-IsKept = (flags next_flags configurations references rows, removals)
    where
      configurations :
          All
            (λ f.
              (is_unchanged go.flag_equal f (lookup f.key previous_flags) ≡ true)
              ⊎ Has f.key (changed_flags go previous_flags next_flags []))
            next_flags
      configurations = changed_flags-covers go previous_flags next_flags []

      references :
          All
            (λ f.
              (refers_to (segment_changes go previous_segments next_segments) f ≡ false)
              ⊎ Has f.key moved)
            next_flags
      references = segment_dependents-covers _ next_flags _

      rows :
          All
            (λ f.
              All
                (λ p.
                  is_empty p.prerequisite_flag_key ≡ false
                  → Has f.key (dependents next_flags p.prerequisite_flag_key))
                f.prerequisites)
            next_flags
      rows = dependents-covers next_flags

      from_moved : (k : Text) → Has k moved → Reported k
      from_moved k h = (Reported-Reaches k).1 (Reaches.given k h)

      from_direct : (k : Text) → Has k (direct_changes go previous_flags next_flags) → Reported k
      from_direct k h = from_moved k (segment_dependents-grows _ next_flags _ k h)

      from_changed : (k : Text) → Has k (changed_flags go previous_flags next_flags []) → Reported k
      from_changed k h = from_direct k (
          unfold direct_changes in
          removed_keys-grows (keys previous_flags) (flag_keys next_flags) _ k h)

      removals : All (λ k. ¬ Reported k → Has k (flag_keys next_flags)) (keys previous_flags)
      removals =
          All-map
            (λ k c silent. elim c [
              | inl there ↦ there
              | inr gone ↦ absurd (silent (from_direct k (unfold direct_changes in gone)))
            ])
            (keys previous_flags)
            (removed_keys-covers (keys previous_flags) (flag_keys next_flags)
              (changed_flags go previous_flags next_flags []))

      flags :
          (fs : List Flag)
          → All
              (λ f.
                (is_unchanged go.flag_equal f (lookup f.key previous_flags) ≡ true)
                ⊎ Has f.key (changed_flags go previous_flags next_flags []))
              fs
          → All
              (λ f.
                (refers_to (segment_changes go previous_segments next_segments) f ≡ false)
                ⊎ Has f.key moved)
              fs
          → All
              (λ f.
                All
                  (λ p.
                    is_empty p.prerequisite_flag_key ≡ false
                    → Has f.key (dependents next_flags p.prerequisite_flag_key))
                  f.prerequisites)
              fs
          → All (λ f. ¬ Reported f.key → IsKept f) fs
      flags [] c r d = tt
      flags (f ∷ fs) c r d = (
        λ silent. record {
          configuration = elim c.0 [
            | inl same ↦ same
            | inr h ↦ absurd (silent (from_changed f.key h))
          ];
          segments = elim r.0 [
            | inl none_of ↦ none_of
            | inr h ↦ absurd (silent (from_moved f.key h))
          ];
          prerequisites =
              All-map
                (λ p row named shown. silent (
                  (Reported-Reaches f.key).1 (
                    Reaches.through p.prerequisite_flag_key f.key
                      ((Reported-Reaches p.prerequisite_flag_key).0 shown) (row named))))
                f.prerequisites d.0;
        },
        flags fs c.1 r.1 d.1,
      )
