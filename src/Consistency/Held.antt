-- ===== src/Consistency/Held.antt =====
-- store.go and updates.go: what a full snapshot does not report is held as before.
use featureflip_go.Base.{
  ◌≡◌, refl, sym, ◌∙◌, subst, true, List, [], Option, none, some, Text, All, All-map, any, ◌⊎◌, inl,
  inr, text_eq,
}
use featureflip_go.Base.Dict.{lookup, keys}
use featureflip_go.Models.{Flag, Segment}
use featureflip_go.Platform.{Platform}
use featureflip_go.Updates.{
  flag_keys, segment_keys, segment_changes, changed_segments, removed_keys,
}
use featureflip_go.Updates.Closure.{Has}
use featureflip_go.Updates.Covers.{changed_segments-covers, removed_keys-grows, removed_keys-covers}
use featureflip_go.Updates.Diff.{Reported, IsKept, diff_snapshot-IsKept}
use featureflip_go.Store.{Store, set_all}
use featureflip_go.Consistency.Lookups.{
  last_by, fill_flags-last, fill_segments-last, last_by-held, lookup-Has, All-Has, flag_keys-any,
  segment_keys-any, is_unchanged-held,
}

-- The store after a full snapshot.
abbrev pub after_snapshot : Platform → List Flag → List Segment → Store → Store
after_snapshot go flags segments s = (set_all go flags segments s).0

module _ (go : Platform) (s : Store) (next_flags : List Flag) (next_segments : List Segment) where
  abbrev pub Silent : Text → Type 0
  Silent k = ¬ Reported go s.flags s.segments next_flags next_segments k

  pub kept :
      All (λ f. Silent f.key → IsKept go s.flags s.segments next_flags next_segments f) next_flags
  kept = (diff_snapshot-IsKept go s.flags s.segments next_flags next_segments).0

  stays : All (λ k. Silent k → Has k (flag_keys next_flags)) (keys s.flags)
  stays = (diff_snapshot-IsKept go s.flags s.segments next_flags next_segments).1

  pub updated-flags :
      (k : Text)
      → lookup k (after_snapshot go next_flags next_segments s).flags
        ≡ last_by (λ f. f.key) k next_flags none
  unfolding set_all lookup
  updated-flags k = fill_flags-last k next_flags []

  pub updated-segments :
      (k : Text)
      → lookup k (after_snapshot go next_flags next_segments s).segments
        ≡ last_by (λ r. r.key) k next_segments none
  unfolding set_all lookup
  updated-segments k = fill_segments-last k next_segments []

module _ (go : Platform) (flags_sound : (f g : Flag) → go.flag_equal f g ≡ true → f ≡ g) (s : Store)
    (next_flags : List Flag) (next_segments : List Segment) where
  pub flag_held :
      (k : Text)
      → (Silent go s next_flags next_segments) k
      → lookup k s.flags ≡ lookup k (after_snapshot go next_flags next_segments s).flags
  flag_held k silent = sym (
      (updated-flags go s next_flags next_segments) k
      ∙ last_by-held (λ f. f.key) k (lookup k s.flags) next_flags none
          (All-map
            (λ f keeps e.
              subst (λ j. lookup j s.flags ≡ some f) e
                (is_unchanged-held go.flag_equal (λ a b. flags_sound a b) f (lookup f.key s.flags)
                  (keeps
                    (subst (Silent go s next_flags next_segments) (sym e) silent)).configuration))
            next_flags (kept go s next_flags next_segments))
          (there (lookup k s.flags) refl))
    where
      there :
          (o : Option Flag)
          → lookup k s.flags ≡ o
          → (none ≡ lookup k s.flags) ⊎ (any (λ f. text_eq f.key k) next_flags ≡ true)
      there none e = inl (sym e)
      there (some f) e = inr (
          sym (flag_keys-any k next_flags)
          ∙ All-Has (λ j. (Silent go s next_flags next_segments) j → Has j (flag_keys next_flags)) k
              (keys s.flags) (stays go s next_flags next_segments) (lookup-Has k s.flags e) silent)

module _ (go : Platform) (segments_sound : (r t : Segment) → go.segment_equal r t ≡ true → r ≡ t)
    (s : Store) (next_flags : List Flag) (next_segments : List Segment) where
  pub segment_held :
      (k : Text)
      → ¬ Has k (segment_changes go s.segments next_segments)
      → lookup k s.segments ≡ lookup k (after_snapshot go next_flags next_segments s).segments
  segment_held k silent = sym (
      updated-segments go s next_flags next_segments k
      ∙ last_by-held (λ r. r.key) k (lookup k s.segments) next_segments none
          (All-map
            (λ r covered e.
              subst (λ j. lookup j s.segments ≡ some r) e
                (is_unchanged-held go.segment_equal (λ a b. segments_sound a b) r
                  (lookup r.key s.segments)
                  (elim covered [
                    | inl same ↦ same
                    | inr changed ↦ absurd (
                        silent (
                          subst (λ j. Has j (segment_changes go s.segments next_segments)) e
                            (grown r.key changed)))
                  ])))
            next_segments (changed_segments-covers go s.segments next_segments []))
          (there (lookup k s.segments) refl))
    where
      grown :
          (j : Text)
          → Has j (changed_segments go s.segments next_segments [])
          → Has j (segment_changes go s.segments next_segments)
      grown j h =
          unfold segment_changes in
          removed_keys-grows (keys s.segments) (segment_keys next_segments) _ j h

      gone :
          (j : Text)
          → Has j (
              removed_keys
                (keys s.segments)
                (segment_keys next_segments)
                (changed_segments go s.segments next_segments []))
          → Has j (segment_changes go s.segments next_segments)
      gone j h = unfold segment_changes in h

      there :
          (o : Option Segment)
          → lookup k s.segments ≡ o
          → (none ≡ lookup k s.segments) ⊎ (any (λ r. text_eq r.key k) next_segments ≡ true)
      there none e = inl (sym e)
      there (some r) e = inr (
          sym (segment_keys-any k next_segments)
          ∙ elim (All-Has _ k (keys s.segments)
              (removed_keys-covers (keys s.segments) (segment_keys next_segments)
                (changed_segments go s.segments next_segments []))
              (lookup-Has k s.segments e)) [ inl h ↦ h | inr h ↦ absurd (silent (gone k h)) ])
