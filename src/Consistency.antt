-- ===== src/Consistency.antt =====
-- store.go and updates.go with evaluation.go: a full snapshot, the keys that it reports and the
-- evaluation before and after it.
pub mod Lookups
pub mod Held
pub mod Deltas
pub mod Announced
pub mod Live
mod Tests
use featureflip_go.Base.{
  ℕ, suc, ◌≤◌, ◌≡◌, refl, sym, ap, ◌∙◌, subst, Bool, true, false, not, ◌&&◌, ◌||◌, List, [], ◌∷◌,
  Option, none, some, Text, All, All-map, is_empty, any, Bool-cases, Option-cases, ◌⊎◌, inl, inr,
  if◌then◌else◌, arith, text_eq, text_eq_sound, some_eq, none-ne-some,
}
use featureflip_go.Base.Dict.{Dict, lookup, keys, lookup-insert}
use featureflip_go.Models.{Flag, Rule, Segment, EvaluationContext}
use featureflip_go.Platform.{Platform}
use featureflip_go.Updates.{
  member, flag_keys, segment_keys, is_unchanged, refers_to, segment_changes, changed_segments,
  removed_keys,
}
use featureflip_go.Updates.Closure.{Has}
use featureflip_go.Updates.Covers.{changed_segments-covers, removed_keys-grows, removed_keys-covers}
use featureflip_go.Updates.Diff.{Reported, IsKept, diff_snapshot-IsKept}
use featureflip_go.Store.{Store, set_all, fill_flags, fill_segments}
use featureflip_go.Evaluation.{World, evaluate, max_prerequisite_depth}
use featureflip_go.Evaluation.Memo.{evaluate-reference}
use featureflip_go.Evaluation.Rules.{Sorts}
use featureflip_go.Evaluation.Reference.{reference, IsRanked}
use featureflip_go.Evaluation.Agreement.{IsSameSegment, reference_agrees}
use Held.{after_snapshot, Silent, kept, updated-flags, flag_held, segment_held}
use Lookups.{
  last_by, fill_flags-last, fill_segments-last, last_by-held, last_by-All, lookup-Has, All-Has,
  flag_keys-any, segment_keys-any, is_unchanged-held, unreferred, All-both, unreferred_rules,
}

-- What an evaluation reads of a store.
abbrev pub world_of : Platform → EvaluationContext → Store → World
world_of go ctx s = record { platform = go; ctx = ctx; segments = s.segments; flags = s.flags }

-- The flag is held under the key in the first store, and has one result in both, at any depth.
abbrev pub Agrees : Platform → EvaluationContext → Store → Store → Text → Flag → Type 0
Agrees go ctx s t k f =
    (lookup k s.flags ≡ some f)
    × ((levels : ℕ)
        → reference (world_of go ctx s) levels f ≡ reference (world_of go ctx t) levels f)

pub evaluate-Agrees :
    (go : Platform) (ctx : EvaluationContext) (s t : Store) (k : Text) (f : Flag) (seen : List Text)
    (rank rank' : Text → ℕ)
    → Agrees go ctx s t k f
    → lookup k t.flags ≡ some f
    → IsRanked rank s.flags
    → IsRanked rank' t.flags
    → rank k ≤ max_prerequisite_depth
    → rank' k ≤ max_prerequisite_depth
    → (evaluate (world_of go ctx s) f seen).0 ≡ (evaluate (world_of go ctx t) f seen).0
evaluate-Agrees go ctx s t k f seen rank rank' agrees h ranked ranked' low low' =
    evaluate-reference (world_of go ctx s) rank k f seen ranked agrees.0 low
    ∙ agrees.1 (suc max_prerequisite_depth)
    ∙ sym (evaluate-reference (world_of go ctx t) rank' k f seen ranked' h low')

-- No held flag has a prerequisite with the empty key.
abbrev pub IsNamed : Store → Type 0
IsNamed s =
    (k : Text) (f : Flag)
    → lookup k s.flags ≡ some f
    → All (λ p. is_empty p.prerequisite_flag_key ≡ false) f.prerequisites

module _ (go : Platform) (sorts : Sorts go)
    (flags_sound : (f g : Flag) → go.flag_equal f g ≡ true → f ≡ g)
    (segments_sound : (r t : Segment) → go.segment_equal r t ≡ true → r ≡ t) (s : Store)
    (next_flags : List Flag) (next_segments : List Segment)
    (named : IsNamed (after_snapshot go next_flags next_segments s)) where
  abbrev updated : Store
  updated = after_snapshot go next_flags next_segments s

  abbrev Quiet : Text → Type 0
  Quiet = Silent go s next_flags next_segments

  quiet_prerequisites :
      (k : Text) (f : Flag)
      → Quiet k
      → lookup k updated.flags ≡ some f
      → All (λ p. Quiet p.prerequisite_flag_key) f.prerequisites
  quiet_prerequisites k f silent h =
      let unreported =
        last_by-All (λ g. g.key) k
          (λ g.
            All (λ p. is_empty p.prerequisite_flag_key ≡ false → Quiet p.prerequisite_flag_key)
              g.prerequisites)
          next_flags none
          (All-map (λ g keeps e. (keeps (subst Quiet (sym e) silent)).prerequisites) next_flags
            (kept go s next_flags next_segments))
          (λ b e. absurd (none-ne-some e))
          (sym (updated-flags go s next_flags next_segments k) ∙ h) in
      All-map (λ p q. q.0 q.1) f.prerequisites
        (All-both _ _ f.prerequisites unreported (named k f h))

  quiet_rules :
      (k : Text) (f : Flag)
      → Quiet k
      → lookup k updated.flags ≡ some f
      → All
          (λ r.
            (is_empty r.segment_key ≡ true)
            ⊎ (lookup r.segment_key s.segments ≡ lookup r.segment_key updated.segments))
          f.rules
  quiet_rules k f silent h =
      last_by-All (λ g. g.key) k _ next_flags none
        (All-map
          (λ g keeps e.
            All-map
              (λ r q. elim q [
                | inl none_named ↦ inl none_named
                | inr m ↦
                    inr (segment_held go segments_sound s next_flags next_segments r.segment_key m)
              ])
              g.rules
              (unreferred_rules (segment_changes go s.segments next_segments) g
                (keeps (subst Quiet (sym e) silent)).segments))
          next_flags (kept go s next_flags next_segments))
        (λ b e. absurd (none-ne-some e)) (sym (updated-flags go s next_flags next_segments k) ∙ h)

  returned : (k : Text) → ¬ Has k (set_all go next_flags next_segments s).1 → Quiet k
  unfolding set_all
  returned k silent = silent

  pub set_all-Agrees :
      (ctx : EvaluationContext) (k : Text) (f : Flag)
      → ¬ Has k (set_all go next_flags next_segments s).1
      → lookup k (after_snapshot go next_flags next_segments s).flags ≡ some f
      → Agrees go ctx s (after_snapshot go next_flags next_segments s) k f
  set_all-Agrees ctx k f unreported h =
      let silent = returned k unreported in
      (
        (flag_held go flags_sound s next_flags next_segments) k silent ∙ h,
        λ levels.
            reference_agrees go ctx s.segments updated.segments s.flags updated.flags Quiet sorts
              (flag_held go flags_sound s next_flags next_segments) quiet_prerequisites quiet_rules
              levels k f silent h,
      )

  -- If sort.Slice sorts, reflect.DeepEqual tells different flags and segments apart, no prerequisite
  -- that is held afterwards has the empty key, and in both configurations flags stand under their keys,
  -- prerequisites have no cycle and the flag's rank among them is at most the maximum depth, then a
  -- held flag whose key setAll does not report evaluates to the same detail, for any context, before
  -- the snapshot and after it.
  pub evaluate-set_all :
      (ctx : EvaluationContext) (k : Text) (f : Flag) (seen : List Text) (rank rank' : Text → ℕ)
      → ¬ Has k (set_all go next_flags next_segments s).1
      → lookup k (after_snapshot go next_flags next_segments s).flags ≡ some f
      → IsRanked rank s.flags
      → IsRanked rank' (after_snapshot go next_flags next_segments s).flags
      → rank k ≤ max_prerequisite_depth
      → rank' k ≤ max_prerequisite_depth
      → (evaluate (world_of go ctx s) f seen).0
        ≡ (evaluate (world_of go ctx (after_snapshot go next_flags next_segments s)) f seen).0
  evaluate-set_all ctx k f seen rank rank' unreported h ranked ranked' low low' =
      evaluate-Agrees go ctx s updated k f seen rank rank' (set_all-Agrees ctx k f unreported h) h
        ranked ranked' low low'
