-- ===== src/Consistency/Tests.antt =====
-- The theorem on a full snapshot, for one that brings the same flags and a new segment, and that on
-- reads before and after a live update, for an event of the stream that deletes a flag.
use featureflip_go.Base.{
  ◌≡◌, ◌≤◌, refl, true, sym, arith, false, List, [], ◌∷◌, Option, some, codes, Text, text_eq, subst,
  All-map, Bool-cases, inl, inr, none-ne-some,
}
use featureflip_go.Base.Dict.{lookup, insert, erase, values, keys}
use featureflip_go.Base.Int.{pos}
use featureflip_go.Models.{Flag, Segment}
use featureflip_go.Samples.{
  plain, plain-Sorts, two_flags, two_flags-IsRanked, two_flags-IsNamed, rank, b_low, a_key, b_key,
  a_flag, b_flag, visitor,
}
use featureflip_go.Samples.Equal.{
  flag_eq, flag_eq_sound, segment_eq, segment_eq_sound, list_eq, bool_eq, int_eq, weighted_eq,
  serve_eq, condition_eq, group_eq, rule_eq, variation_eq, prerequisite_eq,
}
use featureflip_go.Evaluation.{evaluate, max_prerequisite_depth}
use featureflip_go.Evaluation.Reference.{IsRanked}
use featureflip_go.Updates.{
  member, add, prerequisite_rows, dependents, visit, walk, add_prerequisite_dependents,
  insert_sorted, sorted_keys, changed_flags, changed_segments, flag_keys, segment_keys,
  removed_keys, refers_to, segment_dependents, direct_changes, segment_changes, diff_snapshot,
}
use featureflip_go.Updates.Closure.{Has}
use featureflip_go.Store.{Store, set_all, remove_flag, single_change, fill_flags}
use featureflip_go.Samples.Server.{codec, silence}
use featureflip_go.Streaming.{handle_event, handle_kind, kind_of, event_key}
use featureflip_go.Consistency.Announced.{IsUnannounced}
use featureflip_go.Client.{Core, Surroundings, variation}
use featureflip_go.Client.Accessors.{text_type}
use featureflip_go.Client.Live.{IsSameRead, variation-applied}
use featureflip_go.Events.{Outcome, new_event_processor_with_bound}
use featureflip_go.Streaming.Invariant.{event}
use featureflip_go.Consistency.Held.{after_snapshot}
use featureflip_go.Consistency.{IsNamed, world_of, evaluate-set_all}

abbrev held : Store
held = record { flags = two_flags; segments = [] }

abbrev beta : Segment
beta = record {
  key = codes "beta";
  version = pos 1;
  conditions = [];
  condition_logic = codes "And";
}

abbrev snapshot : List Flag
snapshot = a_flag ∷ b_flag ∷ []

b_unreported : member b_key (diff_snapshot plain two_flags [] snapshot (beta ∷ [])) ≡ false
unfolding diff_snapshot direct_changes segment_changes segment_dependents refers_to removed_keys
    segment_keys flag_keys changed_segments changed_flags sorted_keys insert_sorted
    add_prerequisite_dependents walk visit dependents prerequisite_rows add member lookup keys
    text_eq flag_eq segment_eq list_eq bool_eq int_eq weighted_eq serve_eq condition_eq group_eq
    rule_eq variation_eq prerequisite_eq
b_unreported = refl

b_silent : ¬ Has b_key (set_all plain snapshot (beta ∷ []) held).1
unfolding set_all
b_silent h = cc b_unreported

same_flags : two_flags ≡ (after_snapshot plain snapshot (beta ∷ []) held).flags
unfolding set_all fill_flags insert text_eq
same_flags = refl

b_held : lookup b_key (after_snapshot plain snapshot (beta ∷ []) held).flags ≡ some b_flag
unfolding set_all fill_flags insert text_eq lookup
b_held = refl

snapshot-IsRanked : IsRanked rank (after_snapshot plain snapshot (beta ∷ []) held).flags
snapshot-IsRanked = subst (IsRanked rank) same_flags two_flags-IsRanked

keys_given : IsNamed (after_snapshot plain snapshot (beta ∷ []) held)
unfolding set_all fill_flags insert text_eq
keys_given = two_flags-IsNamed

evaluate-set_all_example :
    (evaluate (world_of plain visitor held) b_flag []).0
    ≡ (evaluate
        (world_of plain visitor (after_snapshot plain snapshot (beta ∷ []) held))
        b_flag
        []).0
evaluate-set_all_example =
    evaluate-set_all plain plain-Sorts flag_eq_sound segment_eq_sound held snapshot (beta ∷ [])
      keys_given visitor b_key b_flag [] rank rank b_silent b_held two_flags-IsRanked
      snapshot-IsRanked b_low b_low

-- A stream event that deletes `b`: `a` is held before and after, and is not announced.
abbrev one_flag : Store
one_flag = record { flags = (a_key, a_flag) ∷ []; segments = [] }

deletion_result :
    handle_event plain codec silence (codes "flag.deleted") b_key held
    ≡ (one_flag, some (b_key ∷ []))
unfolding handle_event handle_kind kind_of event_key remove_flag single_change lookup erase values
    text_eq sorted_keys insert_sorted add_prerequisite_dependents walk visit dependents
    prerequisite_rows add member
deletion_result = refl

abbrev after_deletion : Store
after_deletion = (handle_event plain codec silence (codes "flag.deleted") b_key held).0

one_flag-held :
    (k : Text) (f : Flag) → lookup k one_flag.flags ≡ some f → lookup k two_flags ≡ some f
unfolding lookup
one_flag-held k f h = elim (Bool-cases (text_eq a_key k)) [
  | inl e ↦ rw e (rw e at h)
  | inr e ↦ absurd (none-ne-some (rw e at h))
]

a_held : lookup a_key one_flag.flags ≡ some a_flag
unfolding lookup text_eq
a_held = refl

one_flag-IsNamed : IsNamed one_flag
one_flag-IsNamed k f h = two_flags-IsNamed k f (one_flag-held k f h)

one_flag-IsRanked : IsRanked rank one_flag.flags
one_flag-IsRanked = record {
  keyed = λ k f h. two_flags-IsRanked.keyed k f (one_flag-held k f h);
  falls = λ k f h.
      All-map (λ p below g at. below g (one_flag-held p.prerequisite_flag_key g at)) f.prerequisites
        (two_flags-IsRanked.falls k f (one_flag-held k f h));
}

a-IsUnannounced : IsUnannounced a_key (some (b_key ∷ []))
unfolding member text_eq
a-IsUnannounced h = cc h

abbrev Result : Store × Option (List Text) → Type 0
Result r =
    IsUnannounced a_key r.1
    × (lookup a_key r.0.flags ≡ some a_flag)
    × IsNamed r.0
    × IsRanked rank r.0.flags

deletion_facts : Result (handle_event plain codec silence (codes "flag.deleted") b_key held)
deletion_facts =
    subst Result (sym deletion_result)
      (a-IsUnannounced, a_held, one_flag-IsNamed, one_flag-IsRanked)

a_low : rank a_key ≤ max_prerequisite_depth
unfolding text_eq
a_low = omega arith

abbrev holding : Core
holding = record {
  store = held;
  ep = new_event_processor_with_bound true 100 30000000000 (pos 0);
  inspectors = 0 ∷ 1 ∷ [];
  is_shut_down = false;
  initialized = true;
  seen = [];
}

abbrev here : Surroundings
here = record {
  platform = plain;
  time = codes "2026-01-02T03:04:05Z";
  time_nano = codes "2026-01-02T03:04:05.000000006Z";
  now = 7;
  replies = λ n. record { outcome = Outcome.delivered; now = 8 };
}

variation-applied_example :
    IsSameRead (variation text_type false here a_key visitor (codes "none") holding) (
      variation text_type false here a_key visitor
        (codes "none")
        (record holding { store = after_deletion }))
variation-applied_example =
    variation-applied text_type false here a_key visitor (codes "none") holding codec
      (event silence (codes "flag.deleted") b_key) rank rank plain-Sorts flag_eq_sound
      segment_eq_sound deletion_facts.0 deletion_facts.2 two_flags-IsRanked deletion_facts.3 a_low
      a_low
