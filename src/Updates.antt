-- ===== src/Updates.antt =====
-- updates.go: the flag keys that a change of the configuration may move. A set of keys is a list; the
-- map from a prerequisite to its dependents is a function.
pub mod Members
pub mod Visits
pub mod Closure
pub mod Sorting
pub mod Covers
pub mod Diff
mod Tests
use featureflip_go.Base.{
  ℕ, zero, suc, ◌+◌, Bool, true, false, not, ◌&&◌, ◌||◌, List, [], ◌∷◌, ◌++◌, Option, none, some,
  Text, Ordering, is_empty, text_eq, text_compare, if◌then◌else◌, any, length,
}
use featureflip_go.Base.Dict.{Dict, lookup, keys}
use featureflip_go.Models.{Flag, Rule, Segment, Prerequisite}
use featureflip_go.Platform.{Platform}

-- _, ok := set[k]
unfoldable pub member : Text → List Text → Bool
member k [] = false
member k (j ∷ set) = text_eq j k || member k set

-- set[k] = struct{}{}
unfoldable pub add : Text → List Text → List Text
add k set = if member k set then set else k ∷ set

unfoldable pub prerequisite_rows : Text → List Prerequisite → Text → List Text
prerequisite_rows dependent [] key = []
prerequisite_rows dependent (p ∷ ps) key =
    let rest = prerequisite_rows dependent ps key in
    if is_empty p.prerequisite_flag_key
    then rest
    else if text_eq p.prerequisite_flag_key key
    then dependent ∷ rest
    else rest

-- dependents[key]
unfoldable pub dependents : List Flag → Text → List Text
dependents [] key = []
dependents (f ∷ fs) key = prerequisite_rows f.key f.prerequisites key ++ dependents fs key

-- The loop over the dependents of one key: the new set and the new queue, its last element first.
unfoldable pub visit : List Text → List Text → List Text → List Text × List Text
visit [] changed queue = (changed, queue)
visit (d ∷ ds) changed queue =
    let rest = visit ds (d ∷ changed) (d ∷ queue) in
    let skipped = visit ds changed queue in if member d changed then skipped else rest

-- The loop over the queue.
unfoldable pub walk : List Flag → ℕ → List Text → List Text → List Text
walk flags zero changed queue = changed
walk flags (suc fuel) changed [] = changed
walk flags (suc fuel) changed (key ∷ queue) =
    let (more, longer) = visit (dependents flags key) changed queue in walk flags fuel more longer

abbrev has_rows : Flag → Bool
has_rows f = any (λ p. not (is_empty p.prerequisite_flag_key)) f.prerequisites

-- Each round takes a key off the queue, and each flag is queued at most once, so there are at most
-- as many rounds as keys at the start and flags together.
unfoldable pub add_prerequisite_dependents : List Flag → List Text → List Text
add_prerequisite_dependents flags changed =
    if any has_rows flags
    then walk flags (suc (length changed + length flags)) changed changed
    else changed

unfoldable pub insert_sorted : Text → List Text → List Text
insert_sorted k [] = k ∷ []
insert_sorted k (j ∷ js) = elim (text_compare k j) [
  | Ordering.gt ↦ j ∷ insert_sorted k js
  | _ ↦ k ∷ j ∷ js
]

-- The keys in the order of sort.Strings, which is total: the result does not depend on the method.
unfoldable pub sorted_keys : List Text → List Text
sorted_keys [] = []
sorted_keys (k ∷ set) = insert_sorted k (sorted_keys set)

abbrev pub is_unchanged {ℓ} : {A : Type ℓ} → (A → A → Bool) → A → Option A → Bool
is_unchanged same next none = false
is_unchanged same next (some previous) = same previous next

-- The loop over the incoming flags: new ones, and those that differ from the held ones.
unfoldable pub changed_flags : Platform → Dict Flag → List Flag → List Text → List Text
changed_flags go previous [] changed = changed
changed_flags go previous (f ∷ fs) changed =
    changed_flags go previous fs
      (if is_unchanged go.flag_equal f (lookup f.key previous) then changed else add f.key changed)

unfoldable pub changed_segments : Platform → Dict Segment → List Segment → List Text → List Text
changed_segments go previous [] changed = changed
changed_segments go previous (s ∷ ss) changed =
    changed_segments go previous ss (
      if is_unchanged go.segment_equal s (lookup s.key previous)
      then changed
      else add s.key changed)

unfoldable pub flag_keys : List Flag → List Text
flag_keys [] = []
flag_keys (f ∷ fs) = f.key ∷ flag_keys fs

unfoldable pub segment_keys : List Segment → List Text
segment_keys [] = []
segment_keys (s ∷ ss) = s.key ∷ segment_keys ss

-- The loop over the held keys: those that are not among the incoming ones.
unfoldable pub removed_keys : List Text → List Text → List Text → List Text
removed_keys [] next changed = changed
removed_keys (k ∷ ks) next changed =
    removed_keys ks next (if member k next then changed else add k changed)

-- A rule of the flag refers to a changed segment.
unfoldable pub refers_to : List Text → Flag → Bool
refers_to segments f =
    any (λ r. not (is_empty r.segment_key) && member r.segment_key segments) f.rules

unfoldable pub segment_dependents : List Text → List Flag → List Text → List Text
segment_dependents segments [] changed = changed
segment_dependents segments (f ∷ fs) changed =
    segment_dependents segments fs (if refers_to segments f then add f.key changed else changed)

-- The keys that changed by themselves, and the segments that did.
unfoldable pub direct_changes : Platform → Dict Flag → List Flag → List Text
direct_changes go previous_flags next_flags =
    removed_keys (keys previous_flags) (flag_keys next_flags)
      (changed_flags go previous_flags next_flags [])

unfoldable pub segment_changes : Platform → Dict Segment → List Segment → List Text
segment_changes go previous_segments next_segments =
    removed_keys (keys previous_segments) (segment_keys next_segments)
      (changed_segments go previous_segments next_segments [])

unfoldable pub diff_snapshot :
    Platform → Dict Flag → Dict Segment → List Flag → List Segment → List Text
diff_snapshot go previous_flags previous_segments next_flags next_segments = sorted_keys (
    add_prerequisite_dependents next_flags (
      segment_dependents (segment_changes go previous_segments next_segments) next_flags
        (direct_changes go previous_flags next_flags)))
