-- ===== src/Store.antt =====
-- store.go: the flags and segments that are held. Each operation runs under the store's lock, so it
-- is one step; the keys that it reports are its result, [] for nil.
pub mod Laws
use featureflip_go.Base.{Bool, true, false, List, [], ◌∷◌, Option, none, some, Text, if◌then◌else◌}
use featureflip_go.Base.Dict.{Dict, lookup, insert, erase, values}
use featureflip_go.Models.{Flag, Segment}
use featureflip_go.Platform.{Platform}
use featureflip_go.Updates.{is_unchanged, add_prerequisite_dependents, sorted_keys, diff_snapshot}

pub record Store : Type 0 where
  pub flags : Dict Flag
  pub segments : Dict Segment

abbrev pub new_store : Store
new_store = record { flags = []; segments = [] }

-- The loops that fill the new maps: a later entry takes the place of an earlier one of its key.
unfoldable pub fill_flags : List Flag → Dict Flag → Dict Flag
fill_flags [] m = m
fill_flags (f ∷ fs) m = fill_flags fs (insert f.key f m)

unfoldable pub fill_segments : List Segment → Dict Segment → Dict Segment
fill_segments [] m = m
fill_segments (s ∷ ss) m = fill_segments ss (insert s.key s m)

unfoldable pub set_all : Platform → List Flag → List Segment → Store → Store × List Text
set_all go flags segments s = (
  record { flags = fill_flags flags []; segments = fill_segments segments [] },
  diff_snapshot go s.flags s.segments flags segments,
)

-- The keys of a change of one flag, from the flags that are held after it.
unfoldable pub single_change : Dict Flag → Text → List Text
single_change flags key = sorted_keys (add_prerequisite_dependents (values flags) (key ∷ []))

unfoldable pub set_flag : Platform → Flag → Store → Store × List Text
set_flag go flag s =
    if is_unchanged go.flag_equal flag (lookup flag.key s.flags) then (s, []) else (
      record s { flags = insert flag.key flag s.flags },
      single_change (insert flag.key flag s.flags) flag.key,
    )

unfoldable pub remove_flag : Text → Store → Store × List Text
remove_flag key s = elim (lookup key s.flags) [
  | none ↦ (s, [])
  | some held ↦ (record s { flags = erase key s.flags }, single_change (erase key s.flags) key)
]

unfoldable pub get_flag : Text → Store → Option Flag
get_flag key s = lookup key s.flags

unfoldable pub get_segment : Text → Store → Option Segment
get_segment key s = lookup key s.segments

-- allSegments and allFlags copy the maps.
abbrev pub all_segments : Store → Dict Segment
all_segments s = s.segments

abbrev pub all_flags : Store → Dict Flag
all_flags s = s.flags
