-- ===== src/Streaming.antt =====
-- streaming.go: what an event of the stream does to the store.
pub mod Frames
pub mod Connect
pub mod Backoff
pub mod Fallback
pub mod Invariant
mod Tests
use featureflip_go.Base.{
  Bool, true, false, ◌||◌, List, [], ◌∷◌, Option, none, some, Text, codes, is_empty, text_eq,
  if◌then◌else◌,
}
use featureflip_go.Models.{Flag, FlagsResponse, StreamEvent}
use featureflip_go.Platform.{Platform}
use featureflip_go.Http.{
  Codec, JsonError, Answer, Fetched, fetched, failed, decoded, get_flags, get_flag,
}
use featureflip_go.Unevaluable.{is_none, unevaluable_flag_reason}
use featureflip_go.Store.{Store, set_flag, remove_flag}
use featureflip_go.Polling.{announce, replace_all, refreshed}

-- The server's answers to the requests that an event may lead to.
pub record Answers : Type 0 where
  pub for_flag : Text → Answer
  pub for_flags : Answer

-- The kinds of the switch on the event's type.
pub data Kind : Type 0 where
  upsert deletion segment_update sync unknown : Kind

unfoldable pub kind_of : Text → Kind
kind_of event_type =
    if text_eq event_type (codes "flag.created") || text_eq event_type (codes "flag.updated")
    then upsert
    else if text_eq event_type (codes "flag.deleted")
    then deletion
    else if text_eq event_type (codes "segment.updated")
    then segment_update
    else if text_eq event_type (codes "sync")
    then sync
    else unknown

-- The key of a decoded event: `none` where the handler returns at once.
unfoldable pub event_key : StreamEvent × Option JsonError → Option Text
event_key (evt, some e) = none
event_key (evt, none) = if is_empty evt.key then none else some evt.key

abbrev pub apply_upsert : Platform → Fetched Flag → Store → Store × Option (List Text)
apply_upsert go (failed e) s = (s, none)
apply_upsert go (fetched flag) s =
    if is_none (unevaluable_flag_reason flag) then announce (set_flag go flag s) else (s, none)

unfoldable pub handle_kind :
    Platform → Codec → Answers → Kind → Text → Store → Store × Option (List Text)
handle_kind go codec answers upsert payload s =
    elim (event_key (codec.unmarshal_stream_event payload)) [
      | none ↦ (s, none)
      | some key ↦ apply_upsert go (get_flag codec (answers.for_flag key)) s
    ]
handle_kind go codec answers deletion payload s =
    elim (event_key (codec.unmarshal_stream_event payload)) [
      | none ↦ (s, none)
      | some key ↦ announce (remove_flag key s)
    ]
handle_kind go codec answers segment_update payload s =
    refreshed go (get_flags codec answers.for_flags) s
handle_kind go codec answers sync payload s =
    refreshed go (decoded (codec.unmarshal_flags payload)) s
handle_kind go codec answers unknown payload s = (s, none)

unfoldable pub handle_event :
    Platform → Codec → Answers → Text → Text → Store → Store × Option (List Text)
handle_event go codec answers event_type payload s =
    handle_kind go codec answers (kind_of event_type) payload s
