-- ===== src/Consistency/Announced.antt =====
-- streaming.go and polling.go: what a live update does not announce is kept.
use featureflip_go.Base.{List, [], ◌∷◌, Option, none, some, Text, if_rule}
use featureflip_go.Models.{Flag, FlagsResponse, Segment}
use featureflip_go.Platform.{Platform}
use featureflip_go.Http.{Codec, Fetched, fetched, failed, decoded, get_flags, get_flag}
use featureflip_go.Unevaluable.{drop_unevaluable, is_none, unevaluable_flag_reason}
use featureflip_go.Updates.Closure.{Has, not-Has_nil}
use featureflip_go.Store.{Store, set_all, set_flag, remove_flag}
use featureflip_go.Polling.{announce, replace_all, refreshed}
use featureflip_go.Streaming.{
  Answers, Kind, upsert, deletion, segment_update, sync, unknown, kind_of, event_key, apply_upsert,
  handle_kind, handle_event,
}
use featureflip_go.Streaming.Invariant.{Update, event, polled}
use featureflip_go.Polling.{poll}

-- A stream event or a poll: the store after it, and the keys that onUpdate is called with, if it is.
abbrev pub applied : Platform → Codec → Update → Store → Store × Option (List Text)
applied go codec (event answers event_type payload) s =
    handle_event go codec answers event_type payload s
applied go codec (polled answer) s = poll go codec answer s

-- The key is not among those that onUpdate is called with, if it is called.
abbrev pub IsUnannounced : Text → Option (List Text) → Type 0
IsUnannounced k none = Unit
IsUnannounced k (some keys) = ¬ Has k keys

-- A property of the later store that holds where nothing is done, and after each operation that does
-- not report the key.
pub record IsKeptBy {κ} (go : Platform) (k : Text) (s : Store) (R : Store → Type κ) : Type κ where
  pub same : R s
  pub snapshot :
      (flags : List Flag) (segments : List Segment)
      → ¬ Has k (set_all go flags segments s).1
      → R (set_all go flags segments s).0
  pub upsert : (flag : Flag) → ¬ Has k (set_flag go flag s).1 → R (set_flag go flag s).0
  pub removal : (key : Text) → ¬ Has k (remove_flag key s).1 → R (remove_flag key s).0

module _ {κ} (go : Platform) (codec : Codec) (k : Text) (s : Store) (R : Store → Type κ)
    (keeps : IsKeptBy go k s R) where
  -- An update that announces its changes keeps what it does not announce.
  abbrev Kept : Store × Option (List Text) → Type κ
  Kept r = IsUnannounced k r.1 → R r.0

  nothing_done : Kept (s, none)
  nothing_done silent = keeps.same

  announce-Kept : (r : Store × List Text) → (¬ Has k r.1 → R r.0) → Kept (announce r)
  announce-Kept (t, []) reported silent = reported (not-Has_nil k)
  announce-Kept (t, j ∷ js) reported silent = reported silent

  refreshed-Kept : (response : Fetched FlagsResponse) → Kept (refreshed go response s)
  unfolding replace_all
  refreshed-Kept (failed e) = nothing_done
  refreshed-Kept (fetched resp) =
      let (flags, segments) = drop_unevaluable resp.flags resp.segments in
      announce-Kept (set_all go flags segments s) (keeps.snapshot flags segments)

  apply_upsert-Kept : (response : Fetched Flag) → Kept (apply_upsert go response s)
  apply_upsert-Kept (failed e) = nothing_done
  apply_upsert-Kept (fetched flag) =
      if_rule Kept (is_none (unevaluable_flag_reason flag))
        (announce-Kept (set_flag go flag s) (keeps.upsert flag)) nothing_done

  handle_kind-Kept :
      (answers : Answers) (kind : Kind) (payload : Text)
      → Kept (handle_kind go codec answers kind payload s)
  unfolding handle_kind
  handle_kind-Kept answers upsert payload = at (event_key (codec.unmarshal_stream_event payload))
    where
      at :
          (o : Option Text)
          → Kept (elim o as (λ _. Store × Option (List Text)) [
            | none ↦ (s, none)
            | some key ↦ apply_upsert go (get_flag codec (answers.for_flag key)) s
          ])
      at none = nothing_done
      at (some key) = apply_upsert-Kept (get_flag codec (answers.for_flag key))
  handle_kind-Kept answers deletion payload = at (event_key (codec.unmarshal_stream_event payload))
    where
      at :
          (o : Option Text)
          → Kept (elim o as (λ _. Store × Option (List Text)) [
            | none ↦ (s, none)
            | some key ↦ announce (remove_flag key s)
          ])
      at none = nothing_done
      at (some key) = announce-Kept (remove_flag key s) (keeps.removal key)
  handle_kind-Kept answers segment_update payload =
      refreshed-Kept (get_flags codec answers.for_flags)
  handle_kind-Kept answers sync payload = refreshed-Kept (decoded (codec.unmarshal_flags payload))
  handle_kind-Kept answers unknown payload = nothing_done

  pub handle_event-Kept :
      (answers : Answers) (event_type payload : Text)
      → Kept (handle_event go codec answers event_type payload s)
  unfolding handle_event
  handle_event-Kept answers event_type payload =
      handle_kind-Kept answers (kind_of event_type) payload

  pub applied-Kept :
      (u : Update) → IsUnannounced k (applied go codec u s).1 → R (applied go codec u s).0
  unfolding poll
  applied-Kept (event answers event_type payload) = handle_event-Kept answers event_type payload
  applied-Kept (polled answer) = refreshed-Kept (get_flags codec answer)
