-- ===== src/Streaming/Invariant.antt =====
-- streaming.go and polling.go: what the store holds once updates are applied to it.
use featureflip_go.Base.{
  ◌≡◌, refl, sym, ◌∙◌, subst, Bool, true, List, [], ◌∷◌, Option, none, some, Text, All, Bool-cases,
  inl, inr, none-ne-some, some_eq, if_rule, text_eq, text_eq_sound,
}
use featureflip_go.Base.Dict.{Dict, lookup, insert, erase, lookup-insert, lookup-erase}
use featureflip_go.Models.{Flag, FlagsResponse, Segment}
use featureflip_go.Platform.{Platform}
use featureflip_go.Http.{Codec, Answer, Fetched, fetched, failed, decoded, get_flag, get_flags}
use featureflip_go.Unevaluable.{
  is_none, keep, unevaluable_flag_reason, unevaluable_segment_reason, drop_unevaluable,
}
use featureflip_go.Unevaluable.Laws.{
  IsEvaluable, IsKnownLogic, flag_known, segment_known, is_none_iff,
}
use featureflip_go.Updates.{is_unchanged}
use featureflip_go.Store.{
  Store, fill_flags, fill_segments, set_all, single_change, set_flag, remove_flag,
}
use featureflip_go.Polling.{announce, replace_all, refreshed, poll}
use featureflip_go.Streaming.{
  Answers, Kind, upsert, deletion, segment_update, sync, unknown, kind_of, event_key, apply_upsert,
  handle_kind, handle_event,
}

-- A predicate of every entry of a map.
abbrev pub Holds {ℓ} : {V : Type ℓ} → (Text → V → Type 0) → Dict V → Type ℓ
Holds {V} P m = (k : Text) (v : V) → lookup k m ≡ some v → P k v

module _ {ℓ} {V : Type ℓ} (P : Text → V → Type 0) where
  Holds-nil : Holds P []
  unfolding lookup
  Holds-nil k v h = absurd (none-ne-some h)

  insert-Holds : (j : Text) (w : V) (m : Dict V) → P j w → Holds P m → Holds P (insert j w m)
  insert-Holds j w m p holds k v h = elim (Bool-cases (text_eq j k)) [
    | inl e ↦
        subst (P k) (some_eq (sym (lookup-insert j k w m ∙ rw e) ∙ h))
          (subst (λ i. P i w) (text_eq_sound j k e) p)
    | inr e ↦ holds k v (sym (lookup-insert j k w m ∙ rw e) ∙ h)
  ]

  erase-Holds : (j : Text) (m : Dict V) → Holds P m → Holds P (erase j m)
  erase-Holds j m holds k v h = elim (Bool-cases (text_eq j k)) [
    | inl e ↦ absurd (none-ne-some (sym (lookup-erase j k m ∙ rw e) ∙ h))
    | inr e ↦ holds k v (sym (lookup-erase j k m ∙ rw e) ∙ h)
  ]

-- A flag under its own key, of which this build knows every serve type and condition logic.
abbrev pub IsServable : Text → Flag → Type 0
IsServable k f = (f.key ≡ k) × IsEvaluable f

abbrev pub IsUsable : Text → Segment → Type 0
IsUsable k r = (r.key ≡ k) × IsKnownLogic r.condition_logic

abbrev pub IsSound : Store → Type 0
IsSound s = Holds IsServable s.flags × Holds IsUsable s.segments

fill_flags-Holds :
    (fs : List Flag) (m : Dict Flag)
    → All IsEvaluable fs
    → Holds IsServable m
    → Holds IsServable (fill_flags fs m)
unfolding fill_flags
fill_flags-Holds [] m known holds = holds
fill_flags-Holds (f ∷ fs) m known holds =
    fill_flags-Holds fs (insert f.key f m) known.1
      (insert-Holds IsServable f.key f m (refl, known.0) holds)

fill_segments-Holds :
    (rs : List Segment) (m : Dict Segment)
    → All (λ r. IsKnownLogic r.condition_logic) rs
    → Holds IsUsable m
    → Holds IsUsable (fill_segments rs m)
unfolding fill_segments
fill_segments-Holds [] m known holds = holds
fill_segments-Holds (r ∷ rs) m known holds =
    fill_segments-Holds rs (insert r.key r m) known.1
      (insert-Holds IsUsable r.key r m (refl, known.0) holds)

keep-All {ℓ} :
    {A : Type ℓ} (P : A → Type 0) (test : A → Bool)
    → ((x : A) → test x ≡ true → P x)
    → (xs : List A) → All P (keep test xs)
unfolding keep
keep-All P test sound [] = tt
keep-All P test sound (x ∷ xs) = elim (Bool-cases (test x)) [
  | inl t ↦ rw t (sound x t, keep-All P test sound xs)
  | inr t ↦ rw t (keep-All P test sound xs)
]

module _ (go : Platform) where
  -- A full replacement establishes the invariant, whatever was held.
  announce-IsSound : (r : Store × List Text) → IsSound r.0 → IsSound (announce r).0
  announce-IsSound (s, []) sound = sound
  announce-IsSound (s, k ∷ ks) sound = sound

  replace_all-IsSound : (resp : FlagsResponse) (s : Store) → IsSound (replace_all go resp s).0
  unfolding replace_all drop_unevaluable set_all
  replace_all-IsSound resp s =
      let (flags, segments) = drop_unevaluable resp.flags resp.segments in
      announce-IsSound (set_all go flags segments s) (
        fill_flags-Holds flags []
            (keep-All IsEvaluable (λ f. is_none (unevaluable_flag_reason f))
              (λ f e. (flag_known f).0 ((is_none_iff (unevaluable_flag_reason f)).0 e)) resp.flags)
            (Holds-nil IsServable),
        fill_segments-Holds segments []
            (keep-All (λ r. IsKnownLogic r.condition_logic)
              (λ r. is_none (unevaluable_segment_reason r))
              (λ r e. (segment_known r).0 ((is_none_iff (unevaluable_segment_reason r)).0 e))
              resp.segments)
            (Holds-nil IsUsable),
      )

  refreshed-IsSound :
      (response : Fetched FlagsResponse) (s : Store)
      → IsSound s
      → IsSound (refreshed go response s).0
  refreshed-IsSound (failed e) s sound = sound
  refreshed-IsSound (fetched resp) s sound = replace_all-IsSound resp s

  apply_upsert-IsSound :
      (response : Fetched Flag) (s : Store) → IsSound s → IsSound (apply_upsert go response s).0
  unfolding set_flag
  apply_upsert-IsSound (failed e) s sound = sound
  apply_upsert-IsSound (fetched flag) s sound =
      elim (Bool-cases (is_none (unevaluable_flag_reason flag))) [
        | inl known ↦
            let evaluable =
              (flag_known flag).0 ((is_none_iff (unevaluable_flag_reason flag)).0 known) in
            rw known (
              announce-IsSound (set_flag go flag s) (
                if_rule {A = Store × List Text} (λ r. IsSound r.0)
                  (is_unchanged go.flag_equal flag (lookup flag.key s.flags)) sound
                  (
                    insert-Holds IsServable flag.key flag s.flags (refl, evaluable) sound.0,
                    sound.1,
                  )))
        | inr strange ↦ rw strange sound
      ]

  remove_flag-IsSound : (key : Text) (s : Store) → IsSound s → IsSound (remove_flag key s).0
  unfolding remove_flag
  remove_flag-IsSound key s sound = at (lookup key s.flags)
    where
      at :
          (o : Option Flag)
          → IsSound
              (elim o as (λ _. Store × List Text) [
                | none ↦ (s, [])
                | some held ↦
                    (record s { flags = erase key s.flags }, single_change (erase key s.flags) key)
              ]).0
      at none = sound
      at (some held) = (erase-Holds IsServable key s.flags sound.0, sound.1)

  module _ (codec : Codec) (answers : Answers) where
    handle_kind-IsSound :
        (kind : Kind) (payload : Text) (s : Store)
        → IsSound s
        → IsSound (handle_kind go codec answers kind payload s).0
    unfolding handle_kind
    handle_kind-IsSound upsert payload s sound =
        at (event_key (codec.unmarshal_stream_event payload))
      where
        at :
            (o : Option Text)
            → IsSound
                (elim o as (λ _. Store × Option (List Text)) [
                  | none ↦ (s, none)
                  | some key ↦ apply_upsert go (get_flag codec (answers.for_flag key)) s
                ]).0
        at none = sound
        at (some key) = apply_upsert-IsSound (get_flag codec (answers.for_flag key)) s sound
    handle_kind-IsSound deletion payload s sound =
        at (event_key (codec.unmarshal_stream_event payload))
      where
        at :
            (o : Option Text)
            → IsSound
                (elim o as (λ _. Store × Option (List Text)) [
                  | none ↦ (s, none)
                  | some key ↦ announce (remove_flag key s)
                ]).0
        at none = sound
        at (some key) = announce-IsSound (remove_flag key s) (remove_flag-IsSound key s sound)
    handle_kind-IsSound segment_update payload s sound =
        refreshed-IsSound (get_flags codec answers.for_flags) s sound
    handle_kind-IsSound sync payload s sound =
        refreshed-IsSound (decoded (codec.unmarshal_flags payload)) s sound
    handle_kind-IsSound unknown payload s sound = sound

-- What the data sources do to the store: an event with the server's answers to the requests it leads
-- to, and a poll with the server's answer.
pub data Update : Type 0 where
  event : Answers → Text → Text → Update
  polled : Answer → Update

abbrev pub apply_update : Platform → Codec → Update → Store → Store
apply_update go codec (event answers event_type payload) s =
    (handle_event go codec answers event_type payload s).0
apply_update go codec (polled answer) s = (poll go codec answer s).0

pub apply_updates : Platform → Codec → List Update → Store → Store
apply_updates go codec [] s = s
apply_updates go codec (u ∷ us) s = apply_updates go codec us (apply_update go codec u s)

update-IsSound :
    (go : Platform) (codec : Codec) (u : Update) (s : Store)
    → IsSound s
    → IsSound (apply_update go codec u s)
unfolding handle_event poll
update-IsSound go codec (event answers event_type payload) s sound =
    handle_kind-IsSound go codec answers (kind_of event_type) payload s sound
update-IsSound go codec (polled answer) s sound =
    refreshed-IsSound go (get_flags codec answer) s sound

-- Through any sequence of stream events and polls, whatever the server sends and answers: a store of
-- flags and segments that stand under their own keys and carry no serve type or condition logic that
-- this build does not know stays one.
pub apply_updates-IsSound :
    (go : Platform) (codec : Codec) (us : List Update) (s : Store)
    → IsSound s
    → IsSound (apply_updates go codec us s)
unfolding apply_updates
apply_updates-IsSound go codec [] s sound = sound
apply_updates-IsSound go codec (u ∷ us) s sound =
    apply_updates-IsSound go codec us (apply_update go codec u s)
      (update-IsSound go codec u s sound)
