-- ===== src/Client/Live.antt =====
-- featureflip.go with streaming.go and polling.go: a read before and after a live update.
use featureflip_go.Base.{ℕ, ◌≡◌, ◌≤◌, refl, ap, Bool, true, false, List, Option, none, some, Text}
use featureflip_go.Base.Dict.{lookup}
use featureflip_go.Models.{Value, Flag, Segment, EvaluationContext}
use featureflip_go.Platform.{Platform}
use featureflip_go.Http.{Codec}
use featureflip_go.Store.{Store, get_flag}
use featureflip_go.Streaming.Invariant.{Update}
use featureflip_go.Evaluation.{evaluate, max_prerequisite_depth}
use featureflip_go.Evaluation.Rules.{Sorts}
use featureflip_go.Evaluation.Reference.{IsRanked}
use featureflip_go.Consistency.{world_of, IsNamed}
use featureflip_go.Consistency.Announced.{IsUnannounced, applied}
use featureflip_go.Consistency.Live.{evaluate-applied, lookup-applied}
use featureflip_go.Client.{
  Core, Surroundings, Read, GoType, checked, evaluate_flag, narrow, variation, evaluation_event,
  record_evaluation,
}
use featureflip_go.Client.Inspector.{notify_inspectors}
use featureflip_go.Events.{enqueue}

module _ (go : Platform) (s t : Store) (key : Text) (ctx : EvaluationContext) (seen : List Text)
    (default_value : Value) where
  evaluate_flag-agree :
      (o : Option Flag)
      → lookup key s.flags ≡ o
      → lookup key t.flags ≡ o
      → ((f : Flag)
          → lookup key t.flags ≡ some f
          → (evaluate (world_of go ctx s) f seen).0 ≡ (evaluate (world_of go ctx t) f seen).0)
      → (evaluate_flag go s key ctx default_value seen).0
        ≡ (evaluate_flag go t key ctx default_value seen).0
  unfolding evaluate_flag get_flag
  evaluate_flag-agree none before after same = rw (evaluate_flag, before, after) refl
  evaluate_flag-agree (some f) before after same =
      rw (evaluate_flag, before, after) (ap (checked f) (same f after))

-- Two reads with one result, one event for the processor and the same calls of inspectors.
abbrev pub IsSameRead : {T : Type 0} → Read T → Read T → Type 0
IsSameRead a b = (a.value ≡ b.value) × (a.core.ep ≡ b.core.ep) × (a.notified ≡ b.notified)

-- A read of a key through a typed accessor gives the same value, records the same event and calls the
-- inspectors with the same before and after a stream event or a poll that does not announce the key to
-- the listeners, whatever the server sends and answers, whether the flag is held or not. Of the
-- platform: sort.Slice sorts, and reflect.DeepEqual tells different flags and segments apart. Of both
-- configurations: flags stand under their keys, prerequisites have no cycle and the key's rank among
-- them is at most the maximum depth; of the later one: no prerequisite has the empty key.
pub variation-applied :
    {T : Type 0} (ty : GoType T) (closed : Bool) (here : Surroundings) (key : Text)
    (ctx : EvaluationContext) (default_value : T) (core : Core) (codec : Codec) (u : Update)
    (rank rank' : Text → ℕ)
    → Sorts here.platform
    → ((f g : Flag) → here.platform.flag_equal f g ≡ true → f ≡ g)
    → ((r t : Segment) → here.platform.segment_equal r t ≡ true → r ≡ t)
    → IsUnannounced key (applied here.platform codec u core.store).1
    → IsNamed (applied here.platform codec u core.store).0
    → IsRanked rank core.store.flags
    → IsRanked rank' (applied here.platform codec u core.store).0.flags
    → rank key ≤ max_prerequisite_depth
    → rank' key ≤ max_prerequisite_depth
    → IsSameRead (variation ty closed here key ctx default_value core) (
        variation ty closed here key ctx default_value
          (record core { store = (applied here.platform codec u core.store).0 }))
unfolding variation record_evaluation
variation-applied ty true here key ctx default_value core codec u rank rank' sorts flags_sound
      segments_sound silent named ranked ranked' low low' =
    (refl, refl, refl)
variation-applied ty false here key ctx default_value core codec u rank rank' sorts flags_sound
      segments_sound silent named ranked ranked' low low' =
    let store = (applied here.platform codec u core.store).0 in
    let before =
      (evaluate_flag here.platform core.store key ctx (ty.wrap default_value) core.seen).0 in
    let same : before
        ≡ (evaluate_flag here.platform store key ctx (ty.wrap default_value) core.seen).0 =
      evaluate_flag-agree here.platform core.store store key ctx core.seen (ty.wrap default_value)
        (lookup key store.flags)
        (lookup-applied here.platform flags_sound codec key core.store u silent) refl
        (λ f held.
          evaluate-applied here.platform sorts flags_sound segments_sound codec ctx key f core.store
            u core.seen rank rank' silent held named ranked ranked' low low') in
    (
      ap (λ d. (narrow ty d default_value).0) same,
      ap
          (λ d.
            (enqueue here.now here.replies
              (evaluation_event here.time key ctx (narrow ty d default_value).1) core.ep).0)
          same,
      ap
          (λ d.
            notify_inspectors core.inspectors core.is_shut_down here.time_nano key ctx
              (narrow ty d default_value).1)
          same,
    )
