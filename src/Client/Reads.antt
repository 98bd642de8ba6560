-- ===== src/Client/Reads.antt =====
-- featureflip.go and inspector.go: what a typed accessor returns, and what it reports of it.
use featureflip_go.Base.{◌≡◌, ◌≢◌, true, none, some, Text}
use featureflip_go.Models.{Value, Flag, EvaluationContext, EvaluationDetail, error, flag_not_found}
use featureflip_go.Platform.{Platform}
use featureflip_go.Store.{Store, get_flag}
use featureflip_go.Events.{enqueue}
use featureflip_go.Evaluation.Serve.{variation_exists, resolve_variation_value}
use featureflip_go.Client.{Core, Surroundings, Read, GoType, evaluation_event, variation}
use featureflip_go.Client.Inspector.{notify_inspectors}

-- An assertion gives the value back, and holds of the values of its type.
pub record IsAssertion {T : Type 0} (ty : GoType T) : Type 0 where
  pub sound : (v : Value) (t : T) → ty.assert v ≡ some t → ty.wrap t ≡ v
  pub complete : (t : T) → ty.assert (ty.wrap t) ≡ some t

-- What a read of a key gives, and the reason that is reported: the default, if there is no flag; the
-- value of a variation; or the default with an error, if that value is not of the type.
pub data IsRead (go : Platform) (s : Store) {T : Type 0} (ty : GoType T) (key : Text)
    (default_value : T) (v : T) (d : EvaluationDetail) : Type 0 where
  absent :
      get_flag key s ≡ none
      → v ≡ default_value
      → d.reason ≡ flag_not_found
      → IsRead go s ty key default_value v d
  serves :
      (f : Flag)
      → get_flag key s ≡ some f
      → ty.wrap v ≡ resolve_variation_value go f.variations d.variation
      → d.reason ≢ flag_not_found
      → (d.reason ≢ error → variation_exists f.variations d.variation ≡ true)
      → IsRead go s ty key default_value v d
  mismatches :
      (f : Flag)
      → get_flag key s ≡ some f
      → ty.assert (resolve_variation_value go f.variations d.variation) ≡ none
      → v ≡ default_value
      → d.reason ≡ error
      → IsRead go s ty key default_value v d

-- A read that is reported once to the events and to each inspector, as what is returned.
pub record IsAccounted (here : Surroundings) {T : Type 0} (ty : GoType T) (key : Text)
    (ctx : EvaluationContext) (default_value : T) (core : Core) (r : Read T) : Type 0 where
  pub detail : EvaluationDetail
  pub read : IsRead here.platform core.store ty key default_value r.value detail
  pub same : detail.value ≡ ty.wrap r.value
  pub counted :
      r.core.ep
      ≡ (enqueue here.now here.replies (evaluation_event here.time key ctx detail) core.ep).0
  pub inspected :
      r.notified ≡ notify_inspectors core.inspectors core.is_shut_down here.time_nano key ctx detail
  pub kept : r.core.store ≡ core.store

module _ (go : Platform) (s : Store) {T : Type 0} (ty : GoType T) (asserts : IsAssertion ty)
    (key : Text) (default_value : T) where
  abbrev Narrowed : T × EvaluationDetail → Type 0
  Narrowed (v, d) = IsRead go s ty key default_value v d × (d.value ≡ ty.wrap v)
