-- ===== src/Client/Shutdown.antt =====
-- shared_core.go, release's end and shutdown, with events.go, inspector.go and featureflip.go: what a
-- core does after its last handle is closed. A goroutine can have a closed core for a read that it began
-- before. The data sources are those of Polling and Streaming.
use featureflip_go.Base.{ℕ, ◌≡◌, refl, ap, Bool, true, false, List, [], ◌∷◌, Text}
use featureflip_go.Models.{EvaluationContext, SdkEvent}
use featureflip_go.Events.{Outcome, Reply, EventProcessor, flush, stop}
use featureflip_go.Events.Closed.{stop-ends, enqueue-closed, flush-empty}
use featureflip_go.Client.{Core, Surroundings, GoType, variation, record_evaluation}
use featureflip_go.Client.Inspector.{notify_inspectors}
use featureflip_go.Client.Listeners.{Registry, drop_listeners, notify_update_listeners}

-- After the map: shutDown is set by the compare-and-swap before.
unfoldable pub shutdown {ℓ} : {L : Type ℓ} → (ℕ → Reply) → Core → Registry L → Core × Registry L
shutdown replies core r =
    (record core { ep = (stop replies core.ep).0; is_shut_down = true }, drop_listeners r)

unheard {ℓ} :
    {L : Type ℓ} (keys : List Text) (r : Registry L)
    → notify_update_listeners keys (drop_listeners r) ≡ []
unfolding notify_update_listeners
unheard [] r = refl
unheard (k ∷ ks) r = refl

-- After the shutdown of a core whose event processor was open, nothing leaves it: a read through a
-- handle adds no event and calls no inspector, a flush posts nothing, and an update calls no listener.
pub shutdown-silences {ℓ} :
    {T : Type 0} {L : Type ℓ} (ty : GoType T) (closed : Bool) (here : Surroundings) (key : Text)
    (ctx : EvaluationContext) (default_value : T) (replies again : ℕ → Reply) (core : Core)
    (r : Registry L) (keys : List Text)
    → core.ep.closed ≡ false
    → ((variation ty closed here key ctx default_value (shutdown replies core r).0).core.ep
        ≡ (shutdown replies core r).0.ep)
      × ((variation ty closed here key ctx default_value (shutdown replies core r).0).notified ≡ [])
      × ((flush again (shutdown replies core r).0.ep).1 ≡ [])
      × (notify_update_listeners keys (shutdown replies core r).1 ≡ [])
unfolding shutdown variation record_evaluation notify_inspectors notify_update_listeners
shutdown-silences ty true here key ctx default_value replies again core r keys opened =
    let ends = stop-ends replies core.ep opened in
    (refl, refl, flush-empty again (stop replies core.ep).0 ends.1, unheard keys r)
shutdown-silences ty false here key ctx default_value replies again core r keys opened =
    let ends = stop-ends replies core.ep opened in
    (
      ap (λ (q : EventProcessor SdkEvent × List (List SdkEvent × Outcome)). q.0)
          (enqueue-closed here.now here.replies _ (stop replies core.ep).0 ends.0),
      refl,
      flush-empty again (stop replies core.ep).0 ends.1,
      unheard keys r,
    )
