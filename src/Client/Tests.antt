-- ===== src/Client/Tests.antt =====
-- The theorems on the typed accessors, for a flag read as a text, and on a shutdown.
use featureflip_go.Base.{ℕ, ◌≡◌, refl, true, false, [], ◌∷◌, codes}
use featureflip_go.Base.Int.{pos}
use featureflip_go.Samples.{plain, two_flags, b_key, visitor}
use featureflip_go.Events.{Outcome, new_event_processor_with_bound, flush}
use featureflip_go.Client.Listeners.{Registry, no_listeners, notify_update_listeners}
use featureflip_go.Client.Shutdown.{shutdown, shutdown-silences}
use featureflip_go.Client.{Core, Surroundings, variation}
use featureflip_go.Client.Accessors.{text_type}

abbrev core : Core
core = record {
  store = record { flags = two_flags; segments = [] };
  ep = new_event_processor_with_bound true 100 30000000000 (pos 0);
  inspectors = 0 ∷ 1 ∷ [];
  is_shut_down = false;
  initialized = true;
  seen = [];
}

abbrev here : Surroundings
here = record {
  platform = plain;
  time = codes "2026-01-02T03:04:05Z";
  time_nano = codes "2026-01-02T03:04:05.000000006Z";
  now = 7;
  replies = λ n. record { outcome = Outcome.delivered; now = 8 };
}

-- One listener, of a number.
abbrev listening : Registry ℕ
listening = record no_listeners { update_listeners = (0, 5) ∷ []; next_listener_id = 1 }

core-opened : core.ep.closed ≡ false
unfolding new_event_processor_with_bound
core-opened = refl

abbrev ended : Core × Registry ℕ
ended = shutdown here.replies core listening

shutdown-silences_example :
    ((variation text_type false here b_key visitor (codes "none") ended.0).core.ep ≡ ended.0.ep)
    × ((variation text_type false here b_key visitor (codes "none") ended.0).notified ≡ [])
    × ((flush here.replies ended.0.ep).1 ≡ [])
    × (notify_update_listeners (b_key ∷ []) ended.1 ≡ [])
shutdown-silences_example =
    shutdown-silences text_type false here b_key visitor (codes "none") here.replies here.replies
      core listening (b_key ∷ []) core-opened
