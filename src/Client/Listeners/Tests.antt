-- ===== src/Client/Listeners/Tests.antt =====
-- The theorem on the registry, for two handles of which one is closed.
use featureflip_go.Base.{ℕ, ◌≡◌, List, [], ◌∷◌, some, codes}
use featureflip_go.Client.Listeners.{no_listeners, notify_update_listeners}
use featureflip_go.Client.Listeners.Standing.{
  Op, subscribes, unsubscribes, closes, apply_ops, stands, no_subscriptions,
}
use featureflip_go.Client.Listeners.Subscriptions.{called, notify_update_listeners-stands}

-- A listener is a number.
abbrev history : List (Op ℕ)
history =
    subscribes 0 (some 10)
    ∷ subscribes 1 (some 11)
    ∷ subscribes 1 (some 12)
    ∷ unsubscribes 1
    ∷ closes 0
    ∷ subscribes 0 (some 13)
    ∷ []

notify_update_listeners-stands_example :
    notify_update_listeners (codes "a" ∷ []) (apply_ops history no_listeners)
    ≡ called (codes "a" ∷ []) (stands history no_subscriptions).subscriptions
notify_update_listeners-stands_example = notify_update_listeners-stands history (codes "a") []
