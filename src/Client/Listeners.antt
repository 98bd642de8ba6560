-- ===== src/Client/Listeners.antt =====
-- shared_core.go and featureflip.go: the registry of update listeners, and the subscriptions of the
-- handles of a core. Each operation runs to its end before the next one starts; the
-- order of the listeners is one that a range over the map can have.
pub mod Standing
pub mod Subscriptions
pub mod Overlap
pub mod Accounts
pub mod Registered
mod Tests
mod OverlapTests
use featureflip_go.Base.{
  ℕ, suc, Bool, true, false, ◌||◌, List, [], ◌∷◌, ◌++◌, Option, none, some, Text, map,
  if◌then◌else◌, ◌==◌,
}

-- The registry, with the next id, and for each handle whether it is closed and what it subscribed.
pub record Registry {ℓ} (L : Type ℓ) : Type ℓ where
  pub update_listeners : List (ℕ × L)
  pub next_listener_id : ℕ
  pub disposed : ℕ → Bool
  pub unsubs : ℕ → List ℕ

abbrev pub put {ℓ} : {A : Type ℓ} → (ℕ → A) → ℕ → A → ℕ → A
put f i a j = if i == j then a else f j

module _ {ℓ} {L : Type ℓ} where
  abbrev pub no_listeners : Registry L
  no_listeners = record {
    update_listeners = [];
    next_listener_id = 0;
    disposed = λ h. false;
    unsubs = λ h. [];
  }

  -- `delete(sc.updateListeners, id)`
  unfoldable pub delete : ℕ → List (ℕ × L) → List (ℕ × L)
  delete id [] = []
  delete id ((j, l) ∷ ls) = let rest = delete id ls in if j == id then rest else (j, l) ∷ rest

  -- OnUpdate of a handle, with addUpdateListener; `none` is a nil listener. Its result is the id that
  -- the returned function unsubscribes.
  unfoldable pub on_update : ℕ → Option L → Registry L → Registry L × Option ℕ
  on_update h none r = (r, none)
  on_update h (some l) r = if r.disposed h then (r, none) else (
    record r {
      update_listeners = r.update_listeners ++ (r.next_listener_id, l) ∷ [];
      next_listener_id = suc r.next_listener_id;
      unsubs = put r.unsubs h (r.next_listener_id ∷ r.unsubs h);
    },
    some r.next_listener_id,
  )

  -- The function that OnUpdate returns; a second call finds no entry of the id.
  abbrev pub unsubscribe : ℕ → Registry L → Registry L
  unsubscribe id r = record r { update_listeners = delete id r.update_listeners }

  unfoldable pub delete_all : List ℕ → List (ℕ × L) → List (ℕ × L)
  delete_all [] ls = ls
  delete_all (id ∷ ids) ls = delete_all ids (delete id ls)

  -- Close, up to its release of the core.
  unfoldable pub close : ℕ → Registry L → Registry L
  close h r = if r.disposed h then r else record r {
    update_listeners = delete_all (r.unsubs h) r.update_listeners;
    disposed = put r.disposed h true;
    unsubs = put r.unsubs h [];
  }

  -- The end of shutdown.
  abbrev pub drop_listeners : Registry L → Registry L
  drop_listeners r = record r { update_listeners = [] }

  -- notifyUpdateListeners: who is called, each with a copy of the keys. A panic is recovered.
  unfoldable pub notify_update_listeners : List Text → Registry L → List (L × List Text)
  notify_update_listeners [] r = []
  notify_update_listeners (k ∷ ks) r = map (λ e. (e.1, k ∷ ks)) r.update_listeners
