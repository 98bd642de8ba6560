-- ===== src/Events.antt =====
-- events.go: the buffer of events and the loop that posts it. Each operation runs to its end before
-- the next one starts, so a wait for another drain returns at once; the endpoint is a list of replies
-- by the number of the request.
pub mod Laws
pub mod Empties
pub mod Bounds
pub mod Closed
pub mod Concurrent
mod Tests
use featureflip_go.Base.{
  ℕ, zero, suc, ◌+◌, ◌-◌, Bool, true, false, not, ◌||◌, List, [], ◌∷◌, ◌++◌, if◌then◌else◌, ltb,
  leb, length, take, drop,
}
use featureflip_go.Base.Int.{ℤ, pos, negsuc}

-- What postEvents gives, in the classes of isRetryableSendFailure.
pub data Outcome : Type 0 where
  delivered : Outcome
  retryable : Outcome
  rejected : Outcome

-- A reply, with the clock when it comes. Instants are nanoseconds from the zero time.
pub record Reply : Type 0 where
  pub outcome : Outcome
  pub now : ℕ

pub record EventProcessor {ℓ} (A : Type ℓ) : Type ℓ where
  pub has_client : Bool
  pub batch_size : ℕ
  pub interval : ℕ
  pub max_queue_size : ℕ
  pub buf : List A
  pub closed : Bool
  pub next_auto_flush_at : ℕ
  pub auto_flush_in_flight : Bool
  pub draining : Bool

abbrev pub default_max_event_queue_size : ℕ
default_max_event_queue_size = 10000

unfoldable pub bound : ℤ → ℕ
bound (pos zero) = default_max_event_queue_size
bound (pos (suc n)) = suc n
bound (negsuc n) = default_max_event_queue_size

module _ {ℓ} {A : Type ℓ} where
  unfoldable pub new_event_processor_with_bound : Bool → ℕ → ℕ → ℤ → EventProcessor A
  new_event_processor_with_bound has_client batch_size interval max_queue_size = record {
    has_client = has_client;
    batch_size = batch_size;
    interval = interval;
    max_queue_size = bound max_queue_size;
    buf = [];
    closed = false;
    next_auto_flush_at = 0;
    auto_flush_in_flight = false;
    draining = false;
  }

  -- The buffer after trimOldestLocked, and how many events it shed.
  unfoldable pub trim_oldest : ℕ → List A → List A × ℕ
  trim_oldest max_queue_size buf =
      (drop (length buf - max_queue_size) buf, length buf - max_queue_size)

  unfoldable pub batch_length : ℕ → List A → ℕ
  batch_length batch_size buf =
      let size = if ltb batch_size 1 then 1 else batch_size in
      if ltb (length buf) size then length buf else size

  unfoldable pub drain_batch : EventProcessor A → List A × EventProcessor A
  drain_batch ep = (
    take (batch_length ep.batch_size ep.buf) ep.buf,
    record ep { buf = drop (batch_length ep.batch_size ep.buf) ep.buf },
  )

  unfoldable pub requeue : ℕ → List A → EventProcessor A → EventProcessor A × ℕ
  requeue now [] ep = (ep, 0)
  requeue now (e ∷ es) ep = if ep.closed then (ep, length (e ∷ es)) else (
    record ep {
      buf = (trim_oldest ep.max_queue_size (e ∷ es ++ ep.buf)).0;
      next_auto_flush_at = now + ep.interval;
    },
    (trim_oldest ep.max_queue_size (e ∷ es ++ ep.buf)).1,
  )

  -- What follows a reply: the new state, and whether the loop goes on.
  unfoldable pub settle : Outcome → ℕ → List A → EventProcessor A → EventProcessor A × Bool
  settle delivered now events ep = (record ep { next_auto_flush_at = 0 }, true)
  settle rejected now events ep = (ep, not ep.closed)
  settle retryable now events ep = ((requeue now events ep).0, false)

  -- The end of a round, from its batch, its reply and what would follow it.
  unfoldable pub finish :
      List A
      → Outcome
      → EventProcessor A
      → EventProcessor A × Bool
      → EventProcessor A × List (List A × Outcome)
      → EventProcessor A × List (List A × Outcome)
  finish [] outcome rest (settled, goes_on) (last, posts) = (rest, [])
  finish (e ∷ es) outcome rest (settled, true) (last, posts) = (last, (e ∷ es, outcome) ∷ posts)
  finish (e ∷ es) outcome rest (settled, false) (last, posts) = (settled, (e ∷ es, outcome) ∷ [])

  -- The loop of drain from request `n` on: the state after it, and the batches posted, in order,
  -- with what became of each.
  unfoldable pub drain_loop :
      ℕ → (ℕ → Reply) → ℕ → EventProcessor A → EventProcessor A × List (List A × Outcome)
  drain_loop zero replies n ep = (ep, [])
  drain_loop (suc fuel) replies n ep =
      let (events, rest) = drain_batch ep in
      let settled = settle (replies n).outcome (replies n).now events rest in
      finish events (replies n).outcome rest settled (drain_loop fuel replies (suc n) settled.0)

  -- Each round but the last shortens the buffer.
  unfoldable pub drain : (ℕ → Reply) → EventProcessor A → EventProcessor A × List (List A × Outcome)
  drain replies ep =
      if ep.has_client then drain_loop (suc (length ep.buf)) replies 0 ep else (ep, [])

  unfoldable pub flush : (ℕ → Reply) → EventProcessor A → EventProcessor A × List (List A × Outcome)
  flush replies ep =
      if not ep.has_client || ep.draining
      then (ep, [])
      else let (after, posts) = drain replies (record ep { draining = true }) in
        (record after { draining = false }, posts)

  unfoldable pub auto_flush :
      ℕ → (ℕ → Reply) → EventProcessor A → EventProcessor A × List (List A × Outcome)
  auto_flush now replies ep =
      if ep.closed || (ep.auto_flush_in_flight || ltb now ep.next_auto_flush_at)
      then (ep, [])
      else let (after, posts) = flush replies (record ep { auto_flush_in_flight = true }) in
        (record after { auto_flush_in_flight = false }, posts)

  -- The first half of enqueue, under the lock.
  unfoldable pub append : A → EventProcessor A → EventProcessor A
  append event ep = record ep { buf = (trim_oldest ep.max_queue_size (ep.buf ++ event ∷ [])).0 }

  unfoldable pub enqueue :
      ℕ → (ℕ → Reply) → A → EventProcessor A → EventProcessor A × List (List A × Outcome)
  enqueue now replies event ep =
      if not ep.has_client || ep.closed
      then (ep, [])
      else if leb ep.batch_size (length (append event ep).buf)
      then auto_flush now replies (append event ep)
      else (append event ep, [])

  unfoldable pub stop : (ℕ → Reply) → EventProcessor A → EventProcessor A × List (List A × Outcome)
  stop replies ep =
      if ep.closed
      then (ep, [])
      else let (after, posts) = drain replies (record ep { closed = true }) in
        (record after { buf = [] }, posts)
