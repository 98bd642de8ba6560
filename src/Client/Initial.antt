-- ===== src/Client/Initial.antt =====
-- shared_core.go: a new core, and its initialisation.
use featureflip_go.Base.{
  Bool, true, false, ◌&&◌, ◌||◌, List, Option, none, some, Text, if◌then◌else◌, is_empty,
}
use featureflip_go.Base.Int.{ℤ, pos, pos_part, ltb_ℤ}
use featureflip_go.Models.{FlagsResponse}
use featureflip_go.Platform.{Platform}
use featureflip_go.Http.{Fetched, fetched, failed}
use featureflip_go.Store.{Store, new_store, set_all}
use featureflip_go.Events.{default_max_event_queue_size, new_event_processor_with_bound}
use featureflip_go.Config.{Config}
use featureflip_go.Client.{Core}
use featureflip_go.Client.Inspector.{filter_inspectors}

-- `none` is the panic of make([]sdkEvent, 0, batchSize) on a negative batch size; memory is taken to
-- hold any other. The interval is the
-- one given where it is positive; `do_init` ends the program where it is not.
unfoldable pub new_shared_core : Config → List Text → Option Core
new_shared_core cfg seen =
    if ltb_ℤ cfg.flush_batch_size (pos 0)
    then none
    else some (record {
      store = new_store;
      ep =
          new_event_processor_with_bound true (pos_part cfg.flush_batch_size)
            (pos_part cfg.flush_interval) (pos default_max_event_queue_size);
      inspectors = filter_inspectors cfg.inspectors;
      is_shut_down = false;
      initialized = false;
      seen = seen;
    })

-- The store after the initial fetch: `none` where it did not end within the timeout.
unfoldable pub initial_load : Platform → Option (Fetched FlagsResponse) → Store → Store
initial_load go none s = s
initial_load go (some (failed e)) s = s
initial_load go (some (fetched resp)) s = (set_all go resp.flags resp.segments s).0

-- The data source that is started: the stream, with its timeout, or the poller, with its interval.
pub data DataSource : Type 0 where
  streams polls : ℤ → DataSource

-- time.NewTicker takes a positive interval.
abbrev is_ticker_interval : ℤ → Bool
is_ticker_interval interval = ltb_ℤ (pos 0) interval

-- It has no error. `none` is the end of the program by a panic of time.NewTicker on an interval that
-- is not positive: in the goroutine that flushes, or in that which polls.
unfoldable pub do_init :
    Platform → Config → Option (Fetched FlagsResponse) → Core → Option (Core × DataSource)
do_init go cfg result core =
    if is_ticker_interval cfg.flush_interval
      && (cfg.streaming || is_ticker_interval cfg.poll_interval)
    then some (
      record core { store = initial_load go result core.store; initialized = true },
      if cfg.streaming then streams cfg.connect_timeout else polls cfg.poll_interval,
    )
    else none

-- The SDK key of Get, from its argument and the environment variable: `none` is its error.
unfoldable pub sdk_key_of : Text → Text → Option Text
sdk_key_of given variable =
    let key = if is_empty given then variable else given in if is_empty key then none else some key
