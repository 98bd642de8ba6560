-- ===== src/Polling/Tests.antt =====
-- The theorem on the loop, for a poller that polls, gets a tick, polls again, and is stopped.
use featureflip_go.Base.{[], ◌∷◌, List, none, codes}
use featureflip_go.Http.{Codec, answered, unanswered}
use featureflip_go.Store.{new_store}
use featureflip_go.Samples.{plain, b_flag}
use featureflip_go.Samples.Server.{codec, no_flags}
use featureflip_go.Polling.Paced.{IsPaced, tick_count, run-paced}
use featureflip_go.Polling.Loop.{
  Happening, ticks, cancels, takes_done, takes_tick, answers, new_poll_source, run,
}

abbrev one_flag : Codec
one_flag = record codec { decode_flags = λ s. (record no_flags { flags = b_flag ∷ [] }, none) }

abbrev history : List Happening
history =
    answers (answered 200 (codes "{}"))
    ∷ ticks
    ∷ takes_tick
    ∷ cancels
    ∷ answers unanswered
    ∷ takes_done
    ∷ ticks
    ∷ []

run-paced_example :
    IsPaced plain one_flag new_store
      (tick_count history)
      (run plain one_flag history (new_poll_source new_store))
run-paced_example = run-paced plain one_flag new_store history
