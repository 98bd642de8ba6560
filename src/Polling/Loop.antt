-- ===== src/Polling/Loop.antt =====
-- polling.go: the goroutine of run, its ticker and the cancellation by stop.
use featureflip_go.Base.{Bool, true, false, List, [], ◌∷◌, ◌++◌, Option, Text, if◌then◌else◌}
use featureflip_go.Platform.{Platform}
use featureflip_go.Http.{Codec, Answer}
use featureflip_go.Store.{Store}
use featureflip_go.Polling.{poll}

-- Where the goroutine is: in the poll at the start, in the select, in a poll after a tick, at its end.
pub data Place : Type 0 where
  first selecting polling returned : Place

-- The source with the store that it updates; `tick` says that the ticker's channel holds a tick. Then
-- what it was told, in order: the answers to its polls, and for each the call of onUpdate.
pub record PollSource : Type 0 where
  pub store : Store
  pub cancelled : Bool
  pub tick : Bool
  pub place : Place
  pub answers : List Answer
  pub announced : List (Option (List Text))

abbrev pub new_poll_source : Store → PollSource
new_poll_source s = record {
  store = s;
  cancelled = false;
  tick = false;
  place = first;
  answers = [];
  announced = [];
}

-- What happens next: a tick, of which a full channel keeps one; the call of stop; the answer to a poll;
-- the select takes the arm of ctx.Done or that of the ticker.
pub data Happening : Type 0 where
  ticks cancels takes_done takes_tick : Happening
  answers : Answer → Happening

-- It has no effect where the goroutine is elsewhere, the channel is not ready, or the ticker is not
-- made yet.
abbrev pub at_select : (PollSource → PollSource) → Place → PollSource → PollSource
at_select f first s = s
at_select f selecting s = f s
at_select f polling s = s
at_select f returned s = s

abbrev pub has_ticker : Place → Bool
has_ticker first = false
has_ticker selecting = true
has_ticker polling = true
has_ticker returned = false

abbrev pub polled : Platform → Codec → Answer → PollSource → PollSource
polled go codec answer s = record s {
  store = (poll go codec answer s.store).0;
  place = selecting;
  answers = s.answers ++ answer ∷ [];
  announced = s.announced ++ (poll go codec answer s.store).1 ∷ [];
}

abbrev pub at_poll : (PollSource → PollSource) → Place → PollSource → PollSource
at_poll f first s = f s
at_poll f selecting s = s
at_poll f polling s = f s
at_poll f returned s = s

abbrev pub take_done : PollSource → PollSource
take_done s = if s.cancelled then record s { place = returned } else s

abbrev pub take_tick : PollSource → PollSource
take_tick s = if s.tick then record s { tick = false; place = polling } else s

unfoldable pub happen : Platform → Codec → Happening → PollSource → PollSource
happen go codec ticks s = if has_ticker s.place then record s { tick = true } else s
happen go codec cancels s = record s { cancelled = true }
happen go codec takes_done s = at_select take_done s.place s
happen go codec takes_tick s = at_select take_tick s.place s
happen go codec (answers answer) s = at_poll (polled go codec answer) s.place s

unfoldable pub run : Platform → Codec → List Happening → PollSource → PollSource
run go codec [] s = s
run go codec (h ∷ hs) s = run go codec hs (happen go codec h s)
