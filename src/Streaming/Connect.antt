-- ===== src/Streaming/Connect.antt =====
-- streaming.go, connect: a connection from its request to its end. The store is updated as the events
-- come; what another goroutine does to it in between is left out.
use featureflip_go.Base.{
  ℕ, suc, Bool, true, false, List, [], ◌∷◌, Option, none, some, Text, if◌then◌else◌, ◌==◌,
}
use featureflip_go.Platform.{Platform}
use featureflip_go.Http.{Codec}
use featureflip_go.Store.{Store}
use featureflip_go.Streaming.{Answers, handle_event}
use featureflip_go.Streaming.Frames.{Frame, blank, read_lines}

-- How the loop over the lines ends: the body does, the context is cancelled, the scanner fails.
pub data Ending : Type 0 where
  body_ends cancelled scan_fails : Ending

-- The request is not made, has no response, or has one with a status and the lines that the
-- loop comes to.
pub data Connection : Type 0 where
  not_created unanswered : Connection
  responded : ℕ → List Text → Ending → Connection

pub data StreamError : Type 0 where
  no_request no_response scan_error : StreamError
  status_error : ℕ → StreamError

-- What connect returns, the store after it, and for each event the call of onUpdate.
pub record Connected : Type 0 where
  pub reached : Bool
  pub error : Option StreamError
  pub store : Store
  pub announced : List (Option (List Text))

-- The events, one after the other. The server's answers to the requests of an event go by its number.
unfoldable pub handle_all :
    Platform → Codec → (ℕ → Answers) → ℕ → List Frame → Store → Store × List (Option (List Text))
handle_all go codec answers n [] s = (s, [])
handle_all go codec answers n (f ∷ fs) s =
    let (next, keys) = handle_event go codec (answers n) f.event_type f.payload s in
    let (last, more) = handle_all go codec answers (suc n) fs next in (last, keys ∷ more)

abbrev pub delivered : List Frame → Bool
delivered [] = false
delivered (f ∷ fs) = true

abbrev pub error_of : Ending → Option StreamError
error_of body_ends = none
error_of cancelled = none
error_of scan_fails = some scan_error

abbrev pub unconnected : StreamError → Store → Connected
unconnected e s = record { reached = false; error = some e; store = s; announced = [] }

unfoldable pub connect : Platform → Codec → (ℕ → Answers) → Connection → Store → Connected
connect go codec answers not_created s = unconnected no_request s
connect go codec answers unanswered s = unconnected no_response s
connect go codec answers (responded status lines ending) s =
    if status == 200
    then (let frames = read_lines lines blank in
        let (last, announced) = handle_all go codec answers 0 frames s in
        record {
          reached = delivered frames;
          error = error_of ending;
          store = last;
          announced = announced;
        })
    else unconnected (status_error status) s
