-- ===== src/Http.antt =====
-- httpclient.go: what the client makes of the server's answers. encoding/json on the wire types is a
-- record of functions, and net/http is the answer to a request.
pub mod Agent
pub mod Requests
pub mod Routes
mod Tests
use featureflip_go.Base.{
  ℕ, Bool, true, false, not, ◌||◌, List, Option, none, some, Text, if◌then◌else◌, ltb, leb, ◌==◌,
}
use featureflip_go.Models.{Flag, FlagsResponse, SdkEvent, StreamEvent}
use featureflip_go.Events.{Outcome, delivered, retryable, rejected}

-- The errors of decoding: json.SyntaxError, json.UnmarshalTypeError, io.ErrUnexpectedEOF, any other.
pub data JsonError : Type 0 where
  syntax_error type_error cut_short other_error : JsonError

-- The errors of encoding.
pub data EncodeError : Type 0 where
  unsupported_type unsupported_value marshaler_error other_error : EncodeError

pub data Encoded : Type 0 where
  encoded : Text → Encoded
  unencodable : EncodeError → Encoded

-- json.Decoder.Decode of a body and json.Unmarshal of a text: what was decoded, in part where there
-- is an error, and the error. json.Marshal of a batch of events.
pub record Codec : Type 0 where
  pub decode_flags : Text → FlagsResponse × Option JsonError
  pub decode_flag : Text → Flag × Option JsonError
  pub unmarshal_flags : Text → FlagsResponse × Option JsonError
  pub unmarshal_stream_event : Text → StreamEvent × Option JsonError
  pub marshal_events : List SdkEvent → Encoded

-- http.NewRequest fails; Do fails; there is a response.
pub data Answer : Type 0 where
  not_created unanswered : Answer
  answered : ℕ → Text → Answer

pub data FetchError : Type 0 where
  no_request no_response : FetchError
  unexpected_status : ℕ → FetchError
  undecodable : JsonError → FetchError

pub data Fetched {ℓ} (A : Type ℓ) : Type ℓ where
  fetched : A → Fetched A
  failed : FetchError → Fetched A

unfoldable pub is_malformed_payload : FetchError → Bool
is_malformed_payload (undecodable syntax_error) = true
is_malformed_payload (undecodable type_error) = true
is_malformed_payload _ = false

-- A partly decoded value is not returned.
abbrev pub decoded {ℓ} : {A : Type ℓ} → A × Option JsonError → Fetched A
decoded (value, none) = fetched value
decoded (value, some e) = failed (undecodable e)

abbrev pub get {ℓ} : {A : Type ℓ} → (Text → A × Option JsonError) → Answer → Fetched A
get decode not_created = failed no_request
get decode unanswered = failed no_response
get decode (answered status body) =
    if status == 200 then decoded (decode body) else failed (unexpected_status status)

-- The answer is that to the request for all flags, or for the flag of a key.
unfoldable pub get_flags : Codec → Answer → Fetched FlagsResponse
get_flags codec answer = get codec.decode_flags answer

unfoldable pub get_flag : Codec → Answer → Fetched Flag
get_flag codec answer = get codec.decode_flag answer

pub data SendError : Type 0 where
  not_encoded : EncodeError → SendError
  not_sent : SendError
  send_error : ℕ → SendError

-- eventSendError.retryable
abbrev pub is_retryable_status : ℕ → Bool
is_retryable_status status = leb 500 status || status == 429

unfoldable pub is_retryable_send_failure : SendError → Bool
is_retryable_send_failure (send_error status) = is_retryable_status status
is_retryable_send_failure (not_encoded unsupported_type) = false
is_retryable_send_failure (not_encoded unsupported_value) = false
is_retryable_send_failure (not_encoded marshaler_error) = false
is_retryable_send_failure (not_encoded EncodeError.other_error) = true
is_retryable_send_failure not_sent = true

abbrev sent : Answer → Option SendError
sent not_created = some not_sent
sent unanswered = some not_sent
sent (answered status body) =
    if ltb status 200 || leb 300 status then some (send_error status) else none

-- `answer` is the server's answer to a body.
unfoldable pub post_events : Codec → (Text → Answer) → List SdkEvent → Option SendError
post_events codec answer events = elim (codec.marshal_events events) [
  | encoded body ↦ sent (answer body)
  | unencodable e ↦ some (not_encoded e)
]

-- The arm of drain's switch that the result of a post takes.
unfoldable pub outcome : Option SendError → Outcome
outcome none = delivered
outcome (some e) = if not (is_retryable_send_failure e) then rejected else retryable
