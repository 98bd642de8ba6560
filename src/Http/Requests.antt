-- ===== src/Http/Requests.antt =====
-- httpclient.go: the client and the requests that it makes. net/http sends them; url.PathEscape is an
-- argument.

use featureflip_go.Base.{
  false, ◌+◌, ◌≡◌, refl, ◌∙◌, [], ◌++◌, Option, none, some, Text, codes, text_eq, if_false,
}
use featureflip_go.Base.Int.{ℤ}
use featureflip_go.Base.Dict.{Dict, lookup, insert, lookup-insert}
use featureflip_go.Config.{Config}
use featureflip_go.Streaming.Backoff.{wrap_int64, bits64}
use featureflip_go.Http.Agent.{user_agent, IsAgent, user_agent-IsAgent}

-- A time.Duration of nanoseconds, `none` where the field is not set.
pub record Timeouts : Type 0 where
  pub dial : ℤ
  pub response_header : Option ℤ
  pub overall : Option ℤ

pub record HttpClient : Type 0 where
  pub timeouts : Timeouts
  pub base_url : Text
  pub sdk_key : Text
  pub user_agent : Text

pub record HttpRequest : Type 0 where
  pub method : Text
  pub url : Text
  pub headers : Dict Text
  pub body : Text

unfoldable pub new_http_client : Text → Config → HttpClient
new_http_client sdk_key cfg = record {
  timeouts = record {
    dial = cfg.connect_timeout;
    response_header = some cfg.read_timeout;
    overall = some (wrap_int64 (bits64 cfg.connect_timeout + bits64 cfg.read_timeout));
  };
  base_url = cfg.base_url;
  sdk_key = sdk_key;
  user_agent = user_agent cfg.wrapper_name cfg.wrapper_version;
}

unfoldable pub set_headers : HttpClient → HttpRequest → HttpRequest
set_headers h req = record req {
  headers =
      insert (codes "User-Agent") h.user_agent
        (insert (codes "Authorization") h.sdk_key req.headers);
}

-- http.NewRequest, where it does not fail.
abbrev new_request : Text → Text → Text → HttpRequest
new_request method url body = record { method = method; url = url; headers = []; body = body }

abbrev with_header : Text → Text → HttpRequest → HttpRequest
with_header name value req = record req { headers = insert name value req.headers }

-- The requests of getFlags, getFlag, postEvents with its encoded body, and connect.
unfoldable pub flags_request : HttpClient → HttpRequest
flags_request h = set_headers h (new_request (codes "GET") (h.base_url ++ codes "/v1/sdk/flags") [])

unfoldable pub flag_request : (Text → Text) → Text → HttpClient → HttpRequest
flag_request path_escape key h =
    set_headers h
      (new_request (codes "GET") (h.base_url ++ (codes "/v1/sdk/flags/" ++ path_escape key)) [])

unfoldable pub events_request : Text → HttpClient → HttpRequest
events_request body h =
    with_header (codes "Content-Type") (codes "application/json")
      (set_headers h (new_request (codes "POST") (h.base_url ++ codes "/v1/sdk/events") body))

unfoldable pub new_stream_request : HttpClient → HttpRequest
new_stream_request h =
    with_header (codes "Accept") (codes "text/event-stream")
      (set_headers h (new_request (codes "GET") (h.base_url ++ codes "/v1/sdk/stream") []))

unfoldable pub stream_http_client : ℤ → Timeouts
stream_http_client connect_timeout = record {
  dial = connect_timeout;
  response_header = none;
  overall = none;
}

-- What the client asks for.
pub data Endpoint : Type 0 where
  all_flags events stream : Endpoint
  one_flag : Text → Endpoint

abbrev pub request_of : (Text → Text) → Text → HttpClient → Endpoint → HttpRequest
request_of path_escape body h all_flags = flags_request h
request_of path_escape body h (one_flag key) = flag_request path_escape key h
request_of path_escape body h events = events_request body h
request_of path_escape body h stream = new_stream_request h

-- A request names the SDK key and an agent of the right form.
pub record IsSigned (sdk_key : Text) (req : HttpRequest) : Type 0 where
  pub authorized : lookup (codes "Authorization") req.headers ≡ some sdk_key
  pub agent : Text
  pub named : lookup (codes "User-Agent") req.headers ≡ some agent
  pub well_formed : IsAgent agent

set_headers-IsSigned :
    (sdk_key : Text) (cfg : Config) (req : HttpRequest)
    → IsSigned sdk_key (set_headers (new_http_client sdk_key cfg) req)
unfolding set_headers new_http_client text_eq
set_headers-IsSigned sdk_key cfg req = record {
  authorized =
      lookup-insert (codes "User-Agent") (codes "Authorization") _ _
      ∙ lookup-insert (codes "Authorization") (codes "Authorization") sdk_key req.headers;
  agent = user_agent cfg.wrapper_name cfg.wrapper_version;
  named = lookup-insert (codes "User-Agent") (codes "User-Agent") _ _;
  well_formed = user_agent-IsAgent cfg.wrapper_name cfg.wrapper_version;
}

with_header-IsSigned :
    (sdk_key name value : Text) (req : HttpRequest)
    → text_eq name (codes "Authorization") ≡ false
    → text_eq name (codes "User-Agent") ≡ false
    → IsSigned sdk_key req
    → IsSigned sdk_key (with_header name value req)
with_header-IsSigned sdk_key name value req other another h = record {
  authorized =
      lookup-insert name (codes "Authorization") value req.headers
      ∙ if_false _ _ other
      ∙ h.authorized;
  agent = h.agent;
  named =
      lookup-insert name (codes "User-Agent") value req.headers ∙ if_false _ _ another ∙ h.named;
  well_formed = h.well_formed;
}

-- Every request of a client has the SDK key as its Authorization and, whatever wrapper is configured, a
-- User-Agent of the form of products.
pub request_of-IsSigned :
    (path_escape : Text → Text) (body sdk_key : Text) (cfg : Config) (e : Endpoint)
    → IsSigned sdk_key (request_of path_escape body (new_http_client sdk_key cfg) e)
unfolding flags_request flag_request events_request new_stream_request text_eq
request_of-IsSigned path_escape body sdk_key cfg all_flags = set_headers-IsSigned sdk_key cfg _
request_of-IsSigned path_escape body sdk_key cfg (one_flag key) = set_headers-IsSigned sdk_key cfg _
request_of-IsSigned path_escape body sdk_key cfg events =
    with_header-IsSigned sdk_key (codes "Content-Type") _ _ refl refl
      (set_headers-IsSigned sdk_key cfg _)
request_of-IsSigned path_escape body sdk_key cfg stream =
    with_header-IsSigned sdk_key (codes "Accept") _ _ refl refl (set_headers-IsSigned sdk_key cfg _)
