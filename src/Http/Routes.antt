-- ===== src/Http/Routes.antt =====
-- httpclient.go: what a server makes of the URLs of the requests, and of the flag keys in them.
use featureflip_go.Base.{
  ℕ, arith, drop, length, ◌≡◌, refl, ap, Bool, true, not, ◌&&◌, ◌||◌, List, [], ◌∷◌, ◌++◌, Option,
  none, some, Text, codes, text_eq, all, is_empty, ◌==◌, if◌then◌else◌,
}
use featureflip_go.Http.Requests.{
  HttpClient, HttpRequest, Endpoint, all_flags, events, stream, one_flag, request_of, flags_request,
  flag_request, events_request, new_stream_request, set_headers,
}

-- A byte that neither separates segments of a path nor ends it.
abbrev pub is_segment_byte : ℕ → Bool
is_segment_byte c = not (c == b'/' || c == b'?' || c == b'#')

abbrev into_first : ℕ → List Text → List Text
into_first c [] = (c ∷ []) ∷ []
into_first c (segment ∷ segments) = (c ∷ segment) ∷ segments

-- The segments of the path of a URL: what comes after a question mark or a number sign is no part
-- of the path.
unfoldable pub segments : Text → List Text
segments [] = [] ∷ []
segments (c ∷ s) =
    let rest = segments s in
    if c == b'/' then [] ∷ rest else if c == b'?' || c == b'#' then [] ∷ [] else into_first c rest

abbrev is_root : Text → Text → Text → Bool
is_root before version area =
    is_empty before && text_eq version (codes "v1") && text_eq area (codes "sdk")

abbrev resource : Text → Text → Option Endpoint
resource method name =
    if text_eq name (codes "flags") && text_eq method (codes "GET")
    then some all_flags
    else if text_eq name (codes "events") && text_eq method (codes "POST")
    then some events
    else if text_eq name (codes "stream") && text_eq method (codes "GET")
    then some stream
    else none

-- The endpoint of a method and the segments of a path.
unfoldable pub route : (Text → Text) → Text → List Text → Option Endpoint
route unescape method (before ∷ version ∷ area ∷ name ∷ []) =
    if is_root before version area then resource method name else none
route unescape method (before ∷ version ∷ area ∷ name ∷ key ∷ []) =
    if is_root before version area && text_eq name (codes "flags") && text_eq method (codes "GET")
    then some (one_flag (unescape key))
    else none
route unescape method _ = none

-- What a server at a base URL is asked for. It unescapes a segment after it has split the path.
unfoldable pub asked : (Text → Text) → Text → HttpRequest → Option Endpoint
asked unescape base req = route unescape req.method (segments (drop (length base) req.url))

drop-length : (s t : Text) → drop (length s) (s ++ t) ≡ t
drop-length [] t = refl
drop-length (c ∷ s) t = drop-length s t

segments-whole : (s : Text) → all is_segment_byte s ≡ true → segments s ≡ s ∷ []
unfolding segments
segments-whole [] h = refl
segments-whole (c ∷ s) h = ground (arith, segments-whole s)

-- Given that url.PathUnescape undoes url.PathEscape and that url.PathEscape writes no slash, question
-- mark or number sign: a server that splits the path of a request at its slashes, up to a query or a
-- fragment, and unescapes the segment of a key finds in the method and the URL the endpoint that the
-- client asked for, and for the flag of a key that key.
pub request_of-asked :
    (path_escape unescape : Text → Text)
    → ((key : Text) → unescape (path_escape key) ≡ key)
    → ((key : Text) → all is_segment_byte (path_escape key) ≡ true)
    → (body : Text) (h : HttpClient) (e : Endpoint)
    → asked unescape h.base_url (request_of path_escape body h e) ≡ some e
unfolding asked route segments text_eq flags_request flag_request events_request new_stream_request
    set_headers
request_of-asked path_escape unescape undo whole body h all_flags =
    rw (drop-length h.base_url (codes "/v1/sdk/flags")) refl
request_of-asked path_escape unescape undo whole body h (one_flag key) =
    rw (drop-length h.base_url (codes "/v1/sdk/flags/" ++ path_escape key))
      (rw (segments-whole (path_escape key) (whole key)) (ap (λ k. some (one_flag k)) (undo key)))
request_of-asked path_escape unescape undo whole body h events =
    rw (drop-length h.base_url (codes "/v1/sdk/events")) refl
request_of-asked path_escape unescape undo whole body h stream =
    rw (drop-length h.base_url (codes "/v1/sdk/stream")) refl
