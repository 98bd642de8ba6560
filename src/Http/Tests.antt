-- ===== src/Http/Tests.antt =====
-- The theorems on requests at the default configuration, with a function for url.PathEscape that writes
-- a per cent sign and two letters for each byte.
use featureflip_go.Base.{
  ℕ, ◌+◌, ◌-◌, ◌*◌, ◌/◌, ◌%◌, ◌≡◌, refl, arith, true, all, [], ◌∷◌, some, Text, codes,
}
use featureflip_go.Config.{default_config}
use featureflip_go.Http.Requests.{
  HttpClient, new_http_client, one_flag, events, request_of, IsSigned, request_of-IsSigned,
}
use featureflip_go.Http.Routes.{is_segment_byte, asked, request_of-asked}

-- The letters stand for the two hexadecimal digits, from A on.
escape : Text → Text
escape [] = []
escape (c ∷ cs) = b'%' ∷ (b'A' + c / 16) ∷ (b'A' + c % 16) ∷ escape cs

unescape : Text → Text
unescape (percent ∷ high ∷ low ∷ cs) = ((high - b'A') * 16 + (low - b'A')) ∷ unescape cs
unescape _ = []

nibbles : (c : ℕ) → (b'A' + c / 16 - b'A') * 16 + (b'A' + c % 16 - b'A') ≡ c
nibbles c = omega arith

unescape-escape : (key : Text) → unescape (escape key) ≡ key
unfolding escape unescape
unescape-escape [] = refl
unescape-escape (c ∷ cs) = rw (nibbles c, unescape-escape cs) refl

escape-whole : (key : Text) → all is_segment_byte (escape key) ≡ true
unfolding escape
escape-whole [] = refl
escape-whole (c ∷ cs) = ground (arith, escape-whole cs)

abbrev client : HttpClient
client = new_http_client (codes "sdk-key") default_config

request_of-IsSigned_example :
    IsSigned
      (codes "sdk-key")
      (request_of escape (codes "{}") (new_http_client (codes "sdk-key") default_config) events)
request_of-IsSigned_example =
    request_of-IsSigned escape (codes "{}") (codes "sdk-key") default_config events

-- The key has a slash and a question mark.
request_of-asked_example :
    asked unescape client.base_url (request_of escape [] client (one_flag (codes "a/b?c")))
    ≡ some (one_flag (codes "a/b?c"))
request_of-asked_example =
    request_of-asked escape unescape unescape-escape escape-whole [] client
      (one_flag (codes "a/b?c"))
