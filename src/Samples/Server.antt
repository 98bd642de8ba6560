-- ===== src/Samples/Server.antt =====
-- Concrete functions of encoding/json and answers of a server, for the examples of the theorems.
use featureflip_go.Base.{[], none, some}
use featureflip_go.Base.Int.{pos}
use featureflip_go.Models.{FlagsResponse}
use featureflip_go.Http.{Codec, syntax_error, unsupported_type, unencodable, unanswered, answered}
use featureflip_go.Streaming.{Answers}
use featureflip_go.Samples.{b_flag}

abbrev pub no_flags : FlagsResponse
no_flags = record { environment = []; version = pos 1; flags = []; segments = [] }

-- Any text is an event of the key it spells and the flag `b`, and none is a snapshot.
abbrev pub codec : Codec
codec = record {
  decode_flags = λ s. (no_flags, some syntax_error);
  decode_flag = λ s. (b_flag, none);
  unmarshal_flags = λ s. (no_flags, some syntax_error);
  unmarshal_stream_event = λ s. (record { key = s; version = pos 2 }, none);
  marshal_events = λ es. unencodable unsupported_type;
}

abbrev pub silence : Answers
silence = record { for_flag = λ k. unanswered; for_flags = unanswered }

abbrev pub server : Answers
server = record { for_flag = λ k. answered 200 k; for_flags = unanswered }
