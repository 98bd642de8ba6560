-- ===== src/Polling.antt =====
-- polling.go: one poll.
pub mod Loop
pub mod Paced
mod Tests
use featureflip_go.Base.{List, [], ◌∷◌, Option, none, some, Text}
use featureflip_go.Models.{FlagsResponse}
use featureflip_go.Platform.{Platform}
use featureflip_go.Http.{Codec, Answer, Fetched, fetched, failed, get_flags}
use featureflip_go.Unevaluable.{drop_unevaluable}
use featureflip_go.Store.{Store, set_all}

-- The call of onUpdate: none where no key changed.
abbrev pub announce : Store × List Text → Store × Option (List Text)
announce (s, []) = (s, none)
announce (s, key ∷ keys) = (s, some (key ∷ keys))

-- store.setAll(dropUnevaluable(resp.Flags, resp.Segments))
unfoldable pub replace_all : Platform → FlagsResponse → Store → Store × Option (List Text)
replace_all go resp s =
    let (flags, segments) = drop_unevaluable resp.flags resp.segments in
    announce (set_all go flags segments s)

abbrev pub refreshed : Platform → Fetched FlagsResponse → Store → Store × Option (List Text)
refreshed go (failed e) s = (s, none)
refreshed go (fetched resp) s = replace_all go resp s

unfoldable pub poll : Platform → Codec → Answer → Store → Store × Option (List Text)
poll go codec answer s = refreshed go (get_flags codec answer) s
