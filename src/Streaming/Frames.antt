-- ===== src/Streaming/Frames.antt =====
-- streaming.go, connect: the events that the lines of a stream make up. The lines are those that
-- the scanner gives until the stream ends, the source is stopped or a line is too long.
use mathlib.Core.List.{append_assoc, append-nil}
use featureflip_go.Base.{
  ◌≡◌, refl, ◌≢◌, sym, ap, ◌∙◌, Bool, true, false, not, ◌&&◌, List, [], ◌∷◌, ◌++◌, map, Option,
  none, some, Text, codes, is_empty, if◌then◌else◌, ◌==◌, All, arith,
}

-- strings.HasPrefix and strings.TrimPrefix.
unfoldable pub strip_prefix : Text → Text → Option Text
strip_prefix [] s = some s
strip_prefix (p ∷ ps) [] = none
strip_prefix (p ∷ ps) (c ∷ s) = if c == p then strip_prefix ps s else none

-- `event_type` and `data` of the loop.
pub record Frame : Type 0 where
  pub event_type : Text
  pub payload : Text

abbrev pub blank : Frame
blank = record { event_type = []; payload = [] }

abbrev pub add_chunk : Text → Frame → Frame
add_chunk chunk f = record f {
  payload = if is_empty f.payload then chunk else f.payload ++ b'\n' ∷ chunk;
}

abbrev pub complete : Frame → Option Frame
complete f = if not (is_empty f.event_type) && not (is_empty f.payload) then some f else none

-- One round of the loop: the variables after the line, and the event that it ends.
unfoldable pub read_line : Text → Frame → Frame × Option Frame
unfolding strip_prefix
read_line line f = elim (strip_prefix (codes "event: ") line) [
  | some event_type ↦ (record f { event_type = event_type }, none)
  | none ↦ elim (strip_prefix (codes "data: ") line) [
    | some chunk ↦ (add_chunk chunk f, none)
    | none ↦ if is_empty line then (blank, complete f) else (f, none)
  ]
]

abbrev pub prepend : Option Frame → List Frame → List Frame
prepend none fs = fs
prepend (some f) fs = f ∷ fs

-- The events that are handled, in order.
unfoldable pub read_lines : List Text → Frame → List Frame
read_lines [] f = []
read_lines (line ∷ lines) f =
    let (g, event) = read_line line f in prepend event (read_lines lines g)

-- What a server sends: the first line of a text, and the others.
unfoldable split : Text → Text × List Text
split [] = ([], [])
split (c ∷ s) =
    let (first, more) = split s in if c == b'\n' then ([], first ∷ more) else (c ∷ first, more)

abbrev pub data_line : Text → Text
data_line chunk = codes "data: " ++ chunk

-- The lines of an event: its type, each line of its payload, and an empty line.
unfoldable pub frame_lines : Frame → List Text
unfolding split
frame_lines f =
    (codes "event: " ++ f.event_type)
    ∷ (data_line (split f.payload).0 ∷ (map data_line (split f.payload).1 ++ [] ∷ []))

unfoldable pub stream_lines : List Frame → List Text
stream_lines [] = []
stream_lines (f ∷ fs) = frame_lines f ++ stream_lines fs

unfoldable join_onto : Text → List Text → Text
join_onto acc [] = acc
join_onto acc (chunk ∷ chunks) = join_onto (acc ++ b'\n' ∷ chunk) chunks

abbrev joined : Text → Text × List Text → Text
joined acc (first, more) = join_onto (acc ++ first) more

join_onto-split : (acc s : Text) → joined acc (split s) ≡ acc ++ s
unfolding split join_onto
join_onto-split acc [] = refl
join_onto-split acc (c ∷ s) = at (λ k. join_onto-split k s) (c == b'\n') refl
  where
    at :
        ((k : Text) → joined k (split s) ≡ k ++ s)
        → (b : Bool) → (c == b'\n') ≡ b
        → joined acc (if b then ([], (split s).0 ∷ (split s).1) else (c ∷ (split s).0, (split s).1))
          ≡ acc ++ c ∷ s
    at ih true e =
        let newline : c ≡ b'\n' = ground arith in
        let moved : (acc ++ []) ++ b'\n' ∷ (split s).0 ≡ (acc ++ b'\n' ∷ []) ++ (split s).0 =
          simp (append-nil, append_assoc) in
        ap (λ l. join_onto l (split s).1) moved
        ∙ ih (acc ++ b'\n' ∷ [])
        ∙ append_assoc acc (b'\n' ∷ []) s
        ∙ ap (λ d. acc ++ d ∷ s) (sym newline)
    at ih false e =
        ap (λ l. join_onto l (split s).1) (sym (append_assoc acc (c ∷ []) (split s).0))
        ∙ ih (acc ++ c ∷ [])
        ∙ append_assoc acc (c ∷ []) s

read_data :
    (event_type acc : Text) (chunks rest : List Text)
    → acc ≢ []
    → read_lines (map data_line chunks ++ rest) (record { event_type = event_type; payload = acc })
      ≡ read_lines rest (record { event_type = event_type; payload = join_onto acc chunks })
unfolding read_lines read_line join_onto
read_data t acc [] rest n = refl
read_data t [] (chunk ∷ chunks) rest n = absurd (n refl)
read_data t (a ∷ acc) (chunk ∷ chunks) rest n =
    read_data t (a ∷ acc ++ b'\n' ∷ chunk) chunks rest (λ e. cc)

-- The text has a first line that is not empty.
abbrev pub starts : Text → Bool
starts [] = false
starts (c ∷ s) = not (c == b'\n')

split-starts : (s : Text) → starts s ≡ true → (split s).0 ≢ []
unfolding split
split-starts [] h e = cc
split-starts (c ∷ s) h e = ground arith

-- A frame that a stream can carry: it has a type, and its payload does not start with an empty line.
abbrev pub IsSendable : Frame → Type 0
IsSendable f = (is_empty f.event_type ≡ false) × (starts f.payload ≡ true)

read_head :
    (event_type first : Text) (rest : List Text)
    → read_lines ((codes "event: " ++ event_type) ∷ data_line first ∷ rest) blank
      ≡ read_lines rest (record { event_type = event_type; payload = first })
unfolding read_lines read_line
read_head event_type first rest = refl

read_end :
    (f : Frame) (rest : List Text)
    → is_empty f.event_type ≡ false
    → is_empty f.payload ≡ false
    → read_lines ([] ∷ rest) f ≡ f ∷ read_lines rest blank
unfolding read_lines read_line
read_end f rest t p = ground arith

nonempty : (s : Text) → starts s ≡ true → is_empty s ≡ false
nonempty [] h = cc
nonempty (c ∷ s) h = refl

read_frame :
    (f : Frame) (rest : List Text)
    → IsSendable f
    → read_lines (frame_lines f ++ rest) blank ≡ f ∷ read_lines rest blank
unfolding frame_lines
read_frame f rest h =
    let first = (split f.payload).0 in
    let more = (split f.payload).1 in
    read_head f.event_type first ((map data_line more ++ [] ∷ []) ++ rest)
    ∙ ap (λ l. read_lines l (record { event_type = f.event_type; payload = first }))
        (append_assoc (map data_line more) ([] ∷ []) rest)
    ∙ read_data f.event_type first more ([] ∷ rest) (split-starts f.payload h.1)
    ∙ ap (λ p. read_lines ([] ∷ rest) (record { event_type = f.event_type; payload = p }))
        (join_onto-split [] f.payload)
    ∙ read_end f rest h.0 (nonempty f.payload h.1)

-- The events of a stream are read back from its lines, in order and with their payloads, over however
-- many data lines a payload is spread, if each has a type and no payload starts with an empty line.
pub read_lines-stream_lines :
    (fs : List Frame) → All IsSendable fs → read_lines (stream_lines fs) blank ≡ fs
unfolding stream_lines
read_lines-stream_lines [] h = unfold read_lines in refl
read_lines-stream_lines (f ∷ fs) h =
    read_frame f (stream_lines fs) h.0 ∙ ap (◌∷◌ f) (read_lines-stream_lines fs h.1)
