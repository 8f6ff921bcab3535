-- ===== src/Framing/Line.antt =====
-- python/src/embedded_bridge/framing/line.py.
pub mod Lines
mod Tests
use embedded_bridge.Prelude.{
  ℕ, zero, suc, List, [], ◌∷◌, ◌++◌, Option, none, some, length, ◌==◌, if◌then◌else◌,
}
use embedded_bridge.Text.Utf8.{Text, Decoder, fresh, decode_from}
use embedded_bridge.Framing.Message.Handler.{strip_cr}

abbrev pub newline : ℕ
newline = 0x0A

pub record LineFramer : Type 0 where
  pub decoder : Decoder
  pub buf : Text
  pub messages : List Text

pub init : LineFramer
init = record { decoder = fresh; buf = []; messages = [] }

-- `buf.partition("\n")`, `none` where there is no newline.
pub partition : Text → Option (Text × Text)
partition [] = none
partition (c ∷ buf) =
    let found = partition buf in
    if c == newline
    then some ([], buf)
    else elim found [ none ↦ none | some (line, rest) ↦ some (c ∷ line, rest) ]

-- The loop of `feed`, on fuel: every round takes a newline off the buffer.
pub split_lines : ℕ → Text → List Text → Text × List Text
split_lines zero buf messages = (buf, messages)
split_lines (suc fuel) buf messages = elim (partition buf) [
  | none ↦ (buf, messages)
  | some (line, rest) ↦ split_lines fuel rest (messages ++ (strip_cr line ∷ []))
]

pub feed : LineFramer → List ℕ → LineFramer
feed s bytes =
    let (text, decoder) = decode_from s.decoder bytes in
    let buf = s.buf ++ text in
    let (rest, messages) = split_lines (length buf) buf s.messages in
    record { decoder = decoder; buf = rest; messages = messages }

pub drain : LineFramer → List Text × LineFramer
drain s = (s.messages, record s { messages = [] })

pub reset : LineFramer → LineFramer
reset s = record { decoder = fresh; buf = []; messages = [] }
