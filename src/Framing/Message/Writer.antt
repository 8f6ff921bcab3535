-- ===== src/Framing/Message/Writer.antt =====
-- `MessageWriter` of python/src/embedded_bridge/framing/message.py. The calls of `output` are a log,
-- which is kept when the writer has one; the exceptions are values.
pub mod Streaming
mod Tests
use embedded_bridge.Prelude.{
  ℕ, Bool, true, false, List, [], ◌∷◌, ◌++◌, Option, none, some, length, ◌==◌, if◌then◌else◌,
}
use embedded_bridge.Text.Utf8.{Text, encode}
use embedded_bridge.Framing.Varint.{encode_varint}
use embedded_bridge.Framing.Message.Reader.{soh, binary_protocol_v1, newline}

-- RuntimeError of the streaming calls, UnicodeEncodeError of `write_text`.
pub data Error : Type 0 where
  already_in_message not_in_message not_encodable : Error

pub data Result {ℓ} (A : Type ℓ) : Type ℓ where
  ok : A → Result A
  err : Error → Result A

pub record MessageWriter : Type 0 where
  pub output : Option (List (List ℕ))
  pub buf : List ℕ
  pub in_message : Bool

pub init : Option (List (List ℕ)) → MessageWriter
init output = record { output = output; buf = []; in_message = false }

pub send : Option (List (List ℕ)) → List ℕ → Option (List (List ℕ))
send none wire = none
send (some calls) wire = some (calls ++ (wire ∷ []))

unfoldable pub write_text : MessageWriter → Text → Result (List ℕ × MessageWriter)
write_text w line = elim (encode line) [
  | none ↦ err not_encodable
  | some bytes ↦
      let wire = bytes ++ (newline ∷ []) in ok (wire, record w { output = send w.output wire })
]

unfoldable pub binary_header : ℕ → List ℕ
binary_header n = soh ∷ binary_protocol_v1 ∷ encode_varint n

unfoldable pub write_binary : MessageWriter → List ℕ → List ℕ × MessageWriter
write_binary w payload =
    let wire = binary_header (length payload) ++ payload in
    (wire, record w { output = send w.output wire })

pub begin_text : MessageWriter → Result MessageWriter
begin_text w =
    if w.in_message then err already_in_message else ok (record w { in_message = true; buf = [] })

pub begin_binary : MessageWriter → ℕ → Result MessageWriter
begin_binary w n =
    if w.in_message
    then err already_in_message
    else ok (record w { in_message = true; buf = binary_header n })

pub write : MessageWriter → List ℕ → Result MessageWriter
write w bytes = if w.in_message then ok (record w { buf = w.buf ++ bytes }) else err not_in_message

-- `end` ends a text message, which does not start with SOH, by a newline.
pub finish : List ℕ → List ℕ
finish [] = newline ∷ []
finish (c ∷ buf) = if c == soh then c ∷ buf else (c ∷ buf) ++ (newline ∷ [])

pub end_message : MessageWriter → Result (List ℕ × MessageWriter)
end_message w =
    if w.in_message
    then (let wire = finish w.buf in
        ok (wire, record w { in_message = false; buf = []; output = send w.output wire }))
    else err not_in_message
