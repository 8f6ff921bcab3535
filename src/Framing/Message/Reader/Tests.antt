-- ===== src/Framing/Message/Reader/Tests.antt =====
-- The theorems at the reader's own handler.
use embedded_bridge.Prelude.{ℕ, ◌≡◌, refl, arith, false, List, [], ◌∷◌, map, none, some, All}
use embedded_bridge.Framing.Message.Handler.{
  Message, text, binary, DrainHandler, drain_handler, init_handler,
}
use embedded_bridge.Text.Utf8.{is_scalar}
use embedded_bridge.Framing.Message.Writer.{MessageWriter, ok}
use embedded_bridge.Framing.Message.Reader.{
  MessageReader, init, feed, Attached, attached, init_drain, drain,
}
use embedded_bridge.Framing.Message.Reader.Invariant.{IsValid, feed_total, init-IsValid}
use embedded_bridge.Framing.Message.Reader.Stream.{IsSendable, write_messages}
use embedded_bridge.Framing.Message.Reader.Written.{received, drain-write_messages}

init-IsValid_drain : IsValid (init (init_handler {U = List Message} []))
init-IsValid_drain = init-IsValid (init_handler {U = List Message} [])

feed_total_example :
    (r : MessageReader DrainHandler) × (feed drain_handler
        (init (init_handler {U = List Message} []))
        (1 ∷ 1 ∷ 2 ∷ 7 ∷ 8 ∷ 65 ∷ [])
      ≡ some r)
    × IsValid r
feed_total_example =
    feed_total drain_handler (init (init_handler [])) (1 ∷ 1 ∷ 2 ∷ 7 ∷ 8 ∷ 65 ∷ [])
      init-IsValid_drain

abbrev writer : MessageWriter
writer = record { output = none; buf = []; in_message = false }

-- A line with a character of two bytes, an empty line and two payloads.
abbrev messages : List Message
messages = text (104 ∷ 233 ∷ []) ∷ binary (1 ∷ 10 ∷ []) ∷ text [] ∷ binary [] ∷ []

messages-IsSendable : All IsSendable messages
unfolding IsSendable is_scalar
messages-IsSendable = (
  (((refl, refl), ((refl, refl), tt)), (refl, (refl, tt))),
  (omega arith, ((tt, tt), (omega arith, tt))),
)

drain-write_messages_example :
    (wire : List ℕ) × (r r' : MessageReader (Attached DrainHandler)) × (write_messages writer
        messages
      ≡ ok wire)
    × (feed (attached drain_handler) init_drain wire ≡ some r)
    × (drain r ≡ some (map received messages, r'))
drain-write_messages_example =
    drain-write_messages drain_handler writer messages messages-IsSendable
