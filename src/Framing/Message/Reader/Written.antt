-- ===== src/Framing/Message/Reader/Written.antt =====
-- What the handlers of the package deliver of a stream that a writer wrote.
use embedded_bridge.Prelude.{
  ℕ, ◌≡◌, refl, sym, ap, ◌∙◌, List, [], ◌∷◌, ◌++◌, map, append-nil, append_assoc, All, some,
}
use embedded_bridge.Text.Utf8.{Text}
use embedded_bridge.Framing.Message.Handler.{
  StreamingMessageHandler, Message, text, binary, Callbacks, message_handler, init_handler,
  on_text_end, on_binary_end, join, strip_cr, drain_handler, collect,
}
use embedded_bridge.Framing.Message.Writer.{MessageWriter, ok}
use embedded_bridge.Framing.Message.Reader.{
  MessageReader, feed, init, init_drain, Attached, own, attached, on_attached, drain, drained,
}
use embedded_bridge.Framing.Message.Reader.Delivery.{Delivers, between}
use embedded_bridge.Framing.Message.Reader.Stream.{
  IsSendable, write_messages, deliver_all, read_messages,
}

module _ {U : Type 0} where
  -- `MessageHandler` delivers each message to the callback of its kind.
  pub deliver_to : Callbacks U → U → Message → U
  deliver_to callbacks u (text t) = callbacks.on_text u (strip_cr t)
  deliver_to callbacks u (binary p) = callbacks.on_binary u p

  pub message_handler-Delivers :
      (callbacks : Callbacks U) → Delivers (message_handler callbacks) init_handler
  unfolding deliver_to message_handler init_handler on_text_end on_binary_end join strip_cr
  message_handler-Delivers callbacks = record {
    deliver = deliver_to callbacks;
    deliver_empty_text = λ u. refl;
    deliver_text =
        λ u t. ap (λ (x : Text). init_handler (callbacks.on_text u (strip_cr x))) (append-nil t);
    deliver_empty_binary = λ u. refl;
    deliver_binary = λ u p. refl;
  }

module _ {H : Type 0} (ops : StreamingMessageHandler H) where
  -- The reader's own handler, at the messages that it has collected.
  abbrev own_at : List Message → Attached H
  own_at messages = own (init_handler messages)

  pub own-Delivers : Delivers (attached ops) own_at
  unfolding attached on_attached drain_handler deliver_to message_handler init_handler on_text_end
      on_binary_end join strip_cr
  own-Delivers = record {
    deliver = deliver_to collect;
    deliver_empty_text = λ u. refl;
    deliver_text = λ u t.
        ap (λ (x : Text). own (init_handler (collect.on_text u (strip_cr x)))) (append-nil t);
    deliver_empty_binary = λ u. refl;
    deliver_binary = λ u p. refl;
  }

-- A message as it is received: a carriage return at the end of a line is taken off.
pub received : Message → Message
received (text t) = text (strip_cr t)
received (binary p) = binary p

deliver_to-collect :
    (u : List Message) (m : Message) → deliver_to collect u m ≡ u ++ (received m ∷ [])
unfolding deliver_to received collect
deliver_to-collect u (text t) = refl
deliver_to-collect u (binary p) = refl

module _ {H : Type 0} (ops : StreamingMessageHandler H) where
  collect_all :
      (u messages : List Message)
      → deliver_all (attached ops) (own_at ops) (own-Delivers ops) u messages
        ≡ u ++ map received messages
  unfolding deliver_all own-Delivers
  collect_all u [] = sym (append-nil u)
  collect_all u (m ∷ messages) =
      collect_all (deliver_to collect u m) messages
      ∙ ap (λ (t : List Message). t ++ map received messages) (deliver_to-collect u m)
      ∙ append_assoc u (received m ∷ []) (map received messages)

  -- What a new reader without a handler drains behind a stream of sendable messages that a writer in
  -- any state wrote, fed at once, is these messages in their order, each line without one carriage
  -- return at its end. Sendable are texts of characters that UTF-8 encodes, without a newline and
  -- SOH, and payloads of fewer than 2 ^ 35 bytes.
  pub drain-write_messages :
      (w : MessageWriter) (messages : List Message)
      → All IsSendable messages
      → (wire : List ℕ) × (r r' : MessageReader (Attached H)) × (write_messages w messages
          ≡ ok wire)
        × (feed (attached ops) init_drain wire ≡ some r)
        × (drain r ≡ some (map received messages, r'))
  unfolding drain drained between init_drain init init_handler
  drain-write_messages w messages h =
      let (wire, e, more) =
        read_messages (attached ops) (own_at ops) (own-Delivers ops) w messages h in
      let (r, l) = more init_drain [] in
      (
        wire,
        between (own_at ops) r (map received messages),
        between (own_at ops) r [],
        e,
        l ∙ ap (λ (t : List Message). some (between (own_at ops) r t)) (collect_all [] messages),
        refl,
      )
