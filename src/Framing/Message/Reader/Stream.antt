-- ===== src/Framing/Message/Reader/Stream.antt =====
-- A stream of whole messages, from the writer to the reader.
use embedded_bridge.Prelude.{
  ℕ, ◌^◌, ◌<◌, ◌≡◌, refl, sym, ap, ◌∙◌, arith, true, List, [], ◌∷◌, ◌++◌, append_assoc, length, All,
  All-append, some, ltb, if-holds_by,
}
use mathlib.Core.Path.{subst}
use embedded_bridge.Text.Utf8.{Text, encode, encode_char, encode_more, is_scalar}
use embedded_bridge.Text.Utf8.RoundTrip.{decode-encode, encode_more_inv}
use embedded_bridge.Framing.Message.Handler.{StreamingMessageHandler, Message, text, binary}
use embedded_bridge.Framing.Message.Writer.{
  MessageWriter, Result, ok, err, send, write_text, write_binary, binary_header,
}
use embedded_bridge.Framing.Message.Reader.{MessageReader, newline, feed, feed_loop}
use embedded_bridge.Framing.Message.Reader.Delivery.{Delivers, IsTextByte, between, feed_line}
use embedded_bridge.Framing.Message.Reader.Payload.{feed_binary}

-- A text of characters that `encode` takes, without a newline and SOH; a payload whose length the
-- reader takes.
unfoldable pub IsSendable : Message → Type 0
IsSendable (text t) = All IsTextByte t × All (λ c. is_scalar c ≡ true) t
IsSendable (binary p) = length p < 2 ^ 35

pub write_message : MessageWriter → Message → Result (List ℕ × MessageWriter)
write_message w (text t) = write_text w t
write_message w (binary p) = ok (write_binary w p)

-- The bytes of all messages, written one after another.
pub write_messages : MessageWriter → List Message → Result (List ℕ)
write_messages w [] = ok []
write_messages w (m ∷ messages) = elim (write_message w m) [
  | ok (wire, w') ↦ elim (write_messages w' messages) [
    | ok rest ↦ ok (wire ++ rest)
    | err e ↦ err e
  ]
  | err e ↦ err e
]

encode_total :
    (t : Text) → All (λ c. is_scalar c ≡ true) t → (bytes : List ℕ) × (encode t ≡ some bytes)
unfolding encode encode_more
encode_total [] h = ([], refl)
encode_total (c ∷ t) (e, h) =
    let (bytes, k) = encode_total t h in (encode_char c ++ bytes, rw (k, e) refl)

encode_char-IsTextByte : (c : ℕ) → IsTextByte c → All IsTextByte (encode_char c)
unfolding encode_char
encode_char-IsTextByte c h =
    if-holds_by (All IsTextByte) (ltb c 0x80) (λ _. (h, tt))
      (λ e.
        if-holds_by (All IsTextByte) (ltb c 0x800) (λ _. (ground arith, (ground arith, tt)))
          (λ _.
            if-holds_by (All IsTextByte) (ltb c 0x10000)
              (λ _. (ground arith, (ground arith, (ground arith, tt))))
              (λ _. (ground arith, (ground arith, (ground arith, (ground arith, tt)))))))

encode-IsTextByte :
    (t : Text) (bytes : List ℕ) → encode t ≡ some bytes → All IsTextByte t → All IsTextByte bytes
unfolding encode
encode-IsTextByte [] bytes e h =
    let e' : [] ≡ bytes = ground (arith, e) in subst (All IsTextByte) e' tt
encode-IsTextByte (c ∷ t) bytes e (k, h) =
    let (rest, e', _, l) = encode_more_inv c (encode t) bytes e in
    subst (All IsTextByte) (sym l) (
      All-append IsTextByte (encode_char c) rest (encode_char-IsTextByte c k)
        (encode-IsTextByte t rest e' h))

module _ {H U : Type 0} (ops : StreamingMessageHandler H) (at : U → H) (d : Delivers ops at) where
  unfoldable pub deliver_all : U → List Message → U
  deliver_all u [] = u
  deliver_all u (m ∷ messages) = deliver_all (d.deliver u m) messages

  read_message :
      (w : MessageWriter) (m : Message)
      → IsSendable m
      → (wire : List ℕ) × (w' : MessageWriter) × (write_message w m ≡ ok (wire, w'))
        × ((r : MessageReader H) (u : U) (rest : List ℕ)
            → (r' : MessageReader H) × (feed ops (between at r u) (wire ++ rest)
                ≡ feed ops (between at r' (d.deliver u m)) rest))
  unfolding IsSendable write_message write_text write_binary
  read_message w (text t) (h, s) =
      let (bytes, e) = encode_total t s in
      (
        bytes ++ (newline ∷ []),
        record w { output = send w.output (bytes ++ (newline ∷ [])) },
        rw (write_message, write_text, e) refl,
        λ r u rest. (
          r,
          ap (feed ops (between at r u)) (append_assoc bytes (newline ∷ []) rest)
              ∙ feed_line ops at d r u bytes rest (encode-IsTextByte t bytes e h)
              ∙ ap (λ (x : Text). feed ops (between at r (d.deliver u (text x))) rest)
                  (decode-encode t bytes e),
        ),
      )
  read_message w (binary p) h = (
    binary_header (length p) ++ p,
    record w { output = send w.output (binary_header (length p) ++ p) },
    refl,
    λ r u rest. feed_binary ops at d r u p rest h,
  )

  -- A reader between two messages reads what a writer wrote for sendable messages, delivers them in
  -- their order, and is between two messages.
  pub read_messages :
      (w : MessageWriter) (messages : List Message)
      → All IsSendable messages
      → (wire : List ℕ) × (write_messages w messages ≡ ok wire)
        × ((r : MessageReader H) (u : U)
            → (r' : MessageReader H) × (feed ops (between at r u) wire
                ≡ some (between at r' (deliver_all u messages))))
  unfolding write_messages deliver_all
  read_messages w [] h = ([], refl, λ r u. (r, unfold feed feed_loop in refl))
  read_messages w (m ∷ messages) (s, h) =
      let (wire, w', e, one) = read_message w m s in
      let (rest, e', more) = read_messages w' messages h in
      (
        wire ++ rest,
        rw (write_messages, e, e') refl,
        λ r u.
            let (r', l) = one r u rest in let (r'', l') = more r' (d.deliver u m) in (r'', l ∙ l'),
      )
