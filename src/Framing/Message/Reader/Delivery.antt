-- ===== src/Framing/Message/Reader/Delivery.antt =====
-- What a reader delivers of the messages that a writer wrote, for any handler that buffers.
use embedded_bridge.Prelude.{ℕ, ◌≡◌, refl, ◌∙◌, false, List, [], ◌∷◌, ◌++◌, length, All, ◌==◌}
use embedded_bridge.Text.Utf8.{Text, decode, decode_from, flush}
use embedded_bridge.Framing.Message.Handler.{StreamingMessageHandler, Message, text, binary}
use embedded_bridge.Framing.Message.Reader.{
  idle, MessageReader, text_extent, feed_text, deliver_text, end_text, at_newline, feed_step, feed,
  soh, newline,
}
use embedded_bridge.Framing.Message.Reader.Invariant.{IsValid, idle-IsValid}
use embedded_bridge.Framing.Message.Reader.Rounds.{feed_round}

-- A handler that delivers whole messages to a user: `at` is the handler between two messages.
pub record Delivers {H U : Type 0} (ops : StreamingMessageHandler H) (at : U → H) : Type 0 where
  pub deliver : U → Message → U
  pub deliver_empty_text : (u : U) → ops.on_text_end (at u) ≡ at (deliver u (text []))
  pub deliver_text :
      (u : U) (t : Text) → ops.on_text_end (ops.on_text_data (at u) t) ≡ at (deliver u (text t))
  pub deliver_empty_binary :
      (u : U) → ops.on_binary_end (ops.on_binary_start (at u) 0) ≡ at (deliver u (binary []))
  pub deliver_binary :
      (u : U) (p : List ℕ)
      → ops.on_binary_end (ops.on_binary_data (ops.on_binary_start (at u) (length p)) p)
        ≡ at (deliver u (binary p))

-- A byte that ends no text.
abbrev pub IsTextByte : ℕ → Type 0
IsTextByte b = ((b == newline) ≡ false) × ((b == soh) ≡ false)

text_extent_line :
    (chunk rest : List ℕ)
    → All IsTextByte chunk
    → text_extent (chunk ++ (newline ∷ rest)) ≡ (chunk, at_newline, rest)
unfolding text_extent
text_extent_line [] rest h = refl
text_extent_line (c ∷ chunk) rest ((n, s), h) = rw (text_extent_line chunk rest h, n, s) refl

module _ {H U : Type 0} (at : U → H) where
  -- The reader between two messages; the fields of the varint keep what they last held.
  unfoldable pub between : MessageReader H → U → MessageReader H
  between r u = record r { handler = at u; state = idle }

  pub between-IsValid : (r : MessageReader H) (u : U) → IsValid (between r u)
  unfolding between
  between-IsValid r u = idle-IsValid (record r { handler = at u })

module _ {H U : Type 0} (ops : StreamingMessageHandler H) (at : U → H) (d : Delivers ops at) where
  -- A line of text bytes.
  line_round :
      (r : MessageReader H) (u : U) (c : ℕ) (chunk rest : List ℕ)
      → All IsTextByte (c ∷ chunk)
      → feed_step ops idle (between at r u) c (chunk ++ (newline ∷ rest)) ≡ (
        record (between at r u) {
          handler = ops.on_text_end (ops.on_text_data (at u) (decode (c ∷ chunk)));
        },
        rest,
      )
  unfolding feed_step feed_text deliver_text end_text between
  line_round r u c chunk rest ((n, s), h) =
      rw (s, n, text_extent_line (c ∷ chunk) rest ((n, s), h)) refl

  pub feed_line :
      (r : MessageReader H) (u : U) (chunk rest : List ℕ)
      → All IsTextByte chunk
      → feed ops (between at r u) (chunk ++ (newline ∷ rest))
        ≡ feed ops (between at r (d.deliver u (text (decode chunk)))) rest
  unfolding feed_step between decode decode_from flush
  feed_line r u [] rest h =
      feed_round ops (between at r u) newline rest (between-IsValid at r u)
      ∙ (λ i. feed ops (record (between at r u) { handler = d.deliver_empty_text u i }) rest)
  feed_line r u (c ∷ chunk) rest h =
      feed_round ops (between at r u) c (chunk ++ (newline ∷ rest)) (between-IsValid at r u)
      ∙ (λ i. feed ops (line_round r u c chunk rest h i).0 (line_round r u c chunk rest h i).1)
      ∙ (λ i.
          feed ops (record (between at r u) { handler = d.deliver_text u (decode (c ∷ chunk)) i })
            rest)
