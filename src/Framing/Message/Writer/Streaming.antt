-- ===== src/Framing/Message/Writer/Streaming.antt =====
-- The streaming calls of the writer against its whole messages.
use embedded_bridge.Prelude.{
  if◌then◌else◌, ap, ◌∙◌, sym, Bool, ℕ, ◌≡◌, refl, true, false, List, [], ◌∷◌, ◌++◌, append-nil,
  append_assoc, length,
}
use embedded_bridge.Framing.Message.Writer.{
  already_in_message, Result, ok, err, MessageWriter, binary_header, write_binary, begin_binary,
  write, finish, end_message,
}

-- The bytes of all chunks.
pub concat : List (List ℕ) → List ℕ
concat [] = []
concat (chunk ∷ chunks) = chunk ++ concat chunks

pub write_chunks : MessageWriter → List (List ℕ) → Result MessageWriter
write_chunks w [] = ok w
write_chunks w (chunk ∷ chunks) = elim (write w chunk) [
  | ok w' ↦ write_chunks w' chunks
  | err e ↦ err e
]

after_writes : Result MessageWriter → Result (List ℕ × MessageWriter)
after_writes (ok w) = end_message w
after_writes (err e) = err e

after_begin : Result MessageWriter → List (List ℕ) → Result (List ℕ × MessageWriter)
after_begin (ok w) chunks = after_writes (write_chunks w chunks)
after_begin (err e) chunks = err e

-- `begin_binary`, `write` for each chunk, and `end`.
pub stream_binary : MessageWriter → ℕ → List (List ℕ) → Result (List ℕ × MessageWriter)
stream_binary w n chunks = after_begin (begin_binary w n) chunks

abbrev writing : MessageWriter → List ℕ → MessageWriter
writing w buf = record w { in_message = true; buf = buf }

write_chunks_lem :
    (w : MessageWriter) (buf : List ℕ) (chunks : List (List ℕ))
    → write_chunks (writing w buf) chunks ≡ ok (writing w (buf ++ concat chunks))
unfolding write_chunks write concat
write_chunks_lem w buf [] = λ i. ok (writing w (sym (append-nil buf) i))
write_chunks_lem w buf (chunk ∷ chunks) =
    write_chunks_lem w (buf ++ chunk) chunks
    ∙ (λ i. ok (writing w (append_assoc buf chunk (concat chunks) i)))

begin_binary_lem :
    (w : MessageWriter) (n : ℕ)
    → w.in_message ≡ false
    → begin_binary w n ≡ ok (writing w (binary_header n))
unfolding begin_binary
begin_binary_lem w n e =
    ap
      (λ (b : Bool).
        if b
        then err already_in_message
        else ok (record w { in_message = true; buf = binary_header n }))
      e

whole : MessageWriter → List ℕ → Result (List ℕ × MessageWriter)
whole w p =
    ok ((write_binary w p).0, record ((write_binary w p).1) { buf = []; in_message = false })

end_message_lem :
    (w : MessageWriter) (p : List ℕ)
    → end_message (writing w (binary_header (length p) ++ p)) ≡ whole w p
unfolding end_message finish binary_header whole write_binary
end_message_lem w p = refl

-- A writer outside a message that is given a binary message in chunks returns the bytes that it
-- returns for the whole payload, sends them to its output as well, and is outside a message again
-- with an empty buffer.
pub stream_binary_lem :
    (w : MessageWriter) (chunks : List (List ℕ))
    → w.in_message ≡ false
    → stream_binary w (length (concat chunks)) chunks
      ≡ ok (
        (write_binary w (concat chunks)).0,
        record ((write_binary w (concat chunks)).1) { buf = []; in_message = false },
      )
unfolding stream_binary after_begin after_writes whole
stream_binary_lem w chunks e =
    ap (λ (r : Result MessageWriter). after_begin r chunks)
      (begin_binary_lem w (length (concat chunks)) e)
    ∙ ap after_writes (write_chunks_lem w (binary_header (length (concat chunks))) chunks)
    ∙ end_message_lem w (concat chunks)
