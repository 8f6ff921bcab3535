-- ===== src/Framing/Message/Writer/Tests.antt =====
-- The theorem at a payload in two chunks.
use embedded_bridge.Prelude.{ℕ, ◌≡◌, refl, false, List, [], ◌∷◌, length, some}
use embedded_bridge.Framing.Message.Writer.{ok, MessageWriter, write_binary}
use embedded_bridge.Framing.Message.Writer.Streaming.{concat, stream_binary, stream_binary_lem}

abbrev chunks : List (List ℕ)
chunks = (7 ∷ 8 ∷ []) ∷ (9 ∷ []) ∷ []

abbrev writer : MessageWriter
writer = record { output = some []; buf = []; in_message = false }

stream_binary_lem_example :
    stream_binary writer (length (concat chunks)) chunks
    ≡ ok (
      (write_binary writer (concat chunks)).0,
      record ((write_binary writer (concat chunks)).1) { buf = []; in_message = false },
    )
stream_binary_lem_example = stream_binary_lem writer chunks refl
