-- ===== src/Framing/Slip/Tests.antt =====
-- Concrete runs, and the theorems at concrete inputs.
use embedded_bridge.Prelude.{ℕ, ◌≡◌, refl, true, List, [], ◌∷◌}
use embedded_bridge.Framing.Slip.{
  SlipFramer, init, store, on_end, on_escaped, process_byte, process_bytes, emit, emit_all, encode,
}
use embedded_bridge.Framing.Slip.RoundTrip.{between, slip_stream_delivered, encode_stream}

abbrev special : List ℕ
special = 0xC0 ∷ 1 ∷ 0xDB ∷ []

encode-special : encode special ≡ 0xC0 ∷ 0xDB ∷ 0xDC ∷ 1 ∷ 0xDB ∷ 0xDD ∷ 0xC0 ∷ []
unfolding encode emit_all emit
encode-special = refl

-- An escape that is not one of the two discards the frame.
bad_escape : (process_bytes (init 8) (0xC0 ∷ 1 ∷ 0xDB ∷ 2 ∷ 0xC0 ∷ [])).frames ≡ []
unfolding init process_bytes process_byte on_end on_escaped store
bad_escape = refl

-- A framer that was in the middle of another frame.
abbrev mid_frame : SlipFramer
mid_frame = record (between 4 []) { buf = 9 ∷ []; escape = true }

slip_stream_delivered_example :
    process_bytes (between 2 []) (encode_stream (special ∷ (7 ∷ []) ∷ []))
    ≡ between 2 ((7 ∷ []) ∷ [])
slip_stream_delivered_example = slip_stream_delivered 2 [] (special ∷ (7 ∷ []) ∷ [])
