-- ===== src/Text/Utf8/Tests.antt =====
-- Concrete runs of the decoder.
use embedded_bridge.Prelude.{◌≡◌, refl, ◌∷◌, []}
use embedded_bridge.Text.Utf8.{decode, decode_from, step, lead, flush}

-- The euro sign, a bad byte behind half a sequence, and a sequence that is cut off.
decode-mixed :
    decode (0xE2 ∷ 0x82 ∷ 0xAC ∷ 0xE2 ∷ 0x41 ∷ 0xF0 ∷ 0x9F ∷ [])
    ≡ 0x20AC ∷ 0xFFFD ∷ 0x41 ∷ 0xFFFD ∷ []
unfolding decode decode_from step lead flush
decode-mixed = refl
