-- ===== src/Framing/Varint/Tests.antt =====
-- The varint helpers at concrete lengths.
use embedded_bridge.Prelude.{◌≡◌, ◌++◌, length, arith, ◌∷◌, []}
use embedded_bridge.Framing.Varint.{ok, encode_varint, decode_varint}
use embedded_bridge.Framing.Varint.RoundTrip.{decode_varint-encode_varint}

decode_varint-encode_varint_example :
    decode_varint (encode_varint 300 ++ (7 ∷ [])) ≡ ok (300, length (encode_varint 300))
decode_varint-encode_varint_example = decode_varint-encode_varint 300 (7 ∷ []) (omega arith)
