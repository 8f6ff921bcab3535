-- ===== src/Framing/Cobs/Tests.antt =====
-- Concrete runs, and the theorems at concrete inputs.
use embedded_bridge.Prelude.{
  ℕ, zero, suc, ◌+◌, ◌/◌, ◌≤◌, ◌<◌, ◌≡◌, refl, arith, true, List, [], ◌∷◌, ◌++◌, All, length,
}
use embedded_bridge.Framing.Cobs.{
  CobsFramer, close_block, encode_byte, encode_bytes, cobs_encode, cobs_decode, copy, decode_block,
  decode_loop, decoded, failed, encode, process_byte, process_bytes,
}
use embedded_bridge.Framing.Cobs.Decoding.{cobs_decode-cobs_encode}
use embedded_bridge.Framing.Cobs.Length.{NonZero, length-cobs_encode}
use embedded_bridge.Framing.Cobs.RoundTrip.{between, cobs_resync, cobs_full_payload_lost}

cobs_encode-zeros : cobs_encode (1 ∷ 0 ∷ 0 ∷ 2 ∷ []) ≡ 2 ∷ 1 ∷ 1 ∷ 2 ∷ 2 ∷ []
unfolding cobs_encode encode_bytes encode_byte close_block
cobs_encode-zeros = refl

-- A code byte that promises more than is there.
cobs_decode-truncated : cobs_decode (5 ∷ 1 ∷ []) ≡ failed
unfolding cobs_decode decode_loop decode_block copy
cobs_decode-truncated = refl

abbrev payload : List ℕ
payload = 1 ∷ 0 ∷ 7 ∷ []

cobs_decode-cobs_encode_example : cobs_decode (cobs_encode payload) ≡ decoded payload
cobs_decode-cobs_encode_example = cobs_decode-cobs_encode payload

length-cobs_encode_example :
    (length (cobs_encode payload) ≤ 3 + 1 + 3 / 254)
    × (NonZero payload → length (cobs_encode payload) ≡ 3 + 1 + 3 / 254)
length-cobs_encode_example = length-cobs_encode payload

abbrev mid_frame : CobsFramer
mid_frame = record (between 4 []) { raw = 9 ∷ []; error = true }

cobs_resync_example :
    process_bytes mid_frame (0 ∷ encode payload)
    ≡ between 4 ((process_byte mid_frame 0).frames ++ (payload ∷ []))
cobs_resync_example = cobs_resync mid_frame payload (omega arith) (omega arith)

abbrev ones : ℕ → List ℕ
ones zero = []
ones (suc n) = 1 ∷ ones n

-- A framer with a frame under way.
abbrev wide_framer : CobsFramer
wide_framer = record mid_frame { buf_size = 254 }

cobs_full_payload_lost_example :
    process_bytes wide_framer (0 ∷ encode (ones 254)) ≡ process_byte wide_framer 0
cobs_full_payload_lost_example =
    cobs_full_payload_lost wide_framer (ones 254) (ones_small 254) (ones_NonZero 254) refl
      (omega arith)
  where
    ones_small : (n : ℕ) → All (λ b. b < 256) (ones n)
    ones_small zero = tt
    ones_small (suc n) = (omega arith, ones_small n)

    ones_NonZero : (n : ℕ) → NonZero (ones n)
    ones_NonZero zero = tt
    ones_NonZero (suc n) = (omega arith, ones_NonZero n)
