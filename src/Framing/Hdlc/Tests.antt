-- ===== src/Framing/Hdlc/Tests.antt =====
-- Concrete runs, and the theorems at concrete inputs.
use embedded_bridge.Prelude.{
  ◌<◌, All, ◌≤◌, length, ℕ, ◌≡◌, refl, arith, inl, true, List, [], ◌∷◌, ◌++◌, bit_and, ◌/◌, ◌^◌,
}
use embedded_bridge.Framing.Crc16.{
  shift_round, shift_rounds, crc16_hdlc_update, crc16_register, crc16_hdlc,
}
use embedded_bridge.Framing.Hdlc.{
  flag, escape, HdlcFramer, init, store, frame_crc, strip_crc, deliver, start_frame, on_byte,
  is_flow_byte, process_byte, process_bytes, set_flow_control, emit_stuffed, emit_all, encode,
}
use embedded_bridge.Framing.Hdlc.Invariant.{IsValid, init-IsValid, hdlc_process_bytes-IsValid}
use embedded_bridge.Framing.Hdlc.Encoder.{stuffed, body_of}
use embedded_bridge.Framing.Hdlc.Body.{in_body}
use embedded_bridge.Framing.Hdlc.RoundTrip.{hdlc_frame_delivered, process_bytes-damaged}
use embedded_bridge.Framing.Hdlc.Overflow.{process_bytes-overflow, process_bytes-escaped_overflow}
use embedded_bridge.Framing.Hdlc.FlowControl.{process_bytes-flow_lost}

abbrev digits : List ℕ
digits = b'1' ∷ b'2' ∷ b'3' ∷ b'4' ∷ b'5' ∷ b'6' ∷ b'7' ∷ b'8' ∷ b'9' ∷ []

encode-digits : encode digits ≡ 0x7E ∷ (digits ++ (0x6E ∷ 0x90 ∷ 0x7E ∷ []))
unfolding encode emit_all emit_stuffed frame_crc crc16_register crc16_hdlc_update shift_rounds
    shift_round
encode-digits = refl

-- An XON byte in a frame, with flow control on: the frame is lost.
xon_lost :
    (process_bytes (set_flow_control (init 16) true) (encode (1 ∷ 0x11 ∷ 2 ∷ []))).frames ≡ []
unfolding set_flow_control init process_bytes process_byte is_flow_byte on_byte start_frame deliver
    store strip_crc encode emit_all emit_stuffed frame_crc crc16_register crc16_hdlc_update
    shift_rounds shift_round
xon_lost = refl

-- A framer that is in the middle of another frame, behind an escape byte.
abbrev mid_frame : HdlcFramer
mid_frame = record (in_body 4 [] (9 ∷ [])) { state = escape }

hdlc_process_bytes-IsValid_example : IsValid (process_bytes (init 2) (encode (1 ∷ 2 ∷ [])))
hdlc_process_bytes-IsValid_example =
    hdlc_process_bytes-IsValid (init 2) (encode (1 ∷ 2 ∷ [])) (init-IsValid 2)

hdlc_frame_delivered_example :
    process_bytes mid_frame (encode (flag ∷ 3 ∷ []))
    ≡ in_body 4 ((process_byte mid_frame flag).frames ++ ((flag ∷ 3 ∷ []) ∷ [])) []
hdlc_frame_delivered_example = hdlc_frame_delivered mid_frame (flag ∷ 3 ∷ []) refl (omega arith)

process_bytes-damaged_example :
    process_bytes mid_frame (
      flag
      ∷ (stuffed (
            7
            ∷ 3
            ∷ bit_and (crc16_hdlc (flag ∷ 3 ∷ [])) 0xFF
            ∷ crc16_hdlc (flag ∷ 3 ∷ []) / 2 ^ 8
            ∷ [])
          ++ (flag ∷ [])))
    ≡ in_body 4 (process_byte mid_frame flag).frames []
process_bytes-damaged_example =
    process_bytes-damaged mid_frame (flag ∷ 3 ∷ []) [] _ flag 3 7 3 refl (omega arith) refl
      (omega arith, omega arith, omega arith, omega arith) (inl (omega arith))

process_bytes-overflow_example :
    process_bytes mid_frame (flag ∷ (stuffed (1 ∷ 2 ∷ 3 ∷ 4 ∷ 5 ∷ []) ++ (flag ∷ [])))
    ≡ in_body 4 (process_byte mid_frame flag).frames []
process_bytes-overflow_example =
    process_bytes-overflow mid_frame (1 ∷ 2 ∷ 3 ∷ 4 ∷ []) [] 5 refl refl refl

process_bytes-escaped_overflow_example :
    process_bytes mid_frame
      (flag ∷ (stuffed (body_of (1 ∷ 2 ∷ []) ++ (0x7D ∷ 0x7E ∷ [])) ++ (flag ∷ [])))
    ≡ in_body 4 ((process_byte mid_frame flag).frames ++ ((1 ∷ 2 ∷ []) ∷ [])) []
process_bytes-escaped_overflow_example =
    process_bytes-escaped_overflow mid_frame (1 ∷ 2 ∷ []) (0x7D ∷ 0x7E ∷ []) refl refl
      (refl, (refl, tt))

abbrev flow_framer : HdlcFramer
flow_framer = record (in_body 8 [] []) { flow_control = true }

process_bytes-flow_lost_example :
    (delivered : List (List ℕ)) × ((process_bytes flow_framer (encode (1 ∷ 0x11 ∷ 2 ∷ []))).frames
      ≡ (process_byte flow_framer flag).frames ++ delivered)
    × All (λ q. length q < 3) delivered
    × (length delivered ≤ 1)
unfolding is_flow_byte
process_bytes-flow_lost_example =
    process_bytes-flow_lost flow_framer (1 ∷ []) (2 ∷ []) 0x11 refl (omega arith) refl
