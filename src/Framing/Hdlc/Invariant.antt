-- ===== src/Framing/Hdlc/Invariant.antt =====
-- The framer's buffer never passes `buf_size`, and no delivered payload is longer than the room
-- that the CRC leaves.
use embedded_bridge.Prelude.{
  ℕ, ◌+◌, ◌-◌, ◌≤◌, ◌≡◌, arith, List, [], ◌∷◌, All, All-append, length, length-append, length-take,
  Bool, ltb, ◌==◌, ◌&&◌, if-holds, if-holds_by, min, bit_xor,
}
use embedded_bridge.Framing.Crc16.{crc16_good}
use embedded_bridge.Framing.Hdlc.{
  flag, esc, esc_xor, State, idle, in_frame, escape, error, HdlcFramer, init, store, frame_crc,
  strip_crc, deliver, start_frame, on_byte, is_flow_byte, process_byte, process_bytes, reset,
  set_flow_control,
}

abbrev pub Fits : ℕ → List ℕ → Type 0
Fits buf_size p = length p + 2 ≤ buf_size

pub record IsValid (s : HdlcFramer) : Type 0 where
  pub room : length s.buf ≤ s.buf_size
  pub delivered : All (Fits s.buf_size) s.frames

store-IsValid : (s : HdlcFramer) (c : ℕ) → IsValid s → IsValid (store s c)
unfolding store
store-IsValid s c v =
    if-holds_by IsValid (ltb (length s.buf) s.buf_size)
      (λ h. record { room = ground (arith, length-append s.buf (c ∷ [])); delivered = v.delivered })
      (λ h. record { room = v.room; delivered = v.delivered })

length-strip_crc : (buf : List ℕ) → length (strip_crc buf) ≡ min (length buf - 2) (length buf)
unfolding strip_crc
length-strip_crc buf = length-take (length buf - 2) buf

deliver-IsValid : (s : HdlcFramer) → IsValid s → IsValid (deliver s)
unfolding deliver
deliver-IsValid s v =
    if-holds_by IsValid (ltb (length s.buf) 2) (λ h. v)
      (λ h.
        if-holds IsValid (frame_crc s.buf == crc16_good)
          (record {
            room = v.room;
            delivered =
                All-append (Fits s.buf_size) s.frames (strip_crc s.buf ∷ []) v.delivered
                  (ground (arith, length-strip_crc s.buf, v.room), tt);
          })
          v)

start_frame-IsValid : (s : HdlcFramer) → IsValid s → IsValid (start_frame s)
unfolding start_frame
start_frame-IsValid s v = record { room = omega arith; delivered = v.delivered }

on_byte-IsValid : (st : State) (s : HdlcFramer) (c : ℕ) → IsValid s → IsValid (on_byte st s c)
unfolding on_byte
on_byte-IsValid idle s c v = if-holds IsValid (c == flag) (start_frame-IsValid s v) v
on_byte-IsValid in_frame s c v =
    if-holds IsValid (c == flag)
      (record { room = omega arith; delivered = (deliver-IsValid s v).delivered })
      (if-holds IsValid (c == esc) (record { room = v.room; delivered = v.delivered })
        (store-IsValid s c v))
on_byte-IsValid escape s c v =
    let kept = store-IsValid s (bit_xor c esc_xor) v in
    if-holds IsValid (c == flag) (start_frame-IsValid s v)
      (record { room = kept.room; delivered = kept.delivered })
on_byte-IsValid error s c v = if-holds IsValid (c == flag) (start_frame-IsValid s v) v

process_byte-IsValid : (s : HdlcFramer) (c : ℕ) → IsValid s → IsValid (process_byte s c)
unfolding process_byte
process_byte-IsValid s c v =
    if-holds IsValid (s.flow_control && is_flow_byte c) v (on_byte-IsValid s.state s c v)

-- From a valid framer, whatever bytes arrive, the buffer keeps to `buf_size` and every delivered
-- payload leaves room for the two bytes of the CRC.
pub hdlc_process_bytes-IsValid :
    (s : HdlcFramer) (bytes : List ℕ) → IsValid s → IsValid (process_bytes s bytes)
unfolding process_bytes
hdlc_process_bytes-IsValid s [] v = v
hdlc_process_bytes-IsValid s (b ∷ bytes) v =
    hdlc_process_bytes-IsValid (process_byte s b) bytes (process_byte-IsValid s b v)

pub init-IsValid : (buf_size : ℕ) → IsValid (init buf_size)
unfolding init
init-IsValid buf_size = record { room = omega arith; delivered = tt }

pub reset-IsValid : (s : HdlcFramer) → IsValid s → IsValid (reset s)
unfolding reset
reset-IsValid s v = record { room = omega arith; delivered = v.delivered }

pub set_flow_control-IsValid :
    (s : HdlcFramer) (b : Bool) → IsValid s → IsValid (set_flow_control s b)
unfolding set_flow_control
set_flow_control-IsValid s b v = record { room = v.room; delivered = v.delivered }
