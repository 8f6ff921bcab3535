-- ===== src/Framing/Slip/Invariant.antt =====
-- The framer's buffer never passes `buf_size`, and no delivered frame is empty or longer.
use embedded_bridge.Prelude.{
  ℕ, ◌≤◌, arith, false, not, ◌&&◌, ltb, ◌==◌, if-holds, if-holds_by, List, [], ◌∷◌, All, All-append,
  length, length-append,
}
use embedded_bridge.Framing.Slip.{
  end_byte, esc, esc_end, esc_esc, SlipFramer, init, store, on_end, on_escaped, process_byte,
  process_bytes, reset,
}

abbrev pub Fits : ℕ → List ℕ → Type 0
Fits buf_size p = (1 ≤ length p) × (length p ≤ buf_size)

pub record IsValid (s : SlipFramer) : Type 0 where
  pub room : length s.buf ≤ s.buf_size
  pub delivered : All (Fits s.buf_size) s.frames

store-IsValid : (s : SlipFramer) (c : ℕ) → IsValid s → IsValid (store s c)
unfolding store
store-IsValid s c v =
    if-holds_by IsValid (ltb (length s.buf) s.buf_size)
      (λ h. record { room = ground (arith, length-append s.buf (c ∷ [])); delivered = v.delivered })
      (λ h. record { room = v.room; delivered = v.delivered })

on_end-IsValid : (s : SlipFramer) → IsValid s → IsValid (on_end s)
unfolding on_end
on_end-IsValid s v = record {
  room = omega arith;
  delivered =
      if-holds_by (All (Fits s.buf_size)) (ltb 0 (length s.buf) && not s.error)
        (λ h.
          All-append (Fits s.buf_size) s.frames (s.buf ∷ []) v.delivered
            ((ground arith, v.room), tt))
        (λ h. v.delivered);
}

on_escaped-IsValid : (s : SlipFramer) (c : ℕ) → IsValid s → IsValid (on_escaped s c)
unfolding on_escaped
on_escaped-IsValid s c v = if-holds IsValid (c == esc_end) (store-IsValid _ end_byte v') (
    if-holds IsValid (c == esc_esc) (store-IsValid _ esc v')
      (record { room = v.room; delivered = v.delivered }))
  where
    v' : IsValid (record s { escape = false })
    v' = record { room = v.room; delivered = v.delivered }

pub process_byte-IsValid : (s : SlipFramer) (c : ℕ) → IsValid s → IsValid (process_byte s c)
unfolding process_byte
process_byte-IsValid s c v = if-holds IsValid (c == end_byte) (on_end-IsValid s v) (
    if-holds IsValid (c == esc) (record { room = v.room; delivered = v.delivered })
      (if-holds IsValid s.escape (on_escaped-IsValid s c v) (store-IsValid s c v)))

-- From a valid framer, whatever bytes arrive, the buffer keeps to `buf_size` and every delivered
-- frame holds between 1 and `buf_size` bytes.
pub slip_process_bytes-IsValid :
    (s : SlipFramer) (bytes : List ℕ) → IsValid s → IsValid (process_bytes s bytes)
unfolding process_bytes
slip_process_bytes-IsValid s [] v = v
slip_process_bytes-IsValid s (b ∷ bytes) v =
    slip_process_bytes-IsValid (process_byte s b) bytes (process_byte-IsValid s b v)

pub init-IsValid : (buf_size : ℕ) → IsValid (init buf_size)
unfolding init
init-IsValid buf_size = record { room = omega arith; delivered = tt }

pub reset-IsValid : (s : SlipFramer) → IsValid s → IsValid (reset s)
unfolding reset
reset-IsValid s v = record { room = omega arith; delivered = v.delivered }
