-- ===== src/Framing/Hdlc/RoundTrip.antt =====
-- Feeding what the encoder wrote, and feeding it with a transmission error.
use embedded_bridge.Prelude.{
  ◌-◌, ℕ, ◌+◌, ◌≤◌, ◌≡◌, ◌≢◌, ap, ◌∙◌, arith, false, List, [], ◌∷◌, ◌++◌, length, take, append-nil,
  length-append, take-length_append, sym, inl, inr, ◌⊎◌,
}
use embedded_bridge.Framing.Crc16.{crc16_good, crc16_hdlc}
use embedded_bridge.Framing.Crc16.Residue.{crc16_hdlc_residue}
use embedded_bridge.Framing.Crc16.Burst.{crc16_hdlc_burst}
use embedded_bridge.Framing.Hdlc.{flag, HdlcFramer, process_byte, process_bytes, encode}
use embedded_bridge.Framing.Hdlc.Encoder.{IsByte, stuffed, body_of, encode_lem, length-body_of}
use embedded_bridge.Framing.Hdlc.Body.{in_body, received, process_bytes-body}

take-body_of : (p : List ℕ) → take (length (body_of p) - 2) (body_of p) ≡ p
take-body_of p =
    ap (λ (k : ℕ). take k (body_of p)) (omega (arith, length-body_of p)) ∙ take-length_append p _

-- The body of an encoded frame is received as its payload.
pub received-body_of : (p : List ℕ) → received (body_of p) ≡ p ∷ []
received-body_of p = ground (arith, length-body_of p, crc16_hdlc_residue p, take-body_of p)

-- Whatever state the framer is in, without flow control an encoded payload that fits the buffer
-- with its CRC is delivered, the empty one too, and the framer is then at the start of a frame;
-- before the payload stands only what the first flag completes.
pub hdlc_frame_delivered :
    (s : HdlcFramer) (p : List ℕ)
    → s.flow_control ≡ false
    → length p + 2 ≤ s.buf_size
    → process_bytes s (encode p) ≡ in_body s.buf_size ((process_byte s flag).frames ++ (p ∷ [])) []
hdlc_frame_delivered s p h k =
    ap (λ (t : List ℕ). process_bytes s t) (encode_lem p)
    ∙ process_bytes-body s (body_of p) h (omega (arith, length-body_of p))
    ∙ ap (λ (t : List (List ℕ)). in_body s.buf_size ((process_byte s flag).frames ++ t) [])
        (received-body_of p)

-- A body with a good CRC that is changed within two adjacent bytes no longer has a good CRC.
damaged_residue :
    (front back : List ℕ) (x y x' y' : ℕ)
    → crc16_hdlc (front ++ (x ∷ y ∷ back)) ≡ crc16_good
    → IsByte x × IsByte y × IsByte x' × IsByte y'
    → (x ≢ x') ⊎ (y ≢ y')
    → crc16_hdlc (front ++ (x' ∷ y' ∷ back)) ≢ crc16_good
damaged_residue front back x y x' y' good (hx, hy, hx', hy') differs e = elim differs [
  | inl d ↦ d same.0
  | inr d ↦ d same.1
]
  where
    same : (x ≡ x') × (y ≡ y')
    same = crc16_hdlc_burst front back x y x' y' hx hy hx' hy' (good ∙ sym e)

received_none : (body : List ℕ) → crc16_hdlc body ≢ crc16_good → received body ≡ []
received_none body h = ground arith

-- A payload that with its CRC fits the buffer, and whose body, the payload and the CRC, is damaged
-- within two adjacent bytes, is not delivered: without flow control a framer in any state that reads
-- a flag, the stuffed form of the damaged body and a flag hands on nothing but what the first flag
-- completes, and is ready for the next frame. The damage is to the body: bytes that arrive as a flag
-- or an escape which the encoder did not write are not covered.
pub process_bytes-damaged :
    (s : HdlcFramer) (p front back : List ℕ) (x y x' y' : ℕ)
    → s.flow_control ≡ false
    → length p + 2 ≤ s.buf_size
    → body_of p ≡ front ++ (x ∷ y ∷ back)
    → IsByte x × IsByte y × IsByte x' × IsByte y'
    → (x ≢ x') ⊎ (y ≢ y')
    → process_bytes s (flag ∷ (stuffed (front ++ (x' ∷ y' ∷ back)) ++ (flag ∷ [])))
      ≡ in_body s.buf_size (process_byte s flag).frames []
process_bytes-damaged s p front back x y x' y' h k split bytes differs =
    process_bytes-body s (front ++ (x' ∷ y' ∷ back)) h fits
    ∙ ap (λ (t : List (List ℕ)). in_body s.buf_size ((process_byte s flag).frames ++ t) [])
        (received_none (front ++ (x' ∷ y' ∷ back))
          (damaged_residue front back x y x' y' good bytes differs))
    ∙ ap (λ (t : List (List ℕ)). in_body s.buf_size t []) (append-nil (process_byte s flag).frames)
  where
    good : crc16_hdlc (front ++ (x ∷ y ∷ back)) ≡ crc16_good
    good = ap crc16_hdlc (sym split) ∙ crc16_hdlc_residue p

    fits : length (front ++ (x' ∷ y' ∷ back)) ≤ s.buf_size
    fits = omega (
      arith,
      k,
      length-body_of p,
      ap (λ (t : List ℕ). length t) split,
      length-append front (x ∷ y ∷ back),
      length-append front (x' ∷ y' ∷ back),
    )
