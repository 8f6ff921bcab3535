-- ===== src/Framing/Hdlc/Encoder.antt =====
-- The encoder: its loop as a plain recursion over the body, the payload with its CRC behind it.
use embedded_bridge.Prelude.{
  ℕ, ◌+◌, ◌/◌, ◌^◌, ◌<◌, ◌≡◌, refl, sym, ap, ◌∙◌, arith, List, [], ◌∷◌, ◌++◌, ◌||◌, All, All-append,
  length, ◌==◌, if◌then◌else◌, append-nil, append_assoc, length-append, bit_and, bit_xor,
  bit_and_mask,
}
use embedded_bridge.Framing.Crc16.{crc16_hdlc}
use embedded_bridge.Framing.Crc16.Residue.{crc16_hdlc-lt}
use embedded_bridge.Framing.Hdlc.{flag, esc, esc_xor, frame_crc, emit_stuffed, emit_all, encode}

abbrev pub IsByte : ℕ → Type 0
IsByte b = b < 256

abbrev pub stuffed_byte : ℕ → List ℕ
stuffed_byte b = if b == flag || b == esc then esc ∷ bit_xor b esc_xor ∷ [] else b ∷ []

abbrev pub stuffed : List ℕ → List ℕ
stuffed [] = []
stuffed (b ∷ body) = stuffed_byte b ++ stuffed body

pub frame_crc_lem : (p : List ℕ) → frame_crc p ≡ crc16_hdlc p
unfolding frame_crc crc16_hdlc
frame_crc_lem p = refl

-- What the frame carries.
abbrev pub body_of : List ℕ → List ℕ
body_of p = p ++ (bit_and (crc16_hdlc p) 0xFF ∷ crc16_hdlc p / 2 ^ 8 ∷ [])

emit_stuffed_lem : (out : List ℕ) (b : ℕ) → emit_stuffed out b ≡ out ++ stuffed_byte b
unfolding emit_stuffed
emit_stuffed_lem out b = ground (arith, append_assoc out (esc ∷ []) (bit_xor b esc_xor ∷ []))

emit_all_lem : (out p : List ℕ) → emit_all out p ≡ out ++ stuffed p
unfolding emit_all
emit_all_lem out [] = sym (append-nil out)
emit_all_lem out (b ∷ p) =
    emit_all_lem (emit_stuffed out b) p
    ∙ ap (λ (t : List ℕ). t ++ stuffed p) (emit_stuffed_lem out b)
    ∙ append_assoc out (stuffed_byte b) (stuffed p)

pub stuffed-append : (xs ys : List ℕ) → stuffed (xs ++ ys) ≡ stuffed xs ++ stuffed ys
stuffed-append [] ys = refl
stuffed-append (x ∷ xs) ys = rw (stuffed-append xs ys, append_assoc)

-- A frame is the flag, the stuffed body and the flag.
pub encode_lem : (p : List ℕ) → encode p ≡ flag ∷ (stuffed (body_of p) ++ (flag ∷ []))
unfolding encode
encode_lem p =
    simp (emit_stuffed_lem, emit_all_lem, frame_crc_lem, stuffed-append, append_assoc, append-nil)

pub body_of-IsByte : (p : List ℕ) → All IsByte p → All IsByte (body_of p)
body_of-IsByte p h =
    All-append IsByte p _ h
      (omega (arith, bit_and_mask 8 (crc16_hdlc p)), (omega (arith, crc16_hdlc-lt p), tt))

pub length-body_of : (p : List ℕ) → length (body_of p) ≡ length p + 2
length-body_of p = length-append p _
