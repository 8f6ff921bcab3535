-- ===== src/Framing/Crc16/Residue.antt =====
-- The two check bytes that follow a payload, and the residue that a receiver tests.
use embedded_bridge.Prelude.{
  ℕ, ◌+◌, ◌*◌, ◌/◌, ◌%◌, ◌^◌, ◌<◌, ◌≡◌, refl, sym, ap, ◌∙◌, arith, List, [], ◌∷◌, ◌++◌,
}
use embedded_bridge.Prelude.{
  bit_and, bit_xor, bit_and_mask, bit_xor_fields, bit_xor-lt, bit_xor_assoc, bit_xor_comm,
  bit_xor_self,
}
use mathlib.Core.Logic.{◌↔◌}
use embedded_bridge.Framing.Crc16.{
  crc16_init, crc16_good, shift_round, shift_rounds, crc16_hdlc_update, crc16_register, crc16_hdlc,
}
use embedded_bridge.Framing.Crc16.Register.{
  crc16_hdlc_update_word, crc16_hdlc_update_bytes, crc16_hdlc_update-lt, crc16_register-lt,
  crc16_register-append,
}
use embedded_bridge.Framing.Crc16.Burst.{crc16_hdlc_lem, crc16_hdlc_burst}

-- The complement of a register with the bytes `h` and `l`.
complement_bytes :
    (h l : ℕ)
    → h < 256
    → l < 256
    → bit_xor (l + h * 256) 0xFFFF ≡ bit_xor l 0xFF + bit_xor h 0xFF * 256
complement_bytes h l hh hl =
    ap (λ (t : ℕ). bit_xor t 0xFFFF) (omega arith)
    ∙ bit_xor_fields 8 h l 0xFF 0xFF hl (omega arith)
    ∙ omega arith

-- A register that is fed its own complement, low byte first, has a constant value.
complement_fed :
    (h l : ℕ)
    → h < 256
    → l < 256
    → crc16_hdlc_update (crc16_hdlc_update (l + h * 256) (bit_xor l 0xFF)) (bit_xor h 0xFF)
      ≡ shift_rounds 8 (bit_xor (shift_rounds 8 0xFF) 0xFF)
complement_fed h l hh hl =
    crc16_hdlc_update_word _ (bit_xor h 0xFF) (crc16_hdlc_update-lt _ (bit_xor l 0xFF))
    ∙ ap (λ (t : ℕ). shift_rounds 8 t) inner
  where
    flip : (b : ℕ) → b < 256 → bit_xor b 0xFF < 256
    flip b k = bit_xor-lt 8 b 0xFF k (omega arith)

    gone : (b : ℕ) → bit_xor b (bit_xor b 0xFF) ≡ 0xFF
    gone b = bit_xor_comm b (bit_xor b 0xFF) ∙ bit_xor_self b 0xFF

    inner :
        bit_xor (crc16_hdlc_update (l + h * 256) (bit_xor l 0xFF)) (bit_xor h 0xFF % 256)
        ≡ bit_xor (shift_rounds 8 0xFF) 0xFF
    inner =
        ap (λ (t : ℕ). bit_xor (crc16_hdlc_update (l + h * 256) (bit_xor l 0xFF)) t)
          (omega (arith, flip h hh))
        ∙ ap (λ (t : ℕ). bit_xor t (bit_xor h 0xFF))
            (crc16_hdlc_update_bytes h l (bit_xor l 0xFF) hh hl (flip l hl)
              ∙ ap (λ (t : ℕ). bit_xor (shift_rounds 8 t) h) (gone l))
        ∙ bit_xor_assoc (shift_rounds 8 0xFF) h (bit_xor h 0xFF)
        ∙ ap (λ (t : ℕ). bit_xor (shift_rounds 8 0xFF) t) (gone h)

pub crc16_hdlc-lt : (p : List ℕ) → crc16_hdlc p < 65536
crc16_hdlc-lt p =
    rw crc16_hdlc_lem
      (bit_xor-lt 16 _ 0xFFFF (crc16_register-lt crc16_init p (omega arith)) (omega arith))

crc16_register_two :
    (r a b : ℕ) → crc16_register r (a ∷ b ∷ []) ≡ crc16_hdlc_update (crc16_hdlc_update r a) b
unfolding crc16_register
crc16_register_two r a b = refl

good_value : bit_xor (shift_rounds 8 (bit_xor (shift_rounds 8 0xFF) 0xFF)) 0xFFFF ≡ crc16_good
unfolding shift_rounds shift_round
good_value = refl

-- The check bytes, in terms of the register behind the payload.
module _ (p : List ℕ) where
  register : ℕ
  register = crc16_register crc16_init p

  register-lt : register < 65536
  unfolding register
  register-lt = crc16_register-lt crc16_init p (omega arith)

  value : crc16_hdlc p ≡ bit_xor (register % 256) 0xFF + bit_xor (register / 256) 0xFF * 256
  unfolding register
  value =
      crc16_hdlc_lem p
      ∙ ap (λ (t : ℕ). bit_xor t 0xFFFF) (omega arith)
      ∙ complement_bytes (register / 256) (register % 256) (omega (arith, register-lt))
          (omega arith)

  low : bit_xor (register % 256) 0xFF < 256
  low = bit_xor-lt 8 _ 0xFF (omega arith) (omega arith)

  check_bytes :
      (bit_and (crc16_hdlc p) 0xFF ≡ bit_xor (register % 256) 0xFF)
      × (crc16_hdlc p / 2 ^ 8 ≡ bit_xor (register / 256) 0xFF)
  check_bytes =
      (omega (arith, bit_and_mask 8 (crc16_hdlc p), value, low), omega (arith, value, low))

  fed_back :
      crc16_hdlc_update
        (crc16_hdlc_update register (bit_and (crc16_hdlc p) 0xFF))
        (crc16_hdlc p / 2 ^ 8)
      ≡ shift_rounds 8 (bit_xor (shift_rounds 8 0xFF) 0xFF)
  fed_back =
      rw (check_bytes.0, check_bytes.1)
        (ap
            (λ (t : ℕ).
              crc16_hdlc_update (crc16_hdlc_update t (bit_xor (register % 256) 0xFF))
                (bit_xor (register / 256) 0xFF))
            (omega arith)
          ∙ complement_fed (register / 256) (register % 256) (omega (arith, register-lt))
              (omega arith))

-- A payload with its CRC behind it, low byte first, has the good residue.
pub crc16_hdlc_residue :
    (p : List ℕ)
    → crc16_hdlc (p ++ (bit_and (crc16_hdlc p) 0xFF ∷ crc16_hdlc p / 2 ^ 8 ∷ [])) ≡ crc16_good
unfolding register
crc16_hdlc_residue p =
    crc16_hdlc_lem _
    ∙ ap (λ (t : ℕ). bit_xor t 0xFFFF)
        (crc16_register-append crc16_init p _ ∙ crc16_register_two _ _ _ ∙ fed_back p)
    ∙ good_value

-- Two bytes behind a payload give the good residue exactly when they are its CRC, low byte first.
pub crc16_hdlc_residue_iff :
    (p : List ℕ) (a b : ℕ)
    → a < 256
    → b < 256
    → (crc16_hdlc (p ++ (a ∷ b ∷ [])) ≡ crc16_good)
      ↔ ((a ≡ bit_and (crc16_hdlc p) 0xFF) × (b ≡ crc16_hdlc p / 2 ^ 8))
crc16_hdlc_residue_iff p a b ha hb = (
  λ e.
      crc16_hdlc_burst p [] a b (bit_and (crc16_hdlc p) 0xFF) (crc16_hdlc p / 2 ^ 8) ha hb
        (omega (arith, bit_and_mask 8 (crc16_hdlc p))) (omega (arith, crc16_hdlc-lt p))
        (e ∙ sym (crc16_hdlc_residue p)),
  λ e.
      ap (λ (t : ℕ). crc16_hdlc (p ++ (t ∷ b ∷ []))) (e.0)
      ∙ ap (λ (t : ℕ). crc16_hdlc (p ++ (bit_and (crc16_hdlc p) 0xFF ∷ t ∷ []))) (e.1)
      ∙ crc16_hdlc_residue p,
)
