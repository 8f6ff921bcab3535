-- ===== src/Framing/Crc16/Tests.antt =====
-- Concrete runs, and the theorems at concrete inputs.
use embedded_bridge.Prelude.{ℕ, ◌/◌, ◌^◌, ◌≡◌, refl, arith, List, [], ◌∷◌, ◌++◌, bit_and}
use mathlib.Core.Logic.{◌↔◌}
use embedded_bridge.Framing.Crc16.{
  crc16_good, shift_round, shift_rounds, crc16_hdlc_update, crc16_register, crc16_hdlc,
}
use embedded_bridge.Framing.Crc16.Residue.{crc16_hdlc_residue_iff}
use embedded_bridge.Framing.Crc16.Burst.{crc16_hdlc_burst}

-- The check value of the format.
abbrev digits : List ℕ
digits = b'1' ∷ b'2' ∷ b'3' ∷ b'4' ∷ b'5' ∷ b'6' ∷ b'7' ∷ b'8' ∷ b'9' ∷ []

check_value : crc16_hdlc digits ≡ 0x906E
unfolding crc16_hdlc crc16_register crc16_hdlc_update shift_rounds shift_round
check_value = refl

crc16_hdlc_residue_iff_example :
    (crc16_hdlc (digits ++ (0x6E ∷ 0x90 ∷ [])) ≡ crc16_good)
    ↔ ((◌≡◌ {A = ℕ} 0x6E (bit_and (crc16_hdlc digits) 0xFF)) × (0x90 ≡ crc16_hdlc digits / 2 ^ 8))
crc16_hdlc_residue_iff_example = crc16_hdlc_residue_iff digits 0x6E 0x90 (omega arith) (omega arith)

crc16_hdlc_burst_example : (◌≡◌ {A = ℕ} 7 7) × (◌≡◌ {A = ℕ} 8 8)
crc16_hdlc_burst_example =
    crc16_hdlc_burst (1 ∷ []) (2 ∷ []) 7 8 7 8 (omega arith) (omega arith) (omega arith)
      (omega arith) refl
