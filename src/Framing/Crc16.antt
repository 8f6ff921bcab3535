-- ===== src/Framing/Crc16.antt =====
-- python/src/embedded_bridge/framing/crc16.py. A Python int is a native number; every value here
-- is non-negative, so `&`, `^` and `>>` are those of the numbers.
pub mod Register
pub mod Residue
pub mod Burst
mod Tests
use embedded_bridge.Prelude.{ℕ, zero, suc, ◌+◌, ◌/◌, List, [], ◌∷◌, ◌==◌, if◌then◌else◌}
use embedded_bridge.Prelude.{bit_and, bit_xor}

abbrev pub crc16_init : ℕ
crc16_init = 0xFFFF

abbrev pub crc16_good : ℕ
crc16_good = 0x0F47

-- One round of the loop over the eight bits.
unfoldable pub shift_round : ℕ → ℕ
shift_round crc = if bit_and crc 0x0001 == 0 then crc / 2 else bit_xor (crc / 2) 0x8408

-- `for _ in range(n)`
unfoldable pub shift_rounds : ℕ → ℕ → ℕ
shift_rounds zero crc = crc
shift_rounds (suc n) crc = shift_rounds n (shift_round crc)

unfoldable pub crc16_hdlc_update : ℕ → ℕ → ℕ
crc16_hdlc_update crc byte = bit_and (shift_rounds 8 (bit_xor crc (bit_and byte 0xFF))) 0xFFFF

-- The loop `for b in data` from a given register.
unfoldable pub crc16_register : ℕ → List ℕ → ℕ
crc16_register crc [] = crc
crc16_register crc (b ∷ data') = crc16_register (crc16_hdlc_update crc b) data'

unfoldable pub crc16_hdlc : List ℕ → ℕ
crc16_hdlc bytes = bit_and (bit_xor (crc16_register crc16_init bytes) 0xFFFF) 0xFFFF
