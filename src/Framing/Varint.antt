-- ===== src/Framing/Varint.antt =====
-- The varint helpers of python/src/embedded_bridge/framing/message.py. A length is a native number,
-- so the test `value < 0` of `encode_varint` never passes and is left out.
pub mod Encoding
pub mod RoundTrip
mod Tests
use embedded_bridge.Prelude.{
  ℕ, suc, ◌+◌, ◌*◌, ◌/◌, ◌^◌, ◌<◌, List, [], ◌∷◌, ◌++◌, arith, leb, ltb, ◌==◌, if◌then◌else◌,
  bit_and, bit_or,
}
use mathlib.Core.Logic.{dite}
use mathlib.Core.WellFounded.{Acc}
use native.Mathlib.Decide.{dec_lt}
use embedded_bridge.Prelude.{every_number-Acc}

-- The exceptions that `decode_varint` raises.
pub data Error : Type 0 where
  too_long truncated : Error

pub data Result {ℓ} (A : Type ℓ) : Type ℓ where
  ok : A → Result A
  err : Error → Result A

abbrev pub varint_max_bytes : ℕ
varint_max_bytes = 5

shifted_smaller : (value : ℕ) → 0x7F < value → value / 2 ^ 7 < value
shifted_smaller value h = omega arith

-- `while value > 0x7F`, and the `append` behind the loop.
pub encode_loop : List ℕ → (value : ℕ) → Acc ◌<◌ value → List ℕ
encode_loop out value (Acc.intro _ smaller) =
    dite (dec_lt 0x7F value)
      (λ h.
        encode_loop (out ++ (bit_or (bit_and value 0x7F) 0x80 ∷ [])) (value / 2 ^ 7)
          (smaller (value / 2 ^ 7) (shifted_smaller value h)))
      (λ _. out ++ (bit_and value 0x7F ∷ []))

pub encode_varint : ℕ → List ℕ
encode_varint value = encode_loop [] value (every_number-Acc value)

-- `for i, b in enumerate(data)`, from the index `i` on.
pub decode_loop : ℕ → ℕ → ℕ → List ℕ → Result (ℕ × ℕ)
decode_loop i value shift [] = err truncated
decode_loop i value shift (b ∷ bytes) =
    let value' = bit_or value (bit_and b 0x7F * 2 ^ shift) in
    let more = decode_loop (i + 1) value' (shift + 7) bytes in
    if leb varint_max_bytes i
    then err too_long
    else if bit_and b 0x80 == 0
    then ok (value', i + 1)
    else more

-- The value and the number of bytes that it takes.
pub decode_varint : List ℕ → Result (ℕ × ℕ)
decode_varint bytes = decode_loop 0 0 0 bytes
