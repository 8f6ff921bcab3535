-- ===== src/Framing/Varint/Encoding.antt =====
-- What the encoder writes: groups of seven bits, lowest first, marked on every byte but the last.
use embedded_bridge.Prelude.{
  ℕ, zero, suc, ◌+◌, ◌/◌, ◌%◌, ◌^◌, ◌≤◌, ◌<◌, ◌≡◌, ap, ◌∙◌, arith, List, [], ◌∷◌, ◌++◌, All, length,
  append_assoc, bit_and, bit_or, every_number-Acc, low_seven, set_top_bit,
}
use mathlib.Core.Logic.{dif_pos, dif_neg}
use mathlib.Core.WellFounded.{Acc}
use native.Mathlib.Decide.{dec_lt}
use native.Mathlib.Bridge.{le_prop}
use native.Mathlib.Nat.{pow-suc, one-le-pow}
use embedded_bridge.Framing.Varint.{shifted_smaller, encode_loop, encode_varint}

pub data Encodes : ℕ → List ℕ → Type 0 where
  final : (v : ℕ) → v < 128 → Encodes v (v ∷ [])
  group :
      (v : ℕ) {bytes : List ℕ}
      → 128 ≤ v
      → Encodes (v / 128) bytes
      → Encodes v ((v % 128 + 128) ∷ bytes)

marked : (v : ℕ) → bit_or (bit_and v 0x7F) 0x80 ≡ v % 128 + 128
marked v = rw (low_seven v) (set_top_bit (v % 128) (omega arith))

low_byte : (v : ℕ) → ¬ 0x7F < v → bit_and v 0x7F ≡ v
low_byte v h = rw (low_seven v) (omega arith)

-- One step of the loop, and its end.
loop_step : List ℕ → (v : ℕ) → ((w : ℕ) → w < v → Acc ◌<◌ w) → 0x7F < v → List ℕ
loop_step out v smaller h =
    encode_loop (out ++ (bit_or (bit_and v 0x7F) 0x80 ∷ [])) (v / 2 ^ 7)
      (smaller (v / 2 ^ 7) (shifted_smaller v h))

encode_loop_more :
    (out : List ℕ) (v : ℕ) (smaller : (w : ℕ) → w < v → Acc ◌<◌ w) (h : 0x7F < v)
    → encode_loop out v (Acc.intro v smaller) ≡ loop_step out v smaller h
unfolding encode_loop loop_step
encode_loop_more out v smaller h =
    dif_pos (dec_lt 0x7F v) le_prop h (loop_step out v smaller) (λ _. out ++ (bit_and v 0x7F ∷ []))

encode_loop_last :
    (out : List ℕ) (v : ℕ) (smaller : (w : ℕ) → w < v → Acc ◌<◌ w)
    → ¬ 0x7F < v
    → encode_loop out v (Acc.intro v smaller) ≡ out ++ (bit_and v 0x7F ∷ [])
unfolding encode_loop loop_step
encode_loop_last out v smaller h =
    dif_neg (dec_lt 0x7F v) h (loop_step out v smaller) (λ _. out ++ (bit_and v 0x7F ∷ []))

encode_loop-Encodes :
    (out : List ℕ) (v : ℕ) (w : Acc ◌<◌ v)
    → (bytes : List ℕ) × (encode_loop out v w ≡ out ++ bytes) × Encodes v bytes
unfolding loop_step
encode_loop-Encodes out v (Acc.intro _ smaller) = elim (dec_lt 0x7F v) [
  | yes h ↦
      let byte : List ℕ = bit_or (bit_and v 0x7F) 0x80 ∷ [] in
      let (bytes, e, c) =
        encode_loop-Encodes (out ++ byte) (v / 2 ^ 7) (smaller (v / 2 ^ 7) (shifted_smaller v h)) in
      (
        (v % 128 + 128) ∷ bytes,
        encode_loop_more out v smaller h
            ∙ e
            ∙ append_assoc out byte bytes
            ∙ ap (λ (t : ℕ). out ++ (t ∷ bytes)) (marked v),
        group v (omega arith) c,
      )
  | no h ↦ (
    v ∷ [],
    encode_loop_last out v smaller h ∙ ap (λ (t : ℕ). out ++ (t ∷ [])) (low_byte v h),
    final v (omega arith),
  )
]

-- The encoder writes the groups of its value.
pub encode_varint-Encodes : (v : ℕ) → Encodes v (encode_varint v)
unfolding encode_varint
encode_varint-Encodes v =
    let (bytes, e, c) = encode_loop-Encodes [] v (every_number-Acc v) in rw e c

-- A value below 128 ^ n takes at most n bytes, and one that is not takes more.
pub length-Encodes_le :
    (n : ℕ) {v : ℕ} {bytes : List ℕ} → Encodes v bytes → v < 128 ^ suc n → length bytes ≤ suc n
length-Encodes_le n (final v h) k = omega arith
length-Encodes_le zero (group v h c) k = absurd (omega arith)
length-Encodes_le (suc n) (group v h c) k =
    omega (arith, length-Encodes_le n c (omega (arith, pow-suc 128 (suc n))))

pub length-Encodes_lt :
    (n : ℕ) {v : ℕ} {bytes : List ℕ} → Encodes v bytes → 128 ^ n ≤ v → n < length bytes
length-Encodes_lt zero (final v h) k = omega arith
length-Encodes_lt (suc n) (final v h) k =
    absurd (omega (arith, pow-suc 128 n, one-le-pow n 128 (omega arith)))
length-Encodes_lt zero (group v h c) k = omega arith
length-Encodes_lt (suc n) (group v h c) k =
    omega (arith, length-Encodes_lt n c (omega (arith, pow-suc 128 n)))

pub Encodes-All : {v : ℕ} {bytes : List ℕ} → Encodes v bytes → All (λ b. b < 256) bytes
Encodes-All (final v h) = (omega arith, tt)
Encodes-All (group v h c) = (omega arith, Encodes-All c)
