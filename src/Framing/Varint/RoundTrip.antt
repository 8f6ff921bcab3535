-- ===== src/Framing/Varint/RoundTrip.antt =====
-- The decoder on what the encoder wrote, and on any input.
use embedded_bridge.Prelude.{
  ℕ, ◌+◌, ◌*◌, ◌/◌, ◌%◌, ◌^◌, ◌≤◌, ◌<◌, ◌≡◌, ap, ◌∙◌, arith, List, ◌++◌, length, bit_and, bit_or,
  low_seven, top_bit, bit_or_shifted,
}
use native.Mathlib.Nat.{div-add-mod}
use native.Mathlib.Numerals.{towards_suc}
use embedded_bridge.Framing.Varint.{ok, err, too_long, decode_loop, encode_varint, decode_varint}
use embedded_bridge.Framing.Varint.Encoding.{
  Encodes, final, group, encode_varint-Encodes, length-Encodes_le, length-Encodes_lt,
}

pub next_shift : (s : ℕ) → 2 ^ (s + 7) ≡ 128 * 2 ^ s
next_shift s = simp towards_suc (omega arith)

-- A group that is added above what has been read.
pub add_group :
    (value b shift : ℕ)
    → value < 2 ^ shift
    → bit_or value (bit_and b 0x7F * 2 ^ shift) ≡ value + b % 128 * 2 ^ shift
add_group value b shift h = rw (low_seven b) (bit_or_shifted shift value (b % 128) h)

-- The lowest group of `v`, and the rest one group up.
pub regroup : (v s : ℕ) → v % 128 * 2 ^ s + v / 128 * 2 ^ (s + 7) ≡ v * 2 ^ s
regroup v s = omega (
  arith,
  ap (λ (t : ℕ). t * 2 ^ s) (div-add-mod v 128),
  ap (λ (t : ℕ). v / 128 * t) (next_shift s),
)

pub group_fits : (value v s : ℕ) → value < 2 ^ s → value + v % 128 * 2 ^ s < 2 ^ (s + 7)
group_fits value v s h = grind (arith, next_shift s)

-- The group of a marked byte.
pub next_group :
    (value v shift : ℕ)
    → value < 2 ^ shift
    → bit_or value (bit_and (v % 128 + 128) 0x7F * 2 ^ shift) ≡ value + v % 128 * 2 ^ shift
next_group value v shift h =
    add_group value (v % 128 + 128) shift h ∙ ap (λ (t : ℕ). value + t * 2 ^ shift) (omega arith)

decode_loop-Encodes :
    (i value shift : ℕ) {v : ℕ} {bytes : List ℕ} (rest : List ℕ)
    → Encodes v bytes
    → value < 2 ^ shift
    → i + length bytes ≤ 5
    → decode_loop i value shift (bytes ++ rest) ≡ ok (value + v * 2 ^ shift, i + length bytes)
unfolding decode_loop
decode_loop-Encodes i value shift rest (final v h) fits k =
    ground (arith, add_group value v shift fits, top_bit v)
decode_loop-Encodes i value shift rest (group v {bytes} h c) fits k = ground (
  arith,
  next_group value v shift fits,
  top_bit (v % 128 + 128),
  regroup v shift,
  decode_loop-Encodes (i + 1) (value + v % 128 * 2 ^ shift) (shift + 7) rest c
      (group_fits value v shift fits) (omega arith),
)

-- A varint of more than five bytes.
decode_loop-too_long :
    (i value shift : ℕ) {v : ℕ} {bytes : List ℕ} (rest : List ℕ)
    → Encodes v bytes
    → 5 < i + length bytes
    → decode_loop i value shift (bytes ++ rest) ≡ err too_long
unfolding decode_loop
decode_loop-too_long i value shift rest (final v h) k = ground arith
decode_loop-too_long i value shift rest (group v {bytes} h c) k = ground (
  arith,
  top_bit (v % 128 + 128),
  decode_loop-too_long (i + 1) (bit_or value (bit_and (v % 128 + 128) 0x7F * 2 ^ shift)) (shift + 7)
      rest c,
)

-- Every length below 2 ^ 35 is read back from what the encoder writes for it, with the number of
-- bytes that it takes, whatever follows.
pub decode_varint-encode_varint :
    (v : ℕ) (rest : List ℕ)
    → v < 2 ^ 35
    → decode_varint (encode_varint v ++ rest) ≡ ok (v, length (encode_varint v))
unfolding decode_varint
decode_varint-encode_varint v rest h =
    decode_loop-Encodes 0 0 0 rest (encode_varint-Encodes v) (omega arith)
      (omega (arith, length-Encodes_le 4 (encode_varint-Encodes v) h))
    ∙ ground arith

-- A length from 2 ^ 35 on is written in more bytes than the decoder takes: it refuses them as too
-- long.
pub decode_varint-too_long :
    (v : ℕ) (rest : List ℕ) → 2 ^ 35 ≤ v → decode_varint (encode_varint v ++ rest) ≡ err too_long
unfolding decode_varint
decode_varint-too_long v rest h =
    decode_loop-too_long 0 0 0 rest (encode_varint-Encodes v)
      (omega (arith, length-Encodes_lt 5 (encode_varint-Encodes v) h))
