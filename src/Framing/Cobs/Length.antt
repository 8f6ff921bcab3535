-- ===== src/Framing/Cobs/Length.antt =====
-- How long an encoding is: at most one byte more than the input, and one more for each 254 bytes;
-- exactly that for an input without a zero byte.
use embedded_bridge.Prelude.{
  ℕ, suc, ◌+◌, ◌/◌, ◌≤◌, ◌≡◌, ◌≢◌, arith, List, [], ◌∷◌, ◌++◌, All, length, length-append,
  Bool-cases, inl, inr, ◌==◌, ap,
}
use embedded_bridge.Framing.Cobs.{cobs_encode}
use embedded_bridge.Framing.Cobs.Encoding.{
  whole_block, blocks, blocks_at_zero, blocks_at_full, blocks_inside, blocks_end, cobs_encode_lem,
}

abbrev pub NonZero : List ℕ → Type 0
NonZero = All (λ b. b ≢ 0)

-- What one block adds.
length-blocks_step :
    (block bytes more full : List ℕ)
    → blocks block bytes ≡ whole_block full ++ blocks [] more
    → length (blocks block bytes) ≡ suc (length full + length (blocks [] more))
length-blocks_step block bytes more full e =
    omega (arith, ap (λ (t : List ℕ). length t) e, length-append full (blocks [] more))

length-blocks_le :
    (block bytes : List ℕ)
    → length block ≤ 253
    → length (blocks block bytes)
      ≤ length block + length bytes + 1 + (length block + length bytes) / 254
length-blocks_le block [] h = omega (arith, ap (λ (t : List ℕ). length t) (blocks_end block))
length-blocks_le block (b ∷ bytes) h = elim (Bool-cases (b == 0)) [
  | inl e ↦ omega (
    arith,
    length-blocks_step block (b ∷ bytes) bytes block (blocks_at_zero block bytes b e),
    length-blocks_le [] bytes (omega arith),
  )
  | inr e ↦ elim (Bool-cases (length block == 253)) [
    | inl e' ↦ ground (
      arith,
      length-blocks_step block (b ∷ bytes) bytes (block ++ (b ∷ []))
          (blocks_at_full block bytes b e e'),
      length-blocks_le [] bytes (omega arith),
      length-append block (b ∷ []),
    )
    | inr e' ↦ omega (
      arith,
      ap (λ (t : List ℕ). length t) (blocks_inside block bytes b e e'),
      length-blocks_le (block ++ (b ∷ [])) bytes (ground (arith, length-append block (b ∷ []))),
      length-append block (b ∷ []),
    )
  ]
]

length-blocks_eq :
    (block bytes : List ℕ)
    → length block ≤ 253
    → NonZero bytes
    → length (blocks block bytes)
      ≡ length block + length bytes + 1 + (length block + length bytes) / 254
length-blocks_eq block [] h k = omega (arith, ap (λ (t : List ℕ). length t) (blocks_end block))
length-blocks_eq block (b ∷ bytes) h (p, k) = elim (Bool-cases (b == 0)) [
  | inl e ↦ absurd (ground arith)
  | inr e ↦ elim (Bool-cases (length block == 253)) [
    | inl e' ↦ ground (
      arith,
      length-blocks_step block (b ∷ bytes) bytes (block ++ (b ∷ []))
          (blocks_at_full block bytes b e e'),
      length-blocks_eq [] bytes (omega arith) k,
      length-append block (b ∷ []),
    )
    | inr e' ↦ omega (
      arith,
      ap (λ (t : List ℕ). length t) (blocks_inside block bytes b e e'),
      length-blocks_eq (block ++ (b ∷ [])) bytes (ground (arith, length-append block (b ∷ []))) k,
      length-append block (b ∷ []),
    )
  ]
]

-- An encoding is longer than its input by at most one byte and one for each 254 bytes of it, and
-- by exactly that much if the input has no zero byte.
pub length-cobs_encode :
    (bytes : List ℕ)
    → (length (cobs_encode bytes) ≤ length bytes + 1 + length bytes / 254)
      × (NonZero bytes → length (cobs_encode bytes) ≡ length bytes + 1 + length bytes / 254)
length-cobs_encode bytes = rw (cobs_encode_lem bytes) (
  omega (arith, length-blocks_le [] bytes (omega arith)),
  λ h. omega (arith, length-blocks_eq [] bytes (omega arith) h),
)
