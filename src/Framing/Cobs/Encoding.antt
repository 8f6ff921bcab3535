-- ===== src/Framing/Cobs/Encoding.antt =====
-- The encoder, which fills in each code byte when its block is complete, as a recursion that
-- writes whole blocks; and what the encoding consists of.
use embedded_bridge.Prelude.{
  ℕ, suc, ◌+◌, ◌≤◌, ◌<◌, ◌≡◌, refl, ap, ◌∙◌, arith, List, [], ◌∷◌, ◌++◌, All, All-append, length,
  set, append_assoc, length-append, true, false, ◌==◌, if◌then◌else◌, if-holds_by, Bool-cases, inl,
  inr,
}
use embedded_bridge.Framing.Cobs.{Encoder, close_block, encode_byte, encode_bytes, cobs_encode}

abbrev pub whole_block : List ℕ → List ℕ
whole_block block = suc (length block) ∷ block

-- The encoding of `bytes` behind the bytes of an open block.
pub blocks : List ℕ → List ℕ → List ℕ
blocks block [] = whole_block block
blocks block (b ∷ bytes) =
    let at_zero = whole_block block ++ blocks [] bytes in
    let at_full = whole_block (block ++ (b ∷ [])) ++ blocks [] bytes in
    let more = blocks (block ++ (b ∷ [])) bytes in
    if b == 0 then at_zero else if length block == 253 then at_full else more

-- The three cases of a byte: 0, the last of a full block, and any other.
module _ (block bytes : List ℕ) (b : ℕ) where
  pub blocks_at_zero :
      (b == 0) ≡ true → blocks block (b ∷ bytes) ≡ whole_block block ++ blocks [] bytes
  unfolding blocks
  blocks_at_zero e = rw e

  pub blocks_at_full :
      (b == 0) ≡ false
      → (length block == 253) ≡ true
      → blocks block (b ∷ bytes) ≡ whole_block (block ++ (b ∷ [])) ++ blocks [] bytes
  unfolding blocks
  blocks_at_full e e' = rw (e, e')

  pub blocks_inside :
      (b == 0) ≡ false
      → (length block == 253) ≡ false
      → blocks block (b ∷ bytes) ≡ blocks (block ++ (b ∷ [])) bytes
  unfolding blocks
  blocks_inside e e' = rw (e, e')

pub blocks_end : (block : List ℕ) → blocks block [] ≡ whole_block block
unfolding blocks
blocks_end block = refl

pub blocks_nonempty : (block bytes : List ℕ) → 0 < length (blocks block bytes)
unfolding blocks
blocks_nonempty block [] = omega arith
blocks_nonempty block (b ∷ bytes) = ground (arith, blocks_nonempty (block ++ (b ∷ [])) bytes)

-- The encoder with complete blocks behind it and an open block.
abbrev open_block : List ℕ → List ℕ → Encoder
open_block done block = record {
  out = done ++ (0 ∷ block);
  code_pos = length done;
  code = suc (length block);
}

set-append_length : (xs ys : List ℕ) (x v : ℕ) → set (xs ++ (x ∷ ys)) (length xs) v ≡ xs ++ (v ∷ ys)
set-append_length [] ys x v = refl
set-append_length (w ∷ xs) ys x v = ap (λ (t : List ℕ). w ∷ t) (set-append_length xs ys x v)

-- An open block is closed by its code byte.
filled_in :
    (done block : List ℕ)
    → set (done ++ (0 ∷ block)) (length done) (suc (length block)) ≡ done ++ whole_block block
filled_in done block = set-append_length done block 0 (suc (length block))

close_block-open_block :
    (done block : List ℕ)
    → close_block (open_block done block) ≡ open_block (done ++ whole_block block) []
unfolding close_block
close_block-open_block done block = rw (filled_in done block)

extended :
    (done block : List ℕ) (b : ℕ)
    → record (open_block done block) {
      out = (done ++ (0 ∷ block)) ++ (b ∷ []);
      code = suc (length block) + 1;
    }
      ≡ open_block done (block ++ (b ∷ []))
extended done block b i = record {
  out = append_assoc done (0 ∷ block) (b ∷ []) i;
  code_pos = length done;
  code = longer i;
}
  where
    longer : suc (length block) + 1 ≡ suc (length (block ++ (b ∷ [])))
    longer = omega (arith, length-append block (b ∷ []))

encode_byte-open_block :
    (done block : List ℕ) (b : ℕ)
    → encode_byte (open_block done block) b ≡ (
        if b == 0
        then open_block (done ++ whole_block block) []
        else if length block == 253
        then open_block (done ++ whole_block (block ++ (b ∷ []))) []
        else open_block done (block ++ (b ∷ [])))
unfolding encode_byte
encode_byte-open_block done block b = elim (Bool-cases (b == 0)) [
  | inl e ↦ rw e (close_block-open_block done block)
  | inr e ↦ elim (Bool-cases (length block == 253)) [
    | inl e' ↦
        rw (e, e', full e')
          (ap close_block (extended done block b) ∙ close_block-open_block done (block ++ (b ∷ [])))
    | inr e' ↦ rw (e, e', not_full e') (extended done block b)
  ]
]
  where
    full : (length block == 253) ≡ true → (suc (length block) + 1 == 0xFF) ≡ true
    full h = ground arith

    not_full : (length block == 253) ≡ false → (suc (length block) + 1 == 0xFF) ≡ false
    not_full h = ground arith

-- The encoder's loop and its last assignment, from an open block on.
encode_bytes-blocks :
    (done block bytes : List ℕ)
    → (let e = encode_bytes (open_block done block) bytes in set e.out e.code_pos e.code)
      ≡ done ++ blocks block bytes
unfolding encode_bytes blocks
encode_bytes-blocks done block [] = filled_in done block
encode_bytes-blocks done block (b ∷ bytes) =
    ap (λ (t : Encoder). let e = encode_bytes t bytes in set e.out e.code_pos e.code)
      (encode_byte-open_block done block b)
    ∙ elim (Bool-cases (b == 0)) [
      | inl e ↦ rw e (
          encode_bytes-blocks (done ++ whole_block block) [] bytes
          ∙ append_assoc done (whole_block block) (blocks [] bytes))
      | inr e ↦ elim (Bool-cases (length block == 253)) [
        | inl e' ↦
            rw (e, e')
              (encode_bytes-blocks (done ++ whole_block (block ++ (b ∷ []))) [] bytes
                ∙ append_assoc done (whole_block (block ++ (b ∷ []))) (blocks [] bytes))
        | inr e' ↦ rw (e, e') (encode_bytes-blocks done (block ++ (b ∷ [])) bytes)
      ]
    ]

-- The encoder computes the block form.
pub cobs_encode_lem : (bytes : List ℕ) → cobs_encode bytes ≡ blocks [] bytes
unfolding cobs_encode
cobs_encode_lem bytes = encode_bytes-blocks [] [] bytes

-- A byte that is not 0.
abbrev pub IsCode : ℕ → Type 0
IsCode b = (0 < b) × (b < 256)

blocks-IsCode :
    (block bytes : List ℕ)
    → length block ≤ 253
    → All IsCode block
    → All (λ b. b < 256) bytes
    → All IsCode (blocks block bytes)
unfolding blocks
blocks-IsCode block [] h k m = (omega arith, k)
blocks-IsCode block (b ∷ bytes) h k (pb, m) =
    if-holds_by (All IsCode) (b == 0)
      (λ e. (
        omega arith,
        All-append IsCode block (blocks [] bytes) k (blocks-IsCode [] bytes (omega arith) tt m),
      ))
      (λ e.
        if-holds_by (All IsCode) (length block == 253)
          (λ e'. (
            ground (arith, length-append block (b ∷ [])),
            All-append IsCode (block ++ (b ∷ [])) (blocks [] bytes) (one_more e)
                (blocks-IsCode [] bytes (omega arith) tt m),
          ))
          (λ e'.
            blocks-IsCode (block ++ (b ∷ [])) bytes (ground (arith, length-append block (b ∷ [])))
              (one_more e) m))
  where
    one_more : (b == 0) ≡ false → All IsCode (block ++ (b ∷ []))
    one_more e = All-append IsCode block (b ∷ []) k ((ground arith, pb), tt)

-- The encoding of numbers below 256 holds numbers from 1 to 255 only, so the delimiter 0 does not occur in it.
pub cobs_encode-IsCode :
    (bytes : List ℕ) → All (λ b. b < 256) bytes → All IsCode (cobs_encode bytes)
cobs_encode-IsCode bytes h = rw (cobs_encode_lem bytes) (blocks-IsCode [] bytes (omega arith) tt h)
