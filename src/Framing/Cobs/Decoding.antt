-- ===== src/Framing/Cobs/Decoding.antt =====
-- The decoder: it ends on every input, and it reads back what the encoder wrote.
use embedded_bridge.Prelude.{
  ℕ, zero, suc, ◌-◌, ◌≤◌, ◌≡◌, ◌≢◌, refl, sym, ap, ◌∙◌, arith, false, List, [], ◌∷◌, ◌++◌, ◌&&◌,
  length, append_assoc, append-nil, length-append, ltb, ◌==◌, if◌then◌else◌, Bool-cases, inl, inr,
  ==→eq,
}
use embedded_bridge.Framing.Cobs.{
  decoded, stuck, copy, decode_block, decode_loop, cobs_encode, cobs_decode,
}
use embedded_bridge.Framing.Cobs.Encoding.{
  whole_block, blocks, blocks_at_zero, blocks_at_full, blocks_inside, blocks_end, blocks_nonempty,
  cobs_encode_lem,
}

-- The copy of a block takes at most the bytes that are there.
copy_shorter : (count : ℕ) (rest out : List ℕ) → length (copy count rest out).0 ≤ length rest
unfolding copy
copy_shorter zero rest out = omega arith
copy_shorter (suc count) [] out = omega arith
copy_shorter (suc count) (b ∷ rest) out = omega (arith, copy_shorter count rest (out ++ (b ∷ [])))

decode_block_shorter :
    (code : ℕ) (rest out : List ℕ) → length (decode_block code rest out).0 ≤ length rest
unfolding decode_block
decode_block_shorter code rest out = copy_shorter (code - 1) rest out

decode_loop-ne-stuck :
    (fuel : ℕ) (bytes out : List ℕ) → length bytes ≤ fuel → decode_loop fuel bytes out ≢ stuck
unfolding decode_loop
decode_loop-ne-stuck fuel [] out h e = cc
decode_loop-ne-stuck zero (code ∷ rest) out h e = absurd (omega arith)
decode_loop-ne-stuck (suc fuel) (code ∷ rest) out h e = ground (
  arith,
  decode_loop-ne-stuck fuel (decode_block code rest out).0 (decode_block code rest out).1
      (omega (arith, decode_block_shorter code rest out)),
)

-- The decoder returns on every input, well formed or not: its loop never runs out of fuel.
pub cobs_decode-ne-stuck : (bytes : List ℕ) → cobs_decode bytes ≢ stuck
unfolding cobs_decode
cobs_decode-ne-stuck bytes = decode_loop-ne-stuck (length bytes) bytes [] (omega arith)

copy-append :
    (block rest out : List ℕ) → copy (length block) (block ++ rest) out ≡ (rest, out ++ block)
unfolding copy
copy-append [] rest out = λ i. (rest, sym (append-nil out) i)
copy-append (b ∷ block) rest out =
    copy-append block rest (out ++ (b ∷ [])) ∙ (λ i. (rest, append_assoc out (b ∷ []) block i))

-- The zero byte behind a block: written unless the block is full or the last.
abbrev separator : List ℕ → List ℕ → List ℕ
separator block rest = if ltb (suc (length block)) 0xFF && ltb 0 (length rest) then 0 ∷ [] else []

decode_block-append :
    (block rest out : List ℕ)
    → decode_block (suc (length block)) (block ++ rest) out
      ≡ (rest, out ++ (block ++ separator block rest))
unfolding decode_block
decode_block-append block rest out =
    rw copied (elim (Bool-cases (ltb (suc (length block)) 0xFF && ltb 0 (length rest))) [
      | inl e ↦ rw e (λ i. (rest, append_assoc out block (0 ∷ []) i))
      | inr e ↦ rw e (λ i. (rest, out ++ sym (append-nil block) i))
    ])
  where
    copied : copy (suc (length block) - 1) (block ++ rest) out ≡ (rest, out ++ block)
    copied = ap (λ (n : ℕ). copy n (block ++ rest) out) (omega arith) ∙ copy-append block rest out

-- One round reads one block.
decode_loop-block :
    (fuel : ℕ) (block rest out : List ℕ)
    → decode_loop (suc fuel) (whole_block block ++ rest) out
      ≡ decode_loop fuel rest (out ++ (block ++ separator block rest))
unfolding decode_loop
decode_loop-block fuel block rest out =
    rw (not_zero, long_enough, decode_block-append block rest out) refl
  where
    not_zero : (suc (length block) == 0) ≡ false
    not_zero = ground arith

    long_enough : ltb (length (block ++ rest)) (suc (length block) - 1) ≡ false
    long_enough = ground (arith, length-append block rest)

-- A block that is followed by the encoding of more bytes.
decode_loop-inner :
    (fuel : ℕ) (block bytes out : List ℕ)
    → decode_loop (suc fuel) (whole_block block ++ blocks [] bytes) out
      ≡ decode_loop fuel
          (blocks [] bytes)
          (out ++ (block ++ (if ltb (suc (length block)) 0xFF then 0 ∷ [] else [])))
decode_loop-inner fuel block bytes out =
    decode_loop-block fuel block (blocks [] bytes) out
    ∙ ap (λ (t : List ℕ). decode_loop fuel (blocks [] bytes) (out ++ (block ++ t)))
        (ground (arith, blocks_nonempty [] bytes))

decode_loop_end : (fuel : ℕ) (out : List ℕ) → decode_loop fuel [] out ≡ decoded out
unfolding decode_loop
decode_loop_end fuel out = refl

-- The last block.
decode_loop-last :
    (fuel : ℕ) (block out : List ℕ)
    → decode_loop (suc fuel) (whole_block block) out ≡ decoded (out ++ (block ++ []))
decode_loop-last fuel block out =
    ap (λ (t : List ℕ). decode_loop (suc fuel) t out) (sym (append-nil (whole_block block)))
    ∙ decode_loop-block fuel block [] out
    ∙ ap (λ (t : List ℕ). decode_loop fuel [] (out ++ (block ++ t))) (ground arith)
    ∙ decode_loop_end fuel (out ++ (block ++ []))

-- Regrouping of the output after a block that ended at a zero byte, and after a full block.
regroup :
    (out block mid bytes : List ℕ)
    → (out ++ (block ++ mid)) ++ bytes ≡ out ++ (block ++ (mid ++ bytes))
regroup out block mid bytes = simp append_assoc

decode_loop-blocks :
    (fuel : ℕ) (block bytes out : List ℕ)
    → length (blocks block bytes) ≤ fuel
    → length block ≤ 253
    → decode_loop fuel (blocks block bytes) out ≡ decoded (out ++ (block ++ bytes))
decode_loop-blocks zero block bytes out h k = absurd (omega (arith, blocks_nonempty block bytes))
decode_loop-blocks (suc fuel) block [] out h k =
    ap (λ (t : List ℕ). decode_loop (suc fuel) t out) (blocks_end block)
    ∙ decode_loop-last fuel block out
decode_loop-blocks (suc fuel) block (b ∷ bytes) out h k = elim (Bool-cases (b == 0)) [
  | inl e ↦ rw (blocks_at_zero block bytes b e) (
      decode_loop-inner fuel block bytes out
      ∙ ap (λ (t : List ℕ). decode_loop fuel (blocks [] bytes) (out ++ (block ++ t))) (ground arith)
      ∙ decode_loop-blocks fuel [] bytes (out ++ (block ++ (0 ∷ [])))
          (omega (arith, shorter block (blocks_at_zero block bytes b e))) (omega arith)
      ∙ ap decoded (
          regroup out block (0 ∷ []) bytes
          ∙ ap (λ (x : ℕ). out ++ (block ++ (x ∷ bytes))) (sym (==→eq b 0 e))))
  | inr e ↦ elim (Bool-cases (length block == 253)) [
    | inl e' ↦ rw (blocks_at_full block bytes b e e') (
        decode_loop-inner fuel (block ++ (b ∷ [])) bytes out
        ∙ ap
            (λ (t : List ℕ). decode_loop fuel (blocks [] bytes) (out ++ ((block ++ (b ∷ [])) ++ t)))
            (ground (arith, length-append block (b ∷ [])))
        ∙ decode_loop-blocks fuel [] bytes (out ++ ((block ++ (b ∷ [])) ++ []))
            (omega (arith, shorter (block ++ (b ∷ [])) (blocks_at_full block bytes b e e')))
            (omega arith)
        ∙ ap decoded (
            regroup out (block ++ (b ∷ [])) [] bytes
            ∙ ap (λ (t : List ℕ). out ++ t) (append_assoc block (b ∷ []) bytes)))
    | inr e' ↦ rw (blocks_inside block bytes b e e') (
        decode_loop-blocks (suc fuel) (block ++ (b ∷ [])) bytes out
          (rw (blocks_inside block bytes b e e') at h)
          (ground (arith, length-append block (b ∷ [])))
        ∙ ap (λ (t : List ℕ). decoded (out ++ t)) (append_assoc block (b ∷ []) bytes))
  ]
]
  where
    shorter :
        (full : List ℕ)
        → blocks block (b ∷ bytes) ≡ whole_block full ++ blocks [] bytes
        → length (blocks [] bytes) ≤ fuel
    shorter full eq =
        omega (arith, h, ap (λ (t : List ℕ). length t) eq, length-append full (blocks [] bytes))

-- The decoder reads back every list of bytes that the encoder was given, of any length.
pub cobs_decode-cobs_encode : (bytes : List ℕ) → cobs_decode (cobs_encode bytes) ≡ decoded bytes
unfolding cobs_decode
cobs_decode-cobs_encode bytes =
    rw (cobs_encode_lem bytes) (decode_loop-blocks _ [] bytes [] (omega arith) (omega arith))
