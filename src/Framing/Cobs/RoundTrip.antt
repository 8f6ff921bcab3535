-- ===== src/Framing/Cobs/RoundTrip.antt =====
-- Feeding what the encoder wrote to the framer.
use embedded_bridge.Prelude.{
  ℕ, ◌+◌, ◌/◌, ◌≤◌, ◌<◌, ◌≡◌, refl, sym, ap, ◌∙◌, arith, true, false, List, [], ◌∷◌, ◌++◌, All,
  length, append_assoc, append-nil, length-append, ltb, leb, if◌then◌else◌, Bool-cases, inl, inr,
}
use embedded_bridge.Framing.Cobs.{
  CobsFramer, decoded, deliver, on_delimiter, process_byte, process_bytes, cobs_encode, cobs_decode,
  encode,
}
use embedded_bridge.Framing.Cobs.Encoding.{
  IsCode, blocks_nonempty, cobs_encode_lem, cobs_encode-IsCode,
}
use embedded_bridge.Framing.Cobs.Decoding.{cobs_decode-cobs_encode}
use embedded_bridge.Framing.Cobs.Length.{NonZero, length-cobs_encode}

-- The framer between two frames.
abbrev pub between : ℕ → List (List ℕ) → CobsFramer
between n fs = record { buf_size = n; raw = []; error = false; frames = fs }

-- The framer inside a frame, with room or with an overflow.
abbrev reading : ℕ → List (List ℕ) → List ℕ → CobsFramer
reading n fs raw = record (between n fs) { raw = raw }

-- What an encoded payload leads to: the payload, if the encoding fits.
abbrev pub accepted : ℕ → List ℕ → List (List ℕ)
accepted n p = if leb (length (cobs_encode p)) (n + 1) then p ∷ [] else []

pub process_bytes-append :
    (s : CobsFramer) (xs ys : List ℕ)
    → process_bytes s (xs ++ ys) ≡ process_bytes (process_bytes s xs) ys
unfolding process_bytes
process_bytes-append s [] ys = refl
process_bytes-append s (x ∷ xs) ys = process_bytes-append (process_byte s x) xs ys

process_bytes-fits :
    (n : ℕ) (fs : List (List ℕ)) (raw xs : List ℕ)
    → All IsCode xs
    → length raw + length xs ≤ n + 1
    → process_bytes (reading n fs raw) xs ≡ reading n fs (raw ++ xs)
unfolding process_bytes
process_bytes-fits n fs raw [] h k = rw (append-nil raw)
process_bytes-fits n fs raw (x ∷ xs) (p, h) k =
    ap (λ (t : CobsFramer). process_bytes t xs) (stored (omega arith))
    ∙ process_bytes-fits n fs (raw ++ (x ∷ [])) xs h (omega (arith, length-append raw (x ∷ [])))
    ∙ ap (λ (t : List ℕ). reading n fs t) (append_assoc raw (x ∷ []) xs)
  where
    stored : (0 < x) → process_byte (reading n fs raw) x ≡ reading n fs (raw ++ (x ∷ []))
    stored q = unfold process_byte in ground arith

process_bytes-error :
    (s : CobsFramer) (xs : List ℕ)
    → All IsCode xs
    → s.error ≡ true
    → process_byte (process_bytes s xs) 0 ≡ between s.buf_size s.frames
unfolding process_bytes
process_bytes-error s [] h k = unfold process_byte on_delimiter in ground arith
process_bytes-error s (x ∷ xs) (p, h) k =
    process_bytes-error (process_byte s x) xs h (unfold process_byte in ground arith)
    ∙ (λ i. between ((kept (omega arith)).0 i) ((kept (omega arith)).1 i))
  where
    kept :
        (0 < x)
        → ((process_byte s x).buf_size ≡ s.buf_size) × ((process_byte s x).frames ≡ s.frames)
    kept q = unfold process_byte in ground arith

process_bytes-too_long :
    (n : ℕ) (fs : List (List ℕ)) (raw xs : List ℕ)
    → All IsCode xs
    → length raw ≤ n + 1
    → n + 1 < length raw + length xs
    → process_byte (process_bytes (reading n fs raw) xs) 0 ≡ between n fs
process_bytes-too_long n fs raw [] h k l = absurd (omega arith)
process_bytes-too_long n fs raw (x ∷ xs) (p, h) k l = elim (Bool-cases (ltb (length raw) (n + 1))) [
  | inl e ↦
      ap (λ (t : CobsFramer). process_byte t 0) (step (stored (omega arith) e))
      ∙ process_bytes-too_long n fs (raw ++ (x ∷ [])) xs h
          (ground (arith, length-append raw (x ∷ []))) (ground (arith, length-append raw (x ∷ [])))
  | inr e ↦
      ap (λ (t : CobsFramer). process_byte t 0) (step (dropped (omega arith) e))
      ∙ process_bytes-error (record (reading n fs raw) { error = true }) xs h refl
]
  where
    step :
        {t : CobsFramer}
        → process_byte (reading n fs raw) x ≡ t
        → process_bytes (reading n fs raw) (x ∷ xs) ≡ process_bytes t xs
    step e = unfold process_bytes in ap (λ (t : CobsFramer). process_bytes t xs) e

    stored :
        (0 < x)
        → ltb (length raw) (n + 1) ≡ true
        → process_byte (reading n fs raw) x ≡ reading n fs (raw ++ (x ∷ []))
    stored q e = unfold process_byte in ground arith

    dropped :
        (0 < x)
        → ltb (length raw) (n + 1) ≡ false
        → process_byte (reading n fs raw) x ≡ record (reading n fs raw) { error = true }
    dropped q e = unfold process_byte in ground arith

-- The delimiter clears the framer, whatever its state.
process_byte-delimiter :
    (s : CobsFramer) → process_byte s 0 ≡ between s.buf_size (process_byte s 0).frames
unfolding process_byte on_delimiter
process_byte-delimiter s = refl

delivers :
    (n : ℕ) (fs : List (List ℕ)) (raw p : List ℕ)
    → 0 < length raw
    → cobs_decode raw ≡ decoded p
    → process_byte (reading n fs raw) 0 ≡ between n (fs ++ (p ∷ []))
unfolding process_byte on_delimiter deliver
delivers n fs raw p h e = rw e (ground arith)

cobs_encode_nonempty : (p : List ℕ) → 0 < length (cobs_encode p)
cobs_encode_nonempty p = rw (cobs_encode_lem p) (blocks_nonempty [] p)

-- A framer between two frames that reads an encoded payload of bytes delivers it exactly if its encoding is
-- at most one byte longer than `buf_size`, and is again between two frames.
pub cobs_frame_delivered :
    (n : ℕ) (fs : List (List ℕ)) (p : List ℕ)
    → All (λ b. b < 256) p
    → process_bytes (between n fs) (encode p) ≡ between n (fs ++ accepted n p)
unfolding encode process_bytes
cobs_frame_delivered n fs p h =
    process_bytes-append (between n fs) (cobs_encode p) (0 ∷ [])
    ∙ elim (Bool-cases (leb (length (cobs_encode p)) (n + 1))) [
      | inl e ↦ rw e (
          ap (λ (t : CobsFramer). process_byte t 0)
            (process_bytes-fits n fs [] (cobs_encode p) (cobs_encode-IsCode p h) (ground arith))
          ∙ delivers n fs (cobs_encode p) p (cobs_encode_nonempty p) (cobs_decode-cobs_encode p))
      | inr e ↦ rw e (
          process_bytes-too_long n fs [] (cobs_encode p) (cobs_encode-IsCode p h) (omega arith)
            (ground arith)
          ∙ ap (λ (t : List (List ℕ)). between n t) (sym (append-nil fs)))
    ]

-- A framer in any state is brought back into step by one delimiter: behind it, an encoded
-- payload of bytes whose length with a 254th part of it, rounded down, is at most `buf_size` is
-- delivered.
pub cobs_resync :
    (s : CobsFramer) (p : List ℕ)
    → All (λ b. b < 256) p
    → length p + length p / 254 ≤ s.buf_size
    → process_bytes s (0 ∷ encode p) ≡ between s.buf_size ((process_byte s 0).frames ++ (p ∷ []))
unfolding process_bytes
cobs_resync s p h k =
    ap (λ (t : CobsFramer). process_bytes t (encode p)) (process_byte-delimiter s)
    ∙ cobs_frame_delivered s.buf_size (process_byte s 0).frames p h
    ∙ ap (λ (t : List (List ℕ)). between s.buf_size ((process_byte s 0).frames ++ t))
        (ground (arith, (length-cobs_encode p).0))

-- Where `buf_size` is 254 or more, a framer in any state that reads a delimiter and then the encoding
-- of a payload of `buf_size` bytes below 256, none of them zero, is as behind the delimiter alone: the
-- payload is not delivered, since the one spare byte does not hold the second code byte.
pub cobs_full_payload_lost :
    (s : CobsFramer) (p : List ℕ)
    → All (λ b. b < 256) p
    → NonZero p
    → length p ≡ s.buf_size
    → 254 ≤ s.buf_size
    → process_bytes s (0 ∷ encode p) ≡ process_byte s 0
unfolding process_bytes
cobs_full_payload_lost s p h nz k l =
    let fs = (process_byte s 0).frames in
    ap (λ (t : CobsFramer). process_bytes t (encode p)) (process_byte-delimiter s)
    ∙ cobs_frame_delivered s.buf_size fs p h
    ∙ ap (λ (t : List (List ℕ)). between s.buf_size t)
        (ap (λ (t : List (List ℕ)). fs ++ t) (ground (arith, (length-cobs_encode p).1 nz))
          ∙ append-nil fs)
    ∙ sym (process_byte-delimiter s)
