-- ===== src/Framing/Slip/RoundTrip.antt =====
-- Feeding what the encoder wrote: the framer delivers the payload, from whatever state it was in.
use embedded_bridge.Prelude.{
  ℕ, ◌≡◌, refl, sym, ap, ◌∙◌, arith, true, false, List, [], ◌∷◌, ◌++◌, length, append_assoc,
  Bool-cases, inl, inr, append-nil, leb,
}
use embedded_bridge.Framing.Delivery.{accepted, accepted_all}
use embedded_bridge.Framing.Slip.{end_byte, SlipFramer, on_end, process_byte, process_bytes, encode}
use embedded_bridge.Framing.Slip.Encoder.{stuffed, encode_lem}
use embedded_bridge.Framing.Slip.Storing.{
  process_bytes-append, store_all, process_bytes-stuffed, store_all-fits, store_all-keeps,
  store_all-overflow,
}

-- The state between two frames, with a log of delivered frames.
abbrev pub between : ℕ → List (List ℕ) → SlipFramer
between buf_size frames = record {
  buf_size = buf_size;
  buf = [];
  error = false;
  escape = false;
  frames = frames;
}

-- `end_byte` clears the framer, and hands on what stands in the buffer without an error.
process_byte-end :
    (s : SlipFramer) → process_byte s end_byte ≡ between s.buf_size (process_byte s end_byte).frames
unfolding process_byte on_end
process_byte-end s = refl

process_byte-end_error :
    (s : SlipFramer) → s.error ≡ true → process_byte s end_byte ≡ between s.buf_size s.frames
unfolding process_byte on_end
process_byte-end_error s h = ground arith

process_byte-end_delivers :
    (s : SlipFramer) (b : ℕ) (p : List ℕ)
    → s.error ≡ false
    → s.buf ≡ b ∷ p
    → process_byte s end_byte ≡ between s.buf_size (s.frames ++ ((b ∷ p) ∷ []))
unfolding process_byte on_end
process_byte-end_delivers s b p h e = ground arith

-- From the state between frames, a stuffed payload and `end_byte` deliver it if it is accepted.
body_delivered :
    (n : ℕ) (fs : List (List ℕ)) (p : List ℕ)
    → process_byte (process_bytes (between n fs) (stuffed p)) end_byte
      ≡ between n (fs ++ accepted n p)
body_delivered n fs [] = unfold process_bytes process_byte on_end in rw (append-nil fs)
body_delivered n fs (b ∷ p) =
    ap (λ (t : SlipFramer). process_byte t end_byte)
      (process_bytes-stuffed (between n fs) (b ∷ p) refl)
    ∙ elim (Bool-cases (leb (length (b ∷ p)) n)) [
      | inl e ↦
          rw (store_all-fits (between n fs) (b ∷ p) (ground arith))
            (rw e (process_byte-end_delivers (record (between n fs) { buf = b ∷ p }) b p refl refl))
      | inr e ↦ rw e (
          process_byte-end_error (store_all (between n fs) (b ∷ p))
            (store_all-overflow (between n fs) (b ∷ p) (omega arith) (ground arith))
          ∙ (λ i.
              between ((store_all-keeps (between n fs) (b ∷ p)).1 i)
                ((store_all-keeps (between n fs) (b ∷ p)).0 i))
          ∙ ap (λ (t : List (List ℕ)). between n t) (sym (append-nil fs)))
    ]

-- Whatever state the framer is in, an encoded payload leaves it between frames and is delivered
-- exactly if it is not empty and fits the buffer; before it stands only what the first `end_byte`
-- of the frame completes.
pub slip_frame_delivered :
    (s : SlipFramer) (p : List ℕ)
    → process_bytes s (encode p)
      ≡ between s.buf_size ((process_byte s end_byte).frames ++ accepted s.buf_size p)
unfolding process_bytes
slip_frame_delivered s p =
    ap (λ (t : List ℕ). process_bytes s t) (encode_lem p)
    ∙ process_bytes-append (process_byte s end_byte) (stuffed p) (end_byte ∷ [])
    ∙ ap (λ (t : SlipFramer). process_byte (process_bytes t (stuffed p)) end_byte)
        (process_byte-end s)
    ∙ body_delivered s.buf_size (process_byte s end_byte).frames p

abbrev pub encode_stream : List (List ℕ) → List ℕ
encode_stream [] = []
encode_stream (p ∷ ps) = encode p ++ encode_stream ps

-- A framer between frames delivers, from the frames of a list of payloads, the payloads that are
-- not empty and fit the buffer, in their order and nothing else.
pub slip_stream_delivered :
    (n : ℕ) (fs ps : List (List ℕ))
    → process_bytes (between n fs) (encode_stream ps) ≡ between n (fs ++ accepted_all n ps)
slip_stream_delivered n fs [] = unfold process_bytes in rw (append-nil fs)
slip_stream_delivered n fs (p ∷ ps) =
    process_bytes-append (between n fs) (encode p) (encode_stream ps)
    ∙ ap (λ (t : SlipFramer). process_bytes t (encode_stream ps))
        (slip_frame_delivered (between n fs) p)
    ∙ slip_stream_delivered n ((process_byte (between n fs) end_byte).frames ++ accepted n p) ps
    ∙ (unfold process_byte on_end in
        ap (λ (t : List (List ℕ)). between n t)
          (append_assoc fs (accepted n p) (accepted_all n ps)))
