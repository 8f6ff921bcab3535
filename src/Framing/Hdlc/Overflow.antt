-- ===== src/Framing/Hdlc/Overflow.antt =====
-- A body that is longer than the buffer. A plain byte for which there is no room discards the
-- frame; an escaped one is dropped, and the frame goes on.
use embedded_bridge.Prelude.{
  ℕ, ◌+◌, ◌≡◌, ◌≢◌, refl, ap, ◌∙◌, arith, Bool, true, false, List, [], ◌∷◌, ◌++◌, ◌||◌, All,
  All-append, length, Bool-cases, inl, inr, ◌==◌, ==→eq,
}
use embedded_bridge.Framing.Hdlc.{
  flag, esc, error, HdlcFramer, store, on_byte, start_frame, process_byte, process_bytes,
}
use embedded_bridge.Framing.Hdlc.Encoder.{
  stuffed_byte, stuffed, stuffed-append, body_of, length-body_of,
}
use embedded_bridge.Framing.Hdlc.Body.{
  in_body, process_bytes-append, process_bytes-stuffed, process_byte-flag_opens,
  process_byte-flag_closes,
}
use embedded_bridge.Framing.Hdlc.RoundTrip.{received-body_of}

abbrev pub is_special : ℕ → Bool
is_special b = b == flag || b == esc

abbrev failed : ℕ → List (List ℕ) → List ℕ → HdlcFramer
failed n fs buf = record (in_body n fs buf) { state = error }

abbrev NoFlag : List ℕ → Type 0
NoFlag = All (λ b. b ≢ flag)

stuffed_byte-NoFlag : (b : ℕ) → NoFlag (stuffed_byte b)
stuffed_byte-NoFlag b = elim (Bool-cases (b == flag)) [
  | inl e ↦ rw (==→eq b flag e) (omega arith, (omega arith, tt))
  | inr e ↦ elim (Bool-cases (b == esc)) [
    | inl e' ↦ rw (==→eq b esc e') (omega arith, (omega arith, tt))
    | inr e' ↦ rw (e, e') (ground arith, tt)
  ]
]

stuffed-NoFlag : (body : List ℕ) → NoFlag (stuffed body)
stuffed-NoFlag [] = tt
stuffed-NoFlag (b ∷ body) =
    All-append (λ b. b ≢ flag) (stuffed_byte b) (stuffed body) (stuffed_byte-NoFlag b)
      (stuffed-NoFlag body)

-- After an error the framer waits for a flag.
process_bytes-failed :
    (n : ℕ) (fs : List (List ℕ)) (buf bytes : List ℕ)
    → NoFlag bytes
    → process_bytes (failed n fs buf) bytes ≡ failed n fs buf
unfolding process_bytes
process_bytes-failed n fs buf [] h = refl
process_bytes-failed n fs buf (b ∷ bytes) (p, h) =
    ap (λ (t : HdlcFramer). process_bytes t bytes) (waits p) ∙ process_bytes-failed n fs buf bytes h
  where
    waits : b ≢ flag → process_byte (failed n fs buf) b ≡ failed n fs buf
    waits q = unfold process_byte on_byte in ground arith

plain_overflow :
    (n : ℕ) (fs : List (List ℕ)) (buf : List ℕ) (b : ℕ)
    → length buf ≡ n
    → is_special b ≡ false
    → process_bytes (in_body n fs buf) (stuffed_byte b) ≡ failed n fs buf
unfolding process_bytes process_byte on_byte store
plain_overflow n fs buf b h k = ground arith

escaped_overflow :
    (n : ℕ) (fs : List (List ℕ)) (buf : List ℕ) (b : ℕ)
    → length buf ≡ n
    → is_special b ≡ true
    → process_bytes (in_body n fs buf) (stuffed_byte b) ≡ in_body n fs buf
unfolding process_bytes process_byte on_byte store
escaped_overflow n fs buf b h k = elim (Bool-cases (b == flag)) [
  | inl e ↦ rw (==→eq b flag e) (ground arith)
  | inr e ↦ rw (==→eq b esc (ground arith)) (ground arith)
]

escaped_overflow_list :
    (n : ℕ) (fs : List (List ℕ)) (buf extra : List ℕ)
    → length buf ≡ n
    → All (λ b. is_special b ≡ true) extra
    → process_bytes (in_body n fs buf) (stuffed extra) ≡ in_body n fs buf
escaped_overflow_list n fs buf [] h k = unfold process_bytes in refl
escaped_overflow_list n fs buf (b ∷ extra) h (p, k) =
    process_bytes-append (in_body n fs buf) (stuffed_byte b) (stuffed extra)
    ∙ ap (λ (t : HdlcFramer). process_bytes t (stuffed extra)) (escaped_overflow n fs buf b h p)
    ∙ escaped_overflow_list n fs buf extra h k

-- A full buffer behind the opening flag.
filled :
    (s : HdlcFramer) (front back : List ℕ)
    → s.flow_control ≡ false
    → length front ≡ s.buf_size
    → process_bytes s (flag ∷ (stuffed (front ++ back) ++ (flag ∷ [])))
      ≡ process_byte
          (process_bytes (in_body s.buf_size (process_byte s flag).frames front) (stuffed back))
          flag
unfolding process_bytes
filled s front back h k =
    process_bytes-append (process_byte s flag) (stuffed (front ++ back)) (flag ∷ [])
    ∙ ap (λ (t : HdlcFramer). process_byte (process_bytes t (stuffed (front ++ back))) flag)
        (process_byte-flag_opens s h)
    ∙ ap (λ (t : List ℕ). process_byte (process_bytes start t) flag) (stuffed-append front back)
    ∙ ap (λ (t : HdlcFramer). process_byte t flag)
        (process_bytes-append start (stuffed front) (stuffed back))
    ∙ ap (λ (t : HdlcFramer). process_byte (process_bytes t (stuffed back)) flag)
        (process_bytes-stuffed s.buf_size (process_byte s flag).frames [] front (omega arith))
  where
    start : HdlcFramer
    start = in_body s.buf_size (process_byte s flag).frames []

-- If the first byte of a body for which the buffer has no room is neither the flag nor the escape
-- byte, the frame is discarded: without flow control the framer, whatever its state, hands on
-- nothing but what the first flag completes.
pub process_bytes-overflow :
    (s : HdlcFramer) (front back : List ℕ) (b : ℕ)
    → s.flow_control ≡ false
    → length front ≡ s.buf_size
    → is_special b ≡ false
    → process_bytes s (flag ∷ (stuffed (front ++ (b ∷ back)) ++ (flag ∷ [])))
      ≡ in_body s.buf_size (process_byte s flag).frames []
process_bytes-overflow s front back b h k plain =
    filled s front (b ∷ back) h k
    ∙ ap (λ (t : HdlcFramer). process_byte t flag)
        (process_bytes-append (in_body n fs front) (stuffed_byte b) (stuffed back)
          ∙ ap (λ (t : HdlcFramer). process_bytes t (stuffed back))
              (plain_overflow n fs front b k plain)
          ∙ process_bytes-failed n fs front (stuffed back) (stuffed-NoFlag back))
    ∙ (unfold process_byte on_byte start_frame in refl {A = HdlcFramer})
  where
    n : ℕ
    n = s.buf_size

    fs : List (List ℕ)
    fs = (process_byte s flag).frames

-- Where a payload and its CRC fill the buffer, further bytes are dropped without an error as long
-- as each of them is a flag or escape byte that arrives escaped: the overlong frame is delivered
-- as if it ended with the CRC, from any state without flow control.
pub process_bytes-escaped_overflow :
    (s : HdlcFramer) (p extra : List ℕ)
    → s.flow_control ≡ false
    → length p + 2 ≡ s.buf_size
    → All (λ b. is_special b ≡ true) extra
    → process_bytes s (flag ∷ (stuffed (body_of p ++ extra) ++ (flag ∷ [])))
      ≡ in_body s.buf_size ((process_byte s flag).frames ++ (p ∷ [])) []
process_bytes-escaped_overflow s p extra h k special =
    filled s (body_of p) extra h full
    ∙ ap (λ (t : HdlcFramer). process_byte t flag)
        (escaped_overflow_list s.buf_size (process_byte s flag).frames (body_of p) extra full
          special)
    ∙ process_byte-flag_closes s.buf_size (process_byte s flag).frames (body_of p)
    ∙ ap (λ (t : List (List ℕ)). in_body s.buf_size ((process_byte s flag).frames ++ t) [])
        (received-body_of p)
  where
    full : length (body_of p) ≡ s.buf_size
    full = length-body_of p ∙ k
