-- ===== src/Framing/Hdlc/Body.antt =====
-- The framer inside a frame: a stuffed body that fits is unstuffed into the buffer, and the flag
-- that closes the frame hands on what carries a good CRC.
use embedded_bridge.Prelude.{
  take, ◌-◌, ℕ, ◌+◌, ◌≤◌, ◌<◌, ◌≡◌, refl, ap, ◌∙◌, arith, false, List, [], ◌∷◌, ◌++◌, length,
  append_assoc, append-nil, length-append, Bool-cases, inl, inr, ltb, ◌==◌, ==→eq, if◌then◌else◌,
}
use embedded_bridge.Framing.Crc16.{crc16_good, crc16_hdlc}
use embedded_bridge.Framing.Hdlc.{
  flag, esc, State, idle, in_frame, escape, error, HdlcFramer, store, strip_crc, deliver,
  start_frame, on_byte, process_byte, process_bytes,
}
use embedded_bridge.Framing.Hdlc.Encoder.{stuffed_byte, stuffed, frame_crc_lem}

-- The framer inside a frame, without flow control.
abbrev pub in_body : ℕ → List (List ℕ) → List ℕ → HdlcFramer
in_body n fs buf = record {
  buf_size = n;
  buf = buf;
  state = in_frame;
  flow_control = false;
  frames = fs;
}

-- What a received body leads to: nothing if it is shorter than a CRC or its CRC is not good, the
-- body less its last two bytes otherwise.
abbrev pub received : List ℕ → List (List ℕ)
received body =
    if ltb (length body) 2
    then []
    else if crc16_hdlc body == crc16_good
    then take (length body - 2) body ∷ []
    else []

pub process_bytes-append :
    (s : HdlcFramer) (xs ys : List ℕ)
    → process_bytes s (xs ++ ys) ≡ process_bytes (process_bytes s xs) ys
unfolding process_bytes
process_bytes-append s [] ys = refl
process_bytes-append s (x ∷ xs) ys = process_bytes-append (process_byte s x) xs ys

-- Where there is room, the stuffed form of a byte adds that byte to the buffer.
pub process_bytes-stuffed_byte :
    (n : ℕ) (fs : List (List ℕ)) (xs : List ℕ) (b : ℕ)
    → length xs < n
    → process_bytes (in_body n fs xs) (stuffed_byte b) ≡ in_body n fs (xs ++ (b ∷ []))
unfolding process_bytes process_byte on_byte store
process_bytes-stuffed_byte n fs xs b h = elim (Bool-cases (b == flag)) [
  | inl e ↦ rw (==→eq b flag e) (ground arith)
  | inr e ↦ elim (Bool-cases (b == esc)) [
    | inl e' ↦ rw (==→eq b esc e') (ground arith)
    | inr e' ↦ rw (e, e') (ground arith)
  ]
]

pub process_bytes-stuffed :
    (n : ℕ) (fs : List (List ℕ)) (xs body : List ℕ)
    → length xs + length body ≤ n
    → process_bytes (in_body n fs xs) (stuffed body) ≡ in_body n fs (xs ++ body)
process_bytes-stuffed n fs xs [] h = unfold process_bytes in rw (append-nil xs)
process_bytes-stuffed n fs xs (b ∷ body) h =
    process_bytes-append (in_body n fs xs) (stuffed_byte b) (stuffed body)
    ∙ ap (λ (t : HdlcFramer). process_bytes t (stuffed body))
        (process_bytes-stuffed_byte n fs xs b (omega arith))
    ∙ process_bytes-stuffed n fs (xs ++ (b ∷ [])) body (omega (arith, length-append xs (b ∷ [])))
    ∙ ap (λ (t : List ℕ). in_body n fs t) (append_assoc xs (b ∷ []) body)

-- The flag behind a body.
pub process_byte-flag_closes :
    (n : ℕ) (fs : List (List ℕ)) (buf : List ℕ)
    → process_byte (in_body n fs buf) flag ≡ in_body n (fs ++ received buf) []
unfolding process_byte on_byte deliver strip_crc
process_byte-flag_closes n fs buf = ground (arith, frame_crc_lem buf, append-nil fs)

on_byte-flag :
    (st : State) (s : HdlcFramer)
    → s.state ≡ st
    → s.flow_control ≡ false
    → on_byte st s flag ≡ in_body s.buf_size (on_byte st s flag).frames []
unfolding on_byte start_frame deliver strip_crc
on_byte-flag idle s h k = ground arith
on_byte-flag in_frame s h k = ground arith
on_byte-flag escape s h k = ground arith
on_byte-flag error s h k = ground arith

-- A flag starts a frame, whatever state the framer is in.
pub process_byte-flag_opens :
    (s : HdlcFramer)
    → s.flow_control ≡ false
    → process_byte s flag ≡ in_body s.buf_size (process_byte s flag).frames []
unfolding process_byte
process_byte-flag_opens s h = simp h (on_byte-flag s.state s refl h)

pub process_bytes-body :
    (s : HdlcFramer) (body : List ℕ)
    → s.flow_control ≡ false
    → length body ≤ s.buf_size
    → process_bytes s (flag ∷ (stuffed body ++ (flag ∷ [])))
      ≡ in_body s.buf_size ((process_byte s flag).frames ++ received body) []
unfolding process_bytes
process_bytes-body s body h k =
    process_bytes-append (process_byte s flag) (stuffed body) (flag ∷ [])
    ∙ ap (λ (t : HdlcFramer). process_byte (process_bytes t (stuffed body)) flag)
        (process_byte-flag_opens s h)
    ∙ ap (λ (t : HdlcFramer). process_byte t flag)
        (process_bytes-stuffed s.buf_size (process_byte s flag).frames [] body (omega arith))
    ∙ process_byte-flag_closes s.buf_size (process_byte s flag).frames body
