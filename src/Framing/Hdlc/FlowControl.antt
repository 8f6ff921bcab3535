-- ===== src/Framing/Hdlc/FlowControl.antt =====
-- Software flow control: XON and XOFF bytes are dropped wherever they stand in the stream, also
-- those that belong to a frame, since the encoder does not escape them.
use embedded_bridge.Prelude.{
  ℕ, ◌+◌, ◌≤◌, ◌<◌, ◌≡◌, refl, ap, ◌∙◌, arith, Bool, true, false, List, [], ◌∷◌, ◌++◌, length,
  length-append, Bool-cases, inl, inr, ◌==◌, ==→eq, bit_and, ◌/◌, ◌^◌, if◌then◌else◌, length-take,
  ◌-◌, All,
}
use embedded_bridge.Framing.Crc16.{crc16_hdlc}
use embedded_bridge.Framing.Hdlc.{
  flag, esc, State, idle, in_frame, escape, error, HdlcFramer, store, deliver, start_frame, on_byte,
  is_flow_byte, process_byte, process_bytes, encode,
}
use embedded_bridge.Framing.Hdlc.Encoder.{
  stuffed_byte, stuffed, body_of, encode_lem, length-body_of,
}
use embedded_bridge.Framing.Hdlc.Body.{in_body, received, process_bytes-body}

pub without_flow : List ℕ → List ℕ
without_flow [] = []
without_flow (b ∷ bytes) =
    let rest = without_flow bytes in if is_flow_byte b then rest else b ∷ rest

flow_control-on_byte :
    (st : State) (s : HdlcFramer) (c : ℕ) → (on_byte st s c).flow_control ≡ s.flow_control
unfolding on_byte start_frame deliver store
flow_control-on_byte idle s c = ground arith
flow_control-on_byte in_frame s c = ground arith
flow_control-on_byte escape s c = ground arith
flow_control-on_byte error s c = ground arith

-- With flow control on, the framer reads a stream as it reads it without its flow bytes.
process_bytes-without_flow :
    (s : HdlcFramer) (bytes : List ℕ)
    → s.flow_control ≡ true
    → process_bytes s bytes ≡ process_bytes s (without_flow bytes)
unfolding process_bytes without_flow
process_bytes-without_flow s [] h = refl
process_bytes-without_flow s (b ∷ bytes) h = elim (Bool-cases (is_flow_byte b)) [
  | inl e ↦ rw e (
      ap (λ (t : HdlcFramer). process_bytes t bytes) (skipped e)
      ∙ process_bytes-without_flow s bytes h)
  | inr e ↦ rw e (process_bytes-without_flow (process_byte s b) bytes (kept b))
]
  where
    skipped : is_flow_byte b ≡ true → process_byte s b ≡ s
    skipped e = unfold process_byte in ground arith

    kept : (c : ℕ) → (process_byte s c).flow_control ≡ true
    kept c = unfold process_byte in ground (arith, flow_control-on_byte s.state s c)

-- Setting the flag of flow control commutes with a byte that is no flow byte.
on_byte-flow :
    (st : State) (s : HdlcFramer) (f : Bool) (c : ℕ)
    → on_byte st (record s { flow_control = f }) c ≡ record (on_byte st s c) { flow_control = f }
unfolding on_byte start_frame deliver store
on_byte-flow idle s f c = ground arith
on_byte-flow in_frame s f c = ground arith
on_byte-flow escape s f c = ground arith
on_byte-flow error s f c = ground arith

abbrev switched : HdlcFramer → Bool → HdlcFramer
switched s f = record s { flow_control = f }

process_byte-flow :
    (s : HdlcFramer) (f : Bool) (c : ℕ)
    → is_flow_byte c ≡ false
    → process_byte (switched s f) c ≡ switched (process_byte s c) f
unfolding process_byte
process_byte-flow s f c h = ground (arith, on_byte-flow s.state s f c)

process_bytes-flow :
    (s : HdlcFramer) (f : Bool) (bytes : List ℕ)
    → process_bytes (switched s f) (without_flow bytes)
      ≡ switched (process_bytes s (without_flow bytes)) f
unfolding process_bytes without_flow
process_bytes-flow s f [] = refl
process_bytes-flow s f (b ∷ bytes) = elim (Bool-cases (is_flow_byte b)) [
  | inl e ↦ rw e (process_bytes-flow s f bytes)
  | inr e ↦ rw e (
      ap (λ (t : HdlcFramer). process_bytes t (without_flow bytes)) (process_byte-flow s f b e)
      ∙ process_bytes-flow (process_byte s b) f bytes)
]

without_flow-append :
    (xs ys : List ℕ) → without_flow (xs ++ ys) ≡ without_flow xs ++ without_flow ys
unfolding without_flow
without_flow-append [] ys = refl
without_flow-append (x ∷ xs) ys = ground (arith, without_flow-append xs ys)

without_flow-stuffed_byte :
    (b : ℕ) → without_flow (stuffed_byte b) ≡ (if is_flow_byte b then [] else stuffed_byte b)
unfolding without_flow is_flow_byte
without_flow-stuffed_byte b = elim (Bool-cases (b == flag)) [
  | inl e ↦ rw (==→eq b flag e) refl
  | inr e ↦ elim (Bool-cases (b == esc)) [
    | inl e' ↦ rw (==→eq b esc e') refl
    | inr e' ↦ rw (e, e') (ground arith)
  ]
]

without_flow-stuffed : (body : List ℕ) → without_flow (stuffed body) ≡ stuffed (without_flow body)
without_flow-stuffed [] = unfold without_flow in refl
without_flow-stuffed (b ∷ body) =
    without_flow-append (stuffed_byte b) (stuffed body)
    ∙ ap (λ (t : List ℕ). t ++ without_flow (stuffed body)) (without_flow-stuffed_byte b)
    ∙ ap (λ (t : List ℕ). (if is_flow_byte b then [] else stuffed_byte b) ++ t)
        (without_flow-stuffed body)
    ∙ elim (Bool-cases (is_flow_byte b)) [
      | inl e ↦ unfold without_flow in rw e refl
      | inr e ↦ unfold without_flow in rw e refl
    ]

without_flow-framed :
    (xs : List ℕ)
    → without_flow (flag ∷ (xs ++ (flag ∷ []))) ≡ flag ∷ (without_flow xs ++ (flag ∷ []))
unfolding without_flow is_flow_byte
without_flow-framed xs = ap (λ (t : List ℕ). flag ∷ t) (without_flow-append xs (flag ∷ []))

without_flow-encode :
    (p : List ℕ)
    → without_flow (encode p) ≡ flag ∷ (stuffed (without_flow (body_of p)) ++ (flag ∷ []))
without_flow-encode p =
    ap without_flow (encode_lem p)
    ∙ without_flow-framed (stuffed (body_of p))
    ∙ ap (λ (t : List ℕ). flag ∷ (t ++ (flag ∷ []))) (without_flow-stuffed (body_of p))

length-without_flow : (xs : List ℕ) → length (without_flow xs) ≤ length xs
unfolding without_flow
length-without_flow [] = omega arith
length-without_flow (x ∷ xs) = ground (arith, length-without_flow xs)

-- With flow control on, a framer in any state receives from an encoded payload that fits the
-- buffer the body without its flow bytes: that is handed on, less its last two bytes, exactly if
-- it still has a good CRC.
pub process_bytes-encode_flow :
    (s : HdlcFramer) (p : List ℕ)
    → s.flow_control ≡ true
    → length p + 2 ≤ s.buf_size
    → process_bytes s (encode p)
      ≡ record (in_body s.buf_size
          ((process_byte s flag).frames ++ received (without_flow (body_of p)))
          []) { flow_control = true }
process_bytes-encode_flow s p h k =
    process_bytes-without_flow s (encode p) h
    ∙ ap (λ (t : HdlcFramer). process_bytes t (without_flow (encode p))) on
    ∙ process_bytes-flow (switched s false) true (encode p)
    ∙ ap (λ (t : List ℕ). switched (process_bytes (switched s false) t) true)
        (without_flow-encode p)
    ∙ ap (λ (t : HdlcFramer). switched t true)
        (process_bytes-body (switched s false) (without_flow (body_of p)) refl
          (omega (arith, length-without_flow (body_of p), length-body_of p)))
    ∙ ap
        (λ (t : HdlcFramer).
          switched (in_body s.buf_size (t.frames ++ received (without_flow (body_of p))) []) true)
        (process_byte-flow s false flag (unfold is_flow_byte in refl))
  where
    on : s ≡ switched (switched s false) true
    on i = record s { flow_control = h i }

-- A list from which something was taken is shorter.
without_flow_shorter :
    (front back : List ℕ) (c : ℕ)
    → is_flow_byte c ≡ true
    → length (without_flow (front ++ (c ∷ back))) < length (front ++ (c ∷ back))
unfolding without_flow
without_flow_shorter [] back c h = rw h (omega (arith, length-without_flow back))
without_flow_shorter (x ∷ front) back c h = ground (arith, without_flow_shorter front back c h)

-- From a body that is shorter than a payload with its CRC, only shorter payloads are received.
received_short :
    (n : ℕ) (body : List ℕ)
    → 0 < n
    → length body < n + 2
    → All (λ q. length q < n) (received body) × (length (received body) ≤ 1)
received_short n body h k = ground (arith, length-take (length body - 2) body)

-- With flow control on, a payload that holds an XON or XOFF byte and that with its CRC fits the buffer
-- is not delivered, by a framer in any state: behind what the first flag completes, its encoding
-- leads to at most one frame, and one that is shorter than the payload. The encoder does not escape
-- these bytes, and the framer drops them from the frame.
pub process_bytes-flow_lost :
    (s : HdlcFramer) (front back : List ℕ) (c : ℕ)
    → s.flow_control ≡ true
    → length (front ++ (c ∷ back)) + 2 ≤ s.buf_size
    → is_flow_byte c ≡ true
    → (delivered : List (List ℕ)) × ((process_bytes s (encode (front ++ (c ∷ back)))).frames
        ≡ (process_byte s flag).frames ++ delivered)
      × All (λ q. length q < length (front ++ (c ∷ back))) delivered
      × (length delivered ≤ 1)
process_bytes-flow_lost s front back c h k flow =
    let (shorter, one) =
      received_short (length p) (without_flow (body_of p))
        (omega (arith, length-append front (c ∷ back))) short in
    (
      received (without_flow (body_of p)),
      ap (λ (t : HdlcFramer). t.frames) (process_bytes-encode_flow s p h k),
      shorter,
      one,
    )
  where
    p : List ℕ
    p = front ++ (c ∷ back)

    crc : List ℕ
    crc = bit_and (crc16_hdlc p) 0xFF ∷ crc16_hdlc p / 2 ^ 8 ∷ []

    short : length (without_flow (body_of p)) < length p + 2
    short = rw (without_flow-append p crc) (
        omega (
          arith,
          length-append (without_flow p) (without_flow crc),
          without_flow_shorter front back c flow,
          length-without_flow crc,
        ))
