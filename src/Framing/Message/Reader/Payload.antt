-- ===== src/Framing/Message/Reader/Payload.antt =====
-- What a reader delivers of a binary message: the header, the length and the payload.
use embedded_bridge.Prelude.{
  ℕ, suc, ◌+◌, ◌-◌, ◌*◌, ◌%◌, ◌^◌, ◌≤◌, ◌<◌, ◌≡◌, refl, ap, ◌∙◌, arith, min, true, false, List, [],
  ◌∷◌, ◌++◌, append-nil, append_assoc, length, length-append, take, drop, ltb, leb, ◌==◌, bit_and,
  bit_or, top_bit,
}
use embedded_bridge.Framing.Varint.{encode_varint, varint_max_bytes}
use embedded_bridge.Framing.Varint.RoundTrip.{add_group, next_group, regroup, group_fits}
use embedded_bridge.Framing.Varint.Encoding.{
  Encodes, final, group, encode_varint-Encodes, length-Encodes_le, length-Encodes_lt,
}
use embedded_bridge.Framing.Message.Handler.{StreamingMessageHandler, binary}
use embedded_bridge.Framing.Message.Writer.{binary_header}
use embedded_bridge.Framing.Message.Reader.{
  idle, version, length_bytes, payload, MessageReader, feed_step, feed, soh, binary_protocol_v1,
  process_version, process_varint_byte, accumulate, start_payload, feed_payload, end_payload,
}
use embedded_bridge.Framing.Message.Reader.Invariant.{
  idle-IsValid, IsValid, IsValidAt, version-IsValid,
}
use embedded_bridge.Framing.Message.Reader.Rounds.{feed_round}
use embedded_bridge.Framing.Message.Reader.Delivery.{Delivers, between}

module _ {H : Type 0} where
  -- A reader within a length.
  abbrev in_length : MessageReader H → ℕ → ℕ → ℕ → MessageReader H
  in_length r value shift k = record r {
    state = length_bytes;
    varint_value = value;
    varint_shift = shift;
    varint_bytes_read = k;
  }

  -- Any byte that holds the lowest seven bits of `v`.
  accumulate_lem :
      (r : MessageReader H) (value shift k c v : ℕ)
      → bit_or value (bit_and c 0x7F * 2 ^ shift) ≡ value + v % 128 * 2 ^ shift
      → accumulate (in_length r value shift k) c
        ≡ in_length r (value + v % 128 * 2 ^ shift) (shift + 7) (k + 1)
  unfolding accumulate
  accumulate_lem r value shift k c v h = λ i. in_length r (h i) (shift + 7) (k + 1)

  in_length-IsValid :
      (r : MessageReader H) (value shift k : ℕ)
      → k < 5
      → shift ≡ 7 * k
      → value < 2 ^ shift
      → IsValid (in_length r value shift k)
  unfolding IsValid IsValidAt
  in_length-IsValid r value shift k h e f = (h, e, f)

module _ {H : Type 0} (ops : StreamingMessageHandler H) where
  final_byte :
      (r : MessageReader H) (value shift k v : ℕ)
      → v < 128
      → value < 2 ^ shift
      → process_varint_byte ops (in_length r value shift k) v
        ≡ start_payload ops (in_length r (value + v * 2 ^ shift) (shift + 7) (k + 1))
  unfolding process_varint_byte
  final_byte r value shift k v h f =
      let low : bit_and v 0x80 ≡ 0 = top_bit v (omega arith) ∙ omega arith in
      let same : v % 128 ≡ v = omega arith in
      rw (accumulate_lem r value shift k v v (add_group value v shift f), low, same) refl

  group_byte :
      (r : MessageReader H) (value shift k v : ℕ)
      → k < 4
      → value < 2 ^ shift
      → process_varint_byte ops (in_length r value shift k) (v % 128 + 128)
        ≡ in_length r (value + v % 128 * 2 ^ shift) (shift + 7) (k + 1)
  unfolding process_varint_byte
  group_byte r value shift k v h f =
      let high : bit_and (v % 128 + 128) 0x80 ≡ 128 =
        top_bit (v % 128 + 128) (omega arith) ∙ omega arith in
      let more : leb varint_max_bytes (k + 1) ≡ false = ground arith in
      rw (accumulate_lem r value shift k (v % 128 + 128) v (next_group value v shift f), high, more)
        refl

  length_round :
      (r : MessageReader H) (value shift k c : ℕ) (rest : List ℕ)
      → k < 5
      → shift ≡ 7 * k
      → value < 2 ^ shift
      → feed ops (in_length r value shift k) (c ∷ rest)
        ≡ feed ops (process_varint_byte ops (in_length r value shift k) c) rest
  unfolding feed_step
  length_round r value shift k c rest h e f =
      feed_round ops (in_length r value shift k) c rest (in_length-IsValid r value shift k h e f)

  -- A whole length, read from the value `value` of its first bytes on.
  read_length_bytes :
      (r : MessageReader H) (value shift k : ℕ) {v : ℕ} {bytes : List ℕ} (rest : List ℕ)
      → Encodes v bytes
      → shift ≡ 7 * k
      → value < 2 ^ shift
      → k + length bytes ≤ 5
      → (s' k' : ℕ) × (feed ops (in_length r value shift k) (bytes ++ rest)
          ≡ feed ops (start_payload ops (in_length r (value + v * 2 ^ shift) s' k')) rest)
  read_length_bytes r value shift k rest (final v h) e f l = (
    shift + 7,
    k + 1,
    length_round r value shift k v rest (omega arith) e f
        ∙ ap (λ (t : MessageReader H). feed ops t rest) (final_byte r value shift k v h f),
  )
  read_length_bytes r value shift k rest (group v {bytes} h c) e f l =
      let value' : ℕ = value + v % 128 * 2 ^ shift in
      let nonempty : 0 < length bytes = length-Encodes_lt 0 c (omega arith) in
      let (s', k', ih) =
        read_length_bytes r value' (shift + 7) (k + 1) rest c (omega arith)
          (group_fits value v shift f) (omega arith) in
      (
        s',
        k',
        length_round r value shift k (v % 128 + 128) (bytes ++ rest) (omega arith) e f
            ∙ ap (λ (t : MessageReader H). feed ops t (bytes ++ rest))
                (group_byte r value shift k v (omega arith) f)
            ∙ ih
            ∙ ap (λ (t : ℕ). feed ops (start_payload ops (in_length r t s' k')) rest)
                (omega (arith, regroup v shift)),
      )

  header_rounds :
      (r : MessageReader H) (bytes : List ℕ)
      → feed ops (record r { state = idle }) (soh ∷ binary_protocol_v1 ∷ bytes)
        ≡ feed ops (in_length r 0 0 0) bytes
  unfolding feed_step process_version
  header_rounds r bytes =
      feed_round ops (record r { state = idle }) soh (binary_protocol_v1 ∷ bytes) (idle-IsValid r)
      ∙ feed_round ops (record r { state = version }) binary_protocol_v1 bytes (version-IsValid r)

  -- The payload, of some bytes.
  abbrev in_payload : MessageReader H → H → ℕ → MessageReader H
  in_payload r h n = record r { handler = h; state = payload; payload_remaining = n }

  take-length-append : (p rest : List ℕ) → take (length p) (p ++ rest) ≡ p
  take-length-append [] rest = refl
  take-length-append (b ∷ p) rest = ap (λ (t : List ℕ). b ∷ t) (take-length-append p rest)

  drop-length-append : (p rest : List ℕ) → drop (length p) (p ++ rest) ≡ rest
  drop-length-append [] rest = refl
  drop-length-append (b ∷ p) rest = drop-length-append p rest

  payload_round :
      (r : MessageReader H) (h : H) (b : ℕ) (p rest : List ℕ)
      → feed_payload ops (in_payload r h (length (b ∷ p))) ((b ∷ p) ++ rest) ≡ (
        record r {
          handler = ops.on_binary_end (ops.on_binary_data h (b ∷ p));
          state = idle;
          payload_remaining = 0;
        },
        rest,
      )
  unfolding feed_payload end_payload
  payload_round r h b p rest =
      let whole : min (suc (length (p ++ rest))) (suc (length p)) ≡ suc (length p) =
        omega (arith, length-append p rest) in
      let some_taken : ltb 0 (suc (length p)) ≡ true = ground arith in
      let none_left : suc (length p) - suc (length p) ≡ 0 = omega arith in
      rw (whole, some_taken, none_left, take-length-append p rest, drop-length-append p rest) refl

  payload_lem :
      (r : MessageReader H) (h : H) (b : ℕ) (p rest : List ℕ)
      → length (b ∷ p) < 2 ^ 35
      → feed ops (in_payload r h (length (b ∷ p))) ((b ∷ p) ++ rest)
        ≡ feed ops
            (record r {
              handler = ops.on_binary_end (ops.on_binary_data h (b ∷ p));
              state = idle;
              payload_remaining = 0;
            })
            rest
  unfolding feed_step IsValid IsValidAt
  payload_lem r h b p rest k =
      feed_round ops (in_payload r h (length (b ∷ p))) b (p ++ rest) (omega arith, k)
      ∙ (λ i. feed ops (payload_round r h b p rest i).0 (payload_round r h b p rest i).1)

  -- The last byte of a length above 0.
  start_some :
      (r : MessageReader H) (n s k : ℕ)
      → 0 < n
      → start_payload ops (in_length r n s k)
        ≡ in_payload (in_length r n s k) (ops.on_binary_start r.handler n) n
  unfolding start_payload
  start_some r n s k h = let some_bytes : (n == 0) ≡ false = ground arith in rw some_bytes refl

module _ {H U : Type 0} (ops : StreamingMessageHandler H) (at : U → H) (d : Delivers ops at) where
  read_length :
      (r : MessageReader H) (u : U) (n : ℕ) (rest : List ℕ)
      → n < 2 ^ 35
      → (s k : ℕ) × (feed ops (between at r u) (binary_header n ++ rest)
          ≡ feed ops (start_payload ops (in_length (record r { handler = at u }) n s k)) rest)
  unfolding between binary_header
  read_length r u n rest h =
      let (s, k, e) =
        read_length_bytes ops (record r { handler = at u }) 0 0 0 rest (encode_varint-Encodes n)
          (omega arith) (omega arith)
          (omega (arith, length-Encodes_le 4 (encode_varint-Encodes n) h)) in
      (
        s,
        k,
        header_rounds ops (record r { handler = at u }) (encode_varint n ++ rest)
            ∙ e
            ∙ ap
                (λ (t : ℕ).
                  feed ops (start_payload ops (in_length (record r { handler = at u }) t s k)) rest)
                (omega arith),
      )

  -- A binary message of fewer than 2 ^ 35 bytes is read and delivered, and the rest is read from the
  -- state between two messages.
  pub feed_binary :
      (r : MessageReader H) (u : U) (p rest : List ℕ)
      → length p < 2 ^ 35
      → (r' : MessageReader H) × (feed ops
            (between at r u)
            ((binary_header (length p) ++ p) ++ rest)
          ≡ feed ops (between at r' (d.deliver u (binary p))) rest)
  unfolding between start_payload
  feed_binary r u [] rest h =
      let (s, k, e) = read_length r u 0 rest h in
      let l : ℕ = 0 in
      (
        in_length (record r { handler = at u }) 0 s k,
        ap (λ (t : List ℕ). feed ops (between at r u) (t ++ rest)) (append-nil (binary_header 0))
            ∙ e
            ∙ (λ i.
                feed ops
                  (record (in_length r 0 s k) {
                    handler = d.deliver_empty_binary u i;
                    state = idle;
                  })
                  rest),
      )
  feed_binary r u (b ∷ p) rest h =
      let n : ℕ = length (b ∷ p) in
      let (s, k, e) = read_length r u n ((b ∷ p) ++ rest) h in
      (
        record (in_length r n s k) { payload_remaining = 0 },
        ap (feed ops (between at r u)) (append_assoc (binary_header n) (b ∷ p) rest)
            ∙ e
            ∙ ap (λ (t : MessageReader H). feed ops t ((b ∷ p) ++ rest))
                (start_some ops (record r { handler = at u }) n s k (omega arith))
            ∙ payload_lem ops (in_length (record r { handler = at u }) n s k)
                (ops.on_binary_start (at u) n) b p rest h
            ∙ (λ i.
                feed ops
                  (record (in_length r n s k) {
                    handler = d.deliver_binary u (b ∷ p) i;
                    state = idle;
                    payload_remaining = 0;
                  })
                  rest),
      )
