-- ===== src/Framing/Message/Reader/Invariant.antt =====
-- The states that a `MessageReader` can be in, and that `feed` returns on every input.
use embedded_bridge.Prelude.{
  ℕ, zero, suc, ◌-◌, ◌*◌, ◌^◌, ◌≤◌, ◌<◌, ◌≡◌, refl, ◌∙◌, if-holds_by, if-holds, min, arith, List,
  [], ◌∷◌, length, drop, some, leb, ◌==◌, bit_and, Bool-cases, inl, inr, false,
}
use mathlib.Core.Path.{subst}
use native.Mathlib.Nat.{pow-le-pow_right}
use embedded_bridge.Framing.Varint.{varint_max_bytes}
use embedded_bridge.Framing.Varint.RoundTrip.{add_group, group_fits}
use embedded_bridge.Framing.Message.Handler.{StreamingMessageHandler}
use embedded_bridge.Framing.Message.Reader.{
  State, idle, text_line, version, length_bytes, payload, MessageReader, Stop, at_newline, at_soh,
  at_end, text_extent, deliver_text, end_text, feed_text, end_payload, feed_payload, start_payload,
  accumulate, process_varint_byte, process_version, feed_step, feed_loop, binary_protocol_v1, feed,
  newline, soh, init,
}

unfoldable pub IsValidAt : {H : Type 0} → State → MessageReader H → Type 0
IsValidAt length_bytes r =
    (r.varint_bytes_read < 5)
    × (r.varint_shift ≡ 7 * r.varint_bytes_read)
    × (r.varint_value < 2 ^ r.varint_shift)
IsValidAt payload r = (0 < r.payload_remaining) × (r.payload_remaining < 2 ^ 35)
IsValidAt idle r = Unit
IsValidAt text_line r = Unit
IsValidAt version r = Unit

-- A length in its course has fewer than five bytes and fits the bits that they gave; a payload in its
-- course lacks some bytes, fewer than 2 ^ 35.
unfoldable pub IsValid : {H : Type 0} → MessageReader H → Type 0
IsValid r = IsValidAt r.state r

text_extent_shorter : (bytes : List ℕ) → length (text_extent bytes).2 ≤ length bytes
unfolding text_extent
text_extent_shorter [] = omega arith
text_extent_shorter (c ∷ bytes) = ground (arith, text_extent_shorter bytes)

text_extent_progress : (c : ℕ) (bytes : List ℕ) → length (text_extent (c ∷ bytes)).2 ≤ length bytes
unfolding text_extent
text_extent_progress c bytes = ground (arith, text_extent_shorter bytes)

length-drop : (n : ℕ) (bytes : List ℕ) → length (drop n bytes) ≡ length bytes - n
length-drop zero bytes = omega arith
length-drop (suc n) [] = omega arith
length-drop (suc n) (b ∷ bytes) = omega (arith, length-drop n bytes)

module _ {H : Type 0} where
  accumulate_fits :
      (r : MessageReader H) (c : ℕ)
      → IsValidAt length_bytes r
      → (accumulate r c).varint_value < 2 ^ (accumulate r c).varint_shift
  unfolding accumulate IsValidAt
  accumulate_fits r c (k, s, v) =
      rw (add_group r.varint_value c r.varint_shift v)
        (group_fits r.varint_value c r.varint_shift v)

  accumulate_shift :
      (r : MessageReader H) (c : ℕ) → IsValidAt length_bytes r → (accumulate r c).varint_shift ≤ 35
  unfolding accumulate IsValidAt
  accumulate_shift r c (k, s, _) = omega arith

  accumulate_fits_35 :
      (r : MessageReader H) (c : ℕ)
      → IsValidAt length_bytes r
      → (accumulate r c).varint_value < 2 ^ 35
  accumulate_fits_35 r c v =
      let w : 2 ^ (accumulate r c).varint_shift ≤ 2 ^ 35 =
        pow-le-pow_right (omega arith) (accumulate_shift r c v) in
      omega (arith, accumulate_fits r c v, w)

  pub accumulate-IsValidAt :
      (r : MessageReader H) (c : ℕ)
      → IsValidAt length_bytes r
      → leb varint_max_bytes (accumulate r c).varint_bytes_read ≡ false
      → IsValidAt length_bytes (accumulate r c)
  unfolding IsValidAt accumulate
  accumulate-IsValidAt r c v l = (ground arith, omega (arith, v.1), accumulate_fits r c v)

  same_state : (r : MessageReader H) (c : ℕ) → (accumulate r c).state ≡ r.state
  unfolding accumulate
  same_state r c = refl

  pub accumulate-IsValid :
      (r : MessageReader H) (c : ℕ)
      → IsValidAt length_bytes r
      → r.state ≡ length_bytes
      → leb varint_max_bytes (accumulate r c).varint_bytes_read ≡ false
      → IsValid (accumulate r c)
  unfolding IsValid accumulate IsValidAt
  accumulate-IsValid r c v e l = rw (same_state r c) (rw e (accumulate-IsValidAt r c v l))

  pub idle-IsValid : (r : MessageReader H) → IsValid (record r { state = idle })
  unfolding IsValid IsValidAt
  idle-IsValid r = tt

  pub version-IsValid : (r : MessageReader H) → IsValid (record r { state = version })
  unfolding IsValid IsValidAt
  version-IsValid r = tt

  pub fresh_length :
      (r : MessageReader H)
      → IsValid (record r {
        state = length_bytes;
        varint_value = 0;
        varint_shift = 0;
        varint_bytes_read = 0;
      })
  unfolding IsValid IsValidAt
  fresh_length r = (omega arith, omega arith, omega arith)

  other_handler-IsValid :
      (r : MessageReader H) (h : H) → r.state ≡ idle → IsValid (record r { handler = h })
  unfolding IsValid IsValidAt
  other_handler-IsValid r h e = rw e tt

  at_state : (r : MessageReader H) (st : State) → r.state ≡ st → IsValid r → IsValidAt st r
  unfolding IsValid
  at_state r st e v = subst (λ (t : State). IsValidAt t r) e v

  some_left : (r : MessageReader H) → r.state ≡ payload → IsValid r → 0 < r.payload_remaining
  unfolding IsValidAt
  some_left r e v = (at_state r payload e v).0

module _ {H : Type 0} (ops : StreamingMessageHandler H) where
  deliver_text_state :
      (r : MessageReader H) (chunk : List ℕ) → (deliver_text ops r chunk).state ≡ r.state
  unfolding deliver_text
  deliver_text_state r [] = refl
  deliver_text_state r (c ∷ chunk) = refl

  end_text-IsValid :
      (stop : Stop) (r : MessageReader H) → r.state ≡ text_line → IsValid (end_text ops stop r)
  unfolding IsValid IsValidAt end_text
  end_text-IsValid at_newline r h = tt
  end_text-IsValid at_soh r h = tt
  end_text-IsValid at_end r h = rw h tt

  feed_text-IsValid :
      (r : MessageReader H) (bytes : List ℕ)
      → r.state ≡ text_line
      → IsValid (feed_text ops r bytes).0
  unfolding feed_text
  feed_text-IsValid r bytes h =
      end_text-IsValid (text_extent bytes).1 (deliver_text ops r (text_extent bytes).0)
        (deliver_text_state r (text_extent bytes).0 ∙ h)

  taken_payload :
      (r : MessageReader H) (c : ℕ) (bytes : List ℕ)
      → IsValidAt payload r
      → r.state ≡ payload
      → IsValid (feed_payload ops r (c ∷ bytes)).0
  unfolding feed_payload end_payload IsValid IsValidAt
  taken_payload r c bytes (k, l) e =
      elim (Bool-cases (leb r.payload_remaining (suc (length bytes)))) [
        | inl h ↦ ground (arith, k, l, e)
        | inr h ↦ ground (arith, k, l, e)
      ]

  start_payload-IsValid :
      (r : MessageReader H) → r.varint_value < 2 ^ 35 → IsValid (start_payload ops r)
  unfolding start_payload IsValid IsValidAt
  start_payload-IsValid r h = ground (arith, h)

  process_varint_byte-IsValid :
      (r : MessageReader H) (c : ℕ)
      → IsValidAt length_bytes r
      → r.state ≡ length_bytes
      → IsValid (process_varint_byte ops r c)
  unfolding process_varint_byte
  process_varint_byte-IsValid r c v e =
      if-holds_by IsValid (bit_and c 0x80 == 0)
        (λ _. start_payload-IsValid (accumulate r c) (accumulate_fits_35 r c v))
        (λ _.
          if-holds_by IsValid (leb varint_max_bytes (accumulate r c).varint_bytes_read)
            (λ _. idle-IsValid (accumulate r c)) (accumulate-IsValid r c v e))

  process_version-IsValid : (r : MessageReader H) (c : ℕ) → IsValid (process_version r c)
  unfolding process_version
  process_version-IsValid r c =
      if-holds IsValid (c == binary_protocol_v1) (fresh_length r) (idle-IsValid r)

  step_idle-IsValid :
      (r : MessageReader H) (c : ℕ) (bytes : List ℕ)
      → r.state ≡ idle
      → IsValid (feed_step ops idle r c bytes).0
  unfolding feed_step
  step_idle-IsValid r c bytes e = elim (Bool-cases (c == soh)) [
    | inl h ↦ rw h (version-IsValid r)
    | inr h ↦ rw h (elim (Bool-cases (c == newline)) [
      | inl k ↦ rw k (other_handler-IsValid r (ops.on_text_end r.handler) e)
      | inr k ↦ rw k (feed_text-IsValid (record r { state = text_line }) (c ∷ bytes) refl)
    ])
  ]

  -- Each round of the loop keeps the invariant and takes a byte at least.
  pub feed_step-IsValid :
      (st : State) (r : MessageReader H) (c : ℕ) (bytes : List ℕ)
      → r.state ≡ st
      → IsValid r
      → IsValid (feed_step ops st r c bytes).0
  feed_step-IsValid idle r c bytes e v = step_idle-IsValid r c bytes e
  feed_step-IsValid text_line r c bytes e v = unfold feed_step in feed_text-IsValid r (c ∷ bytes) e
  feed_step-IsValid version r c bytes e v = unfold feed_step in process_version-IsValid r c
  feed_step-IsValid length_bytes r c bytes e v =
      unfold feed_step in process_varint_byte-IsValid r c (at_state r length_bytes e v) e
  feed_step-IsValid payload r c bytes e v =
      unfold feed_step in taken_payload r c bytes (at_state r payload e v) e

  pub feed_step_progress :
      (st : State) (r : MessageReader H) (c : ℕ) (bytes : List ℕ)
      → r.state ≡ st
      → IsValid r
      → length (feed_step ops st r c bytes).1 ≤ length bytes
  unfolding feed_step feed_text feed_payload
  feed_step_progress idle r c bytes e v = ground (arith, text_extent_progress c bytes)
  feed_step_progress text_line r c bytes e v = text_extent_progress c bytes
  feed_step_progress version r c bytes e v = omega arith
  feed_step_progress length_bytes r c bytes e v = omega arith
  feed_step_progress payload r c bytes e v = omega (
    arith,
    length-drop (min (suc (length bytes)) r.payload_remaining) (c ∷ bytes),
    some_left r e v,
  )

  feed_loop-total :
      (fuel : ℕ) (r : MessageReader H) (bytes : List ℕ)
      → length bytes ≤ fuel
      → IsValid r
      → (r' : MessageReader H) × (feed_loop ops fuel r bytes ≡ some r') × IsValid r'
  unfolding feed_loop
  feed_loop-total fuel r [] h v = (r, refl, v)
  feed_loop-total zero r (c ∷ bytes) h v = absurd (omega arith)
  feed_loop-total (suc fuel) r (c ∷ bytes) h v =
      feed_loop-total fuel (feed_step ops r.state r c bytes).0 (feed_step ops r.state r c bytes).1
        (omega (arith, feed_step_progress r.state r c bytes refl v))
        (feed_step-IsValid r.state r c bytes refl v)

  -- A reader in a valid state, with any handler, reads every list of bytes to its end: the loop
  -- does not run out of fuel, and leaves a valid state. A length that is being read has fewer than
  -- five bytes and fits their bits; a payload lacks some bytes, fewer than 2 ^ 35.
  pub feed_total :
      (r : MessageReader H) (bytes : List ℕ)
      → IsValid r
      → (r' : MessageReader H) × (feed ops r bytes ≡ some r') × IsValid r'
  unfolding feed
  feed_total r bytes v = feed_loop-total (length bytes) r bytes (omega arith) v

-- A new reader is valid.
pub init-IsValid : {H : Type 0} (h : H) → IsValid (init h)
unfolding IsValid IsValidAt init
init-IsValid h = tt
