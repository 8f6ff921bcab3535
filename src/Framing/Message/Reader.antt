-- ===== src/Framing/Message/Reader.antt =====
-- `MessageReader` of python/src/embedded_bridge/framing/message.py. The index `i` of `feed` is the
-- list of the bytes that are left, and each step returns what it leaves.
pub mod Invariant
pub mod Rounds
pub mod Delivery
pub mod Payload
pub mod Stream
pub mod Written
mod Tests
use embedded_bridge.Prelude.{
  ℕ, zero, suc, ◌+◌, ◌-◌, ◌*◌, ◌^◌, min, List, [], ◌∷◌, Option, none, some, length, take, drop, ltb,
  leb, ◌==◌, if◌then◌else◌, bit_and, bit_or,
}
use embedded_bridge.Text.Utf8.{decode}
use embedded_bridge.Framing.Varint.{varint_max_bytes}
use embedded_bridge.Framing.Message.Handler.{
  StreamingMessageHandler, Message, DrainHandler, drain_handler, init_handler,
}

abbrev pub soh : ℕ
soh = 0x01

abbrev pub binary_protocol_v1 : ℕ
binary_protocol_v1 = 0x01

abbrev pub newline : ℕ
newline = 0x0A

pub data State : Type 0 where
  idle text_line version length_bytes payload : State

pub record MessageReader (H : Type 0) : Type 0 where
  pub handler : H
  pub state : State
  pub varint_value : ℕ
  pub varint_shift : ℕ
  pub varint_bytes_read : ℕ
  pub payload_remaining : ℕ

pub init : {H : Type 0} → H → MessageReader H
init handler = record {
  handler = handler;
  state = idle;
  varint_value = 0;
  varint_shift = 0;
  varint_bytes_read = 0;
  payload_remaining = 0;
}

-- Why the scan of `_feed_text` stops.
pub data Stop : Type 0 where
  at_newline at_soh at_end : Stop

-- The text bytes up to the first newline or SOH, why they stop, and what follows.
pub text_extent : List ℕ → List ℕ × Stop × List ℕ
text_extent [] = ([], at_end, [])
text_extent (c ∷ bytes) =
    let (chunk, stop, rest) = text_extent bytes in
    if c == newline
    then ([], at_newline, bytes)
    else if c == soh
    then ([], at_soh, bytes)
    else (c ∷ chunk, stop, rest)

-- The seven bits of one byte of a length, put above those read before.
pub accumulate : {H : Type 0} → MessageReader H → ℕ → MessageReader H
accumulate r c = record r {
  varint_value = bit_or r.varint_value (bit_and c 0x7F * 2 ^ r.varint_shift);
  varint_shift = r.varint_shift + 7;
  varint_bytes_read = r.varint_bytes_read + 1;
}

pub process_version : {H : Type 0} → MessageReader H → ℕ → MessageReader H
process_version r c =
    if c == binary_protocol_v1
    then record r {
      state = length_bytes;
      varint_value = 0;
      varint_shift = 0;
      varint_bytes_read = 0;
    }
    else record r { state = idle }

module _ {H : Type 0} (ops : StreamingMessageHandler H) where
  -- `if i > start: ... on_text_data(chunk)`
  pub deliver_text : MessageReader H → List ℕ → MessageReader H
  deliver_text r [] = r
  deliver_text r (c ∷ chunk) = record r {
    handler = ops.on_text_data r.handler (decode (c ∷ chunk));
  }

  pub end_text : Stop → MessageReader H → MessageReader H
  end_text at_newline r = record r { handler = ops.on_text_end r.handler; state = idle }
  end_text at_soh r = record r { handler = ops.on_text_end r.handler; state = version }
  end_text at_end r = r

  pub feed_text : MessageReader H → List ℕ → MessageReader H × List ℕ
  feed_text r bytes =
      let (chunk, stop, rest) = text_extent bytes in (end_text stop (deliver_text r chunk), rest)

  pub end_payload : MessageReader H → MessageReader H
  end_payload r =
      if r.payload_remaining == 0
      then record r { handler = ops.on_binary_end r.handler; state = idle }
      else r

  pub feed_payload : MessageReader H → List ℕ → MessageReader H × List ℕ
  feed_payload r bytes =
      let n = min (length bytes) r.payload_remaining in
      let r' =
        if ltb 0 n
        then record r {
          handler = ops.on_binary_data r.handler (take n bytes);
          payload_remaining = r.payload_remaining - n;
        }
        else r in
      (end_payload r', drop n bytes)

  -- The last byte of a length.
  pub start_payload : MessageReader H → MessageReader H
  start_payload r =
      let h = ops.on_binary_start r.handler r.varint_value in
      if r.varint_value == 0
      then record r { handler = ops.on_binary_end h; state = idle }
      else record r { handler = h; payload_remaining = r.varint_value; state = payload }

  pub process_varint_byte : MessageReader H → ℕ → MessageReader H
  process_varint_byte r c =
      let r' = accumulate r c in
      if bit_and c 0x80 == 0
      then start_payload r'
      else if leb varint_max_bytes r'.varint_bytes_read
      then record r' { state = idle }
      else r'

  -- One round of the loop of `feed`, at the byte `c` with `bytes` behind it.
  pub feed_step : State → MessageReader H → ℕ → List ℕ → MessageReader H × List ℕ
  feed_step idle r c bytes =
      if c == soh
      then (record r { state = version }, bytes)
      else if c == newline
      then (record r { handler = ops.on_text_end r.handler }, bytes)
      else feed_text (record r { state = text_line }) (c ∷ bytes)
  feed_step text_line r c bytes = feed_text r (c ∷ bytes)
  feed_step version r c bytes = (process_version r c, bytes)
  feed_step length_bytes r c bytes = (process_varint_byte r c, bytes)
  feed_step payload r c bytes = feed_payload r (c ∷ bytes)

  -- `none`: out of fuel.
  pub feed_loop : ℕ → MessageReader H → List ℕ → Option (MessageReader H)
  feed_loop fuel r [] = some r
  feed_loop zero r (c ∷ bytes) = none
  feed_loop (suc fuel) r (c ∷ bytes) =
      let (r', rest) = feed_step r.state r c bytes in feed_loop fuel r' rest

  pub feed : MessageReader H → List ℕ → Option (MessageReader H)
  feed r bytes = feed_loop (length bytes) r bytes

-- The handler of a reader: its own one, or one that the caller gave.
pub data Attached (H : Type 0) : Type 0 where
  own : DrainHandler → Attached H
  given : H → Attached H

module _ {H : Type 0} where
  -- A call of the handler, whichever it is.
  pub on_attached : (DrainHandler → DrainHandler) → (H → H) → Attached H → Attached H
  on_attached f g (own d) = own (f d)
  on_attached f g (given h) = given (g h)

  pub attached : StreamingMessageHandler H → StreamingMessageHandler (Attached H)
  attached ops = record {
    on_text_data = λ a chunk.
        on_attached (λ d. drain_handler.on_text_data d chunk) (λ h. ops.on_text_data h chunk) a;
    on_text_end = on_attached drain_handler.on_text_end ops.on_text_end;
    on_binary_start = λ a n.
        on_attached (λ d. drain_handler.on_binary_start d n) (λ h. ops.on_binary_start h n) a;
    on_binary_data = λ a chunk.
        on_attached (λ d. drain_handler.on_binary_data d chunk) (λ h. ops.on_binary_data h chunk) a;
    on_binary_end = on_attached drain_handler.on_binary_end ops.on_binary_end;
  }

  -- `MessageReader()`
  pub init_drain : MessageReader (Attached H)
  init_drain = init (own (init_handler []))

  -- `none`: RuntimeError, the caller gave a handler.
  pub drained : Attached H → Option (List Message × Attached H)
  drained (own d) = some (d.user, own (record d { user = [] }))
  drained (given h) = none

  pub drain : MessageReader (Attached H) → Option (List Message × MessageReader (Attached H))
  drain r = elim (drained r.handler) [
    | none ↦ none
    | some (messages, a) ↦ some (messages, record r { handler = a })
  ]

  pub reset : MessageReader (Attached H) → MessageReader (Attached H)
  reset r = init (on_attached (λ d. init_handler []) (λ h. h) r.handler)
