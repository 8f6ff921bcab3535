-- ===== src/Framing/Hdlc.antt =====
-- python/src/embedded_bridge/framing/hdlc.py. Bytes are numbers; the calls of the callback
-- `on_frame` are kept as a log, oldest first.
pub mod Invariant
pub mod Encoder
pub mod Body
pub mod RoundTrip
pub mod Overflow
pub mod FlowControl
mod Tests
use embedded_bridge.Prelude.{
  ℕ, ◌+◌, ◌-◌, ◌/◌, ◌^◌, Bool, true, false, List, [], ◌∷◌, ◌++◌, ◌&&◌, ◌||◌, length, take, ltb,
  ◌==◌, if◌then◌else◌, bit_and, bit_xor,
}
use embedded_bridge.Framing.Crc16.{crc16_init, crc16_good, crc16_register}

abbrev pub flag : ℕ
flag = 0x7E

abbrev pub esc : ℕ
esc = 0x7D

abbrev pub esc_xor : ℕ
esc_xor = 0x20

abbrev pub xon : ℕ
xon = 0x11

abbrev pub xoff : ℕ
xoff = 0x13

pub data State : Type 0 where
  idle in_frame escape error : State

pub record HdlcFramer : Type 0 where
  pub buf_size : ℕ
  pub buf : List ℕ
  pub state : State
  pub flow_control : Bool
  pub frames : List (List ℕ)

pub init : ℕ → HdlcFramer
init buf_size = record {
  buf_size = buf_size;
  buf = [];
  state = idle;
  flow_control = false;
  frames = [];
}

pub store : HdlcFramer → ℕ → HdlcFramer
store s c =
    if ltb (length s.buf) s.buf_size
    then record s { buf = s.buf ++ (c ∷ []) }
    else record s { state = error }

-- The CRC that `_deliver` computes.
pub frame_crc : List ℕ → ℕ
frame_crc buf = bit_and (bit_xor (crc16_register crc16_init buf) 0xFFFF) 0xFFFF

-- `buf[:-2]`, for a buffer of two bytes at least
pub strip_crc : List ℕ → List ℕ
strip_crc buf = take (length buf - 2) buf

pub deliver : HdlcFramer → HdlcFramer
deliver s =
    if ltb (length s.buf) 2
    then s
    else if frame_crc s.buf == crc16_good
    then record s { frames = s.frames ++ (strip_crc s.buf ∷ []) }
    else s

-- `self._buf.clear(); self._state = _State.IN_FRAME`
pub start_frame : HdlcFramer → HdlcFramer
start_frame s = record s { buf = []; state = in_frame }

-- The branches of `process_byte` on the state.
pub on_byte : State → HdlcFramer → ℕ → HdlcFramer
on_byte idle s c = if c == flag then start_frame s else s
on_byte in_frame s c =
    if c == flag
    then record (deliver s) { buf = [] }
    else if c == esc
    then record s { state = escape }
    else store s c
on_byte escape s c =
    if c == flag then start_frame s else record (store s (bit_xor c esc_xor)) { state = in_frame }
on_byte error s c = if c == flag then start_frame s else s

pub is_flow_byte : ℕ → Bool
is_flow_byte c = c == xon || c == xoff

pub process_byte : HdlcFramer → ℕ → HdlcFramer
process_byte s c = if s.flow_control && is_flow_byte c then s else on_byte s.state s c

pub process_bytes : HdlcFramer → List ℕ → HdlcFramer
process_bytes s [] = s
process_bytes s (b ∷ bytes) = process_bytes (process_byte s b) bytes

pub reset : HdlcFramer → HdlcFramer
reset s = record s { state = idle; buf = [] }

pub set_flow_control : HdlcFramer → Bool → HdlcFramer
set_flow_control s enable = record s { flow_control = enable }

-- `_emit_stuffed`, which appends to `out`.
pub emit_stuffed : List ℕ → ℕ → List ℕ
emit_stuffed out c =
    if c == flag || c == esc
    then (out ++ (esc ∷ [])) ++ (bit_xor c esc_xor ∷ [])
    else out ++ (c ∷ [])

pub emit_all : List ℕ → List ℕ → List ℕ
emit_all out [] = out
emit_all out (b ∷ payload) = emit_all (emit_stuffed out b) payload

-- `HdlcFrameEncoder.encode`
pub encode : List ℕ → List ℕ
encode payload =
    let crc = frame_crc payload in
    let out = emit_all (flag ∷ []) payload in
    let out' = emit_stuffed out (bit_and crc 0xFF) in
    let out'' = emit_stuffed out' (crc / 2 ^ 8) in out'' ++ (flag ∷ [])
