-- ===== src/Framing/Slip.antt =====
-- python/src/embedded_bridge/framing/slip.py. Bytes are numbers; the calls of the callback
-- `on_frame` are kept as a log, oldest first.
pub mod Invariant
pub mod Encoder
pub mod Storing
pub mod RoundTrip
mod Tests
use embedded_bridge.Prelude.{
  ℕ, Bool, true, false, List, [], ◌∷◌, ◌++◌, not, ◌&&◌, length, ltb, ◌==◌, if◌then◌else◌,
}

abbrev pub end_byte : ℕ
end_byte = 0xC0

abbrev pub esc : ℕ
esc = 0xDB

abbrev pub esc_end : ℕ
esc_end = 0xDC

abbrev pub esc_esc : ℕ
esc_esc = 0xDD

pub record SlipFramer : Type 0 where
  pub buf_size : ℕ
  pub buf : List ℕ
  pub error : Bool
  pub escape : Bool
  pub frames : List (List ℕ)

pub init : ℕ → SlipFramer
init buf_size = record { buf_size = buf_size; buf = []; error = false; escape = false; frames = [] }

pub store : SlipFramer → ℕ → SlipFramer
store s c =
    if ltb (length s.buf) s.buf_size
    then record s { buf = s.buf ++ (c ∷ []) }
    else record s { error = true }

on_end : SlipFramer → SlipFramer
on_end s = record s {
  frames = if ltb 0 (length s.buf) && not s.error then s.frames ++ (s.buf ∷ []) else s.frames;
  buf = [];
  error = false;
  escape = false;
}

-- A byte behind `esc`; the escape flag is cleared first.
on_escaped : SlipFramer → ℕ → SlipFramer
on_escaped s c =
    let s' = record s { escape = false } in
    if c == esc_end
    then store s' end_byte
    else if c == esc_esc
    then store s' esc
    else record s' { error = true }

pub process_byte : SlipFramer → ℕ → SlipFramer
process_byte s c =
    if c == end_byte
    then on_end s
    else if c == esc
    then record s { escape = true }
    else if s.escape
    then on_escaped s c
    else store s c

pub process_bytes : SlipFramer → List ℕ → SlipFramer
process_bytes s [] = s
process_bytes s (b ∷ bytes) = process_bytes (process_byte s b) bytes

pub reset : SlipFramer → SlipFramer
reset s = record s { buf = []; error = false; escape = false }

-- `SlipFrameEncoder.encode`: what the loop appends for one byte, the loop, and the frame.
pub emit : List ℕ → ℕ → List ℕ
emit out b =
    if b == end_byte
    then (out ++ (esc ∷ [])) ++ (esc_end ∷ [])
    else if b == esc
    then (out ++ (esc ∷ [])) ++ (esc_esc ∷ [])
    else out ++ (b ∷ [])

pub emit_all : List ℕ → List ℕ → List ℕ
emit_all out [] = out
emit_all out (b ∷ payload) = emit_all (emit out b) payload

pub encode : List ℕ → List ℕ
encode payload = emit_all (end_byte ∷ []) payload ++ (end_byte ∷ [])
