-- ===== src/Framing/Cobs.antt =====
-- python/src/embedded_bridge/framing/cobs.py. Bytes are numbers; the calls of the callback
-- `on_frame` are kept as a log, oldest first.
pub mod Encoding
pub mod Decoding
pub mod Length
pub mod RoundTrip
mod Tests
use embedded_bridge.Prelude.{
  ℕ, zero, suc, ◌+◌, ◌-◌, Bool, true, false, List, [], ◌∷◌, ◌++◌, not, ◌&&◌, length, set, ltb, ◌==◌,
  if◌then◌else◌,
}

-- The local variables of `cobs_encode`.
pub record Encoder : Type 0 where
  pub out : List ℕ
  pub code_pos : ℕ
  pub code : ℕ

abbrev pub start : Encoder
start = record { out = 0 ∷ []; code_pos = 0; code = 1 }

-- `out[code_pos] = code; code_pos = len(out); out.append(0); code = 1`
pub close_block : Encoder → Encoder
close_block e =
    let out' = set e.out e.code_pos e.code in
    record { out = out' ++ (0 ∷ []); code_pos = length out'; code = 1 }

pub encode_byte : Encoder → ℕ → Encoder
encode_byte e b =
    let e' = record e { out = e.out ++ (b ∷ []); code = e.code + 1 } in
    if b == 0x00 then close_block e else if e'.code == 0xFF then close_block e' else e'

pub encode_bytes : Encoder → List ℕ → Encoder
encode_bytes e [] = e
encode_bytes e (b ∷ bytes) = encode_bytes (encode_byte e b) bytes

pub cobs_encode : List ℕ → List ℕ
cobs_encode bytes = let e = encode_bytes start bytes in set e.out e.code_pos e.code

-- The result of `cobs_decode`: bytes, or None. `stuck` is no result of the source: the loop of the
-- model ran out of fuel.
pub data Outcome : Type 0 where
  decoded : List ℕ → Outcome
  failed stuck : Outcome

-- `for _ in range(count): out.append(data[i]); i += 1`, on the bytes from `i` on. The code has
-- tested that `count` bytes are left.
pub copy : ℕ → List ℕ → List ℕ → List ℕ × List ℕ
copy zero rest out = (rest, out)
copy (suc count) [] out = ([], out)
copy (suc count) (b ∷ rest) out = copy count rest (out ++ (b ∷ []))

-- The body of the loop behind the two tests: the bytes that are left, and the output.
pub decode_block : ℕ → List ℕ → List ℕ → List ℕ × List ℕ
decode_block code rest out =
    let (rest', out') = copy (code - 1) rest out in
    (rest', (if ltb code 0xFF && ltb 0 (length rest') then out' ++ (0x00 ∷ []) else out'))

-- `while i < src_len`, on the bytes from `i` on.
pub decode_loop : ℕ → List ℕ → List ℕ → Outcome
decode_loop fuel [] out = decoded out
decode_loop zero (code ∷ rest) out = stuck
decode_loop (suc fuel) (code ∷ rest) out =
    let (rest', out') = decode_block code rest out in
    let more = decode_loop fuel rest' out' in
    if code == 0 then failed else if ltb (length rest) (code - 1) then failed else more

-- Each round takes a byte at least.
pub cobs_decode : List ℕ → Outcome
cobs_decode bytes = decode_loop (length bytes) bytes []

pub record CobsFramer : Type 0 where
  pub buf_size : ℕ
  pub raw : List ℕ
  pub error : Bool
  pub frames : List (List ℕ)

pub init : ℕ → CobsFramer
init buf_size = record { buf_size = buf_size; raw = []; error = false; frames = [] }

-- `if decoded is not None: self._on_frame(decoded)`
pub deliver : List (List ℕ) → Outcome → List (List ℕ)
deliver frames (decoded p) = frames ++ (p ∷ [])
deliver frames failed = frames
deliver frames stuck = frames

pub on_delimiter : CobsFramer → CobsFramer
on_delimiter s = record s {
  frames =
      if ltb 0 (length s.raw) && not s.error
      then deliver s.frames (cobs_decode s.raw)
      else s.frames;
  raw = [];
  error = false;
}

pub process_byte : CobsFramer → ℕ → CobsFramer
process_byte s c =
    if c == 0x00
    then on_delimiter s
    else if ltb (length s.raw) (s.buf_size + 1)
    then record s { raw = s.raw ++ (c ∷ []) }
    else record s { error = true }

pub process_bytes : CobsFramer → List ℕ → CobsFramer
process_bytes s [] = s
process_bytes s (b ∷ bytes) = process_bytes (process_byte s b) bytes

pub reset : CobsFramer → CobsFramer
reset s = record s { raw = []; error = false }

-- `CobsFrameEncoder.encode`
pub encode : List ℕ → List ℕ
encode payload = cobs_encode payload ++ (0x00 ∷ [])
