-- ===== src/Receivers/MemoryTracker.antt =====
-- python/src/embedded_bridge/receivers/memory_tracker.py, the class MemoryTracker.
-- `parse_line` and `parse_payload` come from another package where it is installed, so the parser is
-- a parameter; Fallback is the one of the file itself.
mod Report
mod Cycle
mod Fallback
mod Tests
use embedded_bridge.Prelude.{
  ℕ, Bool, true, false, not, List, [], ◌∷◌, Option, none, some, length, ltb, ◌&&◌, if◌then◌else◌,
}
use embedded_bridge.Prelude.Int.{ℤ, pos, ltb_ℤ}
use embedded_bridge.Prelude.Dict.{lookup, insert}
use embedded_bridge.Text.Utf8.{Text}
use embedded_bridge.Text.Literal.{codes, text_eq, text_key}
use embedded_bridge.Framing.Message.Handler.{Message}
use embedded_bridge.Receivers.Router.{Outcome, returned, raised}
use embedded_bridge.Receivers.CrashDetector.{line_of}

-- A value of a payload: a string, or True of a bare word.
pub data Value : Type 0 where
  str : Text → Value
  bare : Value

-- `crc_valid` is `none` on a line without a CRC.
pub record ParsedTag : Type 0 where
  pub tag : Text
  pub payload_str : Text
  pub crc_valid : Option Bool

-- `none` stands for an exception: `parse_line` may meet a character that UTF-8 does not encode, and
-- `int` a text that is no number.
pub record Parser : Type 0 where
  pub parse_line : Text → Option (Option ParsedTag)
  pub parse_payload : Text → List (Text × Value)
  pub int : Text → Option ℤ

pub record MemoryInfo : Type 0 where
  pub free_before : ℤ
  pub min_before : ℤ
  pub free_after : ℤ
  pub min_after : ℤ
  pub delta : ℤ

pub no_info : MemoryInfo
no_info = record {
  free_before = pos 0;
  min_before = pos 0;
  free_after = pos 0;
  min_after = pos 0;
  delta = pos 0;
}

pub record MemoryTracker : Type 0 where
  pub leak_threshold : ℤ
  pub current_test : Text
  pub data_of : List (Text × MemoryInfo)

pub init : ℤ → MemoryTracker
init threshold = record { leak_threshold = threshold; current_test = []; data_of = [] }

pub set_current_test : Text → MemoryTracker → MemoryTracker
set_current_test name s = record s { current_test = name }

-- `self._data.setdefault(self._current_test, MemoryInfo())`
pub info_of : MemoryTracker → MemoryInfo
info_of s = elim (lookup text_key s.current_test s.data_of) [ none ↦ no_info | some info ↦ info ]

-- The info of the current test is the shared object of the dict, so a change of it is one of the
-- dict.
pub with_info : MemoryInfo → MemoryTracker → MemoryTracker
with_info info s = record s { data_of = insert text_key s.current_test info s.data_of }

-- A run of assignments to fields of the info, each of which may raise; the ones before it stand.
pub assign :
    List (Option (MemoryInfo → MemoryInfo)) → MemoryInfo → MemoryTracker → Outcome MemoryTracker
assign [] info s = returned (with_info info s)
assign (none ∷ later) info s = raised (with_info info s)
assign (some f ∷ later) info s = assign later (f info) s

-- `parsed and parsed.crc_valid is not False`
pub is_usable : Option Bool → Bool
is_usable none = true
is_usable (some valid) = valid

module _ (parser : Parser) where
  -- `payload.get(key, "0")`, then `int(...) if isinstance(..., str) else 0`
  pub number_of : Option Value → Option ℤ
  number_of none = parser.int (codes "0")
  number_of (some bare) = some (pos 0)
  number_of (some (str t)) = parser.int t

  -- An assignment of the number of a key, by the function that sets the field.
  pub assigned :
      (ℤ → MemoryInfo → MemoryInfo) → Text → List (Text × Value) → Option (MemoryInfo → MemoryInfo)
  assigned set key payload = elim (number_of (lookup text_key key payload)) [
    | none ↦ none
    | some n ↦ some (set n)
  ]

  pub feed_before : List (Text × Value) → MemoryTracker → Outcome MemoryTracker
  feed_before payload s =
      assign
        (assigned (λ n info. record info { free_before = n }) (codes "free") payload
          ∷ assigned (λ n info. record info { min_before = n }) (codes "min") payload
          ∷ [])
        (info_of s) s

  pub feed_after : List (Text × Value) → MemoryTracker → Outcome MemoryTracker
  feed_after payload s =
      assign
        (assigned (λ n info. record info { free_after = n }) (codes "free") payload
          ∷ assigned (λ n info. record info { delta = n }) (codes "delta") payload
          ∷ assigned (λ n info. record info { min_after = n }) (codes "min") payload
          ∷ [])
        (info_of s) s

  -- `parsed.tag == tag and self._current_test`
  pub is_for : Text → ParsedTag → MemoryTracker → Bool
  is_for tag parsed s = text_eq parsed.tag tag && ltb 0 (length s.current_test)

  pub feed_parsed : ParsedTag → MemoryTracker → Outcome MemoryTracker
  feed_parsed parsed s =
      if not (is_usable parsed.crc_valid)
      then returned s
      else if is_for (codes "MEM:BEFORE") parsed s
      then feed_before (parser.parse_payload parsed.payload_str) s
      else if is_for (codes "MEM:AFTER") parsed s
      then feed_after (parser.parse_payload parsed.payload_str) s
      else returned s

  pub feed : Message → MemoryTracker → Outcome MemoryTracker
  feed message s = elim (parser.parse_line (line_of message)) [
    | none ↦ raised s
    | some none ↦ returned s
    | some (some parsed) ↦ feed_parsed parsed s
  ]

pub all_tests : MemoryTracker → List (Text × MemoryInfo)
all_tests s = s.data_of

-- The entries whose delta is below the threshold.
pub below : ℤ → List (Text × MemoryInfo) → List (Text × MemoryInfo)
below threshold [] = []
below threshold ((name, info) ∷ entries) =
    let rest = below threshold entries in
    if ltb_ℤ info.delta threshold then (name, info) ∷ rest else rest

pub leaks : MemoryTracker → List (Text × MemoryInfo)
leaks s = below s.leak_threshold s.data_of

pub reset : MemoryTracker → MemoryTracker
reset s = record s { current_test = []; data_of = [] }
