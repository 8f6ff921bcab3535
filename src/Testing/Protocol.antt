-- ===== src/Testing/Protocol.antt =====
-- python/src/embedded_bridge/testing/protocol.py.
mod Tests
use embedded_bridge.Prelude.{
  ℕ, suc, ◌-◌, ◌^◌, leb, Bool, true, false, not, List, [], ◌∷◌, Option, none, some, length, ◌==◌,
  if◌then◌else◌,
}
use embedded_bridge.Prelude.Int.{ℤ, pos, negsuc}
use embedded_bridge.Text.Utf8.{Text}
use embedded_bridge.Text.Number.{Unicode, int_of}
use embedded_bridge.Text.Strip.{strip, is_space}
use embedded_bridge.Text.Search.{starts_with}
use embedded_bridge.Text.Literal.{codes, text_eq}
use embedded_bridge.Text.Regex.{
  Regex, one, many, seq, optional, group, at_end, Captures, match, group_of, literal_then,
}
use embedded_bridge.Testing.Types.{Json, str, object, Members, no_members, member}

-- The control characters.
abbrev pub soh : List ℕ
soh = 0x01 ∷ []

abbrev pub stx : List ℕ
stx = 0x02 ∷ []

abbrev pub etx : List ℕ
etx = 0x03 ∷ []

abbrev pub ack : List ℕ
ack = 0x06 ∷ []

pub is_any : ℕ → Bool
is_any c = not (c == 10)

-- The time of a marker: the whole part, and the digits behind the point with their number. The code
-- takes the sum as a float.
pub record Marker : Type 0 where
  pub whole : ℤ
  pub frac : ℤ
  pub places : ℕ
  pub payload : Text

-- `whole + frac` raises OverflowError where `whole` is no float.
pub overflows : ℤ → Bool
overflows (pos n) = leb (2 ^ 1024 - 2 ^ 970) n
overflows (negsuc n) = false

module _ (unicode : Unicode) where
  pub is_digit : ℕ → Bool
  is_digit c = elim (unicode.digit_of c) [ none ↦ false | some _ ↦ true ]

  -- `\d+`
  pub digits : Regex
  digits = seq (one is_digit) (many is_digit)

  -- `^T=(\d+)(?:\.(\d+))?\s+(.+)$`
  pub marker_pattern : Regex
  marker_pattern = literal_then (codes "T=") (
      seq (group 1 digits) (
        seq (optional (seq (one (λ c. c == 0x2E)) (group 2 digits))) (
          seq (seq (one is_space) (many is_space))
            (seq (group 3 (seq (one is_any) (many is_any))) at_end))))

  -- `m.group(2) or "0"`; a group that matched is not empty.
  pub frac_str : Option Text → Text
  frac_str none = codes "0"
  frac_str (some text) = text

  pub group_text : Option Text → Text
  group_text none = []
  group_text (some text) = text

  -- `none` is ValueError, of a number of more than 4300 digits, or OverflowError.
  pub marker_of : Captures → Option Marker
  marker_of groups =
      let frac = frac_str (group_of 2 groups) in
      elim (int_of unicode (group_text (group_of 1 groups))) [
        | none ↦ none
        | some whole ↦ elim (int_of unicode frac) [
          | none ↦ none
          | some n ↦
              if overflows whole
              then none
              else some (record {
                whole = whole;
                frac = n;
                places = length frac;
                payload = group_text (group_of 3 groups);
              })
        ]
      ]

  -- The outer `none` is the exception.
  pub parse_marker : Text → Option (Option Marker)
  parse_marker line = elim (match marker_pattern (strip line)) [
    | none ↦ some none
    | some (groups, rest) ↦ elim (marker_of groups) [
      | none ↦ none
      | some marker ↦ some (some marker)
    ]
  ]

-- `json.loads` is a parameter: the members of an object, `none` for anything else.
pub parse_json_line : (Text → Option Members) → Text → Option Members
parse_json_line loads line =
    let stripped = strip line in if starts_with (codes "{") stripped then loads stripped else none

-- `obj.get(key)`
pub get : Text → Members → Option Json
get key no_members = none
get key (member k value rest) =
    let found = get key rest in if text_eq k key then some value else found

-- `value == text`, for what `get` gave.
pub is_text : Text → Option Json → Bool
is_text text (some (str t)) = text_eq t text
is_text text _ = false

-- `obj.get(key, default)`
pub get_or : Text → Json → Members → Json
get_or key default members = elim (get key members) [ none ↦ default | some value ↦ value ]

-- A dict counts as true where it is not empty.
pub is_full : Members → Bool
is_full no_members = false
is_full (member k value rest) = true
