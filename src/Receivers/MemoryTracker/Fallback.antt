-- ===== src/Receivers/MemoryTracker/Fallback.antt =====
-- python/src/embedded_bridge/receivers/memory_tracker.py, the parser that the file has for itself,
-- with the prefix of the lines as an argument.
mod Crc8
mod Shape
mod RoundTrip
mod Damage
mod Tests
use embedded_bridge.Prelude.{
  ℕ, zero, suc, ◌+◌, ◌-◌, ◌*◌, ◌%◌, Bool, true, false, not, List, [], ◌∷◌, ◌++◌, Option, none, some,
  length, take, leb, ltb, ◌==◌, ◌&&◌, ◌||◌, if◌then◌else◌, bit_and, bit_xor,
}
use embedded_bridge.Prelude.Dict.{insert}
use embedded_bridge.Text.Utf8.{Text, encode}
use embedded_bridge.Text.Strip.{strip, is_space}
use embedded_bridge.Text.Search.{starts_with}
use embedded_bridge.Text.Number.{Unicode, int_of}
use embedded_bridge.Text.Literal.{codes, text_key}
use embedded_bridge.Text.Regex.{
  Regex, one, many, few, seq, either, optional, group, at_end, Captures, match, find_all, group_of,
  literal_then,
}
use embedded_bridge.Receivers.MemoryTracker.{Value, str, bare, ParsedTag, Parser}

-- One round of the loop over the eight bits.
pub crc8_round : ℕ → ℕ
crc8_round crc =
    if bit_and crc 0x80 == 0 then bit_and (crc * 2) 0xFF else bit_and (bit_xor (crc * 2) 0x31) 0xFF

pub crc8_rounds : ℕ → ℕ → ℕ
crc8_rounds zero crc = crc
crc8_rounds (suc n) crc = crc8_rounds n (crc8_round crc)

-- The loop over the bytes.
pub crc8_register : ℕ → List ℕ → ℕ
crc8_register crc [] = crc
crc8_register crc (byte ∷ bytes) = crc8_register (crc8_rounds 8 (bit_xor crc byte)) bytes

-- `none` where `encode` raises.
pub crc8 : Text → Option ℕ
crc8 data' = elim (encode data') [ none ↦ none | some bytes ↦ some (crc8_register 0x00 bytes) ]

-- `.`, `\S` and `[0-9A-Fa-f]`
pub is_any : ℕ → Bool
is_any c = not (c == 10)

pub is_solid : ℕ → Bool
is_solid c = not (is_space c)

pub is_hex : ℕ → Bool
is_hex c = (leb 48 c && leb c 57) || (leb 65 c && leb c 70) || (leb 97 c && leb c 102)

-- `\s+`
pub spaces : Regex
spaces = seq (one is_space) (many is_space)

-- `\*([0-9A-Fa-f]{2})$`
pub star_part : Regex
star_part = seq (one (λ c. c == 0x2A)) (seq (group 3 (seq (one is_hex) (one is_hex))) at_end)

-- `\s+\*([0-9A-Fa-f]{2})$`
pub crc_part : Regex
crc_part = seq spaces star_part

-- `\S+?`
pub tag_part : Regex
tag_part = group 1 (seq (one is_solid) (few is_solid))

-- `(?:\s+(.*?))?`
pub payload_part : Regex
payload_part = optional (seq spaces (group 2 (few is_any)))

pub line_re : Text → Regex
line_re prefix = literal_then prefix (seq tag_part (seq payload_part crc_part))

pub line_no_crc_re : Text → Regex
line_no_crc_re prefix =
    literal_then prefix (seq tag_part (seq (optional (seq spaces (group 2 (many is_any)))) at_end))

-- `text.rfind(part)`, `none` for -1.
pub rfind : Text → Text → Option ℕ
rfind part [] = if starts_with part [] then some 0 else none
rfind part (c ∷ text) = elim (rfind part text) [
  | some n ↦ some (suc n)
  | none ↦ if starts_with part (c ∷ text) then some 0 else none
]

-- `text[:n]` for the result of `rfind`, where -1 leaves the last character out.
pub before : Option ℕ → Text → Text
before none text = take (length text - 1) text
before (some n) text = take n text

-- `int(crc_hex, 16)`
pub hex_digit : ℕ → ℕ
hex_digit c = if leb c 57 then c - 48 else if leb c 70 then c - 55 else c - 87

pub hex_value : Text → ℕ
hex_value [] = 0
hex_value (c ∷ []) = hex_digit c
hex_value (c ∷ d ∷ text) = hex_digit c * 16 + hex_digit d

-- `m.group(n) or ""`
pub text_of : Option Text → Text
text_of none = []
text_of (some text) = text

-- A line whose shape has a CRC.
pub with_crc : Text → Captures → Option ParsedTag
with_crc stripped groups =
    let crc_hex = text_of (group_of 3 groups) in
    elim (crc8 (before (rfind (32 ∷ 42 ∷ crc_hex) stripped) stripped)) [
      | none ↦ none
      | some crc ↦ some (record {
        tag = text_of (group_of 1 groups);
        payload_str = text_of (group_of 2 groups);
        crc_valid = some (crc == hex_value crc_hex);
      })
    ]

pub without_crc : Option (Captures × Text) → Option ParsedTag
without_crc none = none
without_crc (some (groups, rest)) = some (record {
  tag = text_of (group_of 1 groups);
  payload_str = text_of (group_of 2 groups);
  crc_valid = none;
})

-- The outer `none` is UnicodeEncodeError.
pub parse_stripped : Text → Text → Option (Option ParsedTag)
parse_stripped prefix stripped =
    if starts_with prefix stripped
    then (elim (match (line_re prefix) stripped) [
      | none ↦ some (without_crc (match (line_no_crc_re prefix) stripped))
      | some (groups, rest) ↦ elim (with_crc stripped groups) [
        | none ↦ none
        | some parsed ↦ some (some parsed)
      ]
    ])
    else some none

pub parse_line : Text → Text → Option (Option ParsedTag)
parse_line prefix line = parse_stripped prefix (strip line)

module _ (unicode : Unicode) where
  -- `(\w+)="([^"]*)"|(\w+)=(\S+)|(\w+)`
  pub word : Regex
  word = seq (one unicode.is_word) (many unicode.is_word)

  pub token_re : Regex
  token_re =
      either
        (seq (group 1 word) (
          literal_then (codes "=\"")
            (seq (group 2 (many (λ c. not (c == 0x22)))) (one (λ c. c == 0x22)))))
        (either
          (seq (group 3 word)
            (seq (one (λ c. c == 0x3D)) (group 4 (seq (one is_solid) (many is_solid)))))
          (group 5 word))

  -- The assignment of one match.
  pub add_token : Captures → List (Text × Value) → List (Text × Value)
  add_token groups result = elim (group_of 1 groups) [
    | some key ↦ insert text_key key (str (text_of (group_of 2 groups))) result
    | none ↦ elim (group_of 3 groups) [
      | some key ↦ insert text_key key (str (text_of (group_of 4 groups))) result
      | none ↦ elim (group_of 5 groups) [
        | some key ↦ insert text_key key bare result
        | none ↦ result
      ]
    ]
  ]

  pub add_tokens : List Captures → List (Text × Value) → List (Text × Value)
  add_tokens [] result = result
  add_tokens (groups ∷ tokens) result = add_tokens tokens (add_token groups result)

  pub parse_payload : Text → List (Text × Value)
  parse_payload payload = add_tokens (find_all (suc (length payload)) token_re payload) []

  -- The parser after `set_prefix(prefix)`.
  pub set_prefix : Text → Parser
  set_prefix prefix = record {
    parse_line = parse_line prefix;
    parse_payload = parse_payload;
    int = int_of unicode;
  }

  pub default_parser : Parser
  default_parser = set_prefix (codes "ETST:")
