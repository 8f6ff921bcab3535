-- ===== src/Receivers/MemoryTracker/Fallback/Tests.antt =====
-- The theorems at concrete lines, with the word characters and digits of ASCII.
use embedded_bridge.Prelude.{
  ◌-◌, ◌≡◌, refl, arith, true, [], ◌∷◌, none, some, leb, ◌==◌, ◌&&◌, ◌||◌, if◌then◌else◌,
}
use embedded_bridge.Prelude.Int.{negsuc}
use embedded_bridge.Text.Utf8.{encode, encode_char, encode_more, is_scalar}
use embedded_bridge.Text.Number.{Unicode}
use embedded_bridge.Text.Strip.{is_space, EndsSolid}
use embedded_bridge.Text.Literal.{codes, text_eq}
use embedded_bridge.Text.Regex.{
  find_all, match, match_with, or_else, match_one, match_many, literal_then, group_of,
}
use embedded_bridge.Prelude.Dict.{insert}
use embedded_bridge.Framing.Message.Handler.{text}
use embedded_bridge.Receivers.Router.{returned}
use embedded_bridge.Receivers.MemoryTracker.{str, bare, init, feed}
use embedded_bridge.Receivers.MemoryTracker.Fallback.{
  is_any, is_solid, is_hex, hex_value, hex_digit, crc8_register, crc8_rounds, crc8_round,
  set_prefix, parse_line, parse_payload, add_tokens, add_token, token_re, word, text_of,
}
use embedded_bridge.Receivers.MemoryTracker.Fallback.RoundTrip.{parse_line_of_parts}
use embedded_bridge.Receivers.MemoryTracker.Fallback.Damage.{feed-damaged}

abbrev ascii : Unicode
ascii = record {
  is_word =
      λ c. (leb 48 c && leb c 57) || (leb 65 c && leb c 90) || (leb 97 c && leb c 122) || c == 95;
  digit_of = λ c. if leb 48 c && leb c 57 then some (c - 48) else none;
}

parse_payload-tokens :
    parse_payload ascii (codes "free=10 note=\"a b\" warm free=7")
    ≡ (codes "free", str (codes "7"))
      ∷ (codes "note", str (codes "a b"))
      ∷ (codes "warm", bare)
      ∷ []
unfolding parse_payload add_tokens add_token token_re word text_of is_solid find_all match
    match_with or_else match_one match_many literal_then is_space group_of insert text_eq
parse_payload-tokens = refl

-- "ETST:M a=1 *FE"
parse_line_of_parts_example :
    parse_line (codes "ETST:") (codes "ETST:M a=1 *FE")
    ≡ some (some (record { tag = codes "M"; payload_str = codes "a=1"; crc_valid = some true }))
unfolding is_space is_solid is_any is_hex EndsSolid encode hex_value hex_digit crc8_register
    crc8_rounds crc8_round encode_more is_scalar encode_char
parse_line_of_parts_example =
    parse_line_of_parts 69 (codes "TST:") 77 [] 97 (codes "=1") 70 69 (codes "ETST:M a=1") refl
      (refl, tt) refl (refl, (refl, (refl, tt))) refl refl refl refl

feed-damaged_example :
    feed (set_prefix ascii (codes "ETST:")) (text (codes "ETST:M a=2 *FE")) (init (negsuc 999))
    ≡ returned (init (negsuc 999))
unfolding is_space is_solid is_any is_hex EndsSolid encode hex_value hex_digit crc8_register
    crc8_rounds crc8_round encode_more is_scalar encode_char
feed-damaged_example =
    feed-damaged ascii 69 (codes "TST:") 77 [] 97 (codes "=2") 70 69 (codes "ETST:M a=") [] 49 50
      (init (negsuc 999)) refl (refl, tt) refl (refl, (refl, (refl, tt))) refl refl refl refl refl
      (
        omega arith,
        (
          omega arith,
          (
            omega arith,
            (
              omega arith,
              (omega arith, (omega arith, (omega arith, (omega arith, (omega arith, tt))))),
            ),
          ),
        ),
      )
      tt (omega arith) (omega arith) (omega arith)
