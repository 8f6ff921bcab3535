-- ===== src/Testing/Protocol/Tests.antt =====
-- Markers at concrete lines, with the digits of ASCII.
use embedded_bridge.Prelude.{◌-◌, ◌≡◌, refl, false, some, none, leb, ◌&&◌, if◌then◌else◌}
use embedded_bridge.Prelude.Int.{pos}
use embedded_bridge.Text.Number.{Unicode, int_of, int_signed, int_unsigned, int_digits, negated}
use embedded_bridge.Text.Strip.{strip, is_space}
use embedded_bridge.Text.Literal.{codes}
use embedded_bridge.Text.Regex.{
  match, match_with, match_one, match_many, or_else, group_of, literal_then, is_end,
}
use embedded_bridge.Testing.Protocol.{
  is_any, overflows, is_digit, digits, marker_pattern, frac_str, group_text, marker_of,
  parse_marker,
}

abbrev ascii : Unicode
ascii = record {
  is_word = λ c. false;
  digit_of = λ c. if leb 48 c && leb c 57 then some (c - 48) else none;
}

-- The time of a marker without a point is whole.
parse_marker-whole :
    parse_marker ascii (codes "T=1234567 PPK_START")
    ≡ some (
        some
          (record { whole = pos 1234567; frac = pos 0; places = 1; payload = codes "PPK_START" }))
unfolding parse_marker marker_of frac_str group_text group_of overflows int_of int_signed
    int_unsigned int_digits negated strip marker_pattern digits is_digit is_any is_space match
    match_with match_one match_many or_else literal_then is_end
parse_marker-whole = refl
