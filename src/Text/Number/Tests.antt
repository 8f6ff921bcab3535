-- ===== src/Text/Number/Tests.antt =====
-- `int` of concrete texts, with the digits of ASCII.
use embedded_bridge.Prelude.{◌-◌, ◌≡◌, refl, false, some, none, leb, ◌&&◌, if◌then◌else◌}
use embedded_bridge.Prelude.Int.{negsuc}
use embedded_bridge.Text.Literal.{codes}
use embedded_bridge.Text.Strip.{strip, is_space}
use embedded_bridge.Text.Number.{Unicode, int_of, int_signed, int_unsigned, int_digits, negated}

abbrev ascii : Unicode
ascii = record {
  is_word = λ c. false;
  digit_of = λ c. if leb 48 c && leb c 57 then some (c - 48) else none;
}

int_of-signed : int_of ascii (codes " -1_050 ") ≡ some (negsuc 1049)
unfolding int_of int_signed int_unsigned int_digits negated strip is_space
int_of-signed = refl

int_of-two_signs : int_of ascii (codes "+-1") ≡ none
unfolding int_of int_signed int_unsigned strip is_space
int_of-two_signs = refl
