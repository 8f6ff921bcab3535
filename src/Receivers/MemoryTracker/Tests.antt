-- ===== src/Receivers/MemoryTracker/Tests.antt =====
-- The theorem at a concrete parser.
use embedded_bridge.Prelude.{◌-◌, ◌≡◌, refl, true, false, List, [], ◌∷◌, Option, none, some}
use embedded_bridge.Prelude.Int.{ℤ, pos, negsuc}
use embedded_bridge.Prelude.Dict.{lookup}
use embedded_bridge.Text.Utf8.{Text}
use embedded_bridge.Text.Literal.{codes, text_eq, text_key}
use embedded_bridge.Framing.Message.Handler.{Message, text}
use embedded_bridge.Receivers.Router.{returned}
use embedded_bridge.Receivers.CrashDetector.{line_of}
use embedded_bridge.Receivers.MemoryTracker.{
  Value, str, bare, ParsedTag, Parser, MemoryTracker, init, set_current_test, is_usable, number_of,
}
use embedded_bridge.Receivers.MemoryTracker.Cycle.{
  IsLine, Reads, feed_all, feed_all-test, info_with,
}

-- A parser of two lines: the empty one is MEM:BEFORE, and each other one MEM:AFTER.
abbrev before_tag : ParsedTag
before_tag = record { tag = codes "MEM:BEFORE"; payload_str = codes "p"; crc_valid = none }

abbrev after_tag : ParsedTag
after_tag = record { tag = codes "MEM:AFTER"; payload_str = []; crc_valid = some true }

abbrev before_payload : List (Text × Value)
before_payload = (codes "free", str (codes "9")) ∷ (codes "min", bare) ∷ []

abbrev after_payload : List (Text × Value)
after_payload = (codes "free", str (codes "5")) ∷ (codes "delta", str (codes "-4")) ∷ []

abbrev one_digit : Text → Option ℤ
one_digit [] = none
one_digit (c ∷ []) = some (pos (c - 48))
one_digit (c ∷ d ∷ rest) = some (negsuc (d - 49))

abbrev line_tag : Text → ParsedTag
line_tag [] = before_tag
line_tag (c ∷ rest) = after_tag

abbrev payload_of : Text → List (Text × Value)
payload_of [] = after_payload
payload_of (c ∷ rest) = before_payload

abbrev scripted : Parser
scripted = record {
  parse_line = λ line. some (some (line_tag line));
  parse_payload = payload_of;
  int = one_digit;
}

abbrev before_line : Message
before_line = text []

abbrev after_line : Message
after_line = text (codes "a")

before_IsLine : IsLine scripted (codes "MEM:BEFORE") before_payload before_line
unfolding text_eq is_usable line_of
before_IsLine = record {
  parsed = before_tag;
  is_parsed = refl;
  has_tag = refl;
  is_usable_line = refl;
  has_payload = refl;
}

after_IsLine : IsLine scripted (codes "MEM:AFTER") after_payload after_line
unfolding text_eq is_usable line_of
after_IsLine = record {
  parsed = after_tag;
  is_parsed = refl;
  has_tag = refl;
  is_usable_line = refl;
  has_payload = refl;
}

feed_all-test_example :
    (s : MemoryTracker) × (feed_all scripted
        (before_line ∷ after_line ∷ [])
        (set_current_test (codes "gps") (init (negsuc 999)))
      ≡ returned s)
    × (lookup text_key (codes "gps") s.data_of
        ≡ some (info_with (pos 9) (pos 0) (pos 5) (negsuc 3) (pos 0)))
    × ((other : Text)
        → text_eq (codes "gps") other ≡ false
        → lookup text_key other s.data_of ≡ lookup text_key other (init (negsuc 999)).data_of)
unfolding Reads number_of lookup text_eq
feed_all-test_example =
    feed_all-test scripted (codes "gps") before_line after_line before_payload after_payload (pos 9)
      (pos 0) (pos 5) (negsuc 3) (pos 0) (init (negsuc 999)) refl before_IsLine refl refl
      after_IsLine refl refl refl
