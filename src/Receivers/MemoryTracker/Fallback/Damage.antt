-- ===== src/Receivers/MemoryTracker/Fallback/Damage.antt =====
-- A tracker with the parser of the file ignores a damaged line.
use embedded_bridge.Prelude.{
  ℕ, ◌<◌, ◌≡◌, ◌≢◌, refl, sym, ap, ◌∙◌, arith, ◌==◌, Bool, true, false, List, [], ◌∷◌, ◌++◌, some,
  All, Bool-cases, inl, inr, ==→eq,
}
use embedded_bridge.Text.Utf8.{Text, encode}
use embedded_bridge.Text.Number.{Unicode}
use embedded_bridge.Text.Strip.{is_space, EndsSolid}
use embedded_bridge.Framing.Message.Handler.{text}
use embedded_bridge.Receivers.Router.{returned}
use embedded_bridge.Receivers.CrashDetector.{line_of}
use embedded_bridge.Receivers.MemoryTracker.{
  ParsedTag, Parser, MemoryTracker, is_usable, feed, feed_parsed,
}
use embedded_bridge.Receivers.MemoryTracker.Fallback.{
  is_any, is_solid, is_hex, hex_value, crc8_register, set_prefix,
}
use embedded_bridge.Receivers.MemoryTracker.Fallback.Shape.{line_of_parts}
use embedded_bridge.Receivers.MemoryTracker.Fallback.RoundTrip.{content, parse_line_of_parts}
use embedded_bridge.Receivers.MemoryTracker.Fallback.Crc8.{IsByte, crc8_damage}

other_crc :
    (front back : List ℕ) (x y : ℕ)
    → All IsByte front
    → All IsByte back
    → x < 256
    → y < 256
    → x ≢ y
    → (crc8_register 0x00 (front ++ (y ∷ back)) == crc8_register 0x00 (front ++ (x ∷ back))) ≡ false
other_crc front back x y hf hb hx hy ne =
    elim (Bool-cases
      (crc8_register 0x00 (front ++ (y ∷ back)) == crc8_register 0x00 (front ++ (x ∷ back)))) [
        | inl same ↦ absurd (
            ne (
              sym (
                crc8_damage 0x00 front back y x (omega arith) hf hb hy hx (
                  ==→eq (crc8_register 0x00 (front ++ (y ∷ back)))
                    (crc8_register 0x00 (front ++ (x ∷ back))) same))))
        | inr other ↦ other
      ]

feed-invalid :
    (parser : Parser) (line : Text) (parsed : ParsedTag) (s : MemoryTracker)
    → parser.parse_line line ≡ some (some parsed)
    → parsed.crc_valid ≡ some false
    → feed parser (text line) s ≡ returned s
unfolding feed feed_parsed is_usable line_of
feed-invalid parser line parsed s e invalid = rw (feed, e, invalid) refl

-- Where one byte in front of the CRC has changed, a line of the shape that parse_line_of_parts has
-- is without effect: the tracker with the parser of the file returns as it was, whatever it holds.
-- The digits behind the star are the CRC of the bytes with `x`, where the line now has `y`.
pub feed-damaged :
    (unicode : Unicode) (c : ℕ) (prefix : Text) (t : ℕ) (ts : Text) (p : ℕ) (ps : Text) (a b : ℕ)
    (front back : List ℕ) (x y : ℕ) (s : MemoryTracker)
    → is_space c ≡ false
    → All (λ z. is_solid z ≡ true) (t ∷ ts)
    → is_space p ≡ false
    → All (λ z. is_any z ≡ true) (p ∷ ps)
    → EndsSolid (p ∷ ps)
    → is_hex a ≡ true
    → is_hex b ≡ true
    → encode (content (c ∷ prefix) (t ∷ ts) (p ∷ ps)) ≡ some (front ++ (y ∷ back))
    → hex_value (a ∷ b ∷ []) ≡ crc8_register 0x00 (front ++ (x ∷ back))
    → All IsByte front
    → All IsByte back
    → x < 256
    → y < 256
    → x ≢ y
    → feed
        (set_prefix unicode (c ∷ prefix))
        (text (line_of_parts (c ∷ prefix) (t ∷ ts) (p ∷ ps) a b))
        s
      ≡ returned s
unfolding set_prefix
feed-damaged unicode c prefix t ts p ps a b front back x y s hc solids start any ends ha hb utf
      digits hf hk hx hy ne =
    feed-invalid (set_prefix unicode (c ∷ prefix))
      (line_of_parts (c ∷ prefix) (t ∷ ts) (p ∷ ps) a b) _ s
      (parse_line_of_parts c prefix t ts p ps a b (front ++ (y ∷ back)) hc solids start any ends ha
        hb utf)
      (ap (λ (v : ℕ). some (crc8_register 0x00 (front ++ (y ∷ back)) == v)) digits
        ∙ ap (λ (v : Bool). some v) (other_crc front back x y hf hk hx hy ne))
