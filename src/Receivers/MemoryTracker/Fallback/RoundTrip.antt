-- ===== src/Receivers/MemoryTracker/Fallback/RoundTrip.antt =====
-- A line that is written as the protocol says is read back.
use embedded_bridge.Prelude.{
  ℕ, ◌+◌, ◌≡◌, refl, sym, ap, ◌∙◌, arith, ◌==◌, true, false, List, [], ◌∷◌, ◌++◌, Option, none,
  some, length, take, append_assoc, take-length_append, All,
}
use mathlib.Core.Path.{subst}
use embedded_bridge.Text.Utf8.{Text, encode}
use embedded_bridge.Text.Strip.{is_space, EndsSolid, EndsSolid-append, strip-EndsSolid}
use embedded_bridge.Text.Search.{starts_with, starts_with-append}
use embedded_bridge.Text.Regex.{group_of}
use embedded_bridge.Receivers.MemoryTracker.{ParsedTag}
use embedded_bridge.Receivers.MemoryTracker.Fallback.{
  is_any, is_solid, is_hex, hex_value, rfind, before, text_of, with_crc, crc8, crc8_register,
  parse_stripped, parse_line,
}
use embedded_bridge.Receivers.MemoryTracker.Fallback.Shape.{crc_tail, line_of_parts, line_re-match}

-- What comes before the CRC.
abbrev pub content : Text → Text → Text → Text
content prefix tag payload = prefix ++ (tag ++ (32 ∷ payload))

line_of_parts-content :
    (prefix tag payload : Text) (a b : ℕ)
    → line_of_parts prefix tag payload a b ≡ content prefix tag payload ++ crc_tail a b
line_of_parts-content prefix tag payload a b = sym (
    append_assoc prefix (tag ++ (32 ∷ payload)) (crc_tail a b)
    ∙ ap (λ (t : Text). prefix ++ t) (append_assoc tag (32 ∷ payload) (crc_tail a b)))

rfind-append :
    (part xs ys : Text) (n : ℕ)
    → rfind part ys ≡ some n
    → rfind part (xs ++ ys) ≡ some (length xs + n)
unfolding rfind
rfind-append part [] ys n h = h ∙ ap (λ (m : ℕ). some m) (omega arith)
rfind-append part (x ∷ xs) ys n h =
    rw (rfind, rfind-append part xs ys n h) (ap (λ (m : ℕ). some m) (omega arith))

hex_solid : (c : ℕ) → is_hex c ≡ true → is_space c ≡ false
unfolding is_hex is_space
hex_solid c h = ground (arith, h)

rfind-crc_tail :
    (a b : ℕ) → is_hex a ≡ true → is_hex b ≡ true → rfind (crc_tail a b) (crc_tail a b) ≡ some 0
unfolding rfind starts_with is_hex
rfind-crc_tail a b ha hb = ground (arith, ha, hb)

before-content :
    (text : Text) (a b : ℕ)
    → is_hex a ≡ true
    → is_hex b ≡ true
    → before (rfind (crc_tail a b) (text ++ crc_tail a b)) (text ++ crc_tail a b) ≡ text
unfolding before
before-content text a b ha hb =
    rw (rfind-append (crc_tail a b) text (crc_tail a b) 0 (rfind-crc_tail a b ha hb)) (
      ap (λ (n : ℕ). take n (text ++ crc_tail a b)) (omega arith)
      ∙ take-length_append text (crc_tail a b))

tail_EndsSolid : (a b : ℕ) → is_hex b ≡ true → EndsSolid (crc_tail a b)
unfolding EndsSolid
tail_EndsSolid a b hb = hex_solid b hb

crc8-encode :
    (text : Text) (bytes : List ℕ)
    → encode text ≡ some bytes
    → crc8 text ≡ some (crc8_register 0x00 bytes)
unfolding crc8
crc8-encode text bytes utf = rw (crc8, utf) refl

with_crc-content :
    (text tag payload : Text) (a b : ℕ) (bytes : List ℕ)
    → is_hex a ≡ true
    → is_hex b ≡ true
    → encode text ≡ some bytes
    → with_crc (text ++ crc_tail a b) ((3, a ∷ b ∷ []) ∷ (2, payload) ∷ (1, tag) ∷ [])
      ≡ some (record {
        tag = tag;
        payload_str = payload;
        crc_valid = some (crc8_register 0x00 bytes == hex_value (a ∷ b ∷ []));
      })
unfolding with_crc crc8 text_of group_of
with_crc-content text tag payload a b bytes ha hb utf =
    ap
      (λ (x : Option ℕ). elim x as (λ _. Option ParsedTag) [
        | none ↦ none
        | some crc ↦ some (record {
          tag = tag;
          payload_str = payload;
          crc_valid = some (crc == hex_value (a ∷ b ∷ []));
        })
      ])
      (ap (λ (x : Text). crc8 x) (before-content text a b ha hb) ∙ crc8-encode text bytes utf)

-- A line that holds the prefix, a tag without white space, a space, a payload without a newline and
-- without white space at its ends, a space, a star and two hexadecimal digits is parsed into its
-- tag and its payload, and its CRC counts as valid exactly if the digits are that of what stands
-- before the last space. Prefix, tag and payload are not empty, the line does not start with white
-- space, and UTF-8 encodes it.
pub parse_line_of_parts :
    (c : ℕ) (prefix : Text) (t : ℕ) (ts : Text) (p : ℕ) (ps : Text) (a b : ℕ) (bytes : List ℕ)
    → is_space c ≡ false
    → All (λ x. is_solid x ≡ true) (t ∷ ts)
    → is_space p ≡ false
    → All (λ x. is_any x ≡ true) (p ∷ ps)
    → EndsSolid (p ∷ ps)
    → is_hex a ≡ true
    → is_hex b ≡ true
    → encode (content (c ∷ prefix) (t ∷ ts) (p ∷ ps)) ≡ some bytes
    → parse_line (c ∷ prefix) (line_of_parts (c ∷ prefix) (t ∷ ts) (p ∷ ps) a b)
      ≡ some (
          some (record {
            tag = t ∷ ts;
            payload_str = p ∷ ps;
            crc_valid = some (crc8_register 0x00 bytes == hex_value (a ∷ b ∷ []));
          }))
unfolding parse_line parse_stripped
parse_line_of_parts c prefix t ts p ps a b bytes hc solids start any ends ha hb utf =
    let start_of = c ∷ prefix in
    let line = line_of_parts start_of (t ∷ ts) (p ∷ ps) a b in
    let text = content start_of (t ∷ ts) (p ∷ ps) in
    let groups = (3, a ∷ b ∷ []) ∷ (2, p ∷ ps) ∷ (1, t ∷ ts) ∷ [] in
    let same = line_of_parts-content start_of (t ∷ ts) (p ∷ ps) a b in
    let line_ends : EndsSolid line =
      subst (λ (x : Text). EndsSolid x) (sym same)
        (EndsSolid-append text (crc_tail a b) (tail_EndsSolid a b hb)) in
    let crc =
      ap (λ (x : Text). with_crc x groups) same
      ∙ with_crc-content text (t ∷ ts) (p ∷ ps) a b bytes ha hb utf in
    ap (λ (x : Text). parse_stripped start_of x)
      (strip-EndsSolid c (line_of_parts prefix (t ∷ ts) (p ∷ ps) a b) hc line_ends)
    ∙ rw (starts_with-append start_of ((t ∷ ts) ++ (32 ∷ ((p ∷ ps) ++ crc_tail a b))))
        (rw (line_re-match start_of t ts p ps a b solids start any ends ha hb) (rw crc refl))
