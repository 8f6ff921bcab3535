-- ===== src/Text/Utf8.antt =====
-- UTF-8 as `bytes.decode("utf-8", errors="replace")`, the incremental decoder of `codecs` and
-- `str.encode("utf-8")` have it: every maximal part of a bad sequence becomes one U+FFFD.
pub mod RoundTrip
mod Tests
use embedded_bridge.Prelude.{
  ℕ, ◌+◌, ◌-◌, ◌*◌, ◌/◌, ◌%◌, ◌^◌, Bool, List, [], ◌∷◌, ◌++◌, Option, none, some, ltb, leb, ◌==◌,
  ◌&&◌, ◌||◌, if◌then◌else◌,
}

abbrev pub Text : Type 0
Text = List ℕ

abbrev pub replacement : ℕ
replacement = 0xFFFD

-- A sequence under way: `need` bytes are missing, the next from `low` to `high`.
pub record Decoder : Type 0 where
  pub need : ℕ
  pub acc : ℕ
  pub low : ℕ
  pub high : ℕ

abbrev pub waiting : ℕ → ℕ → ℕ → ℕ → Decoder
waiting need acc low high = record { need = need; acc = acc; low = low; high = high }

abbrev pub fresh : Decoder
fresh = waiting 0 0 0x80 0xBF

-- A byte between two sequences.
unfoldable pub lead : ℕ → Text × Decoder
lead b =
    if ltb b 0x80
    then (b ∷ [], fresh)
    else if ltb b 0xC2
    then (replacement ∷ [], fresh)
    else if ltb b 0xE0
    then ([], waiting 1 (b - 0xC0) 0x80 0xBF)
    else if b == 0xE0
    then ([], waiting 2 0 0xA0 0xBF)
    else if b == 0xED
    then ([], waiting 2 0xD 0x80 0x9F)
    else if ltb b 0xF0
    then ([], waiting 2 (b - 0xE0) 0x80 0xBF)
    else if b == 0xF0
    then ([], waiting 3 0 0x90 0xBF)
    else if ltb b 0xF4
    then ([], waiting 3 (b - 0xF0) 0x80 0xBF)
    else if b == 0xF4
    then ([], waiting 3 4 0x80 0x8F)
    else (replacement ∷ [], fresh)

unfoldable pub step : Decoder → ℕ → Text × Decoder
step d b =
    let (t, d') = lead b in
    let acc' = d.acc * 64 + (b - 0x80) in
    if d.need == 0
    then (t, d')
    else if leb d.low b && leb b d.high
    then (if d.need == 1 then (acc' ∷ [], fresh) else ([], waiting (d.need - 1) acc' 0x80 0xBF))
    else (replacement ∷ t, d')

unfoldable pub decode_from : Decoder → List ℕ → Text × Decoder
decode_from d [] = ([], d)
decode_from d (b ∷ bytes) =
    let (t, d') = step d b in let (t', d'') = decode_from d' bytes in (t ++ t', d'')

-- What is left at the end of the input is one bad sequence.
unfoldable pub flush : Decoder → Text
flush d = if d.need == 0 then [] else replacement ∷ []

unfoldable pub decode : List ℕ → Text
decode bytes = let (t, d) = decode_from fresh bytes in t ++ flush d

unfoldable pub is_scalar : ℕ → Bool
is_scalar c = ltb c 0xD800 || (leb 0xE000 c && ltb c 0x110000)

unfoldable pub encode_char : ℕ → List ℕ
encode_char c =
    if ltb c 0x80
    then c ∷ []
    else if ltb c 0x800
    then (0xC0 + c / 64) ∷ (0x80 + c % 64) ∷ []
    else if ltb c 0x10000
    then (0xE0 + c / 4096) ∷ (0x80 + c / 64 % 64) ∷ (0x80 + c % 64) ∷ []
    else (0xF0 + c / 262144) ∷ (0x80 + c / 4096 % 64) ∷ (0x80 + c / 64 % 64) ∷ (0x80 + c % 64) ∷ []

-- A character before the bytes of the rest; a surrogate raises UnicodeEncodeError: `none`.
unfoldable pub encode_more : ℕ → Option (List ℕ) → Option (List ℕ)
encode_more c none = none
encode_more c (some bytes) = if is_scalar c then some (encode_char c ++ bytes) else none

unfoldable pub encode : Text → Option (List ℕ)
encode [] = some []
encode (c ∷ text) = encode_more c (encode text)
