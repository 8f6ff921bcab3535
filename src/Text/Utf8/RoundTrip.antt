-- ===== src/Text/Utf8/RoundTrip.antt =====
-- Decoding what `encode` wrote.
use embedded_bridge.Prelude.{
  ℕ, suc, ◌+◌, ◌-◌, ◌*◌, ◌/◌, ◌%◌, ◌≤◌, ◌<◌, ◌≡◌, ◌⊎◌, refl, ap, ◌∙◌, arith, true, false, List, [],
  ◌∷◌, ◌++◌, append-nil, Option, none, some, Bool-cases, inl, inr, ltb, ◌==◌, ==→eq,
}
use embedded_bridge.Text.Utf8.{
  Text, Decoder, waiting, fresh, lead, step, decode_from, flush, decode, is_scalar, encode_char,
  encode_more, encode, encode_more,
}

-- The last byte of a sequence, and one before it.
last_byte :
    (a low high b : ℕ)
    → low ≤ b
    → b ≤ high
    → step (waiting 1 a low high) b ≡ ((a * 64 + (b - 0x80)) ∷ [], fresh)
unfolding step
last_byte a low high b h k = ground arith

middle_byte :
    (n a low high b : ℕ)
    → low ≤ b
    → b ≤ high
    → step (waiting (suc (suc n)) a low high) b
      ≡ ([], waiting (suc n) (a * 64 + (b - 0x80)) 0x80 0xBF)
unfolding step
middle_byte n a low high b h k = ground arith

-- The text that follows a character.
abbrev after : ℕ → List ℕ → Text × Decoder
after c bytes = (c ∷ (decode_from fresh bytes).0, (decode_from fresh bytes).1)

one_byte : (c : ℕ) (bytes : List ℕ) → c < 0x80 → decode_from fresh (c ∷ bytes) ≡ after c bytes
unfolding decode_from step lead
one_byte c bytes h = ground arith

two_bytes :
    (b b' a : ℕ) (bytes : List ℕ)
    → step fresh b ≡ ([], waiting 1 a 0x80 0xBF)
    → 0x80 ≤ b'
    → b' ≤ 0xBF
    → decode_from fresh (b ∷ b' ∷ bytes) ≡ after (a * 64 + (b' - 0x80)) bytes
unfolding decode_from
two_bytes b b' a bytes e h k = rw (e, last_byte a 0x80 0xBF b' h k) refl

three_bytes :
    (b b' b'' a low high : ℕ) (bytes : List ℕ)
    → step fresh b ≡ ([], waiting 2 a low high)
    → low ≤ b'
    → b' ≤ high
    → 0x80 ≤ b''
    → b'' ≤ 0xBF
    → decode_from fresh (b ∷ b' ∷ b'' ∷ bytes)
      ≡ after ((a * 64 + (b' - 0x80)) * 64 + (b'' - 0x80)) bytes
unfolding decode_from
three_bytes b b' b'' a low high bytes e h k h' k' =
    rw (e, middle_byte 0 a low high b' h k, last_byte (a * 64 + (b' - 0x80)) 0x80 0xBF b'' h' k')
      refl

four_bytes :
    (b b' b'' c a low high : ℕ) (bytes : List ℕ)
    → step fresh b ≡ ([], waiting 3 a low high)
    → low ≤ b'
    → b' ≤ high
    → 0x80 ≤ b''
    → b'' ≤ 0xBF
    → 0x80 ≤ c
    → c ≤ 0xBF
    → decode_from fresh (b ∷ b' ∷ b'' ∷ c ∷ bytes)
      ≡ after (((a * 64 + (b' - 0x80)) * 64 + (b'' - 0x80)) * 64 + (c - 0x80)) bytes
unfolding decode_from
four_bytes b b' b'' c a low high bytes e h k h' k' h'' k'' =
    rw
      (
        e,
        middle_byte 1 a low high b' h k,
        middle_byte 0 (a * 64 + (b' - 0x80)) 0x80 0xBF b'' h' k',
        last_byte ((a * 64 + (b' - 0x80)) * 64 + (b'' - 0x80)) 0x80 0xBF c h'' k'',
      )
      refl

lead_2 : (b : ℕ) → 0xC2 ≤ b → b < 0xE0 → step fresh b ≡ ([], waiting 1 (b - 0xC0) 0x80 0xBF)
unfolding step lead
lead_2 b h k = ground arith

lead_3_low : step fresh 0xE0 ≡ ([], waiting 2 0 0xA0 0xBF)
unfolding step lead
lead_3_low = refl

lead_3_high : step fresh 0xED ≡ ([], waiting 2 0xD 0x80 0x9F)
unfolding step lead
lead_3_high = refl

lead_3 :
    (b : ℕ)
    → 0xE0 < b
    → b < 0xF0
    → (b == 0xED) ≡ false
    → step fresh b ≡ ([], waiting 2 (b - 0xE0) 0x80 0xBF)
unfolding step lead
lead_3 b h k l = ground arith

lead_4_low : step fresh 0xF0 ≡ ([], waiting 3 0 0x90 0xBF)
unfolding step lead
lead_4_low = refl

lead_4_high : step fresh 0xF4 ≡ ([], waiting 3 4 0x80 0x8F)
unfolding step lead
lead_4_high = refl

lead_4 : (b : ℕ) → 0xF0 < b → b < 0xF4 → step fresh b ≡ ([], waiting 3 (b - 0xF0) 0x80 0xBF)
unfolding step lead
lead_4 b h k = ground arith

char_2 :
    (c : ℕ) (bytes : List ℕ)
    → 0x80 ≤ c
    → c < 0x800
    → decode_from fresh ((0xC0 + c / 64) ∷ (0x80 + c % 64) ∷ bytes) ≡ after c bytes
char_2 c bytes h k =
    two_bytes (0xC0 + c / 64) (0x80 + c % 64) (0xC0 + c / 64 - 0xC0) bytes
      (lead_2 (0xC0 + c / 64) (omega arith) (omega arith)) (omega arith) (omega arith)
    ∙ ap (λ (t : ℕ). after t bytes) (omega arith)

char_3 :
    (c : ℕ) (bytes : List ℕ)
    → 0x800 ≤ c
    → c < 0x10000
    → (c < 0xD800) ⊎ (0xE000 ≤ c)
    → decode_from fresh ((0xE0 + c / 4096) ∷ (0x80 + c / 64 % 64) ∷ (0x80 + c % 64) ∷ bytes)
      ≡ after c bytes
char_3 c bytes h k s = elim (Bool-cases (c / 4096 == 0)) [
  | inl e ↦
      let e' : c / 4096 ≡ 0 = ==→eq (c / 4096) 0 e in
      three_bytes (0xE0 + c / 4096) (0x80 + c / 64 % 64) (0x80 + c % 64) 0 0xA0 0xBF bytes
        (ap (λ (t : ℕ). step fresh (0xE0 + t)) e' ∙ lead_3_low) (omega arith) (omega arith)
        (omega arith) (omega arith)
      ∙ ap (λ (t : ℕ). after t bytes) (omega arith)
  | inr e ↦ elim (Bool-cases (c / 4096 == 13)) [
    | inl d ↦
        let d' : c / 4096 ≡ 13 = ==→eq (c / 4096) 13 d in
        let low : c < 0xD800 = elim s [ inl l ↦ l | inr l ↦ absurd (omega arith) ] in
        three_bytes (0xE0 + c / 4096) (0x80 + c / 64 % 64) (0x80 + c % 64) 0xD 0x80 0x9F bytes
          (ap (λ (t : ℕ). step fresh (0xE0 + t)) d' ∙ lead_3_high) (omega arith) (omega arith)
          (omega arith) (omega arith)
        ∙ ap (λ (t : ℕ). after t bytes) (omega arith)
    | inr d ↦
        three_bytes (0xE0 + c / 4096) (0x80 + c / 64 % 64) (0x80 + c % 64) (0xE0 + c / 4096 - 0xE0)
          0x80 0xBF bytes (lead_3 (0xE0 + c / 4096) (ground arith) (omega arith) (ground arith))
          (omega arith) (omega arith) (omega arith) (omega arith)
        ∙ ap (λ (t : ℕ). after t bytes) (omega arith)
  ]
]

char_4 :
    (c : ℕ) (bytes : List ℕ)
    → 0x10000 ≤ c
    → c < 0x110000
    → decode_from fresh (
        (0xF0 + c / 262144)
        ∷ (0x80 + c / 4096 % 64)
        ∷ (0x80 + c / 64 % 64)
        ∷ (0x80 + c % 64)
        ∷ bytes)
      ≡ after c bytes
char_4 c bytes h k = elim (Bool-cases (c / 262144 == 0)) [
  | inl e ↦
      let e' : c / 262144 ≡ 0 = ==→eq (c / 262144) 0 e in
      four_bytes (0xF0 + c / 262144) (0x80 + c / 4096 % 64) (0x80 + c / 64 % 64) (0x80 + c % 64) 0
        0x90 0xBF bytes (ap (λ (t : ℕ). step fresh (0xF0 + t)) e' ∙ lead_4_low) (omega arith)
        (omega arith) (omega arith) (omega arith) (omega arith) (omega arith)
      ∙ ap (λ (t : ℕ). after t bytes) (omega arith)
  | inr e ↦ elim (Bool-cases (c / 262144 == 4)) [
    | inl d ↦
        let d' : c / 262144 ≡ 4 = ==→eq (c / 262144) 4 d in
        four_bytes (0xF0 + c / 262144) (0x80 + c / 4096 % 64) (0x80 + c / 64 % 64) (0x80 + c % 64) 4
          0x80 0x8F bytes (ap (λ (t : ℕ). step fresh (0xF0 + t)) d' ∙ lead_4_high) (omega arith)
          (omega arith) (omega arith) (omega arith) (omega arith) (omega arith)
        ∙ ap (λ (t : ℕ). after t bytes) (omega arith)
    | inr d ↦
        four_bytes (0xF0 + c / 262144) (0x80 + c / 4096 % 64) (0x80 + c / 64 % 64) (0x80 + c % 64)
          (0xF0 + c / 262144 - 0xF0) 0x80 0xBF bytes
          (lead_4 (0xF0 + c / 262144) (ground arith) (ground arith)) (omega arith) (omega arith)
          (omega arith) (omega arith) (omega arith) (omega arith)
        ∙ ap (λ (t : ℕ). after t bytes) (omega arith)
  ]
]

scalar_range : (c : ℕ) → is_scalar c ≡ true → (c < 0x110000) × ((c < 0xD800) ⊎ (0xE000 ≤ c))
unfolding is_scalar
scalar_range c h = elim (Bool-cases (ltb c 0xD800)) [
  | inl e ↦ (ground arith, inl (ground arith))
  | inr e ↦ (ground arith, inr (ground arith))
]

decode_from-encode_char :
    (c : ℕ) (bytes : List ℕ)
    → is_scalar c ≡ true
    → decode_from fresh (encode_char c ++ bytes) ≡ after c bytes
unfolding encode_char
decode_from-encode_char c bytes h = elim (Bool-cases (ltb c 0x80)) [
  | inl e ↦ rw e (one_byte c bytes (ground arith))
  | inr e ↦ elim (Bool-cases (ltb c 0x800)) [
    | inl e' ↦ rw (e, e') (char_2 c bytes (ground arith) (ground arith))
    | inr e' ↦ elim (Bool-cases (ltb c 0x10000)) [
      | inl d ↦ rw (e, e', d) (char_3 c bytes (ground arith) (ground arith) (scalar_range c h).1)
      | inr d ↦ rw (e, e', d) (char_4 c bytes (ground arith) (scalar_range c h).0)
    ]
  ]
]

-- What was written for a text, by its first character.
pub encode_more_inv :
    (c : ℕ) (o : Option (List ℕ)) (bytes : List ℕ)
    → encode_more c o ≡ some bytes
    → (rest : List ℕ) × (o ≡ some rest) × (is_scalar c ≡ true) × (bytes ≡ encode_char c ++ rest)
unfolding encode_more
encode_more_inv c none bytes h = absurd (ground (arith, h))
encode_more_inv c (some rest) bytes h = elim (Bool-cases (is_scalar c)) [
  | inl e ↦ (rest, refl, e, ground (arith, h))
  | inr e ↦ absurd (ground (arith, h))
]

decode_from-encode :
    (text : Text) (bytes : List ℕ)
    → encode text ≡ some bytes
    → decode_from fresh bytes ≡ (text, fresh)
unfolding encode
decode_from-encode [] bytes h = ap (decode_from fresh) (ground (arith, h)) ∙ nothing
  where
    nothing : decode_from fresh [] ≡ ([], fresh)
    nothing = unfold decode_from in refl
decode_from-encode (c ∷ text) bytes h =
    let (rest, e, k, l) = encode_more_inv c (encode text) bytes h in
    rw (l, decode_from-encode_char c rest k, decode_from-encode text rest e) refl

-- What `encode` writes for a text is decoded to that text.
pub decode-encode : (text : Text) (bytes : List ℕ) → encode text ≡ some bytes → decode bytes ≡ text
unfolding decode flush
decode-encode text bytes h = rw (decode_from-encode text bytes h) (append-nil text)
