-- ===== src/Receivers/MemoryTracker/Fallback/Crc8.antt =====
-- The CRC-8 of a line loses nothing: a round has an inverse on bytes.
use embedded_bridge.Prelude.{
  ℕ, zero, suc, ◌+◌, ◌/◌, ◌%◌, ◌<◌, ◌≡◌, refl, sym, ap, ◌∙◌, arith, Bool, true, List, [], ◌∷◌, ◌++◌,
  ltb, ◌==◌, ◌&&◌, if◌then◌else◌, bit_xor, bit_xor-lt, bit_xor_cancel_left, bit_xor_cancel_right,
  All,
}
use embedded_bridge.Receivers.MemoryTracker.Fallback.{crc8_round, crc8_rounds, crc8_register}

-- Over a small range, every value is checked.
all_below : ℕ → (ℕ → Bool) → Bool
all_below zero p = true
all_below (suc n) p = p n && all_below n p

all_below_holds : (n : ℕ) (p : ℕ → Bool) (x : ℕ) → all_below n p ≡ true → x < n → p x ≡ true
unfolding all_below
all_below_holds zero p x h lt = absurd (omega arith)
all_below_holds (suc n) p x h lt = ground (arith, all_below_holds n p x)

-- The polynomial has a low bit, which a plain shift leaves clear.
round_back : ℕ → ℕ
round_back v = if v % 2 == 0 then v / 2 else bit_xor v 0x31 / 2 + 128

round_table : all_below 256 (λ c. ltb (crc8_round c) 256 && round_back (crc8_round c) == c) ≡ true
unfolding all_below crc8_round round_back
round_table = refl

crc8_round-lt : (c : ℕ) → c < 256 → crc8_round c < 256
crc8_round-lt c h = ground (
  arith,
  all_below_holds 256 (λ c. ltb (crc8_round c) 256 && round_back (crc8_round c) == c) c round_table
      h,
)

crc8_round-back : (c : ℕ) → c < 256 → round_back (crc8_round c) ≡ c
crc8_round-back c h = ground (
  arith,
  all_below_holds 256 (λ c. ltb (crc8_round c) 256 && round_back (crc8_round c) == c) c round_table
      h,
)

crc8_rounds-lt : (n c : ℕ) → c < 256 → crc8_rounds n c < 256
unfolding crc8_rounds
crc8_rounds-lt zero c h = h
crc8_rounds-lt (suc n) c h = crc8_rounds-lt n (crc8_round c) (crc8_round-lt c h)

crc8_rounds_injective : (n c d : ℕ) → c < 256 → d < 256 → crc8_rounds n c ≡ crc8_rounds n d → c ≡ d
unfolding crc8_rounds
crc8_rounds_injective zero c d hc hd e = e
crc8_rounds_injective (suc n) c d hc hd e =
    let rounds =
      crc8_rounds_injective n (crc8_round c) (crc8_round d) (crc8_round-lt c hc)
        (crc8_round-lt d hd) e in
    sym (crc8_round-back c hc) ∙ ap (λ (v : ℕ). round_back v) rounds ∙ crc8_round-back d hd

abbrev pub IsByte : ℕ → Type 0
IsByte b = b < 256

-- A byte enters the register.
abbrev step : ℕ → ℕ → ℕ
step crc b = crc8_rounds 8 (bit_xor crc b)

step-lt : (c b : ℕ) → c < 256 → b < 256 → step c b < 256
step-lt c b hc hb = crc8_rounds-lt 8 (bit_xor c b) (bit_xor-lt 8 c b hc hb)

step_cancel :
    (c d x y : ℕ)
    → c < 256
    → d < 256
    → x < 256
    → y < 256
    → step c x ≡ step d y
    → bit_xor c x ≡ bit_xor d y
step_cancel c d x y hc hd hx hy e =
    crc8_rounds_injective 8 (bit_xor c x) (bit_xor d y) (bit_xor-lt 8 c x hc hx)
      (bit_xor-lt 8 d y hd hy) e

crc8_register_injective :
    (c d : ℕ) (bytes : List ℕ)
    → c < 256
    → d < 256
    → All IsByte bytes
    → crc8_register c bytes ≡ crc8_register d bytes
    → c ≡ d
unfolding crc8_register
crc8_register_injective c d [] hc hd hs e = e
crc8_register_injective c d (b ∷ bytes) hc hd (hb, hs) e = bit_xor_cancel_right c d b (
    step_cancel c d b b hc hd hb hb (
      crc8_register_injective (step c b) (step d b) bytes (step-lt c b hc hb) (step-lt d b hd hb) hs
        e))

-- Two inputs of bytes that agree but for one byte have the same CRC-8 only if that byte agrees too,
-- whatever the register holds before.
pub crc8_damage :
    (crc : ℕ) (front back : List ℕ) (x y : ℕ)
    → crc < 256
    → All IsByte front
    → All IsByte back
    → x < 256
    → y < 256
    → crc8_register crc (front ++ (x ∷ back)) ≡ crc8_register crc (front ++ (y ∷ back))
    → x ≡ y
unfolding crc8_register
crc8_damage crc [] back x y h hf hb hx hy e = bit_xor_cancel_left x y crc (
    step_cancel crc crc x y h h hx hy (
      crc8_register_injective (step crc x) (step crc y) back (step-lt crc x h hx)
        (step-lt crc y h hy) hb e))
crc8_damage crc (b ∷ front) back x y h (hb, hf) hs hx hy e =
    crc8_damage (step crc b) front back x y (step-lt crc b h hb) hf hs hx hy e
