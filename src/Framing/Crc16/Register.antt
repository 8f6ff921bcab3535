-- ===== src/Framing/Crc16/Register.antt =====
-- The CRC register: its width, and the rounds as an injective and linear map of 16-bit words.
use embedded_bridge.Prelude.{
  ℕ, zero, suc, ◌+◌, ◌*◌, ◌/◌, ◌%◌, ◌^◌, ◌≤◌, ◌<◌, ◌≡◌, refl, sym, ap, ◌≡⟨◌⟩◌, ◌∎, arith, ◌∙◌, List,
  [], ◌∷◌, ◌++◌,
}
use embedded_bridge.Prelude.{
  bit_and, bit_xor, bit_and_mask, bit_xor_fields, bit_xor_shifted, bit_xor-lt, bit_xor_double,
  bit_xor_right_comm, bit_xor_cancel_right,
}
use native.Mathlib.Nat.{pow-suc}
use embedded_bridge.Framing.Crc16.{shift_round, shift_rounds, crc16_hdlc_update, crc16_register}

low_bit : (c : ℕ) → bit_and c 0x0001 ≡ c % 2
low_bit c = bit_and_mask 1 c

pub shift_round-lt : (c : ℕ) → c < 65536 → shift_round c < 65536
unfolding shift_round
shift_round-lt c h = ground (arith, bit_xor-lt 16 (c / 2) 0x8408 (omega arith) (omega arith))

pub shift_rounds-lt : (n c : ℕ) → c < 65536 → shift_rounds n c < 65536
unfolding shift_rounds
shift_rounds-lt zero c h = h
shift_rounds-lt (suc n) c h = shift_rounds-lt n (shift_round c) (shift_round-lt c h)

-- The polynomial sets the top bit, which a plain shift clears.
poly_sets_top : (a : ℕ) → a < 32768 → 32768 ≤ bit_xor a 0x8408
poly_sets_top a h = rw (poly_word a h) (omega arith)
  where
    poly_word : (b : ℕ) → b < 32768 → bit_xor b 0x8408 ≡ 32768 + bit_xor b 0x0408
    poly_word b k =
        ap (λ (t : ℕ). bit_xor t 0x8408) (omega arith)
        ∙ bit_xor_fields 15 0 b 1 0x0408 k (omega arith)

pub shift_round_injective :
    (c d : ℕ) → c < 65536 → d < 65536 → shift_round c ≡ shift_round d → c ≡ d
unfolding shift_round
shift_round_injective c d hc hd e = ground (
  arith,
  low_bit c,
  low_bit d,
  poly_sets_top (c / 2) (omega arith),
  poly_sets_top (d / 2) (omega arith),
  bit_xor_cancel_right (c / 2) (d / 2) 0x8408,
)

pub shift_rounds_injective :
    (n c d : ℕ) → c < 65536 → d < 65536 → shift_rounds n c ≡ shift_rounds n d → c ≡ d
unfolding shift_rounds
shift_rounds_injective zero c d hc hd e = e
shift_rounds_injective (suc n) c d hc hd e = shift_round_injective c d hc hd (
    shift_rounds_injective n (shift_round c) (shift_round d) (shift_round-lt c hc)
      (shift_round-lt d hd) e)

-- A word that is shifted in from above passes the rounds unchanged.
shift_round_linear : (x y : ℕ) → shift_round (bit_xor x (y * 2)) ≡ bit_xor (shift_round x) y
unfolding shift_round
shift_round_linear x y = ground (
  arith,
  low_bit x,
  low_bit (bit_xor x (y * 2)),
  bit_xor_double x y,
  ap (λ (t : ℕ). bit_xor t 0x8408) ((bit_xor_double x y).1),
  bit_xor_right_comm (x / 2) y 0x8408,
)

pub shift_rounds_linear :
    (n x y : ℕ) → shift_rounds n (bit_xor x (y * 2 ^ n)) ≡ bit_xor (shift_rounds n x) y
unfolding shift_rounds
shift_rounds_linear zero x y = ap (λ (t : ℕ). bit_xor x t) (omega arith)
shift_rounds_linear (suc n) x y =
    shift_rounds n (shift_round (bit_xor x (y * 2 ^ suc n)))
    ≡⟨ ap (λ (t : ℕ). shift_rounds n (shift_round (bit_xor x t)))
        (omega (arith, ap (λ (t : ℕ). y * t) (pow-suc 2 n))) ⟩
      shift_rounds n (shift_round (bit_xor x (y * 2 ^ n * 2)))
    ≡⟨ ap (λ (t : ℕ). shift_rounds n t) (shift_round_linear x (y * 2 ^ n)) ⟩
      shift_rounds n (bit_xor (shift_round x) (y * 2 ^ n))
    ≡⟨ shift_rounds_linear n (shift_round x) y ⟩ bit_xor (shift_rounds n (shift_round x)) y ∎

-- One byte enters a 16-bit register.
pub crc16_hdlc_update_word :
    (crc b : ℕ) → crc < 65536 → crc16_hdlc_update crc b ≡ shift_rounds 8 (bit_xor crc (b % 256))
unfolding crc16_hdlc_update
crc16_hdlc_update_word crc b h =
    ap (λ (t : ℕ). bit_and (shift_rounds 8 (bit_xor crc t)) 0xFFFF) (bit_and_mask 8 b)
    ∙ omega (arith, bit_and_mask 16 (shift_rounds 8 (bit_xor crc (b % 256))), narrow)
  where
    narrow : shift_rounds 8 (bit_xor crc (b % 256)) < 65536
    narrow = shift_rounds-lt 8 _ (bit_xor-lt 16 crc (b % 256) h (omega arith))

-- The same on a register with the bytes `h` and `l`: the high byte only moves down.
pub crc16_hdlc_update_bytes :
    (h l b : ℕ)
    → h < 256
    → l < 256
    → b < 256
    → crc16_hdlc_update (l + h * 256) b ≡ bit_xor (shift_rounds 8 (bit_xor l b)) h
crc16_hdlc_update_bytes h l b hh hl hb =
    crc16_hdlc_update_word (l + h * 256) b (omega arith)
    ∙ ap (λ (t : ℕ). shift_rounds 8 t) entering
    ∙ shift_rounds_linear 8 (bit_xor l b) h
  where
    entering : bit_xor (l + h * 256) (b % 256) ≡ bit_xor (bit_xor l b) (h * 256)
    entering =
        ap (λ (t : ℕ). bit_xor (l + h * 256) t) (omega arith)
        ∙ ap (λ (t : ℕ). bit_xor t b) (sym (bit_xor_shifted 8 l h hl))
        ∙ bit_xor_right_comm l (h * 256) b

-- The register stays a 16-bit word.
pub crc16_hdlc_update-lt : (crc b : ℕ) → crc16_hdlc_update crc b < 65536
unfolding crc16_hdlc_update
crc16_hdlc_update-lt crc b =
    omega (arith, bit_and_mask 16 (shift_rounds 8 (bit_xor crc (bit_and b 0xFF))))

pub crc16_register-lt : (crc : ℕ) (data' : List ℕ) → crc < 65536 → crc16_register crc data' < 65536
unfolding crc16_register
crc16_register-lt crc [] h = h
crc16_register-lt crc (b ∷ data') h =
    crc16_register-lt (crc16_hdlc_update crc b) data' (crc16_hdlc_update-lt crc b)

pub crc16_register-append :
    (crc : ℕ) (xs ys : List ℕ)
    → crc16_register crc (xs ++ ys) ≡ crc16_register (crc16_register crc xs) ys
unfolding crc16_register
crc16_register-append crc [] ys = refl
crc16_register-append crc (x ∷ xs) ys = crc16_register-append (crc16_hdlc_update crc x) xs ys
