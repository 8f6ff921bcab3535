-- ===== src/Framing/Crc16/Burst.antt =====
-- What the CRC detects: the register loses nothing, so two inputs that differ only in two adjacent
-- bytes have different CRCs.
use embedded_bridge.Prelude.{
  ℕ, ◌+◌, ◌*◌, ◌/◌, ◌%◌, ◌<◌, ◌≡◌, refl, sym, ap, ◌∙◌, arith, List, [], ◌∷◌, ◌++◌,
}
use embedded_bridge.Prelude.{
  bit_xor, bit_and_mask, bit_xor_shifted, bit_xor-lt, bit_xor_assoc, bit_xor_cancel_left,
  bit_xor_cancel_right,
}
use embedded_bridge.Framing.Crc16.{
  crc16_init, shift_rounds, crc16_hdlc_update, crc16_register, crc16_hdlc,
}
use embedded_bridge.Framing.Crc16.Register.{
  shift_rounds-lt, shift_rounds_injective, shift_rounds_linear, crc16_hdlc_update_word,
  crc16_hdlc_update_bytes, crc16_hdlc_update-lt, crc16_register-lt, crc16_register-append,
}

crc16_hdlc_update_injective :
    (c d b : ℕ) → c < 65536 → d < 65536 → crc16_hdlc_update c b ≡ crc16_hdlc_update d b → c ≡ d
crc16_hdlc_update_injective c d b hc hd e = bit_xor_cancel_right c d (b % 256) (
    shift_rounds_injective 8 _ _ (fits c hc) (fits d hd)
      (sym (crc16_hdlc_update_word c b hc) ∙ e ∙ crc16_hdlc_update_word d b hd))
  where
    fits : (w : ℕ) → w < 65536 → bit_xor w (b % 256) < 65536
    fits w h = bit_xor-lt 16 w (b % 256) h (omega arith)

-- Two registers that differ still differ after any bytes.
pub crc16_register_injective :
    (c d : ℕ) (xs : List ℕ)
    → c < 65536
    → d < 65536
    → crc16_register c xs ≡ crc16_register d xs
    → c ≡ d
unfolding crc16_register
crc16_register_injective c d [] hc hd e = e
crc16_register_injective c d (x ∷ xs) hc hd e = crc16_hdlc_update_injective c d x hc hd (
    crc16_register_injective (crc16_hdlc_update c x) (crc16_hdlc_update d x) xs
      (crc16_hdlc_update-lt c x) (crc16_hdlc_update-lt d x) e)

-- Two bytes enter a register with the bytes `h` and `l` as one word, `l ^ x` below `h ^ y`.
two_bytes :
    (h l x y : ℕ)
    → h < 256
    → l < 256
    → x < 256
    → y < 256
    → crc16_hdlc_update (crc16_hdlc_update (l + h * 256) x) y
      ≡ shift_rounds 8 (shift_rounds 8 (bit_xor l x + bit_xor h y * 256))
two_bytes h l x y hh hl hx hy =
    crc16_hdlc_update_word (crc16_hdlc_update (l + h * 256) x) y (crc16_hdlc_update-lt _ x)
    ∙ ap (λ (t : ℕ). shift_rounds 8 t) inner
  where
    low : bit_xor l x < 256
    low = bit_xor-lt 8 l x hl hx

    inner :
        bit_xor (crc16_hdlc_update (l + h * 256) x) (y % 256)
        ≡ shift_rounds 8 (bit_xor l x + bit_xor h y * 256)
    inner =
        ap (λ (t : ℕ). bit_xor (crc16_hdlc_update (l + h * 256) x) t) (omega arith)
        ∙ ap (λ (t : ℕ). bit_xor t y) (crc16_hdlc_update_bytes h l x hh hl hx)
        ∙ bit_xor_assoc (shift_rounds 8 (bit_xor l x)) h y
        ∙ sym (shift_rounds_linear 8 (bit_xor l x) (bit_xor h y))
        ∙ ap (λ (t : ℕ). shift_rounds 8 t) (bit_xor_shifted 8 (bit_xor l x) (bit_xor h y) low)

two_bytes_injective :
    (c x y x' y' : ℕ)
    → c < 65536
    → x < 256
    → y < 256
    → x' < 256
    → y' < 256
    → crc16_hdlc_update (crc16_hdlc_update c x) y ≡ crc16_hdlc_update (crc16_hdlc_update c x') y'
    → (x ≡ x') × (y ≡ y')
two_bytes_injective c x y x' y' hc hx hy hx' hy' e = (
  bit_xor_cancel_left x x' l (omega (arith, words, low x hx, low x' hx')),
  bit_xor_cancel_left y y' h (omega (arith, words, low x hx, low x' hx')),
)
  where
    h : ℕ
    h = c / 256

    l : ℕ
    l = c % 256

    low : (b : ℕ) → b < 256 → bit_xor l b < 256
    low b k = bit_xor-lt 8 l b (omega arith) k

    high : (b : ℕ) → b < 256 → bit_xor h b < 256
    high b k = bit_xor-lt 8 h b (omega arith) k

    split :
        (a b : ℕ)
        → a < 256
        → b < 256
        → crc16_hdlc_update (crc16_hdlc_update c a) b
          ≡ shift_rounds 8 (shift_rounds 8 (bit_xor l a + bit_xor h b * 256))
    split a b ha hb =
        ap (λ (t : ℕ). crc16_hdlc_update (crc16_hdlc_update t a) b) (omega arith)
        ∙ two_bytes h l a b (omega arith) (omega arith) ha hb

    word-lt : (a b : ℕ) → a < 256 → b < 256 → bit_xor l a + bit_xor h b * 256 < 65536
    word-lt a b ha hb = omega (arith, low a ha, high b hb)

    words : bit_xor l x + bit_xor h y * 256 ≡ bit_xor l x' + bit_xor h y' * 256
    words = shift_rounds_injective 8 _ _ (word-lt x y hx hy) (word-lt x' y' hx' hy') (
        shift_rounds_injective 8 _ _ (shift_rounds-lt 8 _ (word-lt x y hx hy))
          (shift_rounds-lt 8 _ (word-lt x' y' hx' hy'))
          (sym (split x y hx hy) ∙ e ∙ split x' y' hx' hy'))

-- The final complement loses nothing.
pub crc16_hdlc_lem : (xs : List ℕ) → crc16_hdlc xs ≡ bit_xor (crc16_register crc16_init xs) 0xFFFF
unfolding crc16_hdlc
crc16_hdlc_lem xs =
    omega (arith, bit_and_mask 16 (bit_xor (crc16_register crc16_init xs) 0xFFFF), narrow)
  where
    narrow : bit_xor (crc16_register crc16_init xs) 0xFFFF < 65536
    narrow = bit_xor-lt 16 _ 0xFFFF (crc16_register-lt crc16_init xs (omega arith)) (omega arith)

-- Two inputs of bytes that agree but for two adjacent bytes have the same CRC only if those two
-- bytes agree too: every error burst within two adjacent bytes is detected, at any place.
pub crc16_hdlc_burst :
    (front back : List ℕ) (x y x' y' : ℕ)
    → x < 256
    → y < 256
    → x' < 256
    → y' < 256
    → crc16_hdlc (front ++ (x ∷ y ∷ back)) ≡ crc16_hdlc (front ++ (x' ∷ y' ∷ back))
    → (x ≡ x') × (y ≡ y')
crc16_hdlc_burst front back x y x' y' hx hy hx' hy' e =
    two_bytes_injective c x y x' y' (crc16_register-lt crc16_init front (omega arith)) hx hy hx' hy'
      (crc16_register_injective _ _ back (crc16_hdlc_update-lt _ y) (crc16_hdlc_update-lt _ y')
        (sym (after x y) ∙ registers ∙ after x' y'))
  where
    c : ℕ
    c = crc16_register crc16_init front

    after :
        (a b : ℕ)
        → crc16_register crc16_init (front ++ (a ∷ b ∷ back))
          ≡ crc16_register (crc16_hdlc_update (crc16_hdlc_update c a) b) back
    after a b =
        crc16_register-append crc16_init front (a ∷ b ∷ back) ∙ (unfold crc16_register in refl)

    registers :
        crc16_register crc16_init (front ++ (x ∷ y ∷ back))
        ≡ crc16_register crc16_init (front ++ (x' ∷ y' ∷ back))
    registers = bit_xor_cancel_right _ _ 0xFFFF (
        sym (crc16_hdlc_lem (front ++ (x ∷ y ∷ back)))
        ∙ e
        ∙ crc16_hdlc_lem (front ++ (x' ∷ y' ∷ back)))
