-- ===== src/Prelude/Bits/Mask.antt =====
-- Masks as remainders, and words with no digit in common as sums.
use Prim.Native.Nat.{ℕ, zero, suc, ◌+◌, ◌-◌, ◌*◌, ◌/◌, ◌%◌, ◌^◌, ◌<◌}
use Prim.Native.Nat.{bit_and, bit_or, bit_xor}
use mathlib.Core.Path.{◌≡◌, refl, ap, ◌≡⟨◌⟩◌, ◌∎}
use mathlib.Core.Bool.{Bool, true, false}
use mathlib.Core.Logic.{ite}
use native.Mathlib.Decide.{ℕ_discrete}
use native.Mathlib.Nat.{pow-suc, one-le-pow, div-add-mod, mod-lt}
use native.Mathlib.Omega.{arith}
use embedded_bridge.Prelude.Bits.Digit.{
  bit_and_step, bit_and-zero, zero-bit_or, zero-bit_xor, bit_or-zero, bit_xor-zero,
}
use embedded_bridge.Prelude.Bits.Fields.{bit_and_fields, bit_or_fields, bit_xor_fields}

-- Over a small range two functions are compared by evaluation.
module _ (f g : ℕ → ℕ) where
  agree_below : ℕ → Bool
  unfolding ℕ_discrete
  agree_below zero = true
  agree_below (suc n) = ite (ℕ_discrete (f n) (g n)) (agree_below n) false

  agree_below→eq : (n : ℕ) → agree_below n ≡ true → (i : ℕ) → i < n → f i ≡ g i
  unfolding agree_below
  agree_below→eq zero e i h = absurd (omega arith)
  agree_below→eq (suc n) e i h = ground (arith, agree_below→eq n (ground arith) i)

-- A mask of `k` ones is the remainder by `2 ^ k`.
mask_fits : (k x : ℕ) → x < 2 ^ k → bit_and x (2 ^ k - 1) ≡ x
mask_fits zero zero h = refl
mask_fits zero (suc x) h = absurd (omega arith)
mask_fits (suc k) x h = omega (
  arith,
  bit_and_step x (2 ^ suc k - 1),
  ap (λ (t : ℕ). bit_and (x / 2) t) shorter,
  pow-suc 2 k,
  one-le-pow k 2 (omega arith),
  mask_fits k (x / 2) (omega (arith, pow-suc 2 k)),
)
  where
    shorter : (2 ^ suc k - 1) / 2 ≡ 2 ^ k - 1
    shorter = omega (arith, pow-suc 2 k, one-le-pow k 2 (omega arith))

pub bit_and_mask : (k a : ℕ) → bit_and a (2 ^ k - 1) ≡ a % 2 ^ k
bit_and_mask k a =
    bit_and a m
    ≡⟨ ap (λ (t : ℕ). bit_and t m) (omega (arith, div-add-mod a (2 ^ k))) ⟩
      bit_and (q * 2 ^ k + r) m
    ≡⟨ ap (λ (t : ℕ). bit_and (q * 2 ^ k + r) t) (omega arith) ⟩
      bit_and (q * 2 ^ k + r) (0 * 2 ^ k + m)
    ≡⟨ bit_and_fields k q r 0 m low (omega (arith, one-le-pow k 2 (omega arith))) ⟩
      bit_and q 0 * 2 ^ k + bit_and r m
    ≡⟨ omega (arith, ap (λ (t : ℕ). t * 2 ^ k) (bit_and-zero q), mask_fits k r low) ⟩ r ∎
  where
    m : ℕ
    m = 2 ^ k - 1

    q : ℕ
    q = a / 2 ^ k

    r : ℕ
    r = a % 2 ^ k

    low : r < 2 ^ k
    low = mod-lt a (one-le-pow k 2 (omega arith))

-- `|` of a word below `2 ^ k` and a word shifted by `k` is their sum.
pub bit_or_shifted : (k v q : ℕ) → v < 2 ^ k → bit_or v (q * 2 ^ k) ≡ v + q * 2 ^ k
bit_or_shifted k v q h =
    bit_or v (q * 2 ^ k)
    ≡⟨ ap (λ (t : ℕ). bit_or t (q * 2 ^ k)) (omega arith) ⟩ bit_or (0 * 2 ^ k + v) (q * 2 ^ k)
    ≡⟨ ap (λ (t : ℕ). bit_or (0 * 2 ^ k + v) t) (omega arith) ⟩
      bit_or (0 * 2 ^ k + v) (q * 2 ^ k + 0)
    ≡⟨ bit_or_fields k 0 v q 0 h (one-le-pow k 2 (omega arith)) ⟩ bit_or 0 q * 2 ^ k + bit_or v 0
    ≡⟨ omega (arith, ap (λ (t : ℕ). t * 2 ^ k) (zero-bit_or q), bit_or-zero v) ⟩ v + q * 2 ^ k ∎

pub bit_xor_shifted : (k v q : ℕ) → v < 2 ^ k → bit_xor v (q * 2 ^ k) ≡ v + q * 2 ^ k
bit_xor_shifted k v q h =
    bit_xor v (q * 2 ^ k)
    ≡⟨ ap (λ (t : ℕ). bit_xor t (q * 2 ^ k)) (omega arith) ⟩ bit_xor (0 * 2 ^ k + v) (q * 2 ^ k)
    ≡⟨ ap (λ (t : ℕ). bit_xor (0 * 2 ^ k + v) t) (omega arith) ⟩
      bit_xor (0 * 2 ^ k + v) (q * 2 ^ k + 0)
    ≡⟨ bit_xor_fields k 0 v q 0 h (one-le-pow k 2 (omega arith)) ⟩ bit_xor 0 q * 2 ^ k + bit_xor v 0
    ≡⟨ omega (arith, ap (λ (t : ℕ). t * 2 ^ k) (zero-bit_xor q), bit_xor-zero v) ⟩ v + q * 2 ^ k ∎

-- The masks of a byte: its low seven bits, its top bit, and setting the top bit.
pub low_seven : (b : ℕ) → bit_and b 0x7f ≡ b % 128
low_seven b = bit_and_mask 7 b

pub top_bit : (b : ℕ) → b < 256 → bit_and b 0x80 ≡ b / 128 * 128
unfolding agree_below
top_bit = agree_below→eq _ _ 256 refl

pub set_top_bit : (b : ℕ) → b < 128 → bit_or b 0x80 ≡ b + 128
set_top_bit b h = bit_or_shifted 7 b 1 h
