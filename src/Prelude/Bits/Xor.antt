-- ===== src/Prelude/Bits/Xor.antt =====
-- The laws of `^`.
use Prim.Native.Nat.{ℕ, zero, suc, ◌*◌, ◌/◌, ◌%◌, ◌^◌, ◌<◌}
use Prim.Native.Nat.{bit_xor}
use mathlib.Core.Path.{◌≡◌, ap, sym, ◌∙◌}
use native.Mathlib.Nat.{pow-suc}
use native.Mathlib.Omega.{arith}
use embedded_bridge.Prelude.Bits.Digit.{halving, bit_xor_sum, zero-bit_xor, bit_xor-zero}

-- `^` is its own inverse, and it stays within the width of its arguments.
bit_xor-half : (a b : ℕ) → bit_xor a b / 2 ≡ bit_xor (a / 2) (b / 2)
bit_xor-half a b = omega (arith, bit_xor_sum a b)

pub bit_xor_self : (a b : ℕ) → bit_xor (bit_xor a b) a ≡ b
bit_xor_self =
    halving (λ a. (b : ℕ) → bit_xor (bit_xor a b) a ≡ b) (λ b. rw (zero-bit_xor b) (bit_xor-zero b))
      (λ a below b. omega (
        arith,
        bit_xor_sum (bit_xor a b) a,
        bit_xor_sum a b,
        ap (λ (t : ℕ). bit_xor t (a / 2)) (bit_xor-half a b),
        below (b / 2),
      ))

pub bit_xor-lt : (k a b : ℕ) → a < 2 ^ k → b < 2 ^ k → bit_xor a b < 2 ^ k
bit_xor-lt zero zero zero h k = omega arith
bit_xor-lt zero (suc a) b h k = absurd (omega arith)
bit_xor-lt zero zero (suc b) h k = absurd (omega arith)
bit_xor-lt (suc k) a b h₁ h₂ = omega (
  arith,
  bit_xor_sum a b,
  pow-suc 2 k,
  bit_xor-lt k (a / 2) (b / 2) (omega (arith, pow-suc 2 k)) (omega (arith, pow-suc 2 k)),
)

pub bit_xor_comm : (a b : ℕ) → bit_xor a b ≡ bit_xor b a
bit_xor_comm =
    halving (λ a. (b : ℕ) → bit_xor a b ≡ bit_xor b a)
      (λ b. rw (zero-bit_xor b) (sym (bit_xor-zero b)))
      (λ a below b. omega (arith, bit_xor_sum a b, bit_xor_sum b a, below (b / 2)))

pub bit_xor_assoc : (a b c : ℕ) → bit_xor (bit_xor a b) c ≡ bit_xor a (bit_xor b c)
bit_xor_assoc =
    halving (λ a. (b c : ℕ) → bit_xor (bit_xor a b) c ≡ bit_xor a (bit_xor b c))
      (λ b c. rw (zero-bit_xor b) (sym (zero-bit_xor (bit_xor b c))))
      (λ a below b c. omega (
        arith,
        bit_xor_sum (bit_xor a b) c,
        bit_xor_sum a b,
        bit_xor_sum a (bit_xor b c),
        bit_xor_sum b c,
        ap (λ (t : ℕ). bit_xor t (c / 2)) (bit_xor-half a b),
        ap (λ (t : ℕ). bit_xor (a / 2) t) (bit_xor-half b c),
        below (b / 2) (c / 2),
      ))

pub bit_xor_right_comm : (a b c : ℕ) → bit_xor (bit_xor a b) c ≡ bit_xor (bit_xor a c) b
bit_xor_right_comm a b c =
    bit_xor_assoc a b c ∙ ap (λ (t : ℕ). bit_xor a t) (bit_xor_comm b c) ∙ sym (bit_xor_assoc a c b)

-- `^` with a word that is shifted left, by one and by a byte.
pub bit_xor_double :
    (x y : ℕ) → (bit_xor x (y * 2) % 2 ≡ x % 2) × (bit_xor x (y * 2) / 2 ≡ bit_xor (x / 2) y)
bit_xor_double x y = (
  omega (arith, bit_xor_sum x (y * 2)),
  omega (arith, bit_xor_sum x (y * 2), ap (λ (t : ℕ). bit_xor (x / 2) t) half),
)
  where
    half : y * 2 / 2 ≡ y
    half = omega arith

-- `^` with a fixed word loses nothing, on either side.
pub bit_xor_cancel_right : (a b c : ℕ) → bit_xor a c ≡ bit_xor b c → a ≡ b
bit_xor_cancel_right a b c h =
    sym (bit_xor_self c a)
    ∙ ap (λ (t : ℕ). bit_xor t c) (bit_xor_comm c a ∙ h ∙ bit_xor_comm b c)
    ∙ bit_xor_self c b

pub bit_xor_cancel_left : (a b c : ℕ) → bit_xor c a ≡ bit_xor c b → a ≡ b
bit_xor_cancel_left a b c h =
    sym (bit_xor_self c a) ∙ ap (λ (t : ℕ). bit_xor t c) h ∙ bit_xor_self c b
