-- ===== src/Prelude/Bits/Digit.antt =====
-- The bitwise operators by their lowest digit, induction by halves, and the zero word.
use Prim.Native.Nat.{
  ℕ, zero, suc, ◌+◌, ◌-◌, ◌*◌, ◌/◌, ◌%◌, ◌≤◌, ◌<◌, min, max, differ, digits, bitwise,
}
use Prim.Native.Nat.{bit_and, bit_or, bit_xor, bit_and-bitwise, bit_or-bitwise, bit_xor-bitwise}
use mathlib.Core.Path.{◌≡◌, refl, ap, sym, ◌∙◌}
use native.Mathlib.Nat.{zero-add, suc-add}
use native.Mathlib.Omega.{arith}

-- `digits` gives the same for one more unit of fuel, and so for any fuel from its number on.
module _ (rest : ℕ → ℕ) (f : ℕ → ℕ → ℕ) where
  one_more : (a fuel b : ℕ) → a ≤ fuel → digits rest f (suc fuel) a b ≡ digits rest f fuel a b
  one_more zero zero b h = refl
  one_more zero (suc fuel) b h = refl
  one_more (suc a) zero b h = elim h [ ]
  one_more (suc a) (suc fuel) b h =
      ap (λ (t : ℕ). t * 2 + f (suc a % 2) (b % 2))
        (one_more (suc a / 2) fuel (b / 2) (omega arith))

  enough :
      (surplus a b fuel : ℕ) → fuel ≡ surplus + a → digits rest f fuel a b ≡ digits rest f a a b
  enough zero a b fuel h = rw (h ∙ zero-add a) refl
  enough (suc surplus) a b fuel h =
      ap (λ (t : ℕ). digits rest f t a b) (h ∙ suc-add surplus a)
      ∙ one_more a (surplus + a) b (omega arith)
      ∙ enough surplus a b (surplus + a) refl

  lowest_digit :
      (a b : ℕ)
      → bitwise rest f (suc a) b ≡ bitwise rest f (suc a / 2) (b / 2) * 2 + f (suc a % 2) (b % 2)
  lowest_digit a b =
      ap (λ (t : ℕ). t * 2 + f (suc a % 2) (b % 2))
        (enough (a - suc a / 2) (suc a / 2) (b / 2) a (omega arith))

-- Induction on a number by its half.
halving_below : (P : ℕ → Type 0) → P 0 → ((a : ℕ) → P (a / 2) → P a) → (n a : ℕ) → a ≤ n → P a
halving_below P base step n zero h = base
halving_below P base step zero (suc a) h = elim h [ ]
halving_below P base step (suc n) (suc a) h =
    step (suc a) (halving_below P base step n (suc a / 2) (omega arith))

pub halving : (P : ℕ → Type 0) → P 0 → ((a : ℕ) → P (a / 2) → P a) → (a : ℕ) → P a
halving P base step a = halving_below P base step a a (omega arith)

-- The lowest digit of each operator.
pub bit_and_step : (x y : ℕ) → bit_and x y ≡ bit_and (x / 2) (y / 2) * 2 + min (x % 2) (y % 2)
bit_and_step zero y = omega (arith, bit_and-bitwise 0 y, bit_and-bitwise 0 (y / 2))
bit_and_step (suc x) y =
    bit_and-bitwise (suc x) y
    ∙ lowest_digit (λ _. 0) min x y
    ∙ ap (λ (t : ℕ). t * 2 + min (suc x % 2) (y % 2)) (sym (bit_and-bitwise (suc x / 2) (y / 2)))

pub bit_or_step : (x y : ℕ) → bit_or x y ≡ bit_or (x / 2) (y / 2) * 2 + max (x % 2) (y % 2)
bit_or_step zero y = omega (arith, bit_or-bitwise 0 y, bit_or-bitwise 0 (y / 2))
bit_or_step (suc x) y =
    bit_or-bitwise (suc x) y
    ∙ lowest_digit (λ t. t) max x y
    ∙ ap (λ (t : ℕ). t * 2 + max (suc x % 2) (y % 2)) (sym (bit_or-bitwise (suc x / 2) (y / 2)))

pub bit_xor_step : (x y : ℕ) → bit_xor x y ≡ bit_xor (x / 2) (y / 2) * 2 + differ (x % 2) (y % 2)
bit_xor_step zero y = omega (arith, bit_xor-bitwise 0 y, bit_xor-bitwise 0 (y / 2))
bit_xor_step (suc x) y =
    bit_xor-bitwise (suc x) y
    ∙ lowest_digit (λ t. t) differ x y
    ∙ ap (λ (t : ℕ). t * 2 + differ (suc x % 2) (y % 2)) (sym (bit_xor-bitwise (suc x / 2) (y / 2)))

differ_sum : (x y : ℕ) → x < 2 → y < 2 → differ x y ≡ (x + y) % 2
differ_sum zero zero h k = refl
differ_sum zero (suc zero) h k = refl
differ_sum zero (suc (suc y)) h k = absurd (omega arith)
differ_sum (suc zero) zero h k = refl
differ_sum (suc zero) (suc zero) h k = refl
differ_sum (suc zero) (suc (suc y)) h k = absurd (omega arith)
differ_sum (suc (suc x)) y h k = absurd (omega arith)

pub bit_xor_sum : (a b : ℕ) → bit_xor a b ≡ bit_xor (a / 2) (b / 2) * 2 + (a % 2 + b % 2) % 2
bit_xor_sum a b =
    omega (arith, bit_xor_step a b, differ_sum (a % 2) (b % 2) (omega arith) (omega arith))

-- The zero word.
pub bit_and-zero : (a : ℕ) → bit_and a 0 ≡ 0
bit_and-zero =
    halving (λ a. bit_and a 0 ≡ 0) refl (λ a below. omega (arith, bit_and_step a 0, below))

pub zero-bit_or : (a : ℕ) → bit_or 0 a ≡ a
zero-bit_or a = bit_or-bitwise 0 a

pub zero-bit_xor : (a : ℕ) → bit_xor 0 a ≡ a
zero-bit_xor a = bit_xor-bitwise 0 a

pub bit_or-zero : (a : ℕ) → bit_or a 0 ≡ a
bit_or-zero = halving (λ a. bit_or a 0 ≡ a) refl (λ a below. omega (arith, bit_or_step a 0, below))

pub bit_xor-zero : (a : ℕ) → bit_xor a 0 ≡ a
bit_xor-zero =
    halving (λ a. bit_xor a 0 ≡ a) refl (λ a below. omega (arith, bit_xor_sum a 0, below))
