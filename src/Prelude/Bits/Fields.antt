-- ===== src/Prelude/Bits/Fields.antt =====
-- A word that is split into a high and a low field: the operators work on each field.
use Prim.Native.Nat.{ℕ, zero, suc, ◌+◌, ◌*◌, ◌/◌, ◌%◌, ◌^◌, ◌<◌, min, max, differ}
use Prim.Native.Nat.{bit_and, bit_or, bit_xor}
use mathlib.Core.Path.{◌≡◌, refl, ap}
use native.Mathlib.Nat.{pow-suc}
use native.Mathlib.Omega.{arith}
use embedded_bridge.Prelude.Bits.Digit.{bit_and_step, bit_or_step, bit_xor_step}

double_pow : (q k : ℕ) → q * 2 ^ suc k ≡ 2 * (q * 2 ^ k)
double_pow q k = omega (arith, ap (λ (t : ℕ). q * t) (pow-suc 2 k))

-- An operator with a digit law works field by field, at every width of the low field.
module _ (op f : ℕ → ℕ → ℕ)
    (digit : (a b : ℕ) → op a b ≡ op (a / 2) (b / 2) * 2 + f (a % 2) (b % 2))
    (zero_op : op 0 0 ≡ 0) where
  halves :
      (a b c d : ℕ)
      → op (2 * a + b) (2 * c + d) ≡ op (a + b / 2) (c + d / 2) * 2 + f (b % 2) (d % 2)
  halves a b c d = rw digit (
      cc (
        ap (λ (t : ℕ). op t ((2 * c + d) / 2)) e₁,
        ap (λ (t : ℕ). op (a + b / 2) t) e₂,
        ap (λ (t : ℕ). f t ((2 * c + d) % 2)) e₃,
        ap (λ (t : ℕ). f (b % 2) t) e₄,
      ))
    where
      e₁ : (2 * a + b) / 2 ≡ a + b / 2
      e₁ = omega arith

      e₂ : (2 * c + d) / 2 ≡ c + d / 2
      e₂ = omega arith

      e₃ : (2 * a + b) % 2 ≡ b % 2
      e₃ = omega arith

      e₄ : (2 * c + d) % 2 ≡ d % 2
      e₄ = omega arith

  fields :
      (k a b c d : ℕ)
      → b < 2 ^ k
      → d < 2 ^ k
      → op (a * 2 ^ k + b) (c * 2 ^ k + d) ≡ op a c * 2 ^ k + op b d
  fields zero a zero c zero hb hd =
      omega (
        arith,
        zero_op,
        ap (λ (t : ℕ). op t c) (one a),
        ap (λ (t : ℕ). op (a * 2 ^ 0 + 0) t) (one c),
      )
    where
      one : (t : ℕ) → t * 2 ^ 0 + 0 ≡ t
      one t = omega arith
  fields zero a (suc b) c d hb hd = absurd (omega arith)
  fields zero a zero c (suc d) hb hd = absurd (omega arith)
  fields (suc k) a b c d hb hd =
      rw (double_pow a k, double_pow c k, halves)
        (omega (
          arith,
          fields k a (b / 2) c (d / 2) (half b hb) (half d hd),
          digit b d,
          double_pow (op a c) k,
        ))
    where
      half : (t : ℕ) → t < 2 ^ suc k → t / 2 < 2 ^ k
      half t h = omega (arith, pow-suc 2 k)

pub bit_and_fields :
    (k a b c d : ℕ)
    → b < 2 ^ k
    → d < 2 ^ k
    → bit_and (a * 2 ^ k + b) (c * 2 ^ k + d) ≡ bit_and a c * 2 ^ k + bit_and b d
bit_and_fields = fields bit_and min bit_and_step refl

pub bit_or_fields :
    (k a b c d : ℕ)
    → b < 2 ^ k
    → d < 2 ^ k
    → bit_or (a * 2 ^ k + b) (c * 2 ^ k + d) ≡ bit_or a c * 2 ^ k + bit_or b d
bit_or_fields = fields bit_or max bit_or_step refl

pub bit_xor_fields :
    (k a b c d : ℕ)
    → b < 2 ^ k
    → d < 2 ^ k
    → bit_xor (a * 2 ^ k + b) (c * 2 ^ k + d) ≡ bit_xor a c * 2 ^ k + bit_xor b d
bit_xor_fields = fields bit_xor differ bit_xor_step refl
