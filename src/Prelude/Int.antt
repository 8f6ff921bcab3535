-- ===== src/Prelude/Int.antt =====
-- Python's integers, by their sign. Sums, differences and tests go through the two parts of an
-- integer, which are numbers that the tactics read.
use embedded_bridge.Prelude.{
  ℕ, suc, ◌+◌, ◌-◌, ◌≡◌, arith, Bool, true, ltb, ◌==◌, ◌&&◌, if◌then◌else◌,
}

-- `negsuc n` is -(n + 1).
pub data ℤ : Type 0 where
  pos : ℕ → ℤ
  negsuc : ℕ → ℤ

abbrev pub pos_part : ℤ → ℕ
pos_part (negsuc n) = 0
pos_part (pos n) = n

abbrev pub neg_part : ℤ → ℕ
neg_part (negsuc n) = suc n
neg_part (pos n) = 0

-- The integer p - n.
abbrev pub sub_ℕ : ℕ → ℕ → ℤ
sub_ℕ p n = if ltb p n then negsuc (n - p - 1) else pos (p - n)

infixl 65 ◌+ℤ◌ ◌-ℤ◌
unfoldable pub ◌+ℤ◌ : ℤ → ℤ → ℤ
x +ℤ y = sub_ℕ (pos_part x + pos_part y) (neg_part x + neg_part y)

unfoldable pub ◌-ℤ◌ : ℤ → ℤ → ℤ
x -ℤ y = sub_ℕ (pos_part x + neg_part y) (neg_part x + pos_part y)

abbrev pub ltb_ℤ : ℤ → ℤ → Bool
ltb_ℤ x y = ltb (pos_part x + neg_part y) (pos_part y + neg_part x)

abbrev pub eqb_ℤ : ℤ → ℤ → Bool
eqb_ℤ x y = pos_part x == pos_part y && neg_part x == neg_part y

pub eqb_ℤ→eq : (x y : ℤ) → eqb_ℤ x y ≡ true → x ≡ y
eqb_ℤ→eq x y h = ground (arith, h)

pub eqb_ℤ_refl : (x : ℤ) → eqb_ℤ x x ≡ true
eqb_ℤ_refl x = ground arith
