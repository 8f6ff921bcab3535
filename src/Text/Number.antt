-- ===== src/Text/Number.antt =====
-- Numbers in texts: `int(text)`, and two hexadecimal digits.
mod Tests
use embedded_bridge.Prelude.{
  ℕ, zero, suc, ◌+◌, ◌-◌, ◌*◌, Bool, true, false, List, [], ◌∷◌, Option, none, some, length, ltb,
  leb, ◌==◌, ◌&&◌, if◌then◌else◌,
}
use embedded_bridge.Prelude.Int.{ℤ, pos, negsuc}
use embedded_bridge.Text.Utf8.{Text}
use embedded_bridge.Text.Strip.{strip}

-- What the code relies on of the tables of Unicode: the characters of `\w`, and the values of
-- decimal digits, which are the characters of `\d`.
pub record Unicode : Type 0 where
  pub is_word : ℕ → Bool
  pub digit_of : ℕ → Option ℕ

module _ (unicode : Unicode) where
  -- The digits behind a digit, with at most one underscore between two digits; `count` have been read.
  unfoldable pub int_digits : ℕ → ℕ → Text → Option ℕ
  int_digits count n [] = if leb count 4300 then some n else none
  int_digits count n (c ∷ []) = elim (unicode.digit_of c) [
    | none ↦ none
    | some d ↦ if ltb count 4300 then some (n * 10 + d) else none
  ]
  int_digits count n (c ∷ e ∷ text) =
      let skip = int_digits count n (e ∷ text) in
      elim (unicode.digit_of c) [
        | some d ↦ int_digits (suc count) (n * 10 + d) (e ∷ text)
        | none ↦ elim (unicode.digit_of e) [
          | none ↦ none
          | some d ↦ if c == 0x5F then skip else none
        ]
      ]

  unfoldable pub int_unsigned : Text → Option ℕ
  int_unsigned [] = none
  int_unsigned (c ∷ text) = elim (unicode.digit_of c) [ none ↦ none | some d ↦ int_digits 1 d text ]

  unfoldable pub negated : Option ℕ → Option ℤ
  negated none = none
  negated (some zero) = some (pos zero)
  negated (some (suc n)) = some (negsuc n)

  unfoldable pub int_signed : Text → Option ℤ
  int_signed [] = none
  int_signed (c ∷ text) =
      if c == 0x2D
      then negated (int_unsigned text)
      else elim (int_unsigned (if c == 0x2B then text else c ∷ text)) [
        | none ↦ none
        | some n ↦ some (pos n)
      ]

  -- `int(text)`; `none` is ValueError, also for more than 4300 digits.
  unfoldable pub int_of : Text → Option ℤ
  int_of text = int_signed (strip text)
