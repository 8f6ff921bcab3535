-- ===== src/Text/Regex/Spans.antt =====
-- How far the repetitions of a pattern go, and what a literal and a group match.
use embedded_bridge.Prelude.{
  ℕ, ◌-◌, ◌≡◌, refl, ap, ◌∙◌, arith, ◌==◌, Bool, true, false, [], ◌∷◌, ◌++◌, Option, none, some,
  length, take, length-append, append-nil, take-length_append, All,
}
use mathlib.Core.Path.{subst}
use embedded_bridge.Text.Utf8.{Text}
use embedded_bridge.Text.Regex.{
  Regex, Captures, or_else, match_many, match_few, match_with, match_one, literal_then,
}

module _ {A : Type 0} where
  -- The rest of a pattern fails at each place in `xs`, before the text behind it.
  unfoldable pub Fails : (Text → Option A) → Text → Text → Type 0
  Fails k [] rest = Unit
  Fails k (x ∷ xs) rest = (k ((x ∷ xs) ++ rest) ≡ none) × Fails k xs rest

  -- A lazy repetition goes on to the first place where the rest matches.
  pub match_few-Fails :
      (p : ℕ → Bool) (xs rest : Text) (k : Text → Option A) (a : A)
      → All (λ x. p x ≡ true) xs
      → Fails k xs rest
      → k rest ≡ some a
      → match_few p (xs ++ rest) k ≡ some a
  unfolding Fails match_few or_else
  match_few-Fails p [] [] k a ps fails h = h
  match_few-Fails p [] (c ∷ rest) k a ps fails h = rw h refl
  match_few-Fails p (x ∷ xs) rest k a (px, ps) (fail, fails) h =
      rw (fail, px) (match_few-Fails p xs rest k a ps fails h)

  -- A greedy repetition of no characters.
  pub match_many-none :
      (p : ℕ → Bool) (c : ℕ) (text : Text) (k : Text → Option A)
      → p c ≡ false
      → match_many p (c ∷ text) k ≡ k (c ∷ text)
  unfolding match_many
  match_many-none p c text k h = rw h refl

  -- A greedy repetition of characters takes all of them, if the rest matches there.
  pub match_many-taken :
      (p : ℕ → Bool) (xs : Text) (c : ℕ) (rest : Text) (k : Text → Option A) (a : A)
      → All (λ x. p x ≡ true) xs
      → p c ≡ false
      → k (c ∷ rest) ≡ some a
      → match_many p (xs ++ (c ∷ rest)) k ≡ some a
  unfolding match_many or_else
  match_many-taken p [] c rest k a ps h e = rw h e
  match_many-taken p (x ∷ xs) c rest k a (px, ps) h e =
      rw (px, match_many-taken p xs c rest k a ps h e) refl

  pub match_many-end :
      (p : ℕ → Bool) (xs : Text) (k : Text → Option A) (a : A)
      → All (λ x. p x ≡ true) xs
      → k [] ≡ some a
      → match_many p xs k ≡ some a
  unfolding match_many or_else
  match_many-end p [] k a ps e = e
  match_many-end p (x ∷ xs) k a (px, ps) e = rw (px, match_many-end p xs k a ps e) refl

  pub match_with-literal :
      (word text : Text) (r : Regex) (groups : Captures) (k : Captures → Text → Option A)
      → match_with (literal_then word r) groups (word ++ text) k ≡ match_with r groups text k
  unfolding match_with literal_then match_one
  match_with-literal [] text r groups k = refl
  match_with-literal (c ∷ word) text r groups k =
      let same : (c == c) ≡ true = ground arith in rw same (match_with-literal word text r groups k)

-- The text that a group matched.
pub consumed : (xs rest : Text) → take (length (xs ++ rest) - length rest) (xs ++ rest) ≡ xs
consumed xs rest =
    ap (λ (n : ℕ). take n (xs ++ rest)) (omega (arith, length-append xs rest))
    ∙ take-length_append xs rest

pub consumed_all : (xs : Text) → take (length xs - 0) xs ≡ xs
consumed_all xs = subst (λ (t : Text). take (length t - 0) t ≡ xs) (append-nil xs) (consumed xs [])
