-- ===== src/Text/Literal.antt =====
-- Text literals and the comparison of texts.
use Prim.Native.Char.{code}
use Prim.Native.String.{String}
use embedded_bridge.Prelude.{◌≡◌, refl, arith, Bool, true, false, [], ◌∷◌, ◌==◌, ◌&&◌}
use embedded_bridge.Prelude.Dict.{Key}
use embedded_bridge.Text.Utf8.{Text}

abbrev pub codes : String → Text
codes (String.◌∷◌ c s) = code c ∷ codes s
codes String.[] = []

unfoldable pub text_eq : Text → Text → Bool
text_eq [] [] = true
text_eq [] (d ∷ u) = false
text_eq (c ∷ t) [] = false
text_eq (c ∷ t) (d ∷ u) = c == d && text_eq t u

pub text_eq_refl : (t : Text) → text_eq t t ≡ true
unfolding text_eq
text_eq_refl [] = refl
text_eq_refl (c ∷ t) = ground (arith, text_eq_refl t)

pub text_eq→eq : (t u : Text) → text_eq t u ≡ true → t ≡ u
unfolding text_eq
text_eq→eq [] [] h = refl
text_eq→eq [] (d ∷ u) h = cc
text_eq→eq (c ∷ t) [] h = cc
text_eq→eq (c ∷ t) (d ∷ u) h = ground (arith, h, text_eq→eq t u)

abbrev pub text_key : Key Text
text_key = record { eqb = text_eq; eqb_refl = text_eq_refl; eqb→eq = text_eq→eq }
