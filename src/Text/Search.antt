-- ===== src/Text/Search.antt =====
-- `str.startswith` and the test `in` of texts.
use embedded_bridge.Prelude.{◌≡◌, refl, arith, ◌++◌, Bool, true, false, [], ◌∷◌, ◌==◌, ◌&&◌, ◌||◌}
use embedded_bridge.Text.Utf8.{Text}

unfoldable pub starts_with : Text → Text → Bool
starts_with [] line = true
starts_with (c ∷ pattern) [] = false
starts_with (c ∷ pattern) (d ∷ line) = c == d && starts_with pattern line

unfoldable pub contains : Text → Text → Bool
contains pattern [] = starts_with pattern []
contains pattern (c ∷ line) = starts_with pattern (c ∷ line) || contains pattern line

pub starts_with-append : (prefix text : Text) → starts_with prefix (prefix ++ text) ≡ true
unfolding starts_with
starts_with-append [] text = refl
starts_with-append (c ∷ prefix) text = ground (arith, starts_with-append prefix text)
