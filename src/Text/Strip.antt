-- ===== src/Text/Strip.antt =====
-- `str.strip`.
use embedded_bridge.Prelude.{
  ◌≡◌, refl, false, ◌++◌, Bool, [], ◌∷◌, ℕ, leb, ◌==◌, ◌&&◌, ◌||◌, if◌then◌else◌,
}
use embedded_bridge.Text.Utf8.{Text}

-- The characters that `strip` takes off.
unfoldable pub is_space : ℕ → Bool
is_space c =
    (leb 9 c && leb c 13)
    || (leb 28 c && leb c 32)
    || c == 0x85
    || c == 0xA0
    || c == 0x1680
    || (leb 0x2000 c && leb c 0x200A)
    || c == 0x2028
    || c == 0x2029
    || c == 0x202F
    || c == 0x205F
    || c == 0x3000

pub strip_left : Text → Text
strip_left [] = []
strip_left (c ∷ text) = if is_space c then strip_left text else c ∷ text

-- A space is kept where something else is behind it.
pub strip_right : Text → Text
strip_right [] = []
strip_right (c ∷ text) = elim (strip_right text) [
  | [] ↦ if is_space c then [] else c ∷ []
  | d ∷ rest ↦ c ∷ d ∷ rest
]

unfoldable pub strip : Text → Text
unfolding strip_left strip_right is_space
strip text = strip_right (strip_left text)

-- The last character is no white space; a text without characters has none.
unfoldable pub EndsSolid : Text → Type 0
EndsSolid [] = ⊥
EndsSolid (c ∷ []) = is_space c ≡ false
EndsSolid (c ∷ d ∷ text) = EndsSolid (d ∷ text)

pub EndsSolid-append : (xs ys : Text) → EndsSolid ys → EndsSolid (xs ++ ys)
unfolding EndsSolid
EndsSolid-append [] ys h = h
EndsSolid-append (x ∷ []) [] h = absurd h
EndsSolid-append (x ∷ []) (y ∷ ys) h = h
EndsSolid-append (x ∷ z ∷ xs) ys h = EndsSolid-append (z ∷ xs) ys h

strip_right-EndsSolid : (text : Text) → EndsSolid text → strip_right text ≡ text
unfolding EndsSolid strip_right
strip_right-EndsSolid [] h = refl
strip_right-EndsSolid (c ∷ []) h = rw h refl
strip_right-EndsSolid (c ∷ d ∷ text) h = rw (strip_right, strip_right-EndsSolid (d ∷ text) h) refl

-- A text without white space at its ends is left as it is.
pub strip-EndsSolid :
    (c : ℕ) (text : Text) → is_space c ≡ false → EndsSolid (c ∷ text) → strip (c ∷ text) ≡ c ∷ text
unfolding strip strip_left
strip-EndsSolid c text h ends = rw h (strip_right-EndsSolid (c ∷ text) ends)
