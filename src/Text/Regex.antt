-- ===== src/Text/Regex.antt =====
-- Regular expressions as the module `re` matches them: the parts of a pattern are tried in order,
-- and the first way to match the whole of it is taken. A repetition is one of a single character.
pub mod Spans
use embedded_bridge.Prelude.{
  ℕ, zero, suc, ◌-◌, Bool, true, false, List, [], ◌∷◌, Option, none, some, length, take, ◌==◌,
  if◌then◌else◌,
}
use embedded_bridge.Text.Utf8.{Text}

-- `many` is greedy, `few` is lazy; `optional` is greedy.
pub data Regex : Type 0 where
  one : (ℕ → Bool) → Regex
  many few : (ℕ → Bool) → Regex
  seq either : Regex → Regex → Regex
  optional : Regex → Regex
  group : ℕ → Regex → Regex
  at_end : Regex

-- What the groups matched, the last one first.
abbrev pub Captures : Type 0
Captures = List (ℕ × Text)

module _ {A : Type 0} where
  unfoldable pub or_else : Option A → Option A → Option A
  or_else (some a) other = some a
  or_else none other = other

  -- A repetition, and the rest of the pattern behind it.
  unfoldable pub match_many : (ℕ → Bool) → Text → (Text → Option A) → Option A
  match_many p [] k = k []
  match_many p (c ∷ text) k =
      let more = match_many p text k in if p c then or_else more (k (c ∷ text)) else k (c ∷ text)

  unfoldable pub match_few : (ℕ → Bool) → Text → (Text → Option A) → Option A
  match_few p [] k = k []
  match_few p (c ∷ text) k =
      let more = match_few p text k in or_else (k (c ∷ text)) (if p c then more else none)

  unfoldable pub match_one : (ℕ → Bool) → Text → (Text → Option A) → Option A
  match_one p [] k = none
  match_one p (c ∷ text) k = if p c then k text else none

-- `$`: at the end, or before a newline at the end.
unfoldable pub is_end : Text → Bool
is_end [] = true
is_end (c ∷ []) = c == 10
is_end (c ∷ d ∷ text) = false

-- A match of the pattern at the start of a text, and of the rest `k` behind it.
unfoldable pub match_with :
    {A : Type 0} → Regex → Captures → Text → (Captures → Text → Option A) → Option A
match_with (one p) groups text k = match_one p text (k groups)
match_with (many p) groups text k = match_many p text (k groups)
match_with (few p) groups text k = match_few p text (k groups)
match_with (seq r r') groups text k =
    match_with r groups text (λ groups' text'. match_with r' groups' text' k)
match_with (either r r') groups text k =
    or_else (match_with r groups text k) (match_with r' groups text k)
match_with (optional r) groups text k = or_else (match_with r groups text k) (k groups text)
match_with (group n r) groups text k =
    match_with r groups text
      (λ groups' text'. k ((n, take (length text - length text') text) ∷ groups') text')
match_with at_end groups text k = if is_end text then k groups text else none

-- `re.match`: the groups, and the text behind the match.
unfoldable pub match : Regex → Text → Option (Captures × Text)
match r text = match_with r [] text (λ groups rest. some (groups, rest))

-- `re.search`: the first place where the pattern matches.
unfoldable pub search : Regex → Text → Option (Captures × Text)
search r [] = match r []
search r (c ∷ text) = or_else (match r (c ∷ text)) (search r text)

-- `re.finditer` of a pattern that matches no empty text, on fuel of more than the text's length.
unfoldable pub find_all : ℕ → Regex → Text → List Captures
find_all zero r text = []
find_all (suc fuel) r [] = []
find_all (suc fuel) r (c ∷ text) = elim (match r (c ∷ text)) [
  | none ↦ find_all fuel r text
  | some (groups, rest) ↦ groups ∷ find_all fuel r rest
]

-- `m.group(n)`
unfoldable pub group_of : ℕ → Captures → Option Text
group_of n [] = none
group_of n ((i, text) ∷ groups) = if i == n then some text else group_of n groups

-- A text that stands for itself, before the rest of a pattern.
unfoldable pub literal_then : Text → Regex → Regex
literal_then [] r = r
literal_then (c ∷ text) r = seq (one (λ x. x == c)) (literal_then text r)
