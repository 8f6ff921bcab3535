-- ===== src/Receivers/EventCapture/Values.antt =====
-- The values of a line that python/src/embedded_bridge/receivers/event_capture.py reads.
use embedded_bridge.Prelude.{
  ◌≡◌, ap, Bool, true, false, not, List, [], ◌∷◌, Option, none, some, if◌then◌else◌,
}
use embedded_bridge.Prelude.Int.{ℤ, pos, eqb_ℤ, eqb_ℤ→eq, eqb_ℤ_refl}
use embedded_bridge.Prelude.Dict.{Key}
use embedded_bridge.Text.Utf8.{Text}
use embedded_bridge.Text.Literal.{codes, text_eq, text_eq_refl, text_eq→eq}

-- A value of a line. Of an array or object only counts whether it is empty.
pub data Json : Type 0 where
  null : Json
  bool : Bool → Json
  int : ℤ → Json
  str : Text → Json
  array object : Bool → Json

abbrev pub Fields : Type 0
Fields = List (Text × Json)

-- The value as a key of a dict, where True is 1; `none` where it cannot be hashed.
pub data Name : Type 0 where
  number : ℤ → Name
  word : Text → Name

unfoldable pub name_of : Json → Option Name
name_of (int n) = some (number n)
name_of (str t) = some (word t)
name_of (bool true) = some (number (pos 1))
name_of (bool false) = some (number (pos 0))
name_of _ = none

unfoldable pub name_eq : Name → Name → Bool
name_eq (number n) (number m) = eqb_ℤ n m
name_eq (number n) (word u) = false
name_eq (word t) (number m) = false
name_eq (word t) (word u) = text_eq t u

pub name_eq_refl : (n : Name) → name_eq n n ≡ true
unfolding name_eq
name_eq_refl (number n) = eqb_ℤ_refl n
name_eq_refl (word t) = text_eq_refl t

pub name_eq→eq : (n m : Name) → name_eq n m ≡ true → n ≡ m
unfolding name_eq
name_eq→eq (number n) (number m) h = ap number (eqb_ℤ→eq n m h)
name_eq→eq (number n) (word u) h = cc
name_eq→eq (word t) (number m) h = cc
name_eq→eq (word t) (word u) h = ap word (text_eq→eq t u h)

abbrev pub name_key : Key Name
name_key = record { eqb = name_eq; eqb_refl = name_eq_refl; eqb→eq = name_eq→eq }

pub data Action : Type 0 where
  started stopped : Action

-- `bool(value)`
unfoldable pub is_true : Json → Bool
is_true null = false
is_true (bool b) = b
is_true (int n) = not (eqb_ℤ n (pos 0))
is_true (str []) = false
is_true (str (c ∷ t)) = true
is_true (array some_items) = some_items
is_true (object some_fields) = some_fields

-- The integer that arithmetic takes; `none` where it raises TypeError.
unfoldable pub number_of : Json → Option ℤ
number_of (int n) = some n
number_of (bool true) = some (pos 1)
number_of (bool false) = some (pos 0)
number_of _ = none

-- `obj.get("ph")`, if it is "B" or "E"
unfoldable pub action_of : Option Json → Option Action
action_of (some (str t)) =
    if text_eq t (codes "B")
    then some started
    else if text_eq t (codes "E")
    then some stopped
    else none
action_of _ = none

-- `obj.get("name")`, where it is true
unfoldable pub given_name : Option Json → Option Json
given_name none = none
given_name (some v) = if is_true v then some v else none

-- `obj.get("ts", 0)`
unfoldable pub raw_ts_of : Option Json → Json
raw_ts_of none = int (pos 0)
raw_ts_of (some v) = v
