-- ===== src/Prelude/Dict.antt =====
-- A Python dict as an association list in the order of insertion: a key that is there keeps its
-- place when its value changes. Keys are compared by a test of theirs.
use embedded_bridge.Prelude.{
  ◌≡◌, refl, ap, ◌∙◌, arith, Bool, true, List, [], ◌∷◌, Option, none, some, if◌then◌else◌,
}

pub record Key (K : Type 0) : Type 0 where
  pub eqb : K → K → Bool
  pub eqb_refl : (k : K) → eqb k k ≡ true
  pub eqb→eq : (k j : K) → eqb k j ≡ true → k ≡ j

module _ {K : Type 0} (key : Key K) where
  -- Equal keys compare alike with a third, and two keys that equal a third are equal.
  same_key : (i k j : K) → key.eqb i k ≡ true → key.eqb i j ≡ key.eqb k j
  same_key i k j e = ap (λ (x : K). key.eqb x j) (key.eqb→eq i k e)

  equal_keys : (i j k : K) → key.eqb i j ≡ true → key.eqb k j ≡ true → key.eqb i k ≡ true
  equal_keys i j k e h = ap (λ (x : K). key.eqb i x) (key.eqb→eq k j h) ∙ e

module _ {K V : Type 0} (key : Key K) where
  unfoldable pub lookup : K → List (K × V) → Option V
  lookup k [] = none
  lookup k ((j, v) ∷ entries) = if key.eqb j k then some v else lookup k entries

  unfoldable pub insert : K → V → List (K × V) → List (K × V)
  insert k v [] = (k, v) ∷ []
  insert k v ((j, w) ∷ entries) =
      if key.eqb j k then (j, v) ∷ entries else (j, w) ∷ insert k v entries

  unfoldable pub remove : K → List (K × V) → List (K × V)
  remove k [] = []
  remove k ((j, w) ∷ entries) = if key.eqb j k then remove k entries else (j, w) ∷ remove k entries

  pub lookup-insert :
      (k j : K) (v : V) (entries : List (K × V))
      → lookup j (insert k v entries) ≡ (if key.eqb k j then some v else lookup j entries)
  unfolding lookup insert
  lookup-insert k j v [] = refl
  lookup-insert k j v ((i, w) ∷ entries) =
      ground (arith, same_key key i k j, equal_keys key i j k, lookup-insert k j v entries)

  pub lookup-remove :
      (k j : K) (entries : List (K × V))
      → lookup j (remove k entries) ≡ (if key.eqb k j then none else lookup j entries)
  unfolding lookup remove
  lookup-remove k j [] = ground arith
  lookup-remove k j ((i, w) ∷ entries) =
      ground (arith, same_key key i k j, equal_keys key i j k, lookup-remove k j entries)
