-- ===== src/Testing/Commands/Heard.antt =====
-- What `start_test` and `discover` have heard where they return.
use embedded_bridge.Prelude.{
  ℕ, zero, suc, ◌≡◌, refl, ap, ◌∙◌, true, not, List, ◌++◌, Option, none, some, inl, inr, Bool-cases,
  Option-cases, if-holds,
}
use mathlib.Core.Path.{subst}
use embedded_bridge.Text.Utf8.{Text}
use embedded_bridge.Text.Number.{Unicode}
use embedded_bridge.Text.Literal.{codes, text_eq}
use embedded_bridge.Testing.Types.{array, no_items, Members, TestInfo}
use embedded_bridge.Testing.Protocol.{
  soh, Marker, parse_marker, parse_json_line, get, get_or, is_text,
}
use embedded_bridge.Testing.Session.{
  Host, TestSession, Ending, returned, timed_out, raised, stuck, deadline_of, is_before, read_line,
}
use embedded_bridge.Testing.Commands.{
  catalog_of, ending_of, command, catalog_in, listed_in, started_in, answered, wait_loop, discover,
  start_test,
}

-- The line is the marker that the test has started.
unfoldable pub IsStart : Unicode → Text → Text → Type 0
IsStart unicode test_id line =
    (marker : Marker) × (parse_marker unicode line ≡ some (some marker))
    × (text_eq marker.payload (codes "TEST_STARTED:" ++ test_id) ≡ true)

-- The line is a JSON object of type test_catalog, and lists these tests.
unfoldable pub IsCatalog : (Text → Option Members) → List TestInfo → Text → Type 0
IsCatalog loads tests line =
    (obj : Members) × (parse_json_line loads line ≡ some obj)
    × (is_text (codes "test_catalog") (get (codes "type") obj) ≡ true)
    × (catalog_of (get_or (codes "tests") (array no_items) obj) ≡ some tests)

module _ {W Time : Type 0} (host : Host W Time) (g : ℕ) where
  -- The last call of `_read_line` gave a line with the property.
  unfoldable pub HasRead : (Text → Type 0) → TestSession W → Type 0
  HasRead P s' =
      (s : TestSession W) × (line : Text) × (read_line host g (host.ops.tenths 5) s
        ≡ (returned (some line), s'))
      × P line

  abbrev pub Heard : {A : Type 0} → (A → Text → Type 0) → Ending A × TestSession W → Type 0
  Heard P (returned a, s) = HasRead (P a) s
  Heard P (timed_out, s) = Unit
  Heard P (raised, s) = Unit
  Heard P (stuck, s) = Unit

  -- An answer that is a return has the property of its line.
  abbrev Apt : {A : Type 0} → (A → Text → Type 0) → Text → Option (Ending A) → Type 0
  Apt P line none = Unit
  Apt P line (some (returned a)) = P a line
  Apt P line (some timed_out) = Unit
  Apt P line (some raised) = Unit
  Apt P line (some stuck) = Unit

  Apt-Heard :
      {A : Type 0} (P : A → Text → Type 0) (line : Text) (ending : Ending A) (s s' : TestSession W)
      → read_line host g (host.ops.tenths 5) s ≡ (returned (some line), s')
      → Apt P line (some ending)
      → Heard P (ending, s')
  unfolding HasRead
  Apt-Heard P line (returned a) s s' e apt = (s, line, e, apt)
  Apt-Heard P line timed_out s s' e apt = tt
  Apt-Heard P line raised s s' e apt = tt
  Apt-Heard P line stuck s s' e apt = tt

  answered-Heard :
      {A : Type 0} (P : A → Text → Type 0) (answer : Text → Option (Ending A))
      (again : Ending A × TestSession W) (line : Ending (Option Text)) (s s' : TestSession W)
      → ((t : Text) → Apt P t (answer t))
      → read_line host g (host.ops.tenths 5) s ≡ (line, s')
      → Heard P again
      → Heard P (answered host answer again line s')
  unfolding answered
  answered-Heard P answer again (returned none) s s' apt e h = h
  answered-Heard P answer again (returned (some line)) s s' apt e h =
      elim (Option-cases (answer line)) [
        | inl nothing ↦ rw (answered, nothing) h
        | inr (ending, e') ↦
            rw (answered, e') (Apt-Heard P line ending s s' e (subst (Apt P line) e' (apt line)))
      ]
  answered-Heard P answer again timed_out s s' apt e h = tt
  answered-Heard P answer again raised s s' apt e h = tt
  answered-Heard P answer again stuck s s' apt e h = tt

  wait_loop-Heard :
      {A : Type 0} (P : A → Text → Type 0) (answer : Text → Option (Ending A)) (fuel : ℕ)
      (deadline : Time) (s : TestSession W)
      → ((t : Text) → Apt P t (answer t))
      → Heard P (wait_loop host answer fuel g deadline s)
  unfolding wait_loop
  wait_loop-Heard P answer zero deadline s apt = tt
  wait_loop-Heard P answer (suc fuel) deadline s apt =
      let (early, s₀) = is_before host deadline s in
      let (line, s₁) = read_line host g (host.ops.tenths 5) s₀ in
      if-holds (Heard P) (not early) tt (
        answered-Heard P answer (wait_loop host answer fuel g deadline s₁) line s₀ s₁ apt refl
          (wait_loop-Heard P answer fuel deadline s₁ apt))

  started_in-Apt :
      (test_id line : Text)
      → Apt (λ _. IsStart host.unicode test_id) line (started_in host test_id line)
  unfolding started_in IsStart
  started_in-Apt test_id line = elim (Option-cases (parse_marker host.unicode line)) [
    | inl e ↦ rw (started_in, e) tt
    | inr (found, e) ↦ elim (Option-cases found) [
      | inl nothing ↦ rw (started_in, e, nothing) tt
      | inr (marker, is_found) ↦
          elim (Bool-cases (text_eq marker.payload (codes "TEST_STARTED:" ++ test_id))) [
            | inl same ↦
                rw (started_in, e, is_found, same)
                  (marker, e ∙ ap (λ (x : Option Marker). some x) is_found, same)
            | inr differs ↦ rw (started_in, e, is_found, differs) tt
          ]
    ]
  ]

  listed_in-Apt :
      (line : Text) → Apt (λ tests. IsCatalog host.loads tests) line (listed_in host line)
  unfolding listed_in catalog_in ending_of IsCatalog
  listed_in-Apt line = elim (Option-cases (parse_json_line host.loads line)) [
    | inl e ↦ rw (listed_in, catalog_in, e) tt
    | inr (obj, e) ↦ elim (Bool-cases (is_text (codes "test_catalog") (get (codes "type") obj))) [
      | inr other_type ↦ rw (listed_in, catalog_in, e, other_type) tt
      | inl is_type ↦
          elim (Option-cases (catalog_of (get_or (codes "tests") (array no_items) obj))) [
            | inl bad ↦ rw (listed_in, catalog_in, e, is_type, bad) tt
            | inr (tests, e') ↦ rw (listed_in, catalog_in, e, is_type, e') (obj, e, is_type, e')
          ]
    ]
  ]

  -- Where `start_test` returns, the last line that it read is the marker TEST_STARTED of this test:
  -- whatever else the device sends before, and it reads nothing behind that line.
  pub start_test-Heard :
      (fuel : ℕ) (test_id : Text) (timeout : Time) (params : Option Text) (s : TestSession W)
      → Heard (λ _. IsStart host.unicode test_id) (start_test host fuel g test_id timeout params s)
  unfolding start_test
  start_test-Heard fuel test_id timeout params s = elim (Option-cases (command test_id params)) [
    | inl e ↦ rw (start_test, e) tt
    | inr (cmd, e) ↦
        let (written, w) = host.transport.write cmd s.world in
        let (deadline, s') = deadline_of host timeout (record s { world = w }) in
        rw (start_test, e)
          (if-holds (Heard (λ _. IsStart host.unicode test_id)) written
            (wait_loop-Heard (λ _. IsStart host.unicode test_id) (started_in host test_id) fuel
              deadline s' (started_in-Apt test_id))
            tt)
  ]

  -- The list that `discover` returns is the tests of the last line that it read, which is a JSON
  -- object of type "test_catalog".
  pub discover-Heard :
      (fuel : ℕ) (timeout : Time) (s : TestSession W)
      → Heard (λ tests. IsCatalog host.loads tests) (discover host fuel g timeout s)
  unfolding discover
  discover-Heard fuel timeout s =
      let (written, w) = host.transport.write soh s.world in
      let (deadline, s') = deadline_of host timeout (record s { world = w }) in
      if-holds (Heard (λ tests. IsCatalog host.loads tests)) written
        (wait_loop-Heard (λ tests. IsCatalog host.loads tests) (listed_in host) fuel deadline s'
          listed_in-Apt)
        tt
