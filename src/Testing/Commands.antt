-- ===== src/Testing/Commands.antt =====
-- python/src/embedded_bridge/testing/session.py: discover and start_test.
mod Heard
mod Total
mod Tests
use embedded_bridge.Prelude.{
  ℕ, zero, suc, Bool, true, not, List, [], ◌∷◌, ◌++◌, Option, none, some, ltb, ◌&&◌, if◌then◌else◌,
}
use embedded_bridge.Text.Utf8.{Text}
use embedded_bridge.Text.Literal.{codes, text_eq}
use embedded_bridge.Testing.Types.{
  Json, str, array, object, other, Items, no_items, item, no_members, member, TestInfo,
}
use embedded_bridge.Testing.Protocol.{soh, stx, parse_marker, parse_json_line, get, get_or, is_text}
use embedded_bridge.Testing.Session.{
  Host, TestSession, Ending, returned, timed_out, raised, stuck, deadline_of, is_before, read_line,
}

-- Whether `encode("ascii")` does not raise.
pub is_ascii : Text → Bool
is_ascii [] = true
is_ascii (c ∷ text) = ltb c 128 && is_ascii text

-- `t["id"]` and the rest of a TestInfo; `none` where it raises.
pub test_of : Json → Option TestInfo
test_of (object members) = elim (get (codes "id") members) [
  | none ↦ none
  | some id ↦ some (record {
    id = id;
    name = get_or (codes "name") id members;
    group = get_or (codes "group") (str []) members;
  })
]
test_of _ = none

pub tests_of : Items → Option (List TestInfo)
tests_of no_items = some []
tests_of (item value items) = elim (test_of value) [
  | none ↦ none
  | some t ↦ elim (tests_of items) [ none ↦ none | some tests ↦ some (t ∷ tests) ]
]

-- The loop over `obj.get("tests", [])`. The characters of a str and the keys of a dict are no dicts.
pub catalog_of : Json → Option (List TestInfo)
catalog_of other = none
catalog_of (str []) = some []
catalog_of (str (c ∷ t)) = none
catalog_of (array items) = tests_of items
catalog_of (object no_members) = some []
catalog_of (object (member k value rest)) = none

pub ending_of : {A : Type 0} → Option A → Ending A
ending_of none = raised
ending_of (some a) = returned a

pub command_line : Text → Option Text → Text
command_line test_id none = test_id
command_line test_id (some params) = test_id ++ (32 ∷ params)

-- `STX + line.encode("ascii") + b"\n"`; `none` where it raises. `params` is what json.dumps gave.
pub command : Text → Option Text → Option (List ℕ)
command test_id params =
    let line = command_line test_id params in
    if is_ascii line then some (stx ++ (line ++ (10 ∷ []))) else none

module _ {W Time : Type 0} (host : Host W Time) where
  -- The catalog that a line is, if it is one.
  pub catalog_in : Text → Option Json
  catalog_in line = elim (parse_json_line host.loads line) [
    | none ↦ none
    | some obj ↦
        if is_text (codes "test_catalog") (get (codes "type") obj)
        then some (get_or (codes "tests") (array no_items) obj)
        else none
  ]

  -- What `discover` does with a line; `none` is the next round.
  pub listed_in : Text → Option (Ending (List TestInfo))
  listed_in line = elim (catalog_in line) [
    | none ↦ none
    | some tests ↦ some (ending_of (catalog_of tests))
  ]

  -- What `start_test` does with a line.
  pub started_in : Text → Text → Option (Ending (Unit {0}))
  started_in test_id line = elim (parse_marker host.unicode line) [
    | none ↦ some raised
    | some none ↦ none
    | some (some marker) ↦
        if text_eq marker.payload (codes "TEST_STARTED:" ++ test_id)
        then some (returned tt)
        else none
  ]

  -- The rest of a round, behind the read of a line: the next round, or the end.
  pub answered :
      {A : Type 0}
      → (Text → Option (Ending A))
      → Ending A × TestSession W
      → Ending (Option Text)
      → TestSession W
      → Ending A × TestSession W
  answered answer again (returned none) s = again
  answered answer again (returned (some line)) s = elim (answer line) [
    | none ↦ again
    | some ending ↦ (ending, s)
  ]
  answered answer again timed_out s = (timed_out, s)
  answered answer again raised s = (raised, s)
  answered answer again stuck s = (stuck, s)

  -- The loop of `discover` and of `start_test`, on its fuel and that of a read.
  pub wait_loop :
      {A : Type 0}
      → (Text → Option (Ending A))
      → ℕ
      → ℕ
      → Time
      → TestSession W
      → Ending A × TestSession W
  wait_loop answer zero g deadline s = (stuck, s)
  wait_loop answer (suc fuel) g deadline s =
      let (early, s₀) = is_before host deadline s in
      let (line, s₁) = read_line host g (host.ops.tenths 5) s₀ in
      let again = wait_loop answer fuel g deadline s₁ in
      if not early then (timed_out, s₀) else answered answer again line s₁

  pub discover : ℕ → ℕ → Time → TestSession W → Ending (List TestInfo) × TestSession W
  discover fuel g timeout s =
      let (written, w) = host.transport.write soh s.world in
      let (deadline, s') = deadline_of host timeout (record s { world = w }) in
      if written then wait_loop listed_in fuel g deadline s' else (raised, record s { world = w })

  pub start_test :
      ℕ → ℕ → Text → Time → Option Text → TestSession W → Ending (Unit {0}) × TestSession W
  start_test fuel g test_id timeout params s = elim (command test_id params) [
    | none ↦ (raised, s)
    | some cmd ↦
        let (written, w) = host.transport.write cmd s.world in
        let (deadline, s') = deadline_of host timeout (record s { world = w }) in
        if written
        then wait_loop (started_in test_id) fuel g deadline s'
        else (raised, record s { world = w })
  ]
