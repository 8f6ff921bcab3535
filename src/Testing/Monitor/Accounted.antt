-- ===== src/Testing/Monitor/Accounted.antt =====
-- How a call of `monitor` that returns has come to its end.
use embedded_bridge.Prelude.{◌≡◌, refl, true, List, [], ◌∷◌, ◌++◌, some, ◌⊎◌, inl, inr}
use embedded_bridge.Prelude.Dict.{lookup}
use embedded_bridge.Text.Utf8.{Text}
use embedded_bridge.Text.Number.{Unicode}
use embedded_bridge.Text.Literal.{codes, text_eq, text_key}
use embedded_bridge.Testing.Types.{
  Warning, did_not_wake, no_deep_sleep, reconnect_failed, premature_wake, late_wake, not_completed,
  TestOutcome,
}
use embedded_bridge.Testing.Protocol.{Marker, parse_marker}
use embedded_bridge.Testing.Session.{Host, Ending, returned, timed_out, raised, stuck}
use embedded_bridge.Testing.Monitor.{Watch, Step, goes_on, ends}

-- The warnings that a return comes with.
abbrev pub IsFatal : {Time : Type 0} → Warning Time → Type 0
IsFatal (did_not_wake elapsed expected) = Unit
IsFatal no_deep_sleep = Unit
IsFatal reconnect_failed = Unit
IsFatal (premature_wake actual expected) = ⊥
IsFatal (late_wake actual expected) = ⊥
IsFatal (not_completed timeout) = Unit

module _ {Time : Type 0} (unicode : Unicode) (test_id : Text) where
  -- The last line is the marker that the test has stopped, and its time is among the markers.
  unfoldable pub IsStopped : TestOutcome Time → Type 0
  IsStopped o =
      (front : List Text) × (line : Text) × (marker : Marker) × (now : Time) × (o.serial_log
        ≡ front ++ (line ∷ []))
      × (parse_marker unicode line ≡ some (some marker))
      × (text_eq marker.payload (codes "TEST_STOPPED:" ++ test_id) ≡ true)
      × (lookup text_key (codes "TEST_STOPPED") o.markers ≡ some now)

  -- The last warning says why there was no such marker.
  unfoldable pub IsWarned : TestOutcome Time → Type 0
  IsWarned o =
      (front : List (Warning Time)) × (warning : Warning Time) × (o.warnings
        ≡ front ++ (warning ∷ []))
      × IsFatal warning

  abbrev pub Accounted : Ending (TestOutcome Time) → Type 0
  Accounted (returned o) = IsStopped o ⊎ IsWarned o
  Accounted timed_out = Unit
  Accounted raised = Unit
  Accounted stuck = Unit

  abbrev AccountedStep : Step Time → Type 0
  AccountedStep (goes_on m) = Unit
  AccountedStep (ends ending) = Accounted ending

pub Step-cases :
    {Time : Type 0} (step : Step Time)
    → ((m : Watch Time) × (step ≡ goes_on m)) ⊎ ((e : Ending (TestOutcome Time)) × (step ≡ ends e))
Step-cases (goes_on m) = inl (m, refl)
Step-cases (ends e) = inr (e, refl)

module _ {W Time : Type 0} (host : Host W Time) (test_id : Text) where
  abbrev Fine : Step Time → Type 0
  Fine step = AccountedStep host.unicode test_id step
