-- ===== src/Receivers/CrashDetector/Tests.antt =====
-- The theorems at concrete inputs, with times that are numbers.
use embedded_bridge.Prelude.{false, ℕ, ◌-◌, ◌≡◌, refl, arith, [], ◌∷◌, ◌++◌, some, none, leb}
use embedded_bridge.Text.Search.{contains, starts_with}
use embedded_bridge.Receivers.CrashDetector.{
  TimeOps, CrashPattern, CrashEvent, CrashDetector, first_match, silent_hang, check_timeout,
}
use embedded_bridge.Receivers.CrashDetector.Capture.{
  feed_lines, texts, last_time, captured, crash_captured, crash_lost,
}

abbrev numbers : TimeOps ℕ
numbers = record { minus = λ a b. a - b; at_least = λ a b. leb b a; shown = λ a. a ∷ [] }

abbrev abort : CrashPattern
abort = record { name = 97 ∷ []; pattern = 97 ∷ 98 ∷ [] }

abbrev detector : CrashDetector ℕ
detector = record {
  patterns = abort ∷ [];
  silent_timeout = some 45;
  crash_line_limit = 3;
  on_crash = some [];
  last_feed_time = some 2;
  crash_detected = false;
  crash_lines = [];
  crash_event = none;
  triggered_pattern = none;
}

abbrev event : CrashEvent ℕ
event = captured abort ((7 ∷ []) ∷ []) 5

abort_matches : first_match detector.patterns (120 ∷ 97 ∷ 98 ∷ []) ≡ some abort
unfolding first_match contains starts_with
abort_matches = refl

crash_captured_example :
    (feed_lines detector
      ((3, 120 ∷ 97 ∷ 98 ∷ []) ∷ (((5, 1 ∷ []) ∷ []) ++ ((7, 2 ∷ []) ∷ [])))).crash_event
    ≡ some (captured abort ((120 ∷ 97 ∷ 98 ∷ []) ∷ (((1 ∷ []) ∷ []) ++ ((2 ∷ []) ∷ []))) 7)
unfolding texts
crash_captured_example =
    crash_captured detector abort 3 (120 ∷ 97 ∷ 98 ∷ []) ((5, 1 ∷ []) ∷ []) 7 (2 ∷ []) refl refl
      refl abort_matches (omega arith)

crash_lost_example :
    (check_timeout numbers
      (feed_lines detector ((3, 120 ∷ 97 ∷ 98 ∷ []) ∷ ((7, 1 ∷ []) ∷ [])))
      60).crash_event
    ≡ some (record { reason = silent_hang (53 ∷ []); pattern = none; lines = []; timestamp = 60 })
unfolding last_time
crash_lost_example =
    crash_lost numbers detector abort 3 (120 ∷ 97 ∷ 98 ∷ []) ((7, 1 ∷ []) ∷ []) 60 45 refl refl refl
      abort_matches (omega arith) refl refl
