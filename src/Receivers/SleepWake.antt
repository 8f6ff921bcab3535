-- ===== src/Receivers/SleepWake.antt =====
-- python/src/embedded_bridge/receivers/sleep_wake.py. A compiled pattern is the function that its
-- `search` is; Patterns has the default ones. The clock's readings and the answers of
-- `os.path.exists` are arguments. The calls of the callbacks are logs, kept where there is a
-- callback; logging is left out.
pub mod Cycle
mod Patterns
mod Tests
use embedded_bridge.Prelude.{
  ℕ, suc, ◌+◌, Bool, true, false, not, List, [], ◌∷◌, ◌++◌, Option, none, some, leb, ltb, ◌==◌,
  ◌&&◌, ◌||◌, if◌then◌else◌,
}
use embedded_bridge.Text.Utf8.{Text}
use embedded_bridge.Text.Strip.{strip}
use embedded_bridge.Framing.Message.Handler.{Message}
use embedded_bridge.Receivers.CrashDetector.{line_of}

pub record SleepEvent (Time : Type 0) : Type 0 where
  pub duration : Option Time
  pub reason : Option Text
  pub timestamp : Time

-- A match: `float(match.group(1))`, `none` where it raises, and `match.group(2)`.
pub record Match (Time : Type 0) : Type 0 where
  pub duration : Option Time
  pub group_2 : Option Text

pub record SleepPattern (Time : Type 0) : Type 0 where
  pub name : Text
  pub search : Text → Option (Match Time)

pub data State : Type 0 where
  awake sleeping waking : State

pub record SleepWakeMonitor (Time : Type 0) : Type 0 where
  pub port_path : Option Text
  pub sleep_patterns : List (SleepPattern Time)
  pub wake_patterns : List (SleepPattern Time)
  pub on_sleep : Option (List (SleepEvent Time))
  pub on_wake : Option ℕ
  pub state : State
  pub sleep_event : Option (SleepEvent Time)
  pub port_was_gone : Bool

-- The reason: stripped, and `None` where nothing is left.
pub clean_reason : Option Text → Option Text
clean_reason none = none
clean_reason (some text) = elim (strip text) [ [] ↦ none | c ∷ rest ↦ some (c ∷ rest) ]

pub call_wake : Option ℕ → Option ℕ
call_wake none = none
call_wake (some calls) = some (calls + 1)

module _ {Time : Type 0} where
  pub init :
      Option Text
      → List (SleepPattern Time)
      → List (SleepPattern Time)
      → Option (List (SleepEvent Time))
      → Option ℕ
      → SleepWakeMonitor Time
  init port_path sleep_patterns wake_patterns on_sleep on_wake = record {
    port_path = port_path;
    sleep_patterns = sleep_patterns;
    wake_patterns = wake_patterns;
    on_sleep = on_sleep;
    on_wake = on_wake;
    state = awake;
    sleep_event = none;
    port_was_gone = false;
  }

  pub call_sleep :
      Option (List (SleepEvent Time)) → SleepEvent Time → Option (List (SleepEvent Time))
  call_sleep none event = none
  call_sleep (some calls) event = some (calls ++ (event ∷ []))

  pub transition_to_sleeping :
      SleepWakeMonitor Time → Option Time → Option Text → Time → SleepWakeMonitor Time
  transition_to_sleeping m duration reason now =
      let event : SleepEvent Time = record {
        duration = duration;
        reason = reason;
        timestamp = now;
      } in
      record m {
        sleep_event = some event;
        state = sleeping;
        on_sleep = call_sleep m.on_sleep event;
      }

  pub check_sleep_patterns :
      List (SleepPattern Time) → SleepWakeMonitor Time → Time → Text → SleepWakeMonitor Time
  check_sleep_patterns [] m now line = m
  check_sleep_patterns (sp ∷ patterns) m now line = elim (sp.search line) [
    | none ↦ check_sleep_patterns patterns m now line
    | some found ↦ transition_to_sleeping m found.duration (clean_reason found.group_2) now
  ]

  pub wake : SleepWakeMonitor Time → SleepWakeMonitor Time
  wake m = record m { state = awake; port_was_gone = false; on_wake = call_wake m.on_wake }

  pub check_wake_patterns :
      List (SleepPattern Time) → SleepWakeMonitor Time → Text → SleepWakeMonitor Time
  check_wake_patterns [] m line = m
  check_wake_patterns (wp ∷ patterns) m line = elim (wp.search line) [
    | none ↦ check_wake_patterns patterns m line
    | some _ ↦ wake m
  ]

  -- The branches of `feed` on the state.
  pub feed_line : State → SleepWakeMonitor Time → Time → Text → SleepWakeMonitor Time
  feed_line awake m now line = check_sleep_patterns m.sleep_patterns m now line
  feed_line sleeping m now line = check_wake_patterns m.wake_patterns m line
  feed_line waking m now line = check_wake_patterns m.wake_patterns m line

  pub feed : SleepWakeMonitor Time → Time → Message → SleepWakeMonitor Time
  feed m now message = feed_line m.state m now (line_of message)

  -- The branches of `check_port` on the state, for a monitor with a path.
  pub port_seen : State → SleepWakeMonitor Time → Time → Bool → SleepWakeMonitor Time
  port_seen awake m now exists =
      if exists then m else transition_to_sleeping (record m { port_was_gone = true }) none none now
  port_seen sleeping m now exists =
      if exists && m.port_was_gone then record m { state = waking } else m
  port_seen waking m now exists = m

  pub check_port : SleepWakeMonitor Time → Time → Bool → SleepWakeMonitor Time
  check_port m now exists = elim m.port_path [ none ↦ m | some _ ↦ port_seen m.state m now exists ]

  pub reset : SleepWakeMonitor Time → SleepWakeMonitor Time
  reset m = record m { state = awake; sleep_event = none; port_was_gone = false }
