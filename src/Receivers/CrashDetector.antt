-- ===== src/Receivers/CrashDetector.antt =====
-- python/src/embedded_bridge/receivers/crash_detector.py. The clock's readings are arguments of
-- `feed` and `check_timeout`; the times are a parameter with the operations on them. The calls of
-- `on_crash` are a log, which is kept when there is a callback; the limit on lines is not negative.
pub mod Capture
mod Tests
use embedded_bridge.Prelude.{
  ℕ, Bool, true, false, List, [], ◌∷◌, ◌++◌, Option, none, some, length, ◌==◌, ◌&&◌, ◌||◌, leb,
  if◌then◌else◌,
}
use embedded_bridge.Text.Search.{contains}
use embedded_bridge.Text.Utf8.{Text, decode}
use embedded_bridge.Text.Literal.{codes}
use embedded_bridge.Framing.Message.Handler.{Message, text, binary}

-- The times that `clock` gives: their difference, the test `>=`, and the format `.1f`.
pub record TimeOps (Time : Type 0) : Type 0 where
  pub minus : Time → Time → Time
  pub at_least : Time → Time → Bool
  pub shown : Time → Text

pub record CrashPattern : Type 0 where
  pub name : Text
  pub pattern : Text

-- A pattern of a name and a substring, and the default patterns.
abbrev pub crash_pattern : Text → Text → CrashPattern
crash_pattern name pattern = record { name = name; pattern = pattern }

pub esp32_patterns : List CrashPattern
esp32_patterns =
    crash_pattern (codes "backtrace") (codes "Backtrace:")
    ∷ crash_pattern (codes "backtrace") (codes "backtrace:")
    ∷ crash_pattern (codes "backtrace") (codes "BACKTRACE:")
    ∷ crash_pattern (codes "guru_meditation") (codes "Guru Meditation Error")
    ∷ crash_pattern (codes "panic_abort") (codes "panic_abort")
    ∷ crash_pattern (codes "abort") (codes "abort()")
    ∷ crash_pattern (codes "watchdog") (codes "Task watchdog got triggered")
    ∷ crash_pattern (codes "watchdog") (codes "WDT reset")
    ∷ []

pub data Reason : Type 0 where
  crash : Option Text → Reason
  silent_hang : Text → Reason

pub record CrashEvent (Time : Type 0) : Type 0 where
  pub reason : Reason
  pub pattern : Option Text
  pub lines : List Text
  pub timestamp : Time

pub record CrashDetector (Time : Type 0) : Type 0 where
  pub patterns : List CrashPattern
  pub silent_timeout : Option Time
  pub crash_line_limit : ℕ
  pub on_crash : Option (List (CrashEvent Time))
  pub last_feed_time : Option Time
  pub crash_detected : Bool
  pub crash_lines : List Text
  pub crash_event : Option (CrashEvent Time)
  pub triggered_pattern : Option CrashPattern

pub first_match : List CrashPattern → Text → Option CrashPattern
first_match [] line = none
first_match (cp ∷ patterns) line =
    if contains cp.pattern line then some cp else first_match patterns line

unfoldable pub line_of : Message → Text
line_of (text line) = line
line_of (binary bytes) = decode bytes

pub crash_reason : Option CrashPattern → Reason
crash_reason none = crash none
crash_reason (some cp) = crash (some cp.name)

pub pattern_of : Option CrashPattern → Option Text
pattern_of none = none
pattern_of (some cp) = some cp.pattern

module _ {Time : Type 0} where
  pub init :
      List CrashPattern → Option Time → ℕ → Option (List (CrashEvent Time)) → CrashDetector Time
  init patterns silent_timeout crash_line_limit on_crash = record {
    patterns = patterns;
    silent_timeout = silent_timeout;
    crash_line_limit = crash_line_limit;
    on_crash = on_crash;
    last_feed_time = none;
    crash_detected = false;
    crash_lines = [];
    crash_event = none;
    triggered_pattern = none;
  }

  pub call : Option (List (CrashEvent Time)) → CrashEvent Time → Option (List (CrashEvent Time))
  call none event = none
  call (some calls) event = some (calls ++ (event ∷ []))

  -- `self._crash_event = event`, and the callback.
  pub set_event : CrashDetector Time → CrashEvent Time → CrashDetector Time
  set_event d event = record d { crash_event = some event; on_crash = call d.on_crash event }

  pub finalize_crash : CrashDetector Time → Time → CrashDetector Time
  finalize_crash d now = set_event d (record {
    reason = crash_reason d.triggered_pattern;
    pattern = pattern_of d.triggered_pattern;
    lines = d.crash_lines;
    timestamp = now;
  })

  -- A line behind the one that matched.
  pub feed_more : CrashDetector Time → Time → Text → CrashDetector Time
  feed_more d now line =
      let d' = record d { crash_lines = d.crash_lines ++ (line ∷ []) } in
      if leb d.crash_line_limit (length d'.crash_lines) then finalize_crash d' now else d'

  pub feed_match : Option CrashPattern → CrashDetector Time → Time → Text → CrashDetector Time
  feed_match none d now line = d
  feed_match (some cp) d now line =
      let d' = record d {
        crash_detected = true;
        triggered_pattern = some cp;
        crash_lines = d.crash_lines ++ (line ∷ []);
      } in
      if leb d.crash_line_limit 1 then finalize_crash d' now else d'

  pub feed_open : CrashDetector Time → Time → Text → CrashDetector Time
  feed_open d now line =
      let d' = record d { last_feed_time = some now } in
      if d.crash_detected
      then feed_more d' now line
      else feed_match (first_match d.patterns line) d' now line

  pub feed : CrashDetector Time → Time → Message → CrashDetector Time
  feed d now message = elim d.crash_event [ some _ ↦ d | none ↦ feed_open d now (line_of message) ]

  pub hang_event : TimeOps Time → Time → Time → CrashEvent Time
  hang_event ops elapsed now = record {
    reason = silent_hang (ops.shown elapsed);
    pattern = none;
    lines = [];
    timestamp = now;
  }

  -- The tests of `check_timeout` on the event, the timeout and the last time, in this order.
  pub check :
      TimeOps Time → CrashDetector Time → Time → Option Time → Option Time → CrashDetector Time
  check ops d now none last = d
  check ops d now (some timeout) none = d
  check ops d now (some timeout) (some last) =
      if ops.at_least (ops.minus now last) timeout
      then set_event d (hang_event ops (ops.minus now last) now)
      else d

  pub check_timeout : TimeOps Time → CrashDetector Time → Time → CrashDetector Time
  check_timeout ops d now = elim d.crash_event [
    | some _ ↦ d
    | none ↦ check ops d now d.silent_timeout d.last_feed_time
  ]

  pub triggered : CrashDetector Time → Bool
  triggered d = elim d.crash_event [ none ↦ false | some _ ↦ true ]

  -- The property `crash`.
  pub crash_of : CrashDetector Time → Option (CrashEvent Time)
  crash_of d = d.crash_event

  pub reset : CrashDetector Time → CrashDetector Time
  reset d = record d {
    last_feed_time = none;
    crash_detected = false;
    crash_lines = [];
    crash_event = none;
    triggered_pattern = none;
  }
