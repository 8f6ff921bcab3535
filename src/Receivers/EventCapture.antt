-- ===== src/Receivers/EventCapture.antt =====
-- python/src/embedded_bridge/receivers/event_capture.py. `json.loads` is a parameter: for a line that
-- starts with a brace it gives the fields of an object, or `none` where it raises. A number of a line
-- is an integer. A device time is the number of microseconds that the code divides by a million; the
-- clock's readings are arguments, the calls of the callbacks are logs (a callback does not raise), and
-- logging is left out.
pub mod Values
pub mod Wrap
pub mod Skew
pub mod Spans
pub mod Pairing
mod Tests
use embedded_bridge.Prelude.{
  ◌-◌, ℕ, suc, ◌+◌, ◌*◌, ◌^◌, ◌≡◌, refl, Bool, true, false, not, List, [], ◌∷◌, ◌++◌, Option, none,
  some, map, ◌==◌, if◌then◌else◌, arith,
}
use embedded_bridge.Prelude.Int.{ℤ, pos, negsuc, ◌+ℤ◌, ◌-ℤ◌, ltb_ℤ, eqb_ℤ, eqb_ℤ→eq, eqb_ℤ_refl}
use embedded_bridge.Prelude.Dict.{Key, lookup, insert, remove}
use embedded_bridge.Text.Utf8.{Text}
use embedded_bridge.Text.Strip.{strip}
use embedded_bridge.Text.Literal.{codes, text_eq, text_eq_refl, text_eq→eq, text_key}
use embedded_bridge.Framing.Message.Handler.{Message}
use embedded_bridge.Receivers.CrashDetector.{line_of}
use embedded_bridge.Receivers.EventCapture.Values.{
  Json, int, Fields, Name, name_of, name_key, name_eq, Action, started, stopped, number_of,
  action_of, given_name, raw_ts_of,
}
use embedded_bridge.Receivers.Router.{Outcome, returned, raised}

-- `1 << 32` and `1 << 31`
abbrev pub timestamp_wrap_us : ℕ
timestamp_wrap_us = 4294967296

abbrev pub wrap_threshold_us : ℕ
wrap_threshold_us = 2147483648

pub record TraceEvent (Time : Type 0) : Type 0 where
  pub name : Json
  pub action : Action
  pub device_timestamp : ℤ
  pub host_timestamp : Time

pub record EventSpan (Time : Type 0) : Type 0 where
  pub name : Json
  pub start : TraceEvent Time
  pub stop : TraceEvent Time

pub record EventCapture (Time : Type 0) : Type 0 where
  pub on_event : Option (List (TraceEvent Time))
  pub on_span : Option (List (EventSpan Time))
  pub events : List (TraceEvent Time)
  pub spans : List (EventSpan Time)
  pub pending : List (Name × TraceEvent Time)
  pub last_raw_ts_us : Option Json
  pub wrap_count : ℕ

-- Whether the time stamp wrapped; `none` where the difference raises.
pub has_wrapped : Option Json → Json → Option Bool
has_wrapped none raw = some false
has_wrapped (some last) raw = elim (number_of raw) [
  | none ↦ none
  | some n ↦ elim (number_of last) [
    | none ↦ none
    | some m ↦ some (ltb_ℤ (n -ℤ m) (negsuc (wrap_threshold_us - 1)))
  ]
]

-- `message.strip()`, if it starts with a brace
pub brace_line : Message → Option Text
brace_line message = elim (strip (line_of message)) [
  | [] ↦ none
  | c ∷ line ↦ if c == 0x7B then some (c ∷ line) else none
]

pub call : {A : Type 0} → Option (List A) → A → Option (List A)
call none x = none
call (some calls) x = some (calls ++ (x ∷ []))

-- Membership in a set of names.
pub any_equal : Name → List Name → Bool
any_equal n [] = false
any_equal n (m ∷ names) = if name_eq m n then true else any_equal n names

module _ {Time : Type 0} where
  pub init : Option (List (TraceEvent Time)) → Option (List (EventSpan Time)) → EventCapture Time
  init on_event on_span = record {
    on_event = on_event;
    on_span = on_span;
    events = [];
    spans = [];
    pending = [];
    last_raw_ts_us = none;
    wrap_count = 0;
  }

  pub device_duration : EventSpan Time → ℤ
  device_duration span = span.stop.device_timestamp -ℤ span.start.device_timestamp

  pub complete_span :
      EventCapture Time → Name → TraceEvent Time → TraceEvent Time → EventCapture Time
  complete_span s key start stop =
      let span : EventSpan Time = record { name = stop.name; start = start; stop = stop } in
      record s {
        pending = remove name_key key s.pending;
        spans = s.spans ++ (span ∷ []);
        on_span = call s.on_span span;
      }

  -- The branches on the action.
  pub match_event : Action → EventCapture Time → Name → TraceEvent Time → EventCapture Time
  match_event started s key event = record s { pending = insert name_key key event s.pending }
  match_event stopped s key event = elim (lookup name_key key s.pending) [
    | none ↦ s
    | some start ↦ complete_span s key start event
  ]

  -- A name that cannot be hashed raises, but for a stop with nothing pending: `pop` of an empty dict
  -- gives its default before it hashes.
  pub take_unhashable : Action → EventCapture Time → Outcome (EventCapture Time)
  take_unhashable started s = raised s
  take_unhashable stopped s = elim s.pending [ [] ↦ returned s | p ∷ pending ↦ raised s ]

  -- The event is logged before its name is looked up, which raises for an array or object.
  pub take_event : EventCapture Time → TraceEvent Time → Outcome (EventCapture Time)
  take_event s event =
      let s' = record s { events = s.events ++ (event ∷ []); on_event = call s.on_event event } in
      elim (name_of event.name) [
        | none ↦ take_unhashable event.action s'
        | some key ↦ returned (match_event event.action s' key event)
      ]

  pub count_wrap : EventCapture Time → Bool → Json → EventCapture Time
  count_wrap s wrapped raw = record s {
    wrap_count = if wrapped then s.wrap_count + 1 else s.wrap_count;
    last_raw_ts_us = some raw;
  }

  pub trace_event : EventCapture Time → Time → Action → Json → ℤ → TraceEvent Time
  trace_event s now action name n = record {
    name = name;
    action = action;
    device_timestamp = n +ℤ pos (s.wrap_count * timestamp_wrap_us);
    host_timestamp = now;
  }

  -- From the time stamp on.
  pub feed_event : EventCapture Time → Time → Action → Json → Json → Outcome (EventCapture Time)
  feed_event s now action name raw = elim (has_wrapped s.last_raw_ts_us raw) [
    | none ↦ raised s
    | some wrapped ↦
        let s' = count_wrap s wrapped raw in
        elim (number_of raw) [
          | none ↦ raised s'
          | some n ↦ take_event s' (trace_event s' now action name n)
        ]
  ]

  pub feed_fields : EventCapture Time → Time → Fields → Outcome (EventCapture Time)
  feed_fields s now fields = elim (action_of (lookup text_key (codes "ph") fields)) [
    | none ↦ returned s
    | some action ↦ elim (given_name (lookup text_key (codes "name") fields)) [
      | none ↦ returned s
      | some name ↦ feed_event s now action name (raw_ts_of (lookup text_key (codes "ts") fields))
    ]
  ]

  pub feed :
      (Text → Option Fields) → EventCapture Time → Time → Message → Outcome (EventCapture Time)
  feed loads s now message = elim (brace_line message) [
    | none ↦ returned s
    | some line ↦ elim (loads line) [ none ↦ returned s | some fields ↦ feed_fields s now fields ]
  ]

  -- The set of the names; `none` where one cannot be hashed.
  pub names_from : List Name → List (TraceEvent Time) → Option (List Name)
  names_from seen [] = some seen
  names_from seen (event ∷ events) = elim (name_of event.name) [
    | none ↦ none
    | some n ↦ names_from (if any_equal n seen then seen else seen ++ (n ∷ [])) events
  ]

  pub event_names : EventCapture Time → Option (List Name)
  event_names s = names_from [] s.events

  pub reset : EventCapture Time → EventCapture Time
  reset s = record s {
    events = [];
    spans = [];
    pending = [];
    last_raw_ts_us = none;
    wrap_count = 0;
  }
