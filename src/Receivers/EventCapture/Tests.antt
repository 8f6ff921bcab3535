-- ===== src/Receivers/EventCapture/Tests.antt =====
-- The theorems at concrete runs, with times that are numbers.
use embedded_bridge.Prelude.{
  true, ℕ, ◌+◌, ◌-◌, ◌*◌, ◌/◌, ◌≡◌, refl, arith, [], ◌∷◌, ◌++◌, map, Option, none, some,
}
use embedded_bridge.Prelude.Int.{pos}
use embedded_bridge.Text.Utf8.{Text}
use embedded_bridge.Text.Literal.{codes}
use embedded_bridge.Framing.Message.Handler.{text}
use embedded_bridge.Receivers.Router.{returned}
use embedded_bridge.Receivers.EventCapture.Values.{int, str, array, Fields, started, stopped}
use embedded_bridge.Receivers.EventCapture.{EventCapture, TraceEvent, init, timestamp_wrap_us}
use embedded_bridge.Receivers.EventCapture.Wrap.{
  Stamp, IsSteady, IsTracking, feed_stamps, feed_stamps_times, device_times,
}
use embedded_bridge.Receivers.EventCapture.Skew.{feed_stamps-late}
use embedded_bridge.Receivers.EventCapture.Spans.{IsPaired}
use embedded_bridge.Receivers.EventCapture.Pairing.{
  feed_messages, feed_messages-IsPaired, init-IsPaired,
}

abbrev begin_at : ℕ → Stamp ℕ
begin_at t = record { now = t; action = started; name = codes "gps"; time = t }

abbrev end_at : ℕ → Stamp ℕ
end_at t = record { now = t; action = stopped; name = codes "gps"; time = t }

-- The second stamp wraps.
feed_stamps_times_example :
    (s : EventCapture ℕ) × (feed_stamps
        (init none none)
        (begin_at 4294967290 ∷ end_at 4294967300 ∷ [])
      ≡ returned s)
    × (map (λ (e : TraceEvent ℕ). e.device_timestamp) s.events
        ≡ map
            (λ (x : Stamp ℕ). pos (x.time - 4294967290 / timestamp_wrap_us * timestamp_wrap_us))
            (begin_at 4294967290 ∷ end_at 4294967300 ∷ []))
unfolding IsSteady
feed_stamps_times_example =
    feed_stamps_times none none (begin_at 4294967290) (end_at 4294967300 ∷ []) (omega arith)

abbrev wrapped_once : EventCapture ℕ
wrapped_once = record {
  on_event = none;
  on_span = none;
  events = [];
  spans = [];
  pending = [];
  last_raw_ts_us = some (int (pos 5));
  wrap_count = 1;
}

feed_stamps-late_example :
    (s : EventCapture ℕ) × (feed_stamps wrapped_once (begin_at 4294967293 ∷ end_at 4294967302 ∷ [])
      ≡ returned s)
    × IsTracking 0 (4294967302 + timestamp_wrap_us) s
    × (device_times s
        ≡ device_times wrapped_once
          ++ (pos (4294967293 + timestamp_wrap_us - 0 * timestamp_wrap_us)
              ∷ pos (4294967302 + timestamp_wrap_us - 0 * timestamp_wrap_us)
              ∷ []))
unfolding IsTracking
feed_stamps-late_example =
    feed_stamps-late wrapped_once 0 4294967301 (begin_at 4294967293) (end_at 4294967302)
      (refl, omega arith) (omega arith) (omega arith) (omega arith) (omega arith)

-- A parser that reads every line as the start of an event whose name cannot be hashed.
abbrev unhashable : Text → Option Fields
unhashable line = some ((codes "ph", str (codes "B")) ∷ (codes "name", array true) ∷ [])

feed_messages-IsPaired_example : IsPaired (
    feed_messages unhashable
      (init {Time = ℕ} none none)
      ((1, text (codes "{}")) ∷ (2, text (codes "x")) ∷ []))
feed_messages-IsPaired_example =
    feed_messages-IsPaired unhashable (init none none)
      ((1, text (codes "{}")) ∷ (2, text (codes "x")) ∷ []) (init-IsPaired none none)
