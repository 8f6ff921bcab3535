-- ===== src/Receivers/EventCapture/Wrap.antt =====
-- The device times of a run of events whose 32-bit time stamps wrap.
use embedded_bridge.Prelude.{
  ℕ, ◌+◌, ◌-◌, ◌*◌, ◌/◌, ◌%◌, ◌≤◌, ◌<◌, ◌≡◌, refl, ap, ◌∙◌, arith, Bool, false, List, [], ◌∷◌, ◌++◌,
  map, append_assoc, append-nil, sym, Option, some, ltb, if◌then◌else◌,
}
use mathlib.Core.List.{map-append}
use embedded_bridge.Prelude.Int.{ℤ, pos, ◌+ℤ◌, ◌-ℤ◌}
use embedded_bridge.Text.Utf8.{Text}
use embedded_bridge.Receivers.Router.{Outcome, returned, raised}
use embedded_bridge.Receivers.EventCapture.Values.{
  Json, int, str, Name, word, name_of, Action, started, stopped, number_of,
}
use embedded_bridge.Receivers.EventCapture.{
  TraceEvent, EventSpan, EventCapture, init, call, timestamp_wrap_us, has_wrapped, match_event,
  complete_span, take_event, count_wrap, trace_event, feed_event,
}

-- An event at the true time `time`, of which the device sends the low 32 bits.
pub record Stamp (Time : Type 0) : Type 0 where
  pub now : Time
  pub action : Action
  pub name : Text
  pub time : ℕ

-- Times that never fall into an earlier period of 2 ^ 32 µs and move by less than 2 ^ 31 µs.
unfoldable pub IsSteady : {Time : Type 0} → ℕ → List (Stamp Time) → Type 0
IsSteady t [] = Unit
IsSteady t (st ∷ stamps) =
    (t / timestamp_wrap_us ≤ st.time / timestamp_wrap_us)
    × (st.time < t + 2147483648)
    × (t ≤ st.time + 2147483648)
    × IsSteady st.time stamps

wrapped_lem :
    (t t' : ℕ)
    → t / timestamp_wrap_us ≤ t' / timestamp_wrap_us
    → t' < t + 2147483648
    → t ≤ t' + 2147483648
    → has_wrapped (some (int (pos (t % timestamp_wrap_us)))) (int (pos (t' % timestamp_wrap_us)))
      ≡ some (ltb (t / timestamp_wrap_us) (t' / timestamp_wrap_us))
unfolding has_wrapped number_of ◌-ℤ◌
wrapped_lem t t' h k l = ap some (ground (arith, h, k, l))

module _ {Time : Type 0} where
  unfoldable pub feed_stamp : EventCapture Time → Stamp Time → Outcome (EventCapture Time)
  feed_stamp s st =
      feed_event s st.now st.action (str st.name) (int (pos (st.time % timestamp_wrap_us)))

  unfoldable pub feed_stamps : EventCapture Time → List (Stamp Time) → Outcome (EventCapture Time)
  feed_stamps s [] = returned s
  feed_stamps s (st ∷ stamps) = elim (feed_stamp s st) [
    | returned s' ↦ feed_stamps s' stamps
    | raised s' ↦ raised s'
  ]

  abbrev pub device_times : EventCapture Time → List ℤ
  device_times s = map (λ (e : TraceEvent Time). e.device_timestamp) s.events

  -- What matching a start or stop leaves alone.
  match_event_rest :
      (a : Action) (s : EventCapture Time) (k : Name) (e : TraceEvent Time)
      → ((match_event a s k e).events ≡ s.events)
        × ((match_event a s k e).last_raw_ts_us ≡ s.last_raw_ts_us)
        × ((match_event a s k e).wrap_count ≡ s.wrap_count)
  unfolding match_event complete_span
  match_event_rest started s k e = (refl, refl, refl)
  match_event_rest stopped s k e = ground arith

  -- The state behind an event, by whether its stamp wrapped.
  pub stamped : EventCapture Time → Stamp Time → Bool → EventCapture Time
  stamped s st wrapped =
      let s' = count_wrap s wrapped (int (pos (st.time % timestamp_wrap_us))) in
      let e = trace_event s' st.now st.action (str st.name) (pos (st.time % timestamp_wrap_us)) in
      match_event st.action
        (record s' { events = s'.events ++ (e ∷ []); on_event = call s'.on_event e }) (word st.name)
        e

  pub feed_stamp_lem :
      (s : EventCapture Time) (st : Stamp Time) (wrapped : Bool)
      → has_wrapped s.last_raw_ts_us (int (pos (st.time % timestamp_wrap_us))) ≡ some wrapped
      → feed_stamp s st ≡ returned (stamped s st wrapped)
  unfolding feed_stamp feed_event take_event stamped number_of name_of trace_event count_wrap
  feed_stamp_lem s st wrapped e = rw (feed_stamp, feed_event, e) refl

  -- The detector of wraps knows the last true time, but for the periods before the first event.
  unfoldable pub IsTracking : ℕ → ℕ → EventCapture Time → Type 0
  IsTracking base t s =
      (s.last_raw_ts_us ≡ some (int (pos (t % timestamp_wrap_us))))
      × (s.wrap_count + base ≡ t / timestamp_wrap_us)

  pub stamped-IsTracking :
      (s : EventCapture Time) (st : Stamp Time) (wrapped : Bool) (base : ℕ)
      → (if wrapped then s.wrap_count + 1 else s.wrap_count) + base ≡ st.time / timestamp_wrap_us
      → IsTracking base st.time (stamped s st wrapped)
  unfolding IsTracking stamped count_wrap
  stamped-IsTracking s st wrapped base h =
      let s' = count_wrap s wrapped (int (pos (st.time % timestamp_wrap_us))) in
      let e = trace_event s' st.now st.action (str st.name) (pos (st.time % timestamp_wrap_us)) in
      let (_, l, w) =
        match_event_rest st.action
          (record s' { events = s'.events ++ (e ∷ []); on_event = call s'.on_event e })
          (word st.name) e in
      (l, ap (λ (n : ℕ). n + base) w ∙ h)

  -- The time of the new event.
  pub stamped_time :
      (s : EventCapture Time) (st : Stamp Time) (wrapped : Bool) (base : ℕ)
      → (if wrapped then s.wrap_count + 1 else s.wrap_count) + base ≡ st.time / timestamp_wrap_us
      → device_times (stamped s st wrapped)
        ≡ device_times s ++ (pos (st.time - base * timestamp_wrap_us) ∷ [])
  unfolding stamped count_wrap trace_event ◌+ℤ◌
  stamped_time s st wrapped base h =
      let s' = count_wrap s wrapped (int (pos (st.time % timestamp_wrap_us))) in
      let e = trace_event s' st.now st.action (str st.name) (pos (st.time % timestamp_wrap_us)) in
      let (l, _, _) =
        match_event_rest st.action
          (record s' { events = s'.events ++ (e ∷ []); on_event = call s'.on_event e })
          (word st.name) e in
      ap (map (λ (e : TraceEvent Time). e.device_timestamp)) l
      ∙ map-append (λ (e : TraceEvent Time). e.device_timestamp) s.events (e ∷ [])
      ∙ ap (λ (z : ℤ). device_times s ++ (z ∷ [])) (ground (arith, h))

  -- From one event to the next.
  pub steady_step :
      (s : EventCapture Time) (st : Stamp Time) (base t : ℕ)
      → IsTracking base t s
      → t / timestamp_wrap_us ≤ st.time / timestamp_wrap_us
      → st.time < t + 2147483648
      → t ≤ st.time + 2147483648
      → (s' : EventCapture Time) × (feed_stamp s st ≡ returned s')
        × IsTracking base st.time s'
        × (device_times s' ≡ device_times s ++ (pos (st.time - base * timestamp_wrap_us) ∷ []))
  unfolding IsTracking
  steady_step s st base t (l, w) h k m =
      let wrapped : Bool = ltb (t / timestamp_wrap_us) (st.time / timestamp_wrap_us) in
      let e : has_wrapped s.last_raw_ts_us (int (pos (st.time % timestamp_wrap_us)))
          ≡ some wrapped =
        ap (λ (o : Option Json). has_wrapped o (int (pos (st.time % timestamp_wrap_us)))) l
        ∙ wrapped_lem t st.time h k m in
      let counted : (if wrapped then s.wrap_count + 1 else s.wrap_count) + base
          ≡ st.time / timestamp_wrap_us =
        ground (arith, w, h, k) in
      (
        stamped s st wrapped,
        feed_stamp_lem s st wrapped e,
        stamped-IsTracking s st wrapped base counted,
        stamped_time s st wrapped base counted,
      )

  steady_run :
      (s : EventCapture Time) (stamps : List (Stamp Time)) (base t : ℕ)
      → IsTracking base t s
      → IsSteady t stamps
      → (s' : EventCapture Time) × (feed_stamps s stamps ≡ returned s')
        × (device_times s'
            ≡ device_times s
              ++ map (λ (st : Stamp Time). pos (st.time - base * timestamp_wrap_us)) stamps)
  unfolding feed_stamps IsSteady
  steady_run s [] base t k h = (s, refl, sym (append-nil (device_times s)))
  steady_run s (st ∷ stamps) base t k (a, b, c, h) =
      let (s', e, k', l) = steady_step s st base t k a b c in
      let (s'', e', l') = steady_run s' stamps base st.time k' h in
      (
        s'',
        rw (feed_stamps, e) e',
        l'
            ∙ ap
                (λ (z : List ℤ).
                  z ++ map (λ (st : Stamp Time). pos (st.time - base * timestamp_wrap_us)) stamps)
                l
            ∙ append_assoc (device_times s) (pos (st.time - base * timestamp_wrap_us) ∷ [])
                (map (λ (st : Stamp Time). pos (st.time - base * timestamp_wrap_us)) stamps),
      )

  -- A new capture that is fed events at steady times, of whose time stamps the device sends the low
  -- 32 bits, logs for each its true time, less the whole periods of 2 ^ 32 µs before the first event.
  -- Steady are times that never fall into an earlier period, and move by less than 2 ^ 31 µs.
  pub feed_stamps_times :
      (on_event : Option (List (TraceEvent Time))) (on_span : Option (List (EventSpan Time)))
      (st : Stamp Time) (stamps : List (Stamp Time))
      → IsSteady st.time stamps
      → (s : EventCapture Time) × (feed_stamps (init on_event on_span) (st ∷ stamps) ≡ returned s)
        × (map (λ (e : TraceEvent Time). e.device_timestamp) s.events
            ≡ map
                (λ (x : Stamp Time). pos (x.time - st.time / timestamp_wrap_us * timestamp_wrap_us))
                (st ∷ stamps))
  unfolding feed_stamps init
  feed_stamps_times on_event on_span st stamps h =
      let s = init on_event on_span in
      let base = st.time / timestamp_wrap_us in
      let none_before : has_wrapped s.last_raw_ts_us (int (pos (st.time % timestamp_wrap_us)))
          ≡ some false =
        unfold has_wrapped in refl in
      let counted : s.wrap_count + base ≡ st.time / timestamp_wrap_us = omega arith in
      let (s', e, l) =
        steady_run (stamped s st false) stamps base st.time
          (stamped-IsTracking s st false base counted) h in
      (
        s',
        rw (feed_stamps, feed_stamp_lem s st false none_before) e,
        l
            ∙ ap
                (λ (z : List ℤ).
                  z ++ map (λ (x : Stamp Time). pos (x.time - base * timestamp_wrap_us)) stamps)
                (stamped_time s st false base counted),
      )
