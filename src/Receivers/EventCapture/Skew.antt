-- ===== src/Receivers/EventCapture/Skew.antt =====
-- An event that arrives late, from before a wrap that was already counted.
use embedded_bridge.Prelude.{
  ℕ, ◌+◌, ◌-◌, ◌*◌, ◌/◌, ◌%◌, ◌<◌, ◌≡◌, refl, ap, ◌∙◌, arith, false, List, [], ◌∷◌, ◌++◌,
  append_assoc, Option, some,
}
use embedded_bridge.Prelude.Int.{ℤ, pos, ◌-ℤ◌}
use embedded_bridge.Receivers.Router.{returned}
use embedded_bridge.Receivers.EventCapture.Values.{Json, int, str, number_of}
use embedded_bridge.Receivers.EventCapture.{
  EventCapture, timestamp_wrap_us, has_wrapped, feed_event,
}
use embedded_bridge.Receivers.EventCapture.Wrap.{
  Stamp, feed_stamp, feed_stamps, device_times, IsTracking, stamped, stamped-IsTracking,
  stamped_time, feed_stamp_lem, steady_step,
}

not_wrapped :
    (t t' : ℕ)
    → t' / timestamp_wrap_us + 1 ≡ t / timestamp_wrap_us
    → t < t' + 2147483648
    → has_wrapped (some (int (pos (t % timestamp_wrap_us)))) (int (pos (t' % timestamp_wrap_us)))
      ≡ some false
unfolding has_wrapped number_of ◌-ℤ◌
not_wrapped t t' h k = ap some (ground (arith, h, k))

module _ {Time : Type 0} where
  -- The same time, one period later: the device sends the same stamp.
  later : Stamp Time → Stamp Time
  later st = record st { time = st.time + timestamp_wrap_us }

  feed_stamp-later :
      (s : EventCapture Time) (st : Stamp Time) → feed_stamp s st ≡ feed_stamp s (later st)
  unfolding feed_stamp later
  feed_stamp-later s st =
      ap (λ (n : ℕ). feed_event s st.now st.action (str st.name) (int (pos n))) (omega arith)

  -- Where the capture is in step with the device at the time t, an event of the period before t's
  -- arrives behind it, less than 2 ^ 31 µs late, and then one of t's period, less than 2 ^ 31 µs past
  -- the late event, both are logged 2 ^ 32 µs too late, and the capture is in step with a device whose
  -- time is 2 ^ 32 µs ahead: the wrap is counted twice.
  pub feed_stamps-late :
      (s : EventCapture Time) (base t : ℕ) (late next : Stamp Time)
      → IsTracking base t s
      → late.time / timestamp_wrap_us + 1 ≡ t / timestamp_wrap_us
      → t < late.time + 2147483648
      → next.time / timestamp_wrap_us ≡ t / timestamp_wrap_us
      → next.time < late.time + 2147483648
      → (s' : EventCapture Time) × (feed_stamps s (late ∷ next ∷ []) ≡ returned s')
        × IsTracking base (next.time + timestamp_wrap_us) s'
        × (device_times s'
            ≡ device_times s
              ++ (pos (late.time + timestamp_wrap_us - base * timestamp_wrap_us)
                  ∷ pos (next.time + timestamp_wrap_us - base * timestamp_wrap_us)
                  ∷ []))
  unfolding feed_stamps IsTracking later
  feed_stamps-late s base t late next (l, w) h k m n =
      let e : has_wrapped s.last_raw_ts_us (int (pos ((later late).time % timestamp_wrap_us)))
          ≡ some false =
        ap (λ (o : Option Json). has_wrapped o (int (pos ((later late).time % timestamp_wrap_us))))
          l
        ∙ ap (λ (x : ℕ). has_wrapped (some (int (pos (t % timestamp_wrap_us)))) (int (pos x)))
            (omega arith)
        ∙ not_wrapped t late.time h k in
      let counted : s.wrap_count + base ≡ (later late).time / timestamp_wrap_us =
        omega (arith, w, h) in
      let s' : EventCapture Time = stamped s (later late) false in
      let (s'', e', v, l') =
        steady_step s' (later next) base (later late).time
          (stamped-IsTracking s (later late) false base counted) (omega (arith, h, m))
          (omega (arith, n)) (omega (arith, k, h, m)) in
      (
        s'',
        rw
            (
              feed_stamps,
              feed_stamp-later s late,
              feed_stamp_lem s (later late) false e,
              feed_stamp-later s' next,
              e',
            )
            refl,
        v,
        l'
            ∙ ap
                (λ (z : List ℤ).
                  z ++ (pos (next.time + timestamp_wrap_us - base * timestamp_wrap_us) ∷ []))
                (stamped_time s (later late) false base counted)
            ∙ append_assoc (device_times s)
                (pos (late.time + timestamp_wrap_us - base * timestamp_wrap_us) ∷ [])
                (pos (next.time + timestamp_wrap_us - base * timestamp_wrap_us) ∷ []),
      )
