-- ===== src/Testing/Monitor/Total.antt =====
-- The loop of `monitor` comes to an end, if the clock goes on.
use embedded_bridge.Prelude.{
  ℕ, zero, suc, ◌+◌, ◌≤◌, ◌<◌, ◌≢◌, refl, arith, [], ◌∷◌, ◌++◌, Option, none, some, inl, inr,
  Bool-cases, Option-cases, if-holds,
}
use mathlib.Core.Path.{subst}
use embedded_bridge.Text.Utf8.{Text}
use embedded_bridge.Text.Search.{starts_with}
use embedded_bridge.Text.Literal.{codes, text_eq}
use embedded_bridge.Testing.Types.{Warning, did_not_wake, no_deep_sleep, reconnect_failed}
use embedded_bridge.Testing.Protocol.{ack, parse_marker, parse_json_line, is_full}
use embedded_bridge.Testing.Session.{
  Host, TestSession, Ending, returned, timed_out, raised, stuck, deadline_of, is_before, read_line,
  SleepState, active, sleeping, unsure, check_sleep_state, reconnect_after_wake,
}
use embedded_bridge.Testing.Session.Ticks.{
  Ticks, Later, deadline_of-ticks, deadline_of-later, DetectorLater, check_sleep_state-later,
  read_line-Later, is_before-later, is_before-ticks, reconnect_after_wake-later,
}
use embedded_bridge.Testing.Monitor.Accounted.{Step-cases}
use embedded_bridge.Testing.Monitor.{
  Watch, Step, goes_on, ends, failed, wake, unconfirmed, confirmed, is_overdue, sleeping_round,
  on_sleep, on_payload, on_marker, on_line, awake_round, round, monitor_loop, monitor,
}

module _ {W Time : Type 0} (host : Host W Time) (t : Ticks host) (test_id : Text) where
  -- The fuel has not run out, and a round that goes on has taken the clock to `n` at least.
  abbrev Sound : ℕ → Step Time × TestSession W → Type 0
  Sound n (goes_on m, s) = n ≤ t.now s.world
  Sound n (ends ending, s) = ending ≢ stuck

  failed-Sound :
      (status : Text) (warning : Warning Time) (m : Watch Time) (s : TestSession W) (n : ℕ)
      → Sound n (failed status warning m, s)
  unfolding failed
  failed-Sound status warning m s n = λ e. ground (arith, e)

  wake-Sound :
      (start : Time) (m : Watch Time) (s : TestSession W) (n : ℕ)
      → n ≤ t.now s.world
      → Sound n (wake host start m s)
  unfolding wake
  wake-Sound start m s n h =
      let (now, w) = host.clock s.world in
      let s' = record s { world = w } in
      let later = reconnect_after_wake-later host t s' in
      let s₁ = (reconnect_after_wake host s').1 in
      if-holds (λ (x : Step Time). Sound n (x, s₁)) (reconnect_after_wake host s').0
        (omega (arith, later, t.clock_later s.world, h))
        (failed-Sound (codes "error") reconnect_failed _ s₁ n)

  unconfirmed-Sound :
      (state : SleepState) (elapsed : Time) (m : Watch Time) (s : TestSession W) (n : ℕ)
      → n ≤ t.now s.world
      → Sound n (unconfirmed host state elapsed m, s)
  unfolding unconfirmed
  unconfirmed-Sound sleeping elapsed m s n h = h
  unconfirmed-Sound active elapsed m s n h =
      if-holds (λ (x : Step Time). Sound n (x, s)) (host.ops.before (host.ops.tenths 100) elapsed)
        (failed-Sound (codes "error") no_deep_sleep m s n) h
  unconfirmed-Sound unsure elapsed m s n h = h

  confirmed-Sound :
      (state : SleepState) (start : Time) (m : Watch Time) (s : TestSession W) (n : ℕ)
      → n ≤ t.now s.world
      → Sound n (confirmed host state start m s)
  unfolding confirmed
  confirmed-Sound sleeping start m s n h = h
  confirmed-Sound active start m s n h = wake-Sound start m s n h
  confirmed-Sound unsure start m s n h = wake-Sound start m s n h

  sleeping_round-Sound :
      (interval : Time) (detector : Option (W → SleepState × W)) (m : Watch Time)
      (s : TestSession W)
      → DetectorLater host t detector
      → Sound (suc (t.now s.world)) (sleeping_round host interval detector m s)
  unfolding sleeping_round
  sleeping_round-Sound interval detector m s d = elim (Option-cases m.sleep_start_time) [
    | inl no_start ↦ rw (sleeping_round, no_start) (λ e. ground (arith, e))
    | inr (start, e) ↦
        let (now, w) = host.clock s.world in
        let elapsed = host.ops.minus now start in
        let slept = record s { world = host.sleep interval w } in
        let (state, s') = check_sleep_state host detector slept in
        let n = suc (t.now s.world) in
        let later : n ≤ t.now s'.world = omega (
          arith,
          t.clock_later s.world,
          t.sleep_takes interval w,
          check_sleep_state-later host t detector slept d,
        ) in
        rw (sleeping_round, e)
          (elim (Option-cases (is_overdue host m.sleep_expected_s elapsed)) [
            | inr (expected, late) ↦ rw late (
                failed-Sound (codes "timeout") (did_not_wake elapsed expected) _
                  (record s { world = w }) n)
            | inl in_time ↦ rw in_time (
                if-holds (λ (x : Step Time × TestSession W). Sound n x) m.sleep_confirmed
                  (confirmed-Sound state start _ s' n later)
                  (unconfirmed-Sound state elapsed _ s' n later))
          ])
  ]

  on_payload-Sound :
      (payload : Text) (now : Time) (m : Watch Time) (s : TestSession W) (n : ℕ)
      → n ≤ t.now s.world
      → Sound n (on_payload host test_id payload now m s)
  unfolding on_payload on_sleep
  on_payload-Sound p now m s n h =
      let P : Step Time × TestSession W → Type 0 = λ x. Sound n x in
      if-holds P (text_eq p (codes "PPK_START")) h (
        if-holds P (text_eq p (codes "PPK_STOP")) h (
          if-holds P (starts_with (codes "SLEEP:") p)
            (omega (
              arith,
              h,
              t.write_later ack s.world,
              t.disconnect_later (host.transport.write ack s.world).1,
            ))
            (if-holds P (text_eq p (codes "TEST_STOPPED:" ++ test_id)) (λ e. ground (arith, e))
              (if-holds P (starts_with (codes "TEST_STARTED:") p) h h))))

  on_marker-Sound :
      (line : Text) (m : Watch Time) (s : TestSession W) (n : ℕ)
      → n ≤ t.now s.world
      → Sound n (on_marker host test_id line m s)
  unfolding on_marker
  on_marker-Sound line m s n h = elim (Option-cases (parse_marker host.unicode line)) [
    | inl e ↦ rw (on_marker, e) (λ x. ground (arith, x))
    | inr (found, e) ↦ elim (Option-cases found) [
      | inl nothing ↦ rw (on_marker, e, nothing) h
      | inr (marker, is_found) ↦
          let (now, w) = host.clock s.world in
          rw (on_marker, e, is_found)
            (on_payload-Sound marker.payload now m (record s { world = w }) n
              (omega (arith, h, t.clock_later s.world)))
    ]
  ]

  on_line-Sound :
      (line : Text) (m : Watch Time) (s : TestSession W) (n : ℕ)
      → n ≤ t.now s.world
      → Sound n (on_line host test_id line m s)
  unfolding on_line
  on_line-Sound line m s n h =
      let m' = record m {
        outcome = record m.outcome { serial_log = m.outcome.serial_log ++ (line ∷ []) };
      } in
      elim (Option-cases (parse_json_line host.loads line)) [
        | inl e ↦ rw (on_line, e) (on_marker-Sound line m' s n h)
        | inr (obj, e) ↦
            rw (on_line, e)
              (if-holds (λ (x : Step Time × TestSession W). Sound n x) (is_full obj) h
                (on_marker-Sound line m' s n h))
      ]

  awake_round-Sound :
      (line : Ending (Option Text)) (m : Watch Time) (s : TestSession W) (n : ℕ)
      → Later host t n (line, s)
      → Sound n (awake_round host test_id line m s)
  unfolding awake_round
  awake_round-Sound (returned none) m s n (apart, h) = h
  awake_round-Sound (returned (some line)) m s n (apart, h) = on_line-Sound line m s n h
  awake_round-Sound timed_out m s n (apart, h) = λ e. ground (arith, e)
  awake_round-Sound raised m s n (apart, h) = λ e. ground (arith, e)
  awake_round-Sound stuck m s n (apart, h) = absurd (apart refl)

  round-Sound :
      (g : ℕ) (interval : Time) (detector : Option (W → SleepState × W)) (m : Watch Time)
      (s : TestSession W)
      → t.ticks (host.ops.tenths 5) ≤ g
      → DetectorLater host t detector
      → Sound (suc (t.now s.world)) (round host (suc g) test_id interval detector m s)
  unfolding round
  round-Sound g interval detector m s h d =
      let (line, s') = read_line host (suc g) (host.ops.tenths 5) s in
      let n = suc (t.now s.world) in
      if-holds (λ (x : Step Time × TestSession W). Sound n x) m.is_sleeping
        (sleeping_round-Sound interval detector m s d)
        (awake_round-Sound line m s' n (read_line-Later host t g s h))

  pub monitor_loop-ends :
      (fuel g : ℕ) (timeout deadline interval : Time) (detector : Option (W → SleepState × W))
      (m : Watch Time) (s : TestSession W)
      → t.ticks (host.ops.tenths 5) ≤ g
      → DetectorLater host t detector
      → t.ticks deadline < t.now s.world + fuel
      → 0 < fuel
      → (monitor_loop host fuel (suc g) test_id timeout deadline interval detector m s).0 ≢ stuck
  unfolding monitor_loop
  monitor_loop-ends zero g timeout deadline interval detector m s h d enough some_fuel =
      absurd (omega (arith, some_fuel))
  monitor_loop-ends (suc fuel) g timeout deadline interval detector m s h d enough some_fuel =
      let (early, s₀) = is_before host deadline s in
      let taken = round host (suc g) test_id interval detector m s₀ in
      let P : Step Time → Type 0 = λ x. Sound (suc (t.now s₀.world)) (x, taken.1) in
      let sound = round-Sound g interval detector m s₀ h d in
      elim (Bool-cases early) [
        | inr late ↦ rw late (λ e. ground (arith, e))
        | inl in_time ↦ rw in_time (elim (Step-cases taken.0) [
          | inr (ending, e) ↦ rw e (subst P e sound)
          | inl (m', e) ↦ rw e (
              monitor_loop-ends fuel g timeout deadline interval detector m' taken.1 h d
                (omega (arith, subst P e sound, is_before-later host t deadline s, enough))
                (omega (arith, is_before-ticks host t deadline s in_time, enough)))
        ])
      ]

  -- `monitor` does not run on for ever: on the fuel of a clock's ticks for the time limit and two more,
  -- and for the reads on the ticks of half a second and one more, it returns or raises, if the clock,
  -- the transport, the sleep and the detector keep the laws of `Ticks` and do not turn the clock back,
  -- and a read and a sleep take a tick at least.
  pub monitor-ends :
      (fuel g : ℕ) (timeout interval : Time) (detector : Option (W → SleepState × W))
      (s : TestSession W)
      → t.ticks timeout ≤ fuel
      → t.ticks (host.ops.tenths 5) ≤ g
      → DetectorLater host t detector
      → (monitor host (suc (suc fuel)) (suc g) test_id timeout interval detector s).0 ≢ stuck
  unfolding monitor
  monitor-ends fuel g timeout interval detector s enough h d =
      let (deadline, s') = deadline_of host timeout s in
      monitor_loop-ends (suc (suc fuel)) g timeout deadline interval detector _ s' h d
        (omega
          (arith, deadline_of-ticks host t timeout s, deadline_of-later host t timeout s, enough))
        (omega arith)
