-- ===== src/Receivers/SleepWake/Cycle.antt =====
-- The cycle of sleep and wake over any run of lines and port checks.
use embedded_bridge.Prelude.{
  ℕ, ◌+◌, ◌≡◌, refl, ap, ◌∙◌, arith, Bool, true, false, List, [], ◌∷◌, ◌++◌, Option, none, some,
  Option-cases, length, length-append, ◌&&◌, inl, inr, if-holds,
}
use embedded_bridge.Framing.Message.Handler.{Message}
use embedded_bridge.Text.Utf8.{Text}
use embedded_bridge.Receivers.CrashDetector.{line_of}
use embedded_bridge.Receivers.SleepWake.{
  init, SleepEvent, SleepPattern, State, awake, sleeping, waking, SleepWakeMonitor, call_sleep,
  call_wake, clean_reason, transition_to_sleeping, check_sleep_patterns, wake, check_wake_patterns,
  feed_line, feed, port_seen, check_port,
}

pub data Step (Time : Type 0) : Type 0 where
  fed : Time → Message → Step Time
  port_checked : Time → Bool → Step Time

-- One where the device sleeps or wakes up.
pub asleep : State → ℕ
asleep awake = 0
asleep sleeping = 1
asleep waking = 1

module _ {Time : Type 0} where
  pub run : SleepWakeMonitor Time → List (Step Time) → SleepWakeMonitor Time
  run m [] = m
  run m (fed now message ∷ steps) = run (feed m now message) steps
  run m (port_checked now exists ∷ steps) = run (check_port m now exists) steps

  -- A monitor with both callbacks whose sleeps and wakes balance.
  pub Balanced : SleepWakeMonitor Time → Type 0
  Balanced m =
      (events : List (SleepEvent Time)) × (wakes : ℕ) × (m.on_sleep ≡ some events)
      × (m.on_wake ≡ some wakes)
      × (length events ≡ wakes + asleep m.state)

  fall_asleep :
      (m : SleepWakeMonitor Time) (gone : Bool) (duration : Option Time) (reason : Option Text)
      (now : Time)
      → m.state ≡ awake
      → Balanced m
      → Balanced (transition_to_sleeping (record m { port_was_gone = gone }) duration reason now)
  unfolding Balanced transition_to_sleeping asleep call_sleep
  fall_asleep m gone duration reason now e (events, wakes, s, w, l) =
      let event : SleepEvent Time = record {
        duration = duration;
        reason = reason;
        timestamp = now;
      } in
      (
        events ++ (event ∷ []),
        wakes,
        ap (λ (o : Option (List (SleepEvent Time))). call_sleep o event) s,
        w,
        omega
            (arith, length-append events (event ∷ []), l ∙ ap (λ (t : State). wakes + asleep t) e),
      )

  wake_up : (m : SleepWakeMonitor Time) → asleep m.state ≡ 1 → Balanced m → Balanced (wake m)
  unfolding Balanced wake asleep call_wake
  wake_up m e (events, wakes, s, w, l) = (events, wakes + 1, s, ap call_wake w, omega (arith, l, e))

  check_sleep_patterns-Balanced :
      (patterns : List (SleepPattern Time)) (m : SleepWakeMonitor Time) (now : Time) (line : Text)
      → m.state ≡ awake
      → Balanced m
      → Balanced (check_sleep_patterns patterns m now line)
  unfolding check_sleep_patterns
  check_sleep_patterns-Balanced [] m now line e b = b
  check_sleep_patterns-Balanced (sp ∷ patterns) m now line e b =
      elim (Option-cases (sp.search line)) [
        | inl k ↦ rw k (check_sleep_patterns-Balanced patterns m now line e b)
        | inr (found, k) ↦
            rw k (fall_asleep m m.port_was_gone found.duration (clean_reason found.group_2) now e b)
      ]

  check_wake_patterns-Balanced :
      (patterns : List (SleepPattern Time)) (m : SleepWakeMonitor Time) (line : Text)
      → asleep m.state ≡ 1
      → Balanced m
      → Balanced (check_wake_patterns patterns m line)
  unfolding check_wake_patterns
  check_wake_patterns-Balanced [] m line e b = b
  check_wake_patterns-Balanced (wp ∷ patterns) m line e b = elim (Option-cases (wp.search line)) [
    | inl k ↦ rw k (check_wake_patterns-Balanced patterns m line e b)
    | inr (_, k) ↦ rw k (wake_up m e b)
  ]

  feed_line-Balanced :
      (st : State) (m : SleepWakeMonitor Time) (now : Time) (line : Text)
      → m.state ≡ st
      → Balanced m
      → Balanced (feed_line st m now line)
  unfolding feed_line asleep
  feed_line-Balanced awake m now line e b =
      check_sleep_patterns-Balanced m.sleep_patterns m now line e b
  feed_line-Balanced sleeping m now line e b =
      check_wake_patterns-Balanced m.wake_patterns m line (ap asleep e) b
  feed_line-Balanced waking m now line e b =
      check_wake_patterns-Balanced m.wake_patterns m line (ap asleep e) b

  seen_again :
      (m : SleepWakeMonitor Time)
      → m.state ≡ sleeping
      → Balanced m
      → Balanced (record m { state = waking })
  unfolding Balanced asleep
  seen_again m e (events, wakes, s, w, l) =
      (events, wakes, s, w, l ∙ ap (λ (t : State). wakes + asleep t) e)

  port_seen-Balanced :
      (st : State) (m : SleepWakeMonitor Time) (now : Time) (exists : Bool)
      → m.state ≡ st
      → Balanced m
      → Balanced (port_seen st m now exists)
  unfolding port_seen
  port_seen-Balanced awake m now exists e b =
      if-holds Balanced exists b (fall_asleep m true none none now e b)
  port_seen-Balanced sleeping m now exists e b =
      if-holds Balanced (exists && m.port_was_gone) (seen_again m e b) b
  port_seen-Balanced waking m now exists e b = b

  check_port-Balanced :
      (m : SleepWakeMonitor Time) (now : Time) (exists : Bool)
      → Balanced m
      → Balanced (check_port m now exists)
  unfolding check_port
  check_port-Balanced m now exists b = with_path m.port_path
    where
      with_path :
          (path : Option Text)
          → Balanced (elim path [ none ↦ m | some _ ↦ port_seen m.state m now exists ])
      with_path none = b
      with_path (some _) = port_seen-Balanced m.state m now exists refl b

  -- For a monitor with both callbacks, where the calls of `on_sleep` are as many as those of
  -- `on_wake` while it is awake and one more while it is not, the same holds after any run of
  -- messages and port checks: sleeps and wakes are reported in turns.
  pub run-Balanced :
      (m : SleepWakeMonitor Time) (steps : List (Step Time)) → Balanced m → Balanced (run m steps)
  unfolding run feed
  run-Balanced m [] b = b
  run-Balanced m (fed now message ∷ steps) b =
      run-Balanced (feed m now message) steps
        (feed_line-Balanced m.state m now (line_of message) refl b)
  run-Balanced m (port_checked now exists ∷ steps) b =
      run-Balanced (check_port m now exists) steps (check_port-Balanced m now exists b)

  pub check_ports : SleepWakeMonitor Time → List (Time × Bool) → SleepWakeMonitor Time
  check_ports m [] = m
  check_ports m ((now, exists) ∷ checks) = check_ports (check_port m now exists) checks

  unseen_port :
      (m : SleepWakeMonitor Time) (now : Time) (exists : Bool)
      → m.state ≡ sleeping
      → m.port_was_gone ≡ false
      → check_port m now exists ≡ m
  unfolding check_port port_seen
  unseen_port m now exists e g = ground (arith, e, g)

  check_ports-asleep :
      (m : SleepWakeMonitor Time) (checks : List (Time × Bool))
      → m.state ≡ sleeping
      → m.port_was_gone ≡ false
      → check_ports m checks ≡ m
  unfolding check_ports
  check_ports-asleep m [] e g = refl
  check_ports-asleep m ((now, exists) ∷ checks) e g =
      ap (λ (t : SleepWakeMonitor Time). check_ports t checks) (unseen_port m now exists e g)
      ∙ check_ports-asleep m checks e g

  check_sleep_patterns-port_was_gone :
      (patterns : List (SleepPattern Time)) (m : SleepWakeMonitor Time) (now : Time) (line : Text)
      → (check_sleep_patterns patterns m now line).port_was_gone ≡ m.port_was_gone
  unfolding check_sleep_patterns transition_to_sleeping
  check_sleep_patterns-port_was_gone [] m now line = refl
  check_sleep_patterns-port_was_gone (sp ∷ patterns) m now line =
      elim (Option-cases (sp.search line)) [
        | inl e ↦
            rw (check_sleep_patterns, e) (check_sleep_patterns-port_was_gone patterns m now line)
        | inr (found, e) ↦ rw (check_sleep_patterns, e) refl
      ]

  -- Where a message puts an awake monitor to sleep whose port was not seen to go, no port checks
  -- behind it change the monitor: a port that goes and comes back, however often, does not make it
  -- `waking`.
  pub check_ports-announced :
      (m : SleepWakeMonitor Time) (now : Time) (message : Message) (checks : List (Time × Bool))
      → m.state ≡ awake
      → m.port_was_gone ≡ false
      → (feed m now message).state ≡ sleeping
      → check_ports (feed m now message) checks ≡ feed m now message
  unfolding feed feed_line
  check_ports-announced m now message checks e g sleeps =
      check_ports-asleep (feed m now message) checks sleeps (
        ap (λ (st : State). (feed_line st m now (line_of message)).port_was_gone) e
        ∙ check_sleep_patterns-port_was_gone m.sleep_patterns m now (line_of message)
        ∙ g)

-- A new monitor whose logs are empty.
pub init-Balanced :
    {Time : Type 0} (path : Option Text) (sleeps wakes : List (SleepPattern Time))
    → Balanced (init path sleeps wakes (some []) (some 0))
unfolding Balanced init asleep
init-Balanced path sleeps wakes = ([], 0, refl, refl, omega arith)
