-- ===== src/Receivers/SleepWake/Tests.antt =====
-- The theorems at a monitor that takes every line for an announcement of sleep.
use embedded_bridge.Prelude.{ℕ, ◌≡◌, refl, true, false, [], ◌∷◌, some, none}
use embedded_bridge.Framing.Message.Handler.{text}
use embedded_bridge.Receivers.SleepWake.{
  SleepPattern, SleepWakeMonitor, init, feed, feed_line, check_sleep_patterns,
  transition_to_sleeping,
}
use embedded_bridge.Receivers.SleepWake.Cycle.{
  Balanced, run, fed, port_checked, run-Balanced, init-Balanced, check_ports, check_ports-announced,
}

abbrev any_line : SleepPattern ℕ
any_line = record {
  name = [];
  search = λ line. some (record { duration = some 60; group_2 = none });
}

abbrev start : SleepWakeMonitor ℕ
start = init (some []) (any_line ∷ []) (any_line ∷ []) (some []) (some 0)

run-Balanced_example : Balanced (
    run start
      (fed 1 (text []) ∷ port_checked 2 false ∷ fed 3 (text []) ∷ port_checked 4 false ∷ []))
run-Balanced_example =
    run-Balanced start
      (fed 1 (text []) ∷ port_checked 2 false ∷ fed 3 (text []) ∷ port_checked 4 false ∷ [])
      (init-Balanced (some []) (any_line ∷ []) (any_line ∷ []))

check_ports-announced_example :
    check_ports (feed start 1 (text [])) ((2, false) ∷ (3, true) ∷ []) ≡ feed start 1 (text [])
unfolding feed feed_line check_sleep_patterns transition_to_sleeping init
check_ports-announced_example =
    check_ports-announced start 1 (text []) ((2, false) ∷ (3, true) ∷ []) refl refl refl
