-- ===== src/Testing/Monitor/Tests.antt =====
-- The monitor of the session at concrete devices.
use embedded_bridge.Prelude.{ℕ, ◌≢◌, refl, arith, true, false, none, some}
use embedded_bridge.Text.Literal.{codes}
use embedded_bridge.Testing.Session.{stuck}
use embedded_bridge.Testing.Bench.{bench, bench_ticks, start}
use embedded_bridge.Testing.Types.{outcome_of}
use embedded_bridge.Testing.Monitor.{Watch, monitor_loop, monitor}
use embedded_bridge.Testing.Monitor.Asleep.{IsGivenUp, asleep-IsGivenUp}
use embedded_bridge.Testing.Monitor.Accounted.{Accounted}
use embedded_bridge.Testing.Monitor.Total.{monitor-ends}

monitor-ends_example : (monitor bench 102 6 (codes "a") 100 10 none start).0 ≢ stuck
monitor-ends_example =
    monitor-ends bench bench_ticks (codes "a") 100 5 100 10 none start (omega arith) (omega arith)
      tt

abbrev sleep_watch : Watch ℕ
sleep_watch = record {
  outcome = outcome_of (codes "a");
  is_sleeping = true;
  sleep_confirmed = false;
  sleep_start_time = some 0;
  sleep_expected_s = some 40;
}

asleep-IsGivenUp_example :
    IsGivenUp 0
      (outcome_of (codes "a"))
      (monitor_loop bench 101 6 (codes "a") 100 100 10 none sleep_watch start).0
asleep-IsGivenUp_example =
    asleep-IsGivenUp bench 47 (codes "dev/a") (λ w. refl) (λ w. refl) 0 (outcome_of (codes "a"))
      bench_ticks 101 5 (codes "a") 100 100 10 sleep_watch start (omega arith) (omega arith)
      (omega arith) (refl, refl, refl)
