-- ===== src/Testing/Monitor/Asleep.antt =====
-- A sleep that is watched by the path of the port, where the path never names a file.
use embedded_bridge.Prelude.{
  ℕ, zero, suc, ◌+◌, ◌≤◌, ◌<◌, ◌≡◌, ◌≢◌, refl, sym, ap, true, false, ◌∷◌, none, some, inl, inr,
  Bool-cases, Option-cases, if-holds, if◌then◌else◌,
}
use mathlib.Core.Path.{subst}
use embedded_bridge.Text.Utf8.{Text}
use embedded_bridge.Text.Literal.{codes}
use embedded_bridge.Testing.Types.{str, Warning, did_not_wake, not_completed, TestOutcome}
use embedded_bridge.Testing.Session.{
  Host, TestSession, Ending, returned, stuck, is_before, read_line,
}
use embedded_bridge.Testing.Session.Ticks.{Ticks, check_sleep_state-sleeping}
use embedded_bridge.Testing.Monitor.{
  Watch, Step, goes_on, ends, warned, failed, unconfirmed, confirmed, is_overdue, sleeping_round,
  awake_round, round, monitor_loop,
}
use embedded_bridge.Testing.Monitor.Accounted.{Step-cases}
use embedded_bridge.Testing.Monitor.Total.{monitor_loop-ends}

module _ {Time : Type 0} (start : Time) (o : TestOutcome Time) where
  -- The outcome with one more warning, and the status "timeout".
  unfoldable pub IsGivenUp : Ending (TestOutcome Time) → Type 0
  IsGivenUp e =
      (warning : Warning Time) × (e
        ≡ returned (record (warned warning o) { status = str (codes "timeout") }))

  -- The watch of a sleep since `start`.
  abbrev pub IsAsleep : Watch Time → Type 0
  IsAsleep m = (m.is_sleeping ≡ true) × (m.sleep_start_time ≡ some start) × (m.outcome ≡ o)

  abbrev StaysAsleep : Step Time → Type 0
  StaysAsleep (goes_on m) = IsAsleep m
  StaysAsleep (ends e) = IsGivenUp e

  given_up :
      (warning : Warning Time) (m : Watch Time)
      → m.outcome ≡ o
      → IsGivenUp (returned (record (warned warning m.outcome) { status = str (codes "timeout") }))
  unfolding IsGivenUp
  given_up warning m same = (
    warning,
    ap
        (λ (x : TestOutcome Time).
          returned (record (warned warning x) { status = str (codes "timeout") }))
        same,
  )

module _ {W Time : Type 0} (host : Host W Time) (c : ℕ) (path : Text)
    (named : (w : W) → host.transport.port_path w ≡ some (c ∷ path))
    (gone : (w : W) → host.exists (c ∷ path) w ≡ false) (start : Time) (o : TestOutcome Time) where
  sleeping_round-StaysAsleep :
      (interval : Time) (m : Watch Time) (s : TestSession W)
      → IsAsleep start o m
      → StaysAsleep start o (sleeping_round host interval none m s).0
  unfolding sleeping_round failed unconfirmed confirmed
  sleeping_round-StaysAsleep interval m s (asleep, started, same) =
      let (now, w) = host.clock s.world in
      let elapsed = host.ops.minus now start in
      let slept = record s { world = host.sleep interval w } in
      rw (sleeping_round, started)
        (elim (Option-cases (is_overdue host m.sleep_expected_s elapsed)) [
          | inr (expected, late) ↦ rw late (given_up start o (did_not_wake elapsed expected) m same)
          | inl in_time ↦
              rw (in_time, check_sleep_state-sleeping host c path named gone slept)
                (if-holds (λ (x : Step Time × TestSession W). StaysAsleep start o x.0)
                  m.sleep_confirmed (asleep, started, same) (asleep, started, same))
        ])

  round-StaysAsleep :
      (g : ℕ) (test_id : Text) (interval : Time) (m : Watch Time) (s : TestSession W)
      → IsAsleep start o m
      → StaysAsleep start o (round host g test_id interval none m s).0
  unfolding round
  round-StaysAsleep g test_id interval m s (asleep, started, same) =
      let (line, s') = read_line host g (host.ops.tenths 5) s in
      subst
        (λ b.
          StaysAsleep start o
            (if b
              then sleeping_round host interval none m s
              else awake_round host test_id line m s').0)
        (sym asleep) (sleeping_round-StaysAsleep interval m s (asleep, started, same))

  monitor_loop-IsGivenUp :
      (fuel g : ℕ) (test_id : Text) (timeout deadline interval : Time) (m : Watch Time)
      (s : TestSession W)
      → IsAsleep start o m
      → (monitor_loop host fuel g test_id timeout deadline interval none m s).0 ≢ stuck
      → IsGivenUp start o (monitor_loop host fuel g test_id timeout deadline interval none m s).0
  unfolding monitor_loop
  monitor_loop-IsGivenUp zero g test_id timeout deadline interval m s watch =
      λ ended. absurd (ended refl)
  monitor_loop-IsGivenUp (suc fuel) g test_id timeout deadline interval m s watch =
      let (early, s₀) = is_before host deadline s in
      let taken = round host g test_id interval none m s₀ in
      let stays = round-StaysAsleep g test_id interval m s₀ watch in
      elim (Bool-cases early) [
        | inr late ↦ rw late (λ ended. given_up start o (not_completed timeout) m watch.2)
        | inl in_time ↦ rw in_time (elim (Step-cases taken.0) [
          | inl (m', e) ↦ rw e (
              monitor_loop-IsGivenUp fuel g test_id timeout deadline interval m' taken.1
                (subst (StaysAsleep start o) e stays))
          | inr (ending, e) ↦ rw e (λ ended. subst (StaysAsleep start o) e stays)
        ])
      ]

  -- Without a detector of sleep, and where the path of the port names no file, a monitor that has seen
  -- the device announce its sleep never reaches it again: it returns the outcome that it had then, with
  -- the status "timeout" and one more warning, for any transport and whatever the device sends. The
  -- clock and the fuel are as where `monitor` ends: the fuel is above the ticks up to the deadline.
  pub asleep-IsGivenUp :
      (t : Ticks host) (fuel g : ℕ) (test_id : Text) (timeout deadline interval : Time)
      (m : Watch Time) (s : TestSession W)
      → t.ticks (host.ops.tenths 5) ≤ g
      → t.ticks deadline < t.now s.world + fuel
      → 0 < fuel
      → IsAsleep start o m
      → IsGivenUp start o
          (monitor_loop host fuel (suc g) test_id timeout deadline interval none m s).0
  asleep-IsGivenUp t fuel g test_id timeout deadline interval m s h enough some_fuel watch =
      monitor_loop-IsGivenUp fuel (suc g) test_id timeout deadline interval m s watch (
        monitor_loop-ends host t test_id fuel g timeout deadline interval none m s h tt enough
          some_fuel)
