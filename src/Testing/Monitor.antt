-- ===== src/Testing/Monitor.antt =====
-- python/src/embedded_bridge/testing/session.py: TestSession.monitor. Exceptions of the detector are
-- left out; the texts of warnings are data.
mod Accounted
mod Total
mod Asleep
mod Tests
use embedded_bridge.Prelude.{
  ℕ, zero, suc, Bool, true, false, not, List, [], ◌∷◌, ◌++◌, Option, none, some, ◌==◌, ◌&&◌,
  if◌then◌else◌,
}
use embedded_bridge.Prelude.Dict.{insert}
use embedded_bridge.Text.Utf8.{Text}
use embedded_bridge.Text.Search.{starts_with}
use embedded_bridge.Text.Literal.{codes, text_eq, text_key}
use embedded_bridge.Testing.Types.{
  Json, str, Members, Warning, did_not_wake, no_deep_sleep, reconnect_failed, premature_wake,
  late_wake, not_completed, TestOutcome, outcome_of,
}
use embedded_bridge.Testing.Protocol.{
  ack, Marker, parse_marker, parse_json_line, get, get_or, is_text, is_full,
}
use embedded_bridge.Testing.Session.{
  TimeOps, Host, TestSession, Ending, returned, timed_out, raised, stuck, deadline_of, is_before,
  read_line, SleepState, active, sleeping, unsure, check_sleep_state, reconnect_after_wake,
}

-- The local variables of the loop.
pub record Watch (Time : Type 0) : Type 0 where
  pub outcome : TestOutcome Time
  pub is_sleeping : Bool
  pub sleep_confirmed : Bool
  pub sleep_start_time : Option Time
  pub sleep_expected_s : Option Time

-- A round goes on, or it returns or raises.
pub data Step (Time : Type 0) : Type 0 where
  goes_on : Watch Time → Step Time
  ends : Ending (TestOutcome Time) → Step Time

-- `payload.split(":", 1)[1]`, empty where there is no colon.
pub after_colon : Text → Text
after_colon [] = []
after_colon (c ∷ text) = let rest = after_colon text in if c == 0x3A then text else rest

module _ {Time : Type 0} where
  pub warned : Warning Time → TestOutcome Time → TestOutcome Time
  warned warning o = record o { warnings = o.warnings ++ (warning ∷ []) }

  -- A warning with a status, and the return.
  pub failed : Text → Warning Time → Watch Time → Step Time
  failed status warning m =
      ends (returned (record (warned warning m.outcome) { status = str status }))

  pub marked : Text → Time → TestOutcome Time → TestOutcome Time
  marked name now o = record o { markers = insert text_key name now o.markers }

  -- The metadata of a line; `ok` is the status of a test_end without one.
  pub with_metadata : Members → Watch Time → Watch Time
  with_metadata obj m =
      if is_text (codes "test_end") (get (codes "type") obj)
      then record m {
        outcome = record m.outcome { status = get_or (codes "status") (str (codes "ok")) obj };
      }
      else m

module _ {W Time : Type 0} (host : Host W Time) where
  -- The warnings of a wake that is too early or too late.
  pub judged : Option Time → Time → TestOutcome Time → TestOutcome Time
  judged none actual o = o
  judged (some expected) actual o =
      if host.ops.before actual (host.ops.scaled 8 expected)
      then warned (premature_wake actual expected) o
      else if host.ops.before (host.ops.scaled 13 expected) actual
      then warned (late_wake actual expected) o
      else o

  -- Phase 3.
  pub wake : Time → Watch Time → TestSession W → Step Time × TestSession W
  wake start m s =
      let (now, w) = host.clock s.world in
      let actual = host.ops.minus now start in
      let o =
        judged m.sleep_expected_s actual (record m.outcome { sleep_actual_s = some actual }) in
      let (reconnected, s') = reconnect_after_wake host (record s { world = w }) in
      (
        if reconnected
            then goes_on (record m { outcome = o; is_sleeping = false; sleep_confirmed = false })
            else failed (codes "error") reconnect_failed (record m { outcome = o }),
        s',
      )

  -- Phase 1: the sleep is not confirmed yet.
  pub unconfirmed : SleepState → Time → Watch Time → Step Time
  unconfirmed sleeping elapsed m = goes_on (record m { sleep_confirmed = true })
  unconfirmed active elapsed m =
      if host.ops.before (host.ops.tenths 100) elapsed
      then failed (codes "error") no_deep_sleep m
      else goes_on m
  unconfirmed unsure elapsed m = goes_on m

  -- Phases 2 and 3.
  pub confirmed : SleepState → Time → Watch Time → TestSession W → Step Time × TestSession W
  confirmed sleeping start m s = (goes_on m, s)
  confirmed active start m s = wake start m s
  confirmed unsure start m s = wake start m s

  -- `elapsed > sleep_expected_s + 15`
  pub is_overdue : Option Time → Time → Option Time
  is_overdue none elapsed = none
  is_overdue (some expected) elapsed =
      if host.ops.before (host.ops.plus expected (host.ops.tenths 150)) elapsed
      then some expected
      else none

  pub sleeping_round :
      Time → Option (W → SleepState × W) → Watch Time → TestSession W → Step Time × TestSession W
  sleeping_round interval detector m s = elim m.sleep_start_time [
    | none ↦ (ends raised, s)
    | some start ↦
        let (now, w) = host.clock s.world in
        let elapsed = host.ops.minus now start in
        elim (is_overdue m.sleep_expected_s elapsed) [
          | some expected ↦
              (failed (codes "timeout") (did_not_wake elapsed expected) m, record s { world = w })
          | none ↦
              let (state, s') =
                check_sleep_state host detector (record s { world = host.sleep interval w }) in
              if m.sleep_confirmed
              then confirmed state start m s'
              else (unconfirmed state elapsed m, s')
        ]
  ]

  -- A marker SLEEP: the ACK and the disconnection, whose exceptions do not count.
  pub on_sleep : Text → Time → Watch Time → TestSession W → Step Time × TestSession W
  on_sleep payload now m s =
      let duration = host.ops.float (after_colon payload) in
      let (_, w) = host.transport.write ack s.world in
      (
        goes_on (record m {
          outcome = marked (codes "SLEEP") now (record m.outcome { sleep_expected_s = duration });
          is_sleeping = true;
          sleep_start_time = some now;
          sleep_expected_s = duration;
        }),
        record s { world = host.transport.disconnect w },
      )

  -- The chain of tests on the payload of a marker.
  pub on_payload : Text → Text → Time → Watch Time → TestSession W → Step Time × TestSession W
  on_payload test_id payload now m s =
      let mark : Text → Watch Time = λ name. record m { outcome = marked name now m.outcome } in
      if text_eq payload (codes "PPK_START")
      then (goes_on (mark (codes "PPK_START")), s)
      else if text_eq payload (codes "PPK_STOP")
      then (goes_on (mark (codes "PPK_STOP")), s)
      else if starts_with (codes "SLEEP:") payload
      then on_sleep payload now m s
      else if text_eq payload (codes "TEST_STOPPED:" ++ test_id)
      then (ends (returned (marked (codes "TEST_STOPPED") now m.outcome)), s)
      else if starts_with (codes "TEST_STARTED:") payload
      then (goes_on (mark (codes "TEST_STARTED")), s)
      else (goes_on m, s)

  -- A line that is no metadata.
  pub on_marker : Text → Text → Watch Time → TestSession W → Step Time × TestSession W
  on_marker test_id line m s = elim (parse_marker host.unicode line) [
    | none ↦ (ends raised, s)
    | some none ↦ (goes_on m, s)
    | some (some marker) ↦
        let (now, w) = host.clock s.world in
        on_payload test_id marker.payload now m (record s { world = w })
  ]

  pub on_line : Text → Text → Watch Time → TestSession W → Step Time × TestSession W
  on_line test_id line m s =
      let m' = record m {
        outcome = record m.outcome { serial_log = m.outcome.serial_log ++ (line ∷ []) };
      } in
      elim (parse_json_line host.loads line) [
        | none ↦ on_marker test_id line m' s
        | some obj ↦
            if is_full obj then (goes_on (with_metadata obj m'), s) else on_marker test_id line m' s
      ]

  -- What a read of a line leads to.
  pub awake_round :
      Text → Ending (Option Text) → Watch Time → TestSession W → Step Time × TestSession W
  awake_round test_id (returned none) m s = (goes_on m, s)
  awake_round test_id (returned (some line)) m s = on_line test_id line m s
  awake_round test_id timed_out m s = (ends timed_out, s)
  awake_round test_id raised m s = (ends raised, s)
  awake_round test_id stuck m s = (ends stuck, s)

  -- A round of the loop, on the fuel of a read.
  pub round :
      ℕ
      → Text
      → Time
      → Option (W → SleepState × W)
      → Watch Time
      → TestSession W
      → Step Time × TestSession W
  round g test_id interval detector m s =
      let (line, s') = read_line host g (host.ops.tenths 5) s in
      if m.is_sleeping then sleeping_round interval detector m s else awake_round test_id line m s'

  pub monitor_loop :
      ℕ
      → ℕ
      → Text
      → Time
      → Time
      → Time
      → Option (W → SleepState × W)
      → Watch Time
      → TestSession W
      → Ending (TestOutcome Time) × TestSession W
  monitor_loop zero g test_id timeout deadline interval detector m s = (stuck, s)
  monitor_loop (suc fuel) g test_id timeout deadline interval detector m s =
      let (early, s₀) = is_before host deadline s in
      let (step, s₁) = round g test_id interval detector m s₀ in
      if not early
      then (
        returned
            (record (warned (not_completed timeout) m.outcome) { status = str (codes "timeout") }),
        s₀,
      )
      else elim step [
        | goes_on m' ↦ monitor_loop fuel g test_id timeout deadline interval detector m' s₁
        | ends ending ↦ (ending, s₁)
      ]

  pub monitor :
      ℕ
      → ℕ
      → Text
      → Time
      → Time
      → Option (W → SleepState × W)
      → TestSession W
      → Ending (TestOutcome Time) × TestSession W
  monitor fuel g test_id timeout interval detector s =
      let (deadline, s') = deadline_of host timeout s in
      monitor_loop fuel g test_id timeout deadline interval detector
        (record {
          outcome = outcome_of test_id;
          is_sleeping = false;
          sleep_confirmed = false;
          sleep_start_time = none;
          sleep_expected_s = none;
        })
        s'
