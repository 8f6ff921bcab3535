-- ===== src/Testing/Session/Ticks.antt =====
-- The reads of a line and the reconnect come to an end, if the clock goes on.
use embedded_bridge.Prelude.{
  ℕ, zero, suc, ◌+◌, ◌≤◌, ◌<◌, ◌≡◌, ◌≢◌, refl, arith, Bool, true, false, List, [], ◌∷◌, Option,
  none, some, length, ◌==◌, inl, inr, Bool-cases, Option-cases, if-holds,
}
use embedded_bridge.Text.Utf8.{Text, fresh}
use embedded_bridge.Framing.Line.{partition}
use embedded_bridge.Testing.Protocol.{soh}
use embedded_bridge.Testing.Session.{
  Host, TestSession, Ending, returned, stuck, deadline_of, is_before, read_bytes, received,
  line_or_none, read_loop, read_line, SleepState, sleeping, port_state, check_sleep_state, attempts,
  reconnect_after_wake,
}

-- A measure of time in ticks. Reading the clock, and the other calls, do not turn it back; a read of
-- the transport and a sleep take a tick at least, and so does half a second.
pub record Ticks {W Time : Type 0} (host : Host W Time) : Type 0 where
  pub ticks : Time → ℕ
  pub now : W → ℕ
  pub clock_ticks : (w : W) → ticks (host.clock w).0 ≡ now w
  pub clock_later : (w : W) → now w ≤ now (host.clock w).1
  pub read_takes :
      (size : Option ℕ) (timeout : Option Time) (w : W)
      → now w < now (host.transport.read size timeout w).1
  pub sleep_takes : (d : Time) (w : W) → now w < now (host.sleep d w)
  pub connect_later : (w : W) → now w ≤ now (host.transport.connect w).1
  pub disconnect_later : (w : W) → now w ≤ now (host.transport.disconnect w)
  pub write_later : (bytes : List ℕ) (w : W) → now w ≤ now (host.transport.write bytes w).1
  pub before_ticks : (a b : Time) → host.ops.before a b ≡ true → ticks a < ticks b
  pub plus_ticks : (a b : Time) → ticks (host.ops.plus a b) ≤ ticks a + ticks b
  pub half_second :
      (a b : Time)
      → host.ops.before b (host.ops.plus a (host.ops.tenths 5)) ≡ false
      → ticks a < ticks b

-- A detector of sleep does not turn the clock back.
abbrev pub DetectorLater :
    {W Time : Type 0} (host : Host W Time) → Ticks host → Option (W → SleepState × W) → Type 0
DetectorLater host t none = Unit
DetectorLater {W = W} host t (some detector) = (w : W) → t.now w ≤ t.now (detector w).1

module _ {W Time : Type 0} (host : Host W Time) (t : Ticks host) where
  pub is_before-later :
      (deadline : Time) (s : TestSession W)
      → t.now s.world ≤ t.now (is_before host deadline s).1.world
  unfolding is_before
  is_before-later deadline s = t.clock_later s.world

  pub is_before-ticks :
      (deadline : Time) (s : TestSession W)
      → (is_before host deadline s).0 ≡ true
      → t.now s.world < t.ticks deadline
  unfolding is_before
  is_before-ticks deadline s h =
      omega (arith, t.clock_ticks s.world, t.before_ticks (host.clock s.world).0 deadline h)

  read_bytes-takes :
      (timeout : Time) (s : TestSession W)
      → t.now s.world < t.now (read_bytes host timeout s).1.world
  unfolding read_bytes
  read_bytes-takes timeout s =
      ground (arith, t.read_takes none (some (host.ops.min (host.ops.tenths 1) timeout)) s.world)

  -- The call has not run out of fuel, and the clock is not turned back behind `n`.
  abbrev pub Later : {A : Type 0} → ℕ → Ending A × TestSession W → Type 0
  Later n (ending, s) = (ending ≢ stuck) × (n ≤ t.now s.world)

  Later-from : {A : Type 0} (n m : ℕ) (x : Ending A × TestSession W) → n ≤ m → Later m x → Later n x
  Later-from n m x h (ends, later) = (ends, omega (arith, h, later))

  returned-Later :
      {A : Type 0} (n : ℕ) (a : A) (s : TestSession W) → n ≤ t.now s.world → Later n (returned a, s)
  returned-Later n a s h = (λ e. ground (arith, e), h)

  -- A round of the loop, from what holds behind a read; a read takes the clock to `n` at least.
  read_round-Later :
      (fuel : ℕ) (deadline timeout : Time) (s : TestSession W) (n : ℕ)
      → n ≤ t.now s.world + 1
      → ((is_before host deadline s).0 ≡ false → n ≤ t.now (is_before host deadline s).1.world)
      → ((s' : TestSession W)
          → t.now s.world < t.ticks deadline
          → t.now s.world < t.now s'.world
          → Later (t.now s'.world) (read_loop host fuel deadline timeout s'))
      → Later n (read_loop host (suc fuel) deadline timeout s)
  unfolding read_loop received
  read_round-Later fuel deadline timeout s n small at_end again =
      let (early, s₀) = is_before host deadline s in
      let (bytes, s₁) = read_bytes host timeout s₀ in
      let s₂ = received host bytes s₁ in
      let start = is_before-later deadline s in
      let took : t.now s.world < t.now s₁.world =
        omega (arith, start, read_bytes-takes timeout s₀) in
      elim (Bool-cases early) [
        | inr late ↦ rw late (returned-Later n none s₀ (at_end late))
        | inl in_time ↦
            let under = is_before-ticks deadline s in_time in
            let on : (s' : TestSession W)
                → t.now s.world < t.now s'.world
                → Later n (read_loop host fuel deadline timeout s') =
              λ s' h.
                Later-from n (t.now s'.world) (read_loop host fuel deadline timeout s')
                  (omega (arith, h, small)) (again s' under h) in
            rw in_time (elim (Bool-cases (length bytes == 0)) [
              | inl idle ↦ rw idle (elim (Option-cases (partition s₁.line_buf)) [
                | inl open_line ↦ rw open_line (on s₁ took)
                | inr ((line, rest), e) ↦ rw e (
                    returned-Later n (line_or_none line) (record s₁ { line_buf = rest })
                      (omega (arith, took, small)))
              ])
              | inr busy ↦ rw busy (elim (Option-cases (partition s₂.line_buf)) [
                | inl open_line ↦ rw open_line (on s₂ took)
                | inr ((line, rest), e) ↦ rw e (elim (Option-cases (line_or_none line)) [
                  | inl blank ↦ rw blank (on (record s₂ { line_buf = rest }) took)
                  | inr (found, e') ↦ rw e' (
                      returned-Later n (some found) (record s₂ { line_buf = rest })
                        (omega (arith, took, small)))
                ])
              ])
            ])
      ]

  behind :
      (fuel : ℕ) (deadline timeout : Time) (s : TestSession W)
      → t.ticks deadline ≤ t.now s.world + fuel
      → (s' : TestSession W) → t.now s.world < t.ticks deadline
      → t.now s.world < t.now s'.world
      → Later (t.now s'.world) (read_loop host fuel deadline timeout s')
  behind zero deadline timeout s h s' early took = absurd (omega (arith, h, early))
  behind (suc fuel) deadline timeout s h s' early took =
      read_round-Later fuel deadline timeout s' (t.now s'.world) (omega arith)
        (λ _. is_before-later deadline s')
        (behind fuel deadline timeout s' (omega (arith, h, took)))

  -- A read of a line ends, and takes a tick at least.
  pub read_line-Later :
      (fuel : ℕ) (s : TestSession W)
      → t.ticks (host.ops.tenths 5) ≤ fuel
      → Later (suc (t.now s.world)) (read_line host (suc fuel) (host.ops.tenths 5) s)
  unfolding read_line deadline_of is_before
  read_line-Later fuel s h =
      let (at, w) = host.clock s.world in
      let half = host.ops.tenths 5 in
      let s' = record s { world = w } in
      let known = t.clock_ticks s.world in
      read_round-Later fuel (host.ops.plus at half) half s' (suc (t.now s.world))
        (omega (arith, t.clock_later s.world))
        (λ late.
          omega (
            arith,
            known,
            t.half_second at (host.clock w).0 late,
            t.clock_ticks w,
            t.clock_later w,
          ))
        (behind fuel (host.ops.plus at half) half s'
          (omega (arith, known, h, t.plus_ticks at half, t.clock_later s.world)))

  -- Neither does a reconnect turn the clock back.
  attempts-later : (n : ℕ) (s : TestSession W) → t.now s.world ≤ t.now (attempts host n s).1.world
  unfolding attempts
  attempts-later zero s = omega arith
  attempts-later (suc n) s =
      let (connected, w) = host.transport.connect s.world in
      let (written, w') = host.transport.write soh w in
      let second = host.ops.tenths 10 in
      let P : Bool × TestSession W → Type 0 = λ x. t.now s.world ≤ t.now x.1.world in
      let c = t.connect_later s.world in
      let d = t.write_later soh w in
      if-holds P connected
        (if-holds P written (omega (arith, c, d)) (
          omega (
            arith,
            c,
            d,
            t.sleep_takes second w',
            attempts-later n (record s { world = host.sleep second w' }),
          )))
        (omega (
          arith,
          c,
          t.sleep_takes second w,
          attempts-later n (record s { world = host.sleep second w }),
        ))

  pub reconnect_after_wake-later :
      (s : TestSession W) → t.now s.world ≤ t.now (reconnect_after_wake host s).1.world
  unfolding reconnect_after_wake
  reconnect_after_wake-later s =
      let w = host.transport.disconnect s.world in
      omega (
        arith,
        t.disconnect_later s.world,
        attempts-later 10 (record { decoder = fresh; line_buf = []; world = w }),
      )

  pub check_sleep_state-later :
      (detector : Option (W → SleepState × W)) (s : TestSession W)
      → DetectorLater host t detector
      → t.now s.world ≤ t.now (check_sleep_state host detector s).1.world
  unfolding check_sleep_state
  check_sleep_state-later none s d = omega arith
  check_sleep_state-later (some detector) s d = d s.world

  pub deadline_of-later :
      (timeout : Time) (s : TestSession W)
      → t.now s.world ≤ t.now (deadline_of host timeout s).1.world
  unfolding deadline_of
  deadline_of-later timeout s = t.clock_later s.world

  pub deadline_of-ticks :
      (timeout : Time) (s : TestSession W)
      → t.ticks (deadline_of host timeout s).0 ≤ t.now s.world + t.ticks timeout
  unfolding deadline_of
  deadline_of-ticks timeout s =
      omega (arith, t.clock_ticks s.world, t.plus_ticks (host.clock s.world).0 timeout)

-- A port whose path names no file counts as asleep.
pub check_sleep_state-sleeping :
    {W Time : Type 0} (host : Host W Time) (c : ℕ) (path : Text)
    → ((w : W) → host.transport.port_path w ≡ some (c ∷ path))
    → ((w : W) → host.exists (c ∷ path) w ≡ false)
    → (s : TestSession W) → check_sleep_state host none s ≡ (sleeping, s)
unfolding check_sleep_state port_state
check_sleep_state-sleeping host c path named gone s = rw (named s.world, gone s.world) refl
