-- ===== src/Testing/Commands/Total.antt =====
-- `discover` and `start_test` come to an end, if the clock goes on.
use embedded_bridge.Prelude.{
  ℕ, zero, suc, ◌+◌, ◌≤◌, ◌<◌, ◌≢◌, refl, arith, ◌++◌, Option, none, some, inl, inr, Bool-cases,
  Option-cases, if-holds,
}
use mathlib.Core.Path.{subst}
use embedded_bridge.Text.Utf8.{Text}
use embedded_bridge.Text.Literal.{codes, text_eq}
use embedded_bridge.Testing.Protocol.{soh, parse_marker}
use embedded_bridge.Testing.Session.{
  Host, TestSession, Ending, returned, timed_out, raised, stuck, deadline_of, is_before, read_line,
}
use embedded_bridge.Testing.Session.Ticks.{
  Ticks, deadline_of-ticks, deadline_of-later, read_line-Later, is_before-later, is_before-ticks,
}
use embedded_bridge.Testing.Commands.{
  catalog_of, ending_of, command, catalog_in, listed_in, started_in, answered, wait_loop, discover,
  start_test,
}

-- An answer is not "out of fuel".
abbrev Apart : {A : Type 0} → Option (Ending A) → Type 0
Apart none = Unit
Apart (some (returned a)) = Unit
Apart (some timed_out) = Unit
Apart (some raised) = Unit
Apart (some stuck) = ⊥

abbrev Answers : {A : Type 0} → (Text → Option (Ending A)) → Type 0
Answers answer = (line : Text) → Apart (answer line)

Apart-ne : {A : Type 0} (ending : Ending A) → Apart (some ending) → ending ≢ stuck
Apart-ne (returned a) h e = ground (arith, e)
Apart-ne timed_out h e = ground (arith, e)
Apart-ne raised h e = ground (arith, e)
Apart-ne stuck h e = absurd h

abbrev NotStuck : {A W : Type 0} → Ending A × TestSession W → Type 0
NotStuck (ending, s) = ending ≢ stuck

module _ {W Time : Type 0} (host : Host W Time) (t : Ticks host) where
  answered-ends :
      {A : Type 0} (answer : Text → Option (Ending A)) (again : Ending A × TestSession W)
      (line : Ending (Option Text)) (s : TestSession W)
      → Answers answer
      → line ≢ stuck
      → again.0 ≢ stuck
      → (answered host answer again line s).0 ≢ stuck
  unfolding answered
  answered-ends answer again (returned none) s fine apart h = h
  answered-ends answer again (returned (some line)) s fine apart h =
      elim (Option-cases (answer line)) [
        | inl nothing ↦ rw (answered, nothing) h
        | inr (ending, e) ↦ rw (answered, e) (Apart-ne ending (subst Apart e (fine line)))
      ]
  answered-ends answer again timed_out s fine apart h = λ e. ground (arith, e)
  answered-ends answer again raised s fine apart h = λ e. ground (arith, e)
  answered-ends answer again stuck s fine apart h = absurd (apart refl)

  wait_loop-ends :
      {A : Type 0} (answer : Text → Option (Ending A)) (fuel g : ℕ) (deadline : Time)
      (s : TestSession W)
      → Answers answer
      → t.ticks (host.ops.tenths 5) ≤ g
      → t.ticks deadline < t.now s.world + fuel
      → 0 < fuel
      → (wait_loop host answer fuel (suc g) deadline s).0 ≢ stuck
  unfolding wait_loop
  wait_loop-ends answer zero g deadline s fine h enough some_fuel =
      absurd (omega (arith, some_fuel))
  wait_loop-ends answer (suc fuel) g deadline s fine h enough some_fuel =
      let (early, s₀) = is_before host deadline s in
      let (line, s₁) = read_line host (suc g) (host.ops.tenths 5) s₀ in
      let (apart, went) = read_line-Later host t g s₀ h in
      elim (Bool-cases early) [
        | inr late ↦ rw late (λ e. ground (arith, e))
        | inl in_time ↦ rw in_time (
            answered-ends answer (wait_loop host answer fuel (suc g) deadline s₁) line s₁ fine apart
              (wait_loop-ends answer fuel g deadline s₁ fine h
                (omega (arith, went, is_before-later host t deadline s, enough))
                (omega (arith, is_before-ticks host t deadline s in_time, enough))))
      ]

  waiting-ends :
      {A : Type 0} (answer : Text → Option (Ending A)) (fuel g : ℕ) (timeout : Time)
      (s : TestSession W)
      → Answers answer
      → t.ticks (host.ops.tenths 5) ≤ g
      → t.ticks timeout ≤ fuel
      → (wait_loop host answer
          (suc (suc fuel))
          (suc g)
          (deadline_of host timeout s).0
          (deadline_of host timeout s).1).0
        ≢ stuck
  waiting-ends answer fuel g timeout s fine h enough =
      wait_loop-ends answer (suc (suc fuel)) g (deadline_of host timeout s).0
        (deadline_of host timeout s).1 fine h
        (omega
          (arith, deadline_of-ticks host t timeout s, deadline_of-later host t timeout s, enough))
        (omega arith)

  listed_in-Answers : Answers (listed_in host)
  unfolding listed_in ending_of
  listed_in-Answers line = elim (Option-cases (catalog_in host line)) [
    | inl nothing ↦ rw (listed_in, nothing) tt
    | inr (value, found) ↦ elim (Option-cases (catalog_of value)) [
      | inl bad ↦ rw (listed_in, found, bad) tt
      | inr (tests, e) ↦ rw (listed_in, found, e) tt
    ]
  ]

  started_in-Answers : (test_id : Text) → Answers (started_in host test_id)
  unfolding started_in
  started_in-Answers test_id line = elim (Option-cases (parse_marker host.unicode line)) [
    | inl bad ↦ rw (started_in, bad) tt
    | inr (found, e) ↦ elim (Option-cases found) [
      | inl nothing ↦ rw (started_in, e, nothing) tt
      | inr (marker, is_found) ↦
          rw (started_in, e, is_found)
            (if-holds Apart (text_eq marker.payload (codes "TEST_STARTED:" ++ test_id)) tt tt)
    ]
  ]

  -- `discover` and `start_test` do not run on for ever: on the fuel of a clock's ticks for the time
  -- limit and two more, and for the reads on the ticks of half a second and one more, they return or
  -- raise, if the clock and the transport keep the laws of `Ticks`.
  pub commands-end :
      (fuel g : ℕ) (test_id : Text) (timeout : Time) (params : Option Text) (s : TestSession W)
      → t.ticks timeout ≤ fuel
      → t.ticks (host.ops.tenths 5) ≤ g
      → ((discover host (suc (suc fuel)) (suc g) timeout s).0 ≢ stuck)
        × ((start_test host (suc (suc fuel)) (suc g) test_id timeout params s).0 ≢ stuck)
  unfolding discover start_test
  commands-end fuel g test_id timeout params s enough h =
      let (listing, w) = host.transport.write soh s.world in
      (
        if-holds NotStuck listing
            (waiting-ends (listed_in host) fuel g timeout (record s { world = w }) listed_in-Answers
              h enough)
            (λ e. ground (arith, e)),
        elim (Option-cases (command test_id params)) [
          | inl e ↦ rw (start_test, e) (λ e'. ground (arith, e'))
          | inr (cmd, e) ↦
              let (written, w') = host.transport.write cmd s.world in
              rw (start_test, e)
                (if-holds NotStuck written
                  (waiting-ends (started_in host test_id) fuel g timeout (record s { world = w' })
                    (started_in-Answers test_id) h enough)
                  (λ e'. ground (arith, e')))
        ],
      )
