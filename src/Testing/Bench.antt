-- ===== src/Testing/Bench.antt =====
-- A host for tests of the session: the clock counts tenths of seconds, and each read takes the next
-- chunk of a script.
use embedded_bridge.Prelude.{
  ℕ, suc, ◌+◌, ◌-◌, ◌*◌, ◌/◌, ◌<◌, ◌≡◌, refl, arith, true, false, List, [], ◌∷◌, Option, none, some,
  ltb, leb, ◌&&◌, if◌then◌else◌,
}
use embedded_bridge.Text.Number.{Unicode}
use embedded_bridge.Text.Literal.{codes}
use embedded_bridge.Testing.Session.{TimeOps, Host, TestSession, init}
use embedded_bridge.Testing.Session.Ticks.{Ticks}

pub record Bench : Type 0 where
  pub time : ℕ
  pub script : List (List ℕ)

abbrev pub next : ℕ → List (List ℕ) → Option (List ℕ) × Bench
next time [] = (some [], record { time = suc time; script = [] })
next time (chunk ∷ rest) = (some chunk, record { time = suc time; script = rest })

abbrev pub ascii : Unicode
ascii = record {
  is_word = λ c. false;
  digit_of = λ c. if leb 48 c && leb c 57 then some (c - 48) else none;
}

abbrev pub tenths_of_seconds : TimeOps ℕ
tenths_of_seconds = record {
  plus = λ a b. a + b;
  minus = λ a b. a - b;
  before = λ a b. ltb a b;
  min = λ a b. if ltb a b then a else b;
  tenths = λ n. n;
  scaled = λ n a. n * a / 10;
  float = λ text. none;
}

abbrev pub bench : Host Bench ℕ
bench = record {
  transport = record {
    connect = λ w. (true, w);
    disconnect = λ w. w;
    read = λ size timeout w. next w.time w.script;
    write = λ bytes w. (true, w);
    is_connected = λ w. true;
    port_path = λ w. some (codes "/dev/a");
  };
  clock = λ w. (w.time, w);
  sleep = λ d w. record w { time = suc (w.time + d) };
  exists = λ path w. false;
  loads = λ text. none;
  unicode = ascii;
  ops = tenths_of_seconds;
}

pub next-takes : (time : ℕ) (script : List (List ℕ)) → time < (next time script).1.time
next-takes time [] = omega arith
next-takes time (chunk ∷ rest) = omega arith

pub before-tenths : (a b : ℕ) → ltb a b ≡ true → a < b
before-tenths a b e = ground (arith, e)

pub half-tenths : (a b : ℕ) → ltb b (a + 5) ≡ false → a < b
half-tenths a b e = ground (arith, e)

abbrev pub bench_ticks : Ticks bench
bench_ticks = record {
  ticks = λ a. a;
  now = λ w. w.time;
  clock_ticks = λ w. refl;
  clock_later = λ w. omega arith;
  read_takes = λ size timeout w. next-takes w.time w.script;
  sleep_takes = λ d w. omega arith;
  connect_later = λ w. omega arith;
  disconnect_later = λ w. omega arith;
  write_later = λ bytes w. omega arith;
  before_ticks = before-tenths;
  plus_ticks = λ a b. omega arith;
  half_second = half-tenths;
}

abbrev pub start : TestSession Bench
start = init (record {
  time = 0;
  script = codes "boot\nT=1.5 TEST_STA" ∷ (codes "RTED:a\nT=2 TEST_STOPPED:a\n" ∷ []);
})
