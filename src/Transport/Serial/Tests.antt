-- ===== src/Transport/Serial/Tests.antt =====
-- The theorems at a concrete system, whose ports and writes follow a script.
use embedded_bridge.Prelude.{
  ℕ, ◌+◌, ◌≤◌, ◌≡◌, refl, arith, Bool, true, false, List, [], ◌∷◌, ◌++◌, Option, none, some,
}
use embedded_bridge.Text.Literal.{codes}
use embedded_bridge.Text.Strip.{strip}
use embedded_bridge.Text.Search.{starts_with}
use embedded_bridge.Transport.Serial.Port.{
  System, completed, is_path, resolve_port, port_exists, port_of, nonempty,
}
use embedded_bridge.Transport.Serial.{
  SerialTransport, init, write, do_reconnect, open_port, open_serial, send, send_again,
  write_raised, disconnect, reconnect_loop, attempt, attempt_at,
}
use embedded_bridge.Transport.Serial.Log.{Log}
use embedded_bridge.Transport.Serial.Reconnect.{Clock}

-- `present`: whether the port is there at each look; `writes`: whether each write returns.
record World : Type 0 where
  time : ℕ
  present : List Bool
  writes : List Bool
  taken : List ℕ

-- A write that raises takes one byte.
abbrev take_one : List ℕ → List ℕ
take_one [] = []
take_one (b ∷ bytes) = b ∷ []

abbrev scripted_write : List Bool → List ℕ → World → Bool × World
scripted_write [] bytes w = (true, record w { taken = w.taken ++ bytes })
scripted_write (true ∷ later) bytes w =
    (true, record w { writes = later; taken = w.taken ++ bytes })
scripted_write (false ∷ later) bytes w =
    (false, record w { writes = later; taken = w.taken ++ take_one bytes })

-- An attempt to open takes one tick.
abbrev scripted_open : List Bool → World → Option (Unit {0}) × World
scripted_open [] w = (none, record w { time = w.time + 1 })
scripted_open (true ∷ later) w = (some tt, record w { time = w.time + 1; present = later })
scripted_open (false ∷ later) w = (none, record w { time = w.time + 1; present = later })

abbrev scripted : System World (Unit {0})
scripted = record {
  usb_device_port = λ name w. (completed 0 name, w);
  exists = λ path w. true;
  serial = λ path baudrate w. scripted_open w.present w;
  is_open = λ port w. true;
  in_waiting = λ port w. (some 0, w);
  read = λ port n w. (some [], w);
  write = λ port bytes w. scripted_write w.writes bytes w;
  flush = λ port w. (true, w);
  close = λ port w. w;
  monotonic = λ w. (w.time, w);
  sleep = λ d w. record w { time = w.time + d };
}

scripted_open-time : (xs : List Bool) (w : World) → w.time ≤ (scripted_open xs w).1.time
scripted_open-time [] w = omega arith
scripted_open-time (true ∷ xs) w = omega arith
scripted_open-time (false ∷ xs) w = omega arith

scripted_open-taken : (xs : List Bool) (w : World) → (scripted_open xs w).1.taken ≡ w.taken
scripted_open-taken [] w = refl
scripted_open-taken (true ∷ xs) w = refl
scripted_open-taken (false ∷ xs) w = refl

scripted_write-all :
    (xs : List Bool) (bytes : List ℕ) (w : World)
    → (scripted_write xs bytes w).0 ≡ true
    → (scripted_write xs bytes w).1.taken ≡ w.taken ++ bytes
scripted_write-all [] bytes w h = refl
scripted_write-all (true ∷ xs) bytes w h = refl
scripted_write-all (false ∷ xs) bytes w h = absurd (ground (arith, h))

scripted_write-part :
    (xs : List Bool) (bytes : List ℕ) (w : World)
    → (scripted_write xs bytes w).0 ≡ false
    → (part : List ℕ) × (rest : List ℕ) × (part ++ rest ≡ bytes)
      × ((scripted_write xs bytes w).1.taken ≡ w.taken ++ part)
scripted_write-part [] bytes w h = absurd (ground (arith, h))
scripted_write-part (true ∷ xs) bytes w h = absurd (ground (arith, h))
scripted_write-part (false ∷ xs) [] w h = ([], [], refl, refl)
scripted_write-part (false ∷ xs) (b ∷ bytes) w h = (b ∷ [], bytes, refl, refl)

abbrev scripted_clock : Clock scripted
scripted_clock = record {
  now = λ w. w.time;
  now_read = λ w. refl;
  now_monotonic = λ w. omega arith;
  now_resolved = λ name w. omega arith;
  now_serial = λ path baudrate w. scripted_open-time w.present w;
  now_close = λ port w. omega arith;
  now_sleep = λ d w. omega arith;
}

abbrev scripted_log : Log scripted
scripted_log = record {
  written = λ w. w.taken;
  written_all = λ port bytes w. scripted_write-all w.writes bytes w;
  written_part = λ port bytes w. scripted_write-part w.writes bytes w;
  written_flush = λ port w. refl;
  written_close = λ port w. refl;
  written_resolved = λ name w. refl;
  written_serial = λ path baudrate w. scripted_open-taken w.present w;
  written_monotonic = λ w. refl;
  written_sleep = λ d w. refl;
}

-- Interval 2, timeout 5.
abbrev transport_at : World → SerialTransport World (Unit {0})
transport_at w = init (codes "1.10") 115200 true 2 5 w

-- The port is gone once after the first write has raised.
abbrev flaky : World
flaky = record { time = 0; present = false ∷ true ∷ []; writes = false ∷ true ∷ []; taken = [] }

abbrev connected : SerialTransport World (Unit {0})
connected = record (transport_at flaky) { serial = some tt; port_path = some (codes "/dev/a") }

abbrev after_write : SerialTransport World (Unit {0})
after_write = (write scripted 4 (1 ∷ 2 ∷ 3 ∷ []) connected).1

write-flaky : after_write.world.taken ≡ 1 ∷ 1 ∷ 2 ∷ 3 ∷ []
unfolding write init open_port open_serial send send_again write_raised disconnect reconnect_loop
    attempt attempt_at resolve_port port_exists is_path starts_with port_of nonempty strip
    do_reconnect
write-flaky = refl
