-- ===== src/Transport/WebSocket/Tests.antt =====
-- The theorems at a concrete network: what `recv` gives and which servers answer is a script.
use embedded_bridge.Prelude.{
  ℕ, ◌+◌, ◌≤◌, ◌≡◌, refl, arith, Bool, true, false, List, [], ◌∷◌, ◌++◌, append-nil, Option, none,
  some,
}
use embedded_bridge.Text.Literal.{codes}
use embedded_bridge.Transport.Result.{err, reconnect_failed}
use embedded_bridge.Transport.WebSocket.{
  Received, frame, timed_out, connection_closed, sent, Network, WebSocketTransport, init,
  do_reconnect, read, connect, opened, read_loop, is_over, time_left, read_deadline, drain_buffer,
  reconnect_loop, disconnect,
}
use embedded_bridge.Transport.WebSocket.Stream.{
  Log, bytes_of, Call, connect_call, read_call, run, returned, run-keeps,
}
use embedded_bridge.Transport.WebSocket.Reconnect.{Clock}

record World : Type 0 where
  time : ℕ
  incoming : List Received
  answers : List Bool
  seen : List ℕ

-- A connection attempt takes one tick.
abbrev dial : List Bool → World → Option (Unit {0}) × World
dial [] w = (none, record w { time = w.time + 1 })
dial (true ∷ later) w = (some tt, record w { time = w.time + 1; answers = later })
dial (false ∷ later) w = (none, record w { time = w.time + 1; answers = later })

abbrev receive : List Received → World → Received × World
receive [] w = (timed_out, w)
receive (x ∷ later) w = (x, record w { incoming = later; seen = w.seen ++ bytes_of x })

abbrev scripted : Network World (Unit {0})
scripted = record {
  ws_connect = λ uri timeout w. dial w.answers w;
  close = λ c w. w;
  recv = λ c timeout w. receive w.incoming w;
  send = λ c bytes w. (sent, w);
  monotonic = λ w. (w.time, w);
  sleep = λ d w. record w { time = w.time + d };
}

dial-seen : (bs : List Bool) (w : World) → (dial bs w).1.seen ≡ w.seen
dial-seen [] w = refl
dial-seen (true ∷ bs) w = refl
dial-seen (false ∷ bs) w = refl

dial-time : (bs : List Bool) (w : World) → w.time ≤ (dial bs w).1.time
dial-time [] w = omega arith
dial-time (true ∷ bs) w = omega arith
dial-time (false ∷ bs) w = omega arith

receive-seen :
    (xs : List Received) (w : World) → (receive xs w).1.seen ≡ w.seen ++ bytes_of (receive xs w).0
unfolding bytes_of
receive-seen [] w = ground (arith, append-nil w.seen)
receive-seen (x ∷ xs) w = refl

abbrev scripted_log : Log scripted
scripted_log = record {
  received = λ w. w.seen;
  received_recv = λ c timeout w. receive-seen w.incoming w;
  received_connect = λ uri timeout w. dial-seen w.answers w;
  received_close = λ c w. refl;
  received_monotonic = λ w. refl;
  received_sleep = λ d w. refl;
}

abbrev scripted_clock : Clock scripted
scripted_clock = record {
  now = λ w. w.time;
  now_read = λ w. refl;
  now_monotonic = λ w. omega arith;
  now_connect = λ uri timeout w. dial-time w.answers w;
  now_close = λ c w. omega arith;
  now_sleep = λ d w. omega arith;
}

-- Interval 2, timeout 5.
abbrev transport_at : World → WebSocketTransport World (Unit {0})
transport_at w = init (codes "ws://h") 10 true 2 5 w

abbrev two_frames : World
two_frames = record {
  time = 0;
  incoming = frame (1 ∷ 2 ∷ 3 ∷ []) ∷ connection_closed ∷ frame (4 ∷ 5 ∷ []) ∷ [];
  answers = true ∷ false ∷ true ∷ [];
  seen = [];
}

abbrev client : List Call
client = connect_call ∷ read_call (some 2) none ∷ read_call none none ∷ read_call none none ∷ []

-- The first read leaves a byte in the buffer, the third one reconnects.
run-two_frames : (run scripted 3 4 client (transport_at two_frames)).0 ≡ 1 ∷ 2 ∷ 3 ∷ 4 ∷ 5 ∷ []
unfolding run returned read connect init opened read_loop is_over time_left read_deadline
    drain_buffer do_reconnect reconnect_loop disconnect
run-two_frames = refl

run-keeps_example :
    (run scripted 3 4 client (transport_at two_frames)).1.world.seen
    ≡ ([] ++ (run scripted 3 4 client (transport_at two_frames)).0)
      ++ (run scripted 3 4 client (transport_at two_frames)).1.buffer
unfolding init
run-keeps_example = run-keeps scripted scripted_log 3 4 client [] (transport_at two_frames) refl

abbrev no_server : World
no_server = record { time = 7; incoming = []; answers = []; seen = [] }

do_reconnect-no_server : (do_reconnect scripted 4 (transport_at no_server)).0 ≡ err reconnect_failed
unfolding do_reconnect reconnect_loop disconnect init
do_reconnect-no_server = refl
