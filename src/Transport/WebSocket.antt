-- ===== src/Transport/WebSocket.antt =====
-- python/src/embedded_bridge/transport/websocket.py. The package websockets, the clock and `sleep`
-- are a parameter with the world that they act on; times are numbers of ticks. A size of -1 is
-- `none`, and other sizes are not negative. Logging is left out.
mod Stream
mod Reconnect
mod Tests
use embedded_bridge.Prelude.{
  ℕ, zero, suc, ◌+◌, ◌-◌, Bool, true, false, List, [], ◌∷◌, ◌++◌, Option, none, some, length, take,
  drop, ltb, leb, ◌==◌, ◌&&◌, if◌then◌else◌,
}
use embedded_bridge.Text.Utf8.{Text}
use embedded_bridge.Transport.Result.{
  Result, ok, err, stuck, not_connected, connect_failed, read_failed, write_failed,
  reconnect_failed, escaped_closed, escaped_failed,
}

-- What `recv` and `send` come to; a text frame stands as its UTF-8 bytes.
pub data Received : Type 0 where
  frame : List ℕ → Received
  timed_out connection_closed : Received

pub data Sent : Type 0 where
  sent send_closed send_failed : Sent

-- `ws_connect` gives `none` where it raises one of the exceptions that the code catches.
pub record Network (W Conn : Type 0) : Type 0 where
  pub ws_connect : Text → ℕ → W → Option Conn × W
  pub close : Conn → W → W
  pub recv : Conn → Option ℕ → W → Received × W
  pub send : Conn → List ℕ → W → Sent × W
  pub monotonic : W → ℕ × W
  pub sleep : ℕ → W → W

-- The transport, with the world beside it.
pub record WebSocketTransport (W Conn : Type 0) : Type 0 where
  pub uri : Text
  pub open_timeout : ℕ
  pub reconnect : Bool
  pub reconnect_interval : ℕ
  pub reconnect_timeout : ℕ
  pub ws : Option Conn
  pub buffer : List ℕ
  pub world : W

module _ {W Conn : Type 0} where
  pub init : Text → ℕ → Bool → ℕ → ℕ → W → WebSocketTransport W Conn
  init uri open_timeout reconnect interval timeout w = record {
    uri = uri;
    open_timeout = open_timeout;
    reconnect = reconnect;
    reconnect_interval = interval;
    reconnect_timeout = timeout;
    ws = none;
    buffer = [];
    world = w;
  }

  pub is_connected : WebSocketTransport W Conn → Bool
  is_connected s = elim s.ws [ none ↦ false | some _ ↦ true ]

  pub port_path : WebSocketTransport W Conn → Text
  port_path s = s.uri

  -- `size == -1 or size >= len(self._buffer)`
  pub drain_buffer :
      Option ℕ → WebSocketTransport W Conn → Result (List ℕ) × WebSocketTransport W Conn
  drain_buffer none s = (ok s.buffer, record s { buffer = [] })
  drain_buffer (some n) s =
      if leb (length s.buffer) n
      then (ok s.buffer, record s { buffer = [] })
      else (ok (take n s.buffer), record s { buffer = drop n s.buffer })

-- `remaining == 0.0 and not self._buffer`
pub is_over : Option ℕ → List ℕ → Bool
is_over none buffer = false
is_over (some remaining) buffer = remaining == 0 && length buffer == 0

module _ {W Conn : Type 0} (net : Network W Conn) where
  -- What `ws_connect` returned, into the state.
  pub opened :
      Result (Unit {0})
      → Option Conn × W
      → WebSocketTransport W Conn
      → Result (Unit {0}) × WebSocketTransport W Conn
  opened refused (none, w) s = (refused, record s { world = w })
  opened refused (some c, w) s = (ok tt, record s { ws = some c; world = w })

  pub connect : WebSocketTransport W Conn → Result (Unit {0}) × WebSocketTransport W Conn
  connect s = elim s.ws [
    | some _ ↦ (ok tt, s)
    | none ↦ opened (err connect_failed) (net.ws_connect s.uri s.open_timeout s.world) s
  ]

  pub disconnect : WebSocketTransport W Conn → WebSocketTransport W Conn
  disconnect s = elim s.ws [
    | none ↦ record s { buffer = [] }
    | some c ↦ record s { ws = none; buffer = []; world = net.close c s.world }
  ]

  -- `__enter__` and `__exit__` of a with statement.
  pub enter : WebSocketTransport W Conn → Result (Unit {0}) × WebSocketTransport W Conn
  enter s = connect s

  pub exit : WebSocketTransport W Conn → WebSocketTransport W Conn
  exit s = disconnect s

  -- The loop of `_do_reconnect`; `now` is the clock's reading before the round.
  pub reconnect_loop :
      ℕ → ℕ → WebSocketTransport W Conn → Result (Unit {0}) × WebSocketTransport W Conn
  reconnect_loop zero deadline s = (stuck, s)
  reconnect_loop (suc fuel) deadline s =
      let (now, w) = net.monotonic s.world in
      let s' = record s { world = w } in
      let (c, w') = net.ws_connect s.uri s.open_timeout w in
      let again =
        reconnect_loop fuel deadline (record s { world = net.sleep s.reconnect_interval w' }) in
      if ltb now deadline
      then (elim c [
        | none ↦ again
        | some conn ↦ (ok tt, record s { ws = some conn; buffer = []; world = w' })
      ])
      else (err reconnect_failed, s')

  pub do_reconnect : ℕ → WebSocketTransport W Conn → Result (Unit {0}) × WebSocketTransport W Conn
  do_reconnect fuel s =
      let s' = disconnect s in
      let (now, w) = net.monotonic s'.world in
      reconnect_loop fuel (now + s.reconnect_timeout) (record s' { world = w })

  -- The clock is read only where there is a deadline.
  pub time_left : Option ℕ → W → Option ℕ × W
  time_left none w = (none, w)
  time_left (some deadline) w = let (now, w') = net.monotonic w in (some (deadline - now), w')

  -- The loop of `read`, on the fuel of this loop and that of a reconnect.
  pub read_loop :
      ℕ
      → ℕ
      → Option ℕ
      → Option ℕ
      → Conn
      → WebSocketTransport W Conn
      → Result (List ℕ) × WebSocketTransport W Conn
  read_loop zero g size deadline c s = (stuck, s)
  read_loop (suc fuel) g size deadline c s =
      let (remaining, w) = time_left deadline s.world in
      let (received, w') = net.recv c remaining w in
      let s' = record s { world = w' } in
      let (result, s'') = do_reconnect g s' in
      if is_over remaining s.buffer then (ok [], record s { world = w }) else (elim received [
        | frame bytes ↦ drain_buffer size (record s' { buffer = s.buffer ++ bytes })
        | timed_out ↦ (ok [], s')
        | connection_closed ↦
            if s.reconnect
            then (elim result [
              | ok _ ↦ elim s''.ws [
                | none ↦ (err not_connected, s'')
                | some c' ↦ read_loop fuel g size deadline c' s''
              ]
              | err e ↦ (err e, s'')
              | stuck ↦ (stuck, s'')
            ])
            else (err read_failed, s')
      ])

  -- The deadline of a read that waits.
  pub read_deadline : Option ℕ → W → Option ℕ × W
  read_deadline none w = (none, w)
  read_deadline (some timeout) w = let (now, w') = net.monotonic w in (some (now + timeout), w')

  pub read :
      ℕ
      → ℕ
      → Option ℕ
      → Option ℕ
      → WebSocketTransport W Conn
      → Result (List ℕ) × WebSocketTransport W Conn
  read fuel g size timeout s = elim s.ws [
    | none ↦ (err not_connected, s)
    | some c ↦
        let (deadline, w) = read_deadline timeout s.world in
        if ltb 0 (length s.buffer)
        then drain_buffer size s
        else read_loop fuel g size deadline c (record s { world = w })
  ]

  -- The second `ws.send`, whose exceptions nothing catches.
  pub send_again :
      List ℕ → WebSocketTransport W Conn → Result (Unit {0}) × WebSocketTransport W Conn
  send_again bytes s = elim s.ws [
    | none ↦ (err not_connected, s)
    | some c ↦
        let (outcome, w) = net.send c bytes s.world in
        elim outcome [
          | sent ↦ (ok tt, record s { world = w })
          | send_closed ↦ (err escaped_closed, record s { world = w })
          | send_failed ↦ (err escaped_failed, record s { world = w })
        ]
  ]

  -- `except ConnectionClosed`
  pub write_closed :
      ℕ → List ℕ → WebSocketTransport W Conn → Result (Unit {0}) × WebSocketTransport W Conn
  write_closed g bytes s =
      let (result, s') = do_reconnect g s in
      if s.reconnect
      then (elim result [ ok _ ↦ send_again bytes s' | err e ↦ (err e, s') | stuck ↦ (stuck, s') ])
      else (err write_failed, s)

  pub write : ℕ → List ℕ → WebSocketTransport W Conn → Result (Unit {0}) × WebSocketTransport W Conn
  write g bytes s = elim s.ws [
    | none ↦ (err not_connected, s)
    | some c ↦
        let (outcome, w) = net.send c bytes s.world in
        elim outcome [
          | sent ↦ (ok tt, record s { world = w })
          | send_closed ↦ write_closed g bytes (record s { world = w })
          | send_failed ↦ (err write_failed, record s { world = w })
        ]
  ]
