-- ===== src/Transport/Serial.antt =====
-- python/src/embedded_bridge/transport/serial.py. pyserial, the command usb-device, the file system,
-- the clock and `sleep` are a parameter with the world that they act on; times are microseconds. A
-- size of -1 is `none`, and other sizes are not negative. Logging is left out.
mod Port
mod Reconnect
mod Log
mod Write
mod WriteEnds
mod Tests
use embedded_bridge.Prelude.{
  ℕ, zero, suc, ◌+◌, ◌≤◌, min, Bool, true, false, not, List, [], ◌∷◌, Option, none, some, length,
  ltb, leb, ◌==◌, ◌&&◌, ◌||◌, if◌then◌else◌,
}
use embedded_bridge.Text.Utf8.{Text}
use embedded_bridge.Transport.Serial.Port.{System, resolve_port, port_exists}
use embedded_bridge.Transport.Result.{
  Result, ok, err, stuck, not_connected, read_failed, write_failed, reconnect_failed,
  file_not_found, serial_failed,
}

-- The transport, with the world beside it.
pub record SerialTransport (W Port : Type 0) : Type 0 where
  pub port_spec : Text
  pub baudrate : ℕ
  pub reconnect : Bool
  pub reconnect_interval : ℕ
  pub reconnect_timeout : ℕ
  pub serial : Option Port
  pub port_path : Option Text
  pub world : W

module _ {W Port : Type 0} where
  pub init : Text → ℕ → Bool → ℕ → ℕ → W → SerialTransport W Port
  init port baudrate reconnect interval timeout w = record {
    port_spec = port;
    baudrate = baudrate;
    reconnect = reconnect;
    reconnect_interval = interval;
    reconnect_timeout = timeout;
    serial = none;
    port_path = none;
    world = w;
  }

module _ {W Port : Type 0} (sys : System W Port) where
  -- `serial.Serial(...)` at this path; false where it raises.
  pub open_serial : Text → SerialTransport W Port → Bool × SerialTransport W Port
  open_serial path s =
      let (opened, w) = sys.serial path s.baudrate s.world in
      elim opened [
        | none ↦ (false, record s { world = w })
        | some port ↦ (true, record s { serial = some port; world = w })
      ]

  -- The open port, which `_ensure_connected` returns.
  pub open_port : SerialTransport W Port → Option Port
  open_port s = elim s.serial [
    | none ↦ none
    | some port ↦ if sys.is_open port s.world then some port else none
  ]

  -- From a port that is resolved.
  pub connect_to : Option Text → SerialTransport W Port → Result (Unit {0}) × SerialTransport W Port
  connect_to none s = (err file_not_found, s)
  connect_to (some path) s =
      let (opened, s') = open_serial path (record s { port_path = some path }) in
      (if opened then ok tt else err serial_failed, s')

  pub connect : SerialTransport W Port → Result (Unit {0}) × SerialTransport W Port
  connect s = elim (open_port s) [
    | some port ↦ (ok tt, s)
    | none ↦
        let (path, w) = resolve_port sys s.port_spec s.world in
        connect_to path (record s { world = w })
  ]

  pub disconnect : SerialTransport W Port → SerialTransport W Port
  disconnect s = elim s.serial [
    | none ↦ s
    | some port ↦ record s { serial = none; world = sys.close port s.world }
  ]

  pub enter : SerialTransport W Port → Result (Unit {0}) × SerialTransport W Port
  enter s = connect s

  pub exit : SerialTransport W Port → SerialTransport W Port
  exit s = disconnect s

  -- `self._port_path and not port_exists(self._port_path)`
  pub is_gone : Option Text → W → Bool
  is_gone none w = false
  is_gone (some path) w = ltb 0 (length path) && not (port_exists sys path w)

  pub is_connected : SerialTransport W Port → Bool
  is_connected s = elim (open_port s) [
    | none ↦ false
    | some port ↦ not (is_gone s.port_path s.world)
  ]

  -- The body of the loop of `_do_reconnect`; false where it raises.
  pub attempt_at : Option Text → SerialTransport W Port → Bool × SerialTransport W Port
  attempt_at none s = (false, s)
  attempt_at (some path) s =
      let s' = record s { port_path = some path } in
      if port_exists sys path s.world then open_serial path s' else (false, s')

  pub attempt : SerialTransport W Port → Bool × SerialTransport W Port
  attempt s =
      let (path, w) = resolve_port sys s.port_spec s.world in
      attempt_at path (record s { world = w })

  pub reconnect_loop : ℕ → ℕ → SerialTransport W Port → Result (Unit {0}) × SerialTransport W Port
  reconnect_loop zero deadline s = (stuck, s)
  reconnect_loop (suc fuel) deadline s =
      let (now, w) = sys.monotonic s.world in
      let (opened, s') = attempt (record s { world = w }) in
      let again =
        reconnect_loop fuel deadline
          (record s' { world = sys.sleep s.reconnect_interval s'.world }) in
      if ltb now deadline
      then (if opened then (ok tt, s') else again)
      else (err reconnect_failed, record s { world = w })

  pub do_reconnect : ℕ → SerialTransport W Port → Result (Unit {0}) × SerialTransport W Port
  do_reconnect fuel s =
      let s' = disconnect s in
      let (now, w) = sys.monotonic s'.world in
      reconnect_loop fuel (now + s.reconnect_timeout) (record s' { world = w })

  -- How much is read of what waits.
  pub amount : Option ℕ → ℕ → ℕ
  amount none waiting = waiting
  amount (some size) waiting = min size waiting

  -- The bytes that wait, if any; `none` where pyserial raises.
  pub take_waiting :
      Option ℕ → Port → SerialTransport W Port → Option (Option (List ℕ)) × SerialTransport W Port
  take_waiting size port s =
      let (waiting, w) = sys.in_waiting port s.world in
      elim waiting [
        | none ↦ (none, record s { world = w })
        | some n ↦
            let (bytes, w') = sys.read port (amount size n) w in
            if ltb 0 n
            then (elim bytes [
              | none ↦ (none, record s { world = w' })
              | some b ↦ (some (some b), record s { world = w' })
            ])
            else (some none, record s { world = w })
      ]

  -- `deadline is not None and time.monotonic() >= deadline`
  pub is_due : Option ℕ → W → Bool × W
  is_due none w = (false, w)
  is_due (some deadline) w = let (now, w') = sys.monotonic w in (leb deadline now, w')

  -- The loop of `read`, on the fuel of this loop and that of a reconnect.
  pub read_loop :
      ℕ
      → ℕ
      → Option ℕ
      → Option ℕ
      → Port
      → SerialTransport W Port
      → Result (List ℕ) × SerialTransport W Port
  read_loop zero g size deadline port s = (stuck, s)
  read_loop (suc fuel) g size deadline port s =
      let (found, s') = take_waiting size port s in
      let (due, w) = is_due deadline s'.world in
      let idle = read_loop fuel g size deadline port (record s' { world = sys.sleep 10000 w }) in
      let (result, s'') = do_reconnect g s' in
      elim found [
        | none ↦
            if s'.reconnect
            then (elim result [
              | ok _ ↦ elim (open_port s'') [
                | none ↦ (err not_connected, s'')
                | some port' ↦ read_loop fuel g size deadline port' s''
              ]
              | err e ↦ (err e, s'')
              | stuck ↦ (stuck, s'')
            ])
            else (err read_failed, s')
        | some none ↦ if due then (ok [], record s' { world = w }) else idle
        | some (some bytes) ↦ (ok bytes, s')
      ]

  pub read_deadline : Option ℕ → W → Option ℕ × W
  read_deadline none w = (none, w)
  read_deadline (some timeout) w = let (now, w') = sys.monotonic w in (some (now + timeout), w')

  pub read :
      ℕ
      → ℕ
      → Option ℕ
      → Option ℕ
      → SerialTransport W Port
      → Result (List ℕ) × SerialTransport W Port
  read fuel g size timeout s = elim (open_port s) [
    | none ↦ (err not_connected, s)
    | some port ↦
        let (deadline, w) = read_deadline timeout s.world in
        read_loop fuel g size deadline port (record s { world = w })
  ]

  -- `ser.write(data)` and `ser.flush()`; false where one raises.
  pub send : List ℕ → Port → SerialTransport W Port → Bool × SerialTransport W Port
  send bytes port s =
      let (written, w) = sys.write port bytes s.world in
      let (flushed, w') = sys.flush port w in
      if written then (flushed, record s { world = w' }) else (false, record s { world = w })

  -- The retry, whose exceptions nothing catches.
  pub send_again : List ℕ → SerialTransport W Port → Result (Unit {0}) × SerialTransport W Port
  send_again bytes s = elim (open_port s) [
    | none ↦ (err not_connected, s)
    | some port ↦
        let (sent, s') = send bytes port s in (if sent then ok tt else err serial_failed, s')
  ]

  -- `except (serial.SerialException, OSError)`
  pub write_raised :
      ℕ → List ℕ → SerialTransport W Port → Result (Unit {0}) × SerialTransport W Port
  write_raised g bytes s =
      let (result, s') = do_reconnect g s in
      if s.reconnect
      then (elim result [ ok _ ↦ send_again bytes s' | err e ↦ (err e, s') | stuck ↦ (stuck, s') ])
      else (err write_failed, s)

  pub write : ℕ → List ℕ → SerialTransport W Port → Result (Unit {0}) × SerialTransport W Port
  write g bytes s = elim (open_port s) [
    | none ↦ (err not_connected, s)
    | some port ↦
        let (sent, s') = send bytes port s in if sent then (ok tt, s') else write_raised g bytes s'
  ]
