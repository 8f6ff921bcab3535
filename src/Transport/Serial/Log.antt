-- ===== src/Transport/Serial/Log.antt =====
-- A log of the bytes that pyserial took, which a reconnect does not change.
use embedded_bridge.Prelude.{
  ℕ, zero, suc, ◌+◌, ◌≡◌, refl, ◌∙◌, arith, inl, inr, List, ◌++◌, Option, none, some, true, false,
  Option-cases,
}
use embedded_bridge.Transport.Serial.Port.{System, resolve_port}
use embedded_bridge.Transport.Serial.{
  SerialTransport, disconnect, open_serial, attempt_at, attempt, reconnect_loop, do_reconnect,
}

-- The log of the bytes that pyserial took: all of them where `write` returns, a part from the front
-- where it raises. No other call changes it.
pub record Log {W Port : Type 0} (sys : System W Port) : Type 0 where
  pub written : W → List ℕ
  pub written_all :
      (port : Port) (bytes : List ℕ) (w : W)
      → (sys.write port bytes w).0 ≡ true
      → written (sys.write port bytes w).1 ≡ written w ++ bytes
  pub written_part :
      (port : Port) (bytes : List ℕ) (w : W)
      → (sys.write port bytes w).0 ≡ false
      → (part : List ℕ) × (rest : List ℕ) × (part ++ rest ≡ bytes)
        × (written (sys.write port bytes w).1 ≡ written w ++ part)
  pub written_flush : (port : Port) (w : W) → written (sys.flush port w).1 ≡ written w
  pub written_close : (port : Port) (w : W) → written (sys.close port w) ≡ written w
  pub written_resolved :
      (name : List ℕ) (w : W) → written (sys.usb_device_port name w).1 ≡ written w
  pub written_serial :
      (path : List ℕ) (baudrate : ℕ) (w : W) → written (sys.serial path baudrate w).1 ≡ written w
  pub written_monotonic : (w : W) → written (sys.monotonic w).1 ≡ written w
  pub written_sleep : (d : ℕ) (w : W) → written (sys.sleep d w) ≡ written w

module _ {W Port : Type 0} (sys : System W Port) (log : Log sys) where
  resolve_port-written :
      (name : List ℕ) (w : W) → log.written (resolve_port sys name w).1 ≡ log.written w
  unfolding resolve_port
  resolve_port-written name w = ground (arith, log.written_resolved name w)

  open_serial-written :
      (path : List ℕ) (s : SerialTransport W Port)
      → log.written (open_serial sys path s).1.world ≡ log.written s.world
  unfolding open_serial
  open_serial-written path s = ground (arith, log.written_serial path s.baudrate s.world)

  attempt_at-written :
      (path : Option (List ℕ)) (s : SerialTransport W Port)
      → log.written (attempt_at sys path s).1.world ≡ log.written s.world
  unfolding attempt_at
  attempt_at-written none s = refl
  attempt_at-written (some path) s =
      ground (arith, open_serial-written path (record s { port_path = some path }))

  attempt-written :
      (s : SerialTransport W Port) → log.written (attempt sys s).1.world ≡ log.written s.world
  unfolding attempt
  attempt-written s =
      let found = resolve_port sys s.port_spec s.world in
      attempt_at-written found.0 (record s { world = found.1 })
      ∙ resolve_port-written s.port_spec s.world

  reconnect_loop-written :
      (g deadline : ℕ) (s : SerialTransport W Port)
      → log.written (reconnect_loop sys g deadline s).1.world ≡ log.written s.world
  unfolding reconnect_loop
  reconnect_loop-written zero deadline s = refl
  reconnect_loop-written (suc g) deadline s =
      let s' = record s { world = (sys.monotonic s.world).1 } in
      let (opened, s'') = attempt sys s' in
      let w = sys.sleep s.reconnect_interval s''.world in
      ground (
        arith,
        log.written_monotonic s.world,
        attempt-written s',
        log.written_sleep s.reconnect_interval s''.world,
        reconnect_loop-written g deadline (record s'' { world = w }),
      )

  disconnect-written :
      (s : SerialTransport W Port) → log.written (disconnect sys s).world ≡ log.written s.world
  unfolding disconnect
  disconnect-written s = elim (Option-cases s.serial) [
    | inl e ↦ rw (disconnect, e) refl
    | inr (port, e) ↦ rw (disconnect, e) (log.written_close port s.world)
  ]

  pub do_reconnect-written :
      (g : ℕ) (s : SerialTransport W Port)
      → log.written (do_reconnect sys g s).1.world ≡ log.written s.world
  unfolding do_reconnect
  do_reconnect-written g s =
      let s' = disconnect sys s in
      let (now, w) = sys.monotonic s'.world in
      reconnect_loop-written g (now + s.reconnect_timeout) (record s' { world = w })
      ∙ log.written_monotonic s'.world
      ∙ disconnect-written s
