-- ===== src/Transport/Serial/Reconnect.antt =====
-- The loop of `_do_reconnect` of a SerialTransport ends, and how it leaves the transport.
use embedded_bridge.Prelude.{
  ℕ, zero, suc, ◌+◌, ◌*◌, ◌≤◌, ◌<◌, ◌≡◌, refl, ap, arith, inl, inr, ◌⊎◌, List, Option, none, some,
  Bool, true, false, Bool-cases, Option-cases, ltb,
}
use embedded_bridge.Transport.Result.{Result, ok, err, reconnect_failed}
use embedded_bridge.Transport.Serial.Port.{System, resolve_port, port_exists}
use embedded_bridge.Transport.Serial.{
  SerialTransport, disconnect, open_serial, attempt_at, attempt, reconnect_loop, do_reconnect,
}

-- The clock of a world: `monotonic` reads it, no call turns it back, and a sleep takes its time.
pub record Clock {W Port : Type 0} (sys : System W Port) : Type 0 where
  pub now : W → ℕ
  pub now_read : (w : W) → (sys.monotonic w).0 ≡ now w
  pub now_monotonic : (w : W) → now w ≤ now (sys.monotonic w).1
  pub now_resolved : (name : List ℕ) (w : W) → now w ≤ now (sys.usb_device_port name w).1
  pub now_serial :
      (path : List ℕ) (baudrate : ℕ) (w : W) → now w ≤ now (sys.serial path baudrate w).1
  pub now_close : (port : Port) (w : W) → now w ≤ now (sys.close port w)
  pub now_sleep : (d : ℕ) (w : W) → now w + d ≤ now (sys.sleep d w)

module _ {W Port : Type 0} (sys : System W Port) (clock : Clock sys) where
  -- A new port at the path that it was resolved to, or no port when the time is over.
  unfoldable pub Ended : ℕ → Result (Unit {0}) × SerialTransport W Port → Type 0
  Ended deadline (result, s) =
      ((result ≡ ok tt)
        × ((port : Port) × (s.serial ≡ some port))
        × ((path : List ℕ) × (s.port_path ≡ some path)))
      ⊎ ((result ≡ err reconnect_failed) × (s.serial ≡ none) × (deadline ≤ clock.now s.world))

  -- How an attempt leaves a transport without a port: the clock is not turned back, the interval is
  -- the same, and it holds a port exactly where the attempt succeeded.
  Attempted : SerialTransport W Port → Bool × SerialTransport W Port → Type 0
  Attempted s (opened, s') =
      (clock.now s.world ≤ clock.now s'.world)
      × (s'.reconnect_interval ≡ s.reconnect_interval)
      × (((opened ≡ true)
            × ((port : Port) × (s'.serial ≡ some port))
            × ((path : List ℕ) × (s'.port_path ≡ some path)))
          ⊎ ((opened ≡ false) × (s'.serial ≡ none)))

  open_serial-Attempted :
      (path : List ℕ) (s : SerialTransport W Port)
      → s.serial ≡ none
      → s.port_path ≡ some path
      → Attempted s (open_serial sys path s)
  unfolding open_serial Attempted
  open_serial-Attempted path s closed e =
      let opened = sys.serial path s.baudrate s.world in
      let later = clock.now_serial path s.baudrate s.world in
      elim (Option-cases opened.0) [
        | inl refused ↦ rw (Attempted, open_serial, refused) (later, refl, inr (refl, closed))
        | inr (port, open_) ↦
            rw (Attempted, open_serial, open_) (later, refl, inl (refl, (port, refl), (path, e)))
      ]

  attempt_at-Attempted :
      (path : Option (List ℕ)) (s : SerialTransport W Port)
      → s.serial ≡ none
      → Attempted s (attempt_at sys path s)
  unfolding attempt_at Attempted
  attempt_at-Attempted none s closed = (omega arith, refl, inr (refl, closed))
  attempt_at-Attempted (some path) s closed = elim (Bool-cases (port_exists sys path s.world)) [
    | inl there ↦
        rw there (open_serial-Attempted path (record s { port_path = some path }) closed refl)
    | inr missing ↦ rw missing (omega arith, refl, inr (refl, closed))
  ]

  resolve_port-now : (name : List ℕ) (w : W) → clock.now w ≤ clock.now (resolve_port sys name w).1
  unfolding resolve_port
  resolve_port-now name w = ground (arith, clock.now_resolved name w)

  attempt-Attempted : (s : SerialTransport W Port) → s.serial ≡ none → Attempted s (attempt sys s)
  unfolding attempt Attempted
  attempt-Attempted s closed =
      let found = resolve_port sys s.port_spec s.world in
      let (later, same, outcome) =
        attempt_at-Attempted found.0 (record s { world = found.1 }) closed in
      (omega (arith, later, resolve_port-now s.port_spec s.world), same, outcome)

  -- A round of the loop, its clock reading first.
  abbrev tried : SerialTransport W Port → Bool × SerialTransport W Port
  tried s = attempt sys (record s { world = (sys.monotonic s.world).1 })

  -- After a round that opens no port.
  abbrev after_round : SerialTransport W Port → SerialTransport W Port
  after_round s = record (tried s).1 { world = sys.sleep s.reconnect_interval (tried s).1.world }

  round-Ended :
      (fuel deadline : ℕ) (s : SerialTransport W Port)
      → s.serial ≡ none
      → (clock.now s.world < deadline
          → (after_round s).serial ≡ none
          → clock.now s.world + s.reconnect_interval ≤ clock.now (after_round s).world
          → (after_round s).reconnect_interval ≡ s.reconnect_interval
          → Ended deadline (reconnect_loop sys fuel deadline (after_round s)))
      → Ended deadline (reconnect_loop sys (suc fuel) deadline s)
  unfolding reconnect_loop Ended Attempted
  round-Ended fuel deadline s closed again =
      let read = sys.monotonic s.world in
      let (later, same, outcome) = attempt-Attempted (record s { world = read.1 }) closed in
      elim (Bool-cases (ltb read.0 deadline)) [
        | inr late ↦ rw late (
            inr (
              refl,
              closed,
              ground (arith, late, clock.now_read s.world, clock.now_monotonic s.world),
            ))
        | inl early ↦ rw early (elim outcome [
          | inl (opened, port, path) ↦ rw opened (inl (refl, port, path))
          | inr (refused, still) ↦ rw refused (
              again (ground (arith, early, clock.now_read s.world)) still
                (omega (
                  arith,
                  later,
                  clock.now_monotonic s.world,
                  clock.now_sleep s.reconnect_interval (tried s).1.world,
                ))
                same)
        ])
      ]

  reconnect_loop-Ended :
      (fuel deadline : ℕ) (s : SerialTransport W Port)
      → deadline ≤ clock.now s.world + fuel * s.reconnect_interval
      → s.serial ≡ none
      → Ended deadline (reconnect_loop sys (suc fuel) deadline s)
  reconnect_loop-Ended zero deadline s h closed =
      round-Ended zero deadline s closed λ early _ _ _. absurd (omega (arith, h, early))
  reconnect_loop-Ended (suc fuel) deadline s h closed =
      round-Ended (suc fuel) deadline s closed λ early still later same.
        reconnect_loop-Ended fuel deadline (after_round s)
          (omega (arith, h, later, ap (λ (i : ℕ). fuel * i) same)) still

  disconnect-closes :
      (s : SerialTransport W Port)
      → (clock.now s.world ≤ clock.now (disconnect sys s).world)
        × ((disconnect sys s).serial ≡ none)
        × ((disconnect sys s).reconnect_interval ≡ s.reconnect_interval)
  unfolding disconnect
  disconnect-closes s = elim (Option-cases s.serial) [
    | inl e ↦ rw (disconnect, e) (omega arith, e, refl)
    | inr (port, e) ↦ rw (disconnect, e) (clock.now_close port s.world, refl, refl)
  ]

  Ended-weaken :
      {d d' : ℕ} (x : Result (Unit {0}) × SerialTransport W Port) → d ≤ d' → Ended d' x → Ended d x
  unfolding Ended
  Ended-weaken x h (inl reconnected) = inl reconnected
  Ended-weaken x h (inr (refused, closed, late)) = inr (refused, closed, omega (arith, h, late))

  -- If a clock that no call turns back stands behind the calls and a sleep takes its time, fuel of
  -- more than reconnect_timeout / reconnect_interval rounds is enough: `_do_reconnect` leaves an
  -- open port with the path that it was resolved to, or raises and leaves no port, and then not
  -- before reconnect_timeout has passed since it was called.
  pub serial_do_reconnect-Ended :
      (fuel : ℕ) (s : SerialTransport W Port)
      → s.reconnect_timeout ≤ fuel * s.reconnect_interval
      → Ended (clock.now s.world + s.reconnect_timeout) (do_reconnect sys (suc fuel) s)
  unfolding do_reconnect
  serial_do_reconnect-Ended fuel s h =
      let s' = disconnect sys s in
      let (now, w) = sys.monotonic s'.world in
      let (later, closed, same) = disconnect-closes s in
      Ended-weaken _ (omega (arith, later, clock.now_read s'.world)) (
        reconnect_loop-Ended fuel (now + s.reconnect_timeout) (record s' { world = w })
          (omega (
            arith,
            h,
            clock.now_read s'.world,
            clock.now_monotonic s'.world,
            ap (λ (i : ℕ). fuel * i) same,
          ))
          closed)
