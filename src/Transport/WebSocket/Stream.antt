-- ===== src/Transport/WebSocket/Stream.antt =====
-- The bytes that the reads of a WebSocketTransport return, against those that it received.
use embedded_bridge.Prelude.{
  ℕ, zero, suc, ◌+◌, ◌≡◌, refl, sym, ap, ◌∙◌, arith, inl, inr, ◌⊎◌, false, List, [], ◌∷◌, ◌++◌,
  append-nil, append_assoc, Option, none, some, length, take, drop, ltb, Bool-cases, Option-cases,
  take-append-drop,
}
use embedded_bridge.Transport.Result.{Result, ok, err, stuck}
use embedded_bridge.Transport.WebSocket.{
  Received, frame, timed_out, connection_closed, Network, WebSocketTransport, drain_buffer, opened,
  connect, disconnect, reconnect_loop, do_reconnect, time_left, is_over, read_loop, read_deadline,
  read,
}

unfoldable pub bytes_of : Received → List ℕ
bytes_of (frame bytes) = bytes
bytes_of timed_out = []
bytes_of connection_closed = []

unfoldable pub returned : Result (List ℕ) → List ℕ
returned (ok bytes) = bytes
returned (err e) = []
returned stuck = []

length-zero : (xs : List ℕ) → ltb 0 (length xs) ≡ false → xs ≡ []
length-zero [] e = refl
length-zero (x ∷ xs) e = ground (arith, e)

Received-cases :
    (x : Received)
    → ((bytes : List ℕ) × (x ≡ frame bytes)) ⊎ ((x ≡ timed_out) ⊎ (x ≡ connection_closed))
Received-cases (frame bytes) = inl (bytes, refl)
Received-cases timed_out = inr (inl refl)
Received-cases connection_closed = inr (inr refl)

-- The log of the bytes that `recv` gave, which no other call of the package changes.
pub record Log {W Conn : Type 0} (net : Network W Conn) : Type 0 where
  pub received : W → List ℕ
  pub received_recv :
      (c : Conn) (timeout : Option ℕ) (w : W)
      → received (net.recv c timeout w).1 ≡ received w ++ bytes_of (net.recv c timeout w).0
  pub received_connect :
      (uri : List ℕ) (timeout : ℕ) (w : W) → received (net.ws_connect uri timeout w).1 ≡ received w
  pub received_close : (c : Conn) (w : W) → received (net.close c w) ≡ received w
  pub received_monotonic : (w : W) → received (net.monotonic w).1 ≡ received w
  pub received_sleep : (d : ℕ) (w : W) → received (net.sleep d w) ≡ received w

-- A call of a client that only reads.
pub data Call : Type 0 where
  connect_call : Call
  read_call : Option ℕ → Option ℕ → Call

module _ {W Conn : Type 0} (net : Network W Conn) where
  -- The bytes that the reads of the calls return, on fuel for each read and each reconnect.
  unfoldable pub run :
      ℕ → ℕ → List Call → WebSocketTransport W Conn → List ℕ × WebSocketTransport W Conn
  run fuel g [] s = ([], s)
  run fuel g (connect_call ∷ calls) s = run fuel g calls (connect net s).1
  run fuel g (read_call size timeout ∷ calls) s =
      let (result, s') = read net fuel g size timeout s in
      let (bytes, s'') = run fuel g calls s' in (returned result ++ bytes, s'')

  module _ (log : Log net) where
    -- All bytes received are `r`, then what the call returned, then the buffer.
    abbrev Kept : List ℕ → Result (List ℕ) × WebSocketTransport W Conn → Type 0
    Kept r (result, s) = log.received s.world ≡ (r ++ returned result) ++ s.buffer

    drain_buffer-Kept :
        (size : Option ℕ) (r : List ℕ) (s : WebSocketTransport W Conn)
        → log.received s.world ≡ r ++ s.buffer
        → Kept r (drain_buffer size s)
    unfolding drain_buffer returned
    drain_buffer-Kept none r s e = e ∙ sym (append-nil (r ++ s.buffer))
    drain_buffer-Kept (some n) r s e = ground (
      arith,
      e,
      append-nil (r ++ s.buffer),
      take-append-drop n s.buffer,
      append_assoc r (take n s.buffer) (drop n s.buffer),
    )

    -- The buffer is empty, and nothing was received since `w`.
    abbrev Emptied : W → Result (Unit {0}) × WebSocketTransport W Conn → Type 0
    Emptied w (result, s) = (log.received s.world ≡ log.received w) × (s.buffer ≡ [])

    disconnect-Emptied : (s : WebSocketTransport W Conn) → Emptied s.world (ok tt, disconnect net s)
    unfolding disconnect
    disconnect-Emptied s = elim (Option-cases s.ws) [
      | inl e ↦ rw (disconnect, e) (refl, refl)
      | inr (c, e) ↦ rw (disconnect, e) (log.received_close c s.world, refl)
    ]

    reconnect_loop-Emptied :
        (g deadline : ℕ) (s : WebSocketTransport W Conn)
        → s.buffer ≡ []
        → Emptied s.world (reconnect_loop net g deadline s)
    unfolding reconnect_loop
    reconnect_loop-Emptied zero deadline s e = (refl, e)
    reconnect_loop-Emptied (suc g) deadline s e =
        let w = (net.monotonic s.world).1 in
        let w' = (net.ws_connect s.uri s.open_timeout w).1 in
        ground (
          arith,
          e,
          reconnect_loop-Emptied g deadline (record s { world = net.sleep s.reconnect_interval w' })
              e,
          log.received_monotonic s.world,
          log.received_connect s.uri s.open_timeout w,
          log.received_sleep s.reconnect_interval w',
        )

    do_reconnect-Emptied :
        (g : ℕ) (s : WebSocketTransport W Conn) → Emptied s.world (do_reconnect net g s)
    unfolding do_reconnect
    do_reconnect-Emptied g s =
        let s' = disconnect net s in
        let (e, k) = disconnect-Emptied s in
        let (now, w) = net.monotonic s'.world in
        let (e', k') =
          reconnect_loop-Emptied g (now + s.reconnect_timeout) (record s' { world = w }) k in
        (e' ∙ log.received_monotonic s'.world ∙ e, k')

    connect-keeps :
        (r : List ℕ) (s : WebSocketTransport W Conn)
        → log.received s.world ≡ r ++ s.buffer
        → log.received (connect net s).1.world ≡ r ++ (connect net s).1.buffer
    unfolding connect opened
    connect-keeps r s e = ground (arith, e, log.received_connect s.uri s.open_timeout s.world)

    time_left-received :
        (deadline : Option ℕ) (w : W) → log.received (time_left net deadline w).1 ≡ log.received w
    unfolding time_left
    time_left-received none w = refl
    time_left-received (some d) w = log.received_monotonic w

    read_deadline-received :
        (timeout : Option ℕ) (w : W) → log.received (read_deadline net timeout w).1 ≡ log.received w
    unfolding read_deadline
    read_deadline-received none w = refl
    read_deadline-received (some d) w = log.received_monotonic w

    read_loop-Kept :
        (fuel g : ℕ) (size deadline : Option ℕ) (c : Conn) (r : List ℕ)
        (s : WebSocketTransport W Conn)
        → s.buffer ≡ []
        → log.received s.world ≡ r
        → Kept r (read_loop net fuel g size deadline c s)
    unfolding read_loop returned bytes_of
    read_loop-Kept zero g size deadline c r s k e = ground (arith, e, k, append-nil r)
    read_loop-Kept (suc fuel) g size deadline c r s k e =
        let left = time_left net deadline s.world in
        let got = net.recv c left.0 left.1 in
        let same = time_left-received deadline s.world ∙ e in
        let s' = record s { world = got.1 } in
        let step : log.received got.1 ≡ r ++ bytes_of got.0 =
          log.received_recv c left.0 left.1 ∙ ap (λ (t : List ℕ). t ++ bytes_of got.0) same in
        let (kept, emptied) = do_reconnect-Emptied g s' in
        elim (Bool-cases (is_over left.0 s.buffer)) [
          | inl over ↦ rw over (ground (arith, k, append-nil r, same))
          | inr live ↦ rw live (elim (Received-cases got.0) [
            | inl (b, is_frame) ↦ rw is_frame (
                drain_buffer-Kept size r (record s' { buffer = s.buffer ++ b })
                  (step
                    ∙ ap (λ (x : Received). r ++ bytes_of x) is_frame
                    ∙ ap (λ (t : List ℕ). r ++ (t ++ b)) (sym k)))
            | inr (inl is_timed_out) ↦
                rw is_timed_out (ground (arith, k, step, ap bytes_of is_timed_out, append-nil r))
            | inr (inr is_closed) ↦
                let all = step ∙ ap (λ (x : Received). r ++ bytes_of x) is_closed ∙ append-nil r in
                let next = (do_reconnect net g s').1 in
                rw is_closed (elim (Option-cases next.ws) [
                  | inl no_ws ↦ ground (arith, k, all, kept, emptied, append-nil r, no_ws)
                  | inr (c', ws) ↦ ground (
                    arith,
                    k,
                    all,
                    kept,
                    emptied,
                    append-nil r,
                    ws,
                    read_loop-Kept fuel g size deadline c' r next emptied (kept ∙ all),
                  )
                ])
          ])
        ]

    read-Kept :
        (fuel g : ℕ) (size timeout : Option ℕ) (r : List ℕ) (s : WebSocketTransport W Conn)
        → log.received s.world ≡ r ++ s.buffer
        → Kept r (read net fuel g size timeout s)
    unfolding read returned
    read-Kept fuel g size timeout r s e =
        let deadline = read_deadline net timeout s.world in
        elim (Option-cases s.ws) [
          | inl no_ws ↦ rw no_ws (ground (arith, e, append-nil r))
          | inr (c, ws) ↦ rw ws (elim (Bool-cases (ltb 0 (length s.buffer))) [
            | inl full ↦ rw full (drain_buffer-Kept size r (record s { ws = some c }) e)
            | inr not_full ↦
                let empty : s.buffer ≡ [] = length-zero s.buffer not_full in
                rw not_full (
                  read_loop-Kept fuel g size deadline.0 c r
                    (record s { ws = some c; world = deadline.1 }) empty
                    (read_deadline-received timeout s.world
                      ∙ e
                      ∙ ap (λ (t : List ℕ). r ++ t) empty
                      ∙ append-nil r))
          ])
        ]

    -- For a client that connects and reads, and a package that keeps a log of what `recv` gave: if
    -- all bytes received were `r` and then the buffer, they are afterwards `r`, then what the reads
    -- returned, then the buffer, through any timeouts, closed connections and reconnects.
    pub run-keeps :
        (fuel g : ℕ) (calls : List Call) (r : List ℕ) (s : WebSocketTransport W Conn)
        → log.received s.world ≡ r ++ s.buffer
        → log.received (run fuel g calls s).1.world
          ≡ (r ++ (run fuel g calls s).0) ++ (run fuel g calls s).1.buffer
    unfolding run
    run-keeps fuel g [] r s e = e ∙ ap (λ (t : List ℕ). t ++ s.buffer) (sym (append-nil r))
    run-keeps fuel g (connect_call ∷ calls) r s e =
        run-keeps fuel g calls r (connect net s).1 (connect-keeps r s e)
    run-keeps fuel g (read_call size timeout ∷ calls) r s e =
        let one = read net fuel g size timeout s in
        run-keeps fuel g calls (r ++ returned one.0) one.1 (read-Kept fuel g size timeout r s e)
        ∙ ap (λ (t : List ℕ). t ++ (run fuel g calls one.1).1.buffer)
            (append_assoc r (returned one.0) (run fuel g calls one.1).0)
