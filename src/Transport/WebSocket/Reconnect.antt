-- ===== src/Transport/WebSocket/Reconnect.antt =====
-- The loop of `_do_reconnect` of a WebSocketTransport ends, and how it leaves the transport.
use embedded_bridge.Prelude.{ℕ, ◌+◌, ◌≤◌, ◌≡◌, ◌⊎◌, List, [], none, some}
use embedded_bridge.Transport.Result.{Result, ok, err, reconnect_failed}
use embedded_bridge.Transport.WebSocket.{Network, WebSocketTransport}

-- The clock of a world: `monotonic` reads it, no call turns it back, and a sleep takes its time.
pub record Clock {W Conn : Type 0} (net : Network W Conn) : Type 0 where
  pub now : W → ℕ
  pub now_read : (w : W) → (net.monotonic w).0 ≡ now w
  pub now_monotonic : (w : W) → now w ≤ now (net.monotonic w).1
  pub now_connect :
      (uri : List ℕ) (timeout : ℕ) (w : W) → now w ≤ now (net.ws_connect uri timeout w).1
  pub now_close : (c : Conn) (w : W) → now w ≤ now (net.close c w)
  pub now_sleep : (d : ℕ) (w : W) → now w + d ≤ now (net.sleep d w)

module _ {W Conn : Type 0} (net : Network W Conn) (clock : Clock net) where
  -- A new connection and an empty buffer, or no connection when the time is over.
  unfoldable pub Ended : ℕ → Result (Unit {0}) × WebSocketTransport W Conn → Type 0
  Ended deadline (result, s) =
      ((result ≡ ok tt) × ((c : Conn) × (s.ws ≡ some c)) × (s.buffer ≡ []))
      ⊎ ((result ≡ err reconnect_failed) × (s.ws ≡ none) × (deadline ≤ clock.now s.world))

  -- After a round that finds no server.
  abbrev after_round : WebSocketTransport W Conn → WebSocketTransport W Conn
  after_round s = record s {
    world =
        net.sleep s.reconnect_interval
          (net.ws_connect s.uri s.open_timeout (net.monotonic s.world).1).1;
  }
