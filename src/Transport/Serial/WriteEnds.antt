-- ===== src/Transport/Serial/WriteEnds.antt =====
-- A write of a SerialTransport ends, and what it has handed over by then.
use embedded_bridge.Prelude.{ℕ, ◌≢◌, List}
use embedded_bridge.Transport.Result.{Result, stuck}
use embedded_bridge.Transport.Serial.Port.{System}
use embedded_bridge.Transport.Serial.{SerialTransport}
use embedded_bridge.Transport.Serial.Log.{Log}
use embedded_bridge.Transport.Serial.Reconnect.{Clock}
use embedded_bridge.Transport.Serial.Write.{Written}

module _ {W Port : Type 0} (sys : System W Port) (log : Log sys) (clock : Clock sys) where
  abbrev Fine :
      ℕ → List ℕ → SerialTransport W Port → Result (Unit {0}) × SerialTransport W Port → Type 0
  Fine g bytes s x = (x.0 ≢ stuck) × Written sys log clock g bytes s x
