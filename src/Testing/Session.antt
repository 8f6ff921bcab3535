-- ===== src/Testing/Session.antt =====
-- python/src/embedded_bridge/testing/session.py: the session, its lines and its ways
-- around a sleep. The transport, the clock, `sleep`,
-- `json.loads` and the arithmetic of times are a parameter; the world that they act on stands beside
-- the session. Logging is left out. Loops are on fuel, of which `stuck` has run out.
mod Stream
mod Lines
mod Tests
pub mod Ticks
use embedded_bridge.Prelude.{
  ℕ, zero, suc, Bool, true, false, not, List, [], ◌∷◌, ◌++◌, Option, none, some, length, ltb, leb,
  ◌==◌, ◌&&◌, if◌then◌else◌,
}
use embedded_bridge.Text.Utf8.{Text, Decoder, fresh, decode_from}
use embedded_bridge.Text.Strip.{strip}
use embedded_bridge.Text.Number.{Unicode}
use embedded_bridge.Text.Literal.{codes, text_eq}
use embedded_bridge.Framing.Line.{partition}
use embedded_bridge.Transport.Base.{Transport}
use embedded_bridge.Testing.Types.{
  Json, str, array, object, other, Items, no_items, item, Members, no_members, member, TestInfo,
}
use embedded_bridge.Testing.Protocol.{
  soh, stx, Marker, parse_marker, parse_json_line, get, get_or, is_text, is_full,
}

-- Times are floats: what the code does with them. `tenths n` is the time n / 10, and `scaled n t` is
-- t * (n / 10).
pub record TimeOps (Time : Type 0) : Type 0 where
  pub plus : Time → Time → Time
  pub minus : Time → Time → Time
  pub before : Time → Time → Bool
  pub min : Time → Time → Time
  pub tenths : ℕ → Time
  pub scaled : ℕ → Time → Time
  pub float : Text → Option Time

pub record Host (W Time : Type 0) : Type 0 where
  pub transport : Transport W Time
  pub clock : W → Time × W
  pub sleep : Time → W → W
  pub exists : Text → W → Bool
  pub loads : Text → Option Members
  pub unicode : Unicode
  pub ops : TimeOps Time

pub record TestSession (W : Type 0) : Type 0 where
  pub decoder : Decoder
  pub line_buf : Text
  pub world : W

-- What a call comes to: it returns, raises TimeoutError, or raises something else.
pub data Ending (A : Type 0) : Type 0 where
  returned : A → Ending A
  timed_out raised stuck : Ending A

-- A line with its white space taken off, `None` where nothing is left.
pub line_or_none : Text → Option Text
line_or_none line = elim (strip line) [ [] ↦ none | c ∷ rest ↦ some (c ∷ rest) ]

-- What the detector of a sleep says; "waking" and "unknown" are the rest.
pub data SleepState : Type 0 where
  active sleeping unsure : SleepState

module _ {W : Type 0} where
  pub init : W → TestSession W
  init w = record { decoder = fresh; line_buf = []; world = w }

module _ {W Time : Type 0} (host : Host W Time) where
  -- The time limit of a loop, which reads the clock.
  pub deadline_of : Time → TestSession W → Time × TestSession W
  deadline_of timeout s =
      let (now, w) = host.clock s.world in (host.ops.plus now timeout, record s { world = w })

  -- `self._clock() < deadline`
  pub is_before : Time → TestSession W → Bool × TestSession W
  is_before deadline s =
      let (now, w) = host.clock s.world in (host.ops.before now deadline, record s { world = w })

  -- What the transport reads; an exception counts as no bytes.
  pub read_bytes : Time → TestSession W → List ℕ × TestSession W
  read_bytes timeout s =
      let (bytes, w) =
        host.transport.read none (some (host.ops.min (host.ops.tenths 1) timeout)) s.world in
      elim bytes [ none ↦ ([], record s { world = w }) | some b ↦ (b, record s { world = w }) ]

  -- The bytes, decoded, behind the buffer.
  pub received : List ℕ → TestSession W → TestSession W
  received bytes s =
      let (decoded, decoder) = decode_from s.decoder bytes in
      record s { decoder = decoder; line_buf = s.line_buf ++ decoded }

  -- The loop of `_read_line`. Without bytes a blank line ends it, with bytes it goes on.
  pub read_loop : ℕ → Time → Time → TestSession W → Ending (Option Text) × TestSession W
  read_loop zero deadline timeout s = (stuck, s)
  read_loop (suc fuel) deadline timeout s =
      let (early, s₀) = is_before deadline s in
      let (bytes, s₁) = read_bytes timeout s₀ in
      let s₂ = received bytes s₁ in
      let idle = read_loop fuel deadline timeout s₁ in
      let more = read_loop fuel deadline timeout s₂ in
      if not early
      then (returned none, s₀)
      else if length bytes == 0
      then (elim (partition s₁.line_buf) [
        | none ↦ idle
        | some (line, rest) ↦ (returned (line_or_none line), record s₁ { line_buf = rest })
      ])
      else (elim (partition s₂.line_buf) [
        | none ↦ more
        | some (line, rest) ↦ elim (line_or_none line) [
          | none ↦ read_loop fuel deadline timeout (record s₂ { line_buf = rest })
          | some t ↦ (returned (some t), record s₂ { line_buf = rest })
        ]
      ])

  pub read_line : ℕ → Time → TestSession W → Ending (Option Text) × TestSession W
  read_line fuel timeout s =
      let (deadline, s') = deadline_of timeout s in read_loop fuel deadline timeout s'

  -- What the path of the port says.
  pub port_state : Option Text → W → SleepState
  port_state none w = unsure
  port_state (some []) w = unsure
  port_state (some (c ∷ path)) w = if host.exists (c ∷ path) w then active else sleeping

  -- `_check_sleep_state`; a detector is a function on the world.
  pub check_sleep_state : Option (W → SleepState × W) → TestSession W → SleepState × TestSession W
  check_sleep_state (some detector) s =
      let (state, w) = detector s.world in (state, record s { world = w })
  check_sleep_state none s = (port_state (host.transport.port_path s.world) s.world, s)

  -- The attempts of `_reconnect_after_wake`.
  pub attempts : ℕ → TestSession W → Bool × TestSession W
  attempts zero s = (false, s)
  attempts (suc n) s =
      let (connected, w) = host.transport.connect s.world in
      let (written, w') = host.transport.write soh w in
      let failed = attempts n (record s { world = host.sleep (host.ops.tenths 10) w }) in
      let unwritten = attempts n (record s { world = host.sleep (host.ops.tenths 10) w' }) in
      if connected then (if written then (true, record s { world = w' }) else unwritten) else failed

  pub reconnect_after_wake : TestSession W → Bool × TestSession W
  reconnect_after_wake s =
      attempts 10
        (record { decoder = fresh; line_buf = []; world = host.transport.disconnect s.world })
