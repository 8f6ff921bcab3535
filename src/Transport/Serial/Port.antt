-- ===== src/Transport/Serial/Port.antt =====
-- python/src/embedded_bridge/transport/serial.py: the packages that it calls, and resolve_port.
use embedded_bridge.Prelude.{ℕ, Bool, [], List, ◌∷◌, Option, none, some, ◌==◌, ◌||◌, if◌then◌else◌}
use embedded_bridge.Text.Utf8.{Text}
use embedded_bridge.Text.Literal.{codes}
use embedded_bridge.Text.Strip.{strip}
use embedded_bridge.Text.Search.{starts_with}

-- What `subprocess.run` comes to: the return code and the output, or the exception.
pub data Ran : Type 0 where
  completed : ℕ → Text → Ran
  timeout_expired os_error : Ran

-- `none` and `false`: SerialException or OSError.
pub record System (W Port : Type 0) : Type 0 where
  pub usb_device_port : Text → W → Ran × W
  pub exists : Text → W → Bool
  pub serial : Text → ℕ → W → Option Port × W
  pub is_open : Port → W → Bool
  pub in_waiting : Port → W → Option ℕ × W
  pub read : Port → ℕ → W → Option (List ℕ) × W
  pub write : Port → List ℕ → W → Bool × W
  pub flush : Port → W → Bool × W
  pub close : Port → W → W
  pub monotonic : W → ℕ × W
  pub sleep : ℕ → W → W

unfoldable pub is_path : Text → Bool
is_path name = starts_with (codes "/dev/") name || starts_with (codes "COM") name

-- `if not port`
unfoldable pub nonempty : Text → Option Text
nonempty [] = none
nonempty (c ∷ text) = some (c ∷ text)

-- The port that the command names; `none` is FileNotFoundError, which every failure becomes.
unfoldable pub port_of : Ran → Option Text
port_of (completed code stdout) = if code == 0 then nonempty (strip stdout) else none
port_of timeout_expired = none
port_of os_error = none

module _ {W Port : Type 0} (sys : System W Port) where
  unfoldable pub resolve_port : Text → W → Option Text × W
  resolve_port name w =
      let (ran, w') = sys.usb_device_port name w in
      if is_path name then (some name, w) else (port_of ran, w')

  unfoldable pub port_exists : Text → W → Bool
  port_exists path w = sys.exists path w
