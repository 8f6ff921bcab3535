-- ===== src/Transport/Base.antt =====
-- python/src/embedded_bridge/transport/base.py: the interface of a transport, over the world that it
-- acts on. `false` and `none` stand for an exception; a size of -1 is `none`.
use embedded_bridge.Prelude.{ℕ, Bool, List, Option}
use embedded_bridge.Text.Utf8.{Text}

pub record Transport (W Time : Type 0) : Type 0 where
  pub connect : W → Bool × W
  pub disconnect : W → W
  pub read : Option ℕ → Option Time → W → Option (List ℕ) × W
  pub write : List ℕ → W → Bool × W
  pub is_connected : W → Bool
  pub port_path : W → Option Text
