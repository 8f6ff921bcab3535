-- ===== src/Receivers/Router.antt =====
-- python/src/embedded_bridge/receivers/router.py. `S` is the state of all receivers and of the
-- callback `passthrough`; what raises is an `Exception`, and the log is left out.
pub mod Routing
mod Tests
use embedded_bridge.Prelude.{Bool, true, false, List, [], ◌∷◌, ◌++◌, Option, none, some}
use embedded_bridge.Framing.Message.Handler.{Message}

-- A call returns or raises; either way it may have changed the state.
pub data Outcome (S : Type 0) : Type 0 where
  returned raised : S → Outcome S

abbrev pub Receiver : Type 0 → Type 0
Receiver S = Message → S → Outcome S

-- A predicate, which raises where it gives `none`.
abbrev pub Predicate : Type 0
Predicate = Message → Option Bool

pub record Route (S : Type 0) : Type 0 where
  pub receiver : Receiver S
  pub predicate : Option Predicate

pub record Router (S : Type 0) : Type 0 where
  pub routes : List (Route S)
  pub passthrough : Option (Receiver S)

module _ {S : Type 0} where
  pub init : Option (List (Route S)) → Option (Receiver S) → Router S
  init none passthrough = record { routes = []; passthrough = passthrough }
  init (some routes) passthrough = record { routes = routes; passthrough = passthrough }

  pub add : Router S → Receiver S → Option Predicate → Router S
  add router receiver predicate = record router {
    routes = router.routes ++ (record { receiver = receiver; predicate = predicate } ∷ []);
  }

  -- `except Exception` takes what the receiver raised, and keeps what it did before.
  unfoldable pub caught : Outcome S → S
  caught (returned s) = s
  caught (raised s) = s

  -- `if not matched_predicate and self._passthrough is not None`
  pub pass : Option (Receiver S) → Bool → Message → S → Outcome S
  pass none matched message s = returned s
  pass (some callback) true message s = returned s
  pass (some callback) false message s = callback message s

  -- The rest of the loop, from `matched_predicate` on.
  pub feed_routes : Option (Receiver S) → List (Route S) → Bool → Message → S → Outcome S
  feed_routes passthrough [] matched message s = pass passthrough matched message s
  feed_routes passthrough (r ∷ routes) matched message s = elim r.predicate [
    | none ↦ elim (r.receiver message s) [
      | returned s' ↦ feed_routes passthrough routes matched message s'
      | raised s' ↦ raised s'
    ]
    | some p ↦ elim (p message) [
      | none ↦ feed_routes passthrough routes matched message s
      | some false ↦ feed_routes passthrough routes matched message s
      | some true ↦ feed_routes passthrough routes true message (caught (r.receiver message s))
    ]
  ]

  pub feed : Router S → Message → S → Outcome S
  feed router message s = feed_routes router.passthrough router.routes false message s
