-- ===== src/Receivers/Router/Tests.antt =====
-- The theorems at concrete inputs: the state is the log of what was received.
use embedded_bridge.Prelude.{◌≡◌, ◌≢◌, true, List, [], ◌∷◌, ◌++◌, Option, none, some, map}
use embedded_bridge.Framing.Message.Handler.{Message, text, binary}
use embedded_bridge.Receivers.Router.{returned, raised, Route, Receiver, Predicate, init, feed}
use embedded_bridge.Receivers.Router.Routing.{
  CalmRoute, as_route, any_matched, matched_by, answer, reached, deliver_all, router_feed_reaches,
  router_feed_returns,
}

abbrev is_text : Predicate
is_text (text line) = some true
is_text (binary payload) = none

abbrev logging : Option Predicate → CalmRoute (List Message)
logging p = record { handle = λ m log. log ++ (m ∷ []); predicate = p }

abbrev routes : List (CalmRoute (List Message))
routes = logging none ∷ logging (some is_text) ∷ []

-- Keeps the message twice.
abbrev twice : Receiver (List Message)
twice m log = returned (log ++ (m ∷ m ∷ []))

router_feed_reaches_example :
    feed (init (some (map as_route routes)) (some twice)) (binary (1 ∷ [])) []
    ≡ returned (binary (1 ∷ []) ∷ binary (1 ∷ []) ∷ binary (1 ∷ []) ∷ [])
unfolding any_matched matched_by answer deliver_all reached
router_feed_reaches_example = router_feed_reaches (some twice) routes (binary (1 ∷ [])) []

abbrev failing : Route (List Message)
failing = record { receiver = λ m log. raised (log ++ (m ∷ [])); predicate = some is_text }

has_predicate : failing.predicate ≢ none
has_predicate e = cc

router_feed_returns_example :
    (s : List Message) × (feed (init (some (failing ∷ [])) none) (text []) [] ≡ returned s)
router_feed_returns_example = router_feed_returns (failing ∷ []) (text []) [] (has_predicate, tt)
