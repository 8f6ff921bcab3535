-- ===== src/Receivers/Router/Routing.antt =====
-- Which receivers a message reaches.
use embedded_bridge.Prelude.{
  ◌≡◌, refl, sym, ap, ◌∙◌, Bool, true, false, List, [], ◌∷◌, Option, none, some, Option-cases, map,
  All, ◌||◌, inl, inr, if◌then◌else◌, ◌≢◌,
}
use embedded_bridge.Framing.Message.Handler.{Message}
use embedded_bridge.Receivers.Router.{
  Outcome, returned, Receiver, Predicate, Route, init, caught, pass, feed_routes, feed,
}

-- A route whose receiver does not raise.
pub record CalmRoute (S : Type 0) : Type 0 where
  pub handle : Message → S → S
  pub predicate : Option Predicate

-- What a predicate answers, `false` where it raises.
unfoldable pub answer : Predicate → Message → Bool
answer p message = elim (p message) [ none ↦ false | some b ↦ b ]

answer-none : (p : Predicate) (message : Message) → p message ≡ none → answer p message ≡ false
unfolding answer
answer-none p message e = rw (answer, e) refl

answer-some :
    (p : Predicate) (message : Message) (b : Bool) → p message ≡ some b → answer p message ≡ b
unfolding answer
answer-some p message b e = rw (answer, e) refl

module _ {S : Type 0} where
  pub as_route : CalmRoute S → Route S
  as_route r = record {
    receiver = λ message s. returned (r.handle message s);
    predicate = r.predicate;
  }

  -- Whether the route gets the message, and whether it counts as a match.
  unfoldable pub reached : CalmRoute S → Message → Bool
  reached r message = elim r.predicate [ none ↦ true | some p ↦ answer p message ]

  unfoldable pub matched_by : CalmRoute S → Message → Bool
  matched_by r message = elim r.predicate [ none ↦ false | some p ↦ answer p message ]

  unfoldable pub any_matched : List (CalmRoute S) → Message → Bool
  any_matched [] message = false
  any_matched (r ∷ routes) message = matched_by r message || any_matched routes message

  unfoldable pub deliver_all : List (CalmRoute S) → Message → S → S
  deliver_all [] message s = s
  deliver_all (r ∷ routes) message s =
      deliver_all routes message (if reached r message then r.handle message s else s)

  feed_routes_lem :
      (passthrough : Option (Receiver S)) (routes : List (CalmRoute S)) (matched : Bool)
      (message : Message) (s : S)
      → feed_routes passthrough (map as_route routes) matched message s
        ≡ pass passthrough
            (matched || any_matched routes message)
            message
            (deliver_all routes message s)
  unfolding feed_routes any_matched deliver_all reached matched_by as_route caught
  feed_routes_lem passthrough [] matched message s =
      ap (λ (b : Bool). pass passthrough b message s) (or_false matched)
    where
      or_false : (b : Bool) → b ≡ (b || false)
      or_false true = refl
      or_false false = refl
  feed_routes_lem passthrough (r ∷ routes) matched message s = elim (Option-cases r.predicate) [
    | inl e ↦ rw e (feed_routes_lem passthrough routes matched message (r.handle message s))
    | inr (p, e) ↦ elim (Option-cases (p message)) [
      | inl k ↦
          rw (e, k)
            (feed_routes_lem passthrough routes matched message s
              ∙ ap after (sym (answer-none p message k)))
      | inr (false, k) ↦
          rw (e, k)
            (feed_routes_lem passthrough routes matched message s
              ∙ ap after (sym (answer-some p message false k)))
      | inr (true, k) ↦
          rw (e, k)
            (feed_routes_lem passthrough routes true message (r.handle message s)
              ∙ ap
                  (λ (b : Bool).
                    pass passthrough b message (deliver_all routes message (r.handle message s)))
                  (or_true matched)
              ∙ ap after (sym (answer-some p message true k)))
    ]
  ]
    where
      after : Bool → Outcome S
      after b =
          pass passthrough (matched || (b || any_matched routes message)) message
            (deliver_all routes message (if b then r.handle message s else s))

      or_true : (b : Bool) → true ≡ (b || true)
      or_true true = refl
      or_true false = refl

  pass-elim :
      (passthrough : Option (Receiver S)) (matched : Bool) (message : Message) (s : S)
      → pass passthrough matched message s ≡ (
          if matched
          then returned s
          else (elim passthrough [ none ↦ returned s | some callback ↦ callback message s ]))
  unfolding pass
  pass-elim none true message s = refl
  pass-elim none false message s = refl
  pass-elim (some callback) true message s = refl
  pass-elim (some callback) false message s = refl

  -- Where no receiver of a route raises, a message reaches the routes without a predicate and those
  -- whose predicate answers true, in their order; a predicate that raises counts as false. Where a
  -- predicate answered true, `feed` returns behind them; where none did, the message goes to
  -- `passthrough`, if there is one, in the state behind them, and `feed` returns or raises as it does.
  pub router_feed_reaches :
      (passthrough : Option (Receiver S)) (routes : List (CalmRoute S)) (message : Message) (s : S)
      → feed (init (some (map as_route routes)) passthrough) message s ≡ (
          if any_matched routes message
          then returned (deliver_all routes message s)
          else (elim passthrough [
            | none ↦ returned (deliver_all routes message s)
            | some callback ↦ callback message (deliver_all routes message s)
          ]))
  unfolding feed init
  router_feed_reaches passthrough routes message s =
      feed_routes_lem passthrough routes false message s
      ∙ pass-elim passthrough (any_matched routes message) message (deliver_all routes message s)

  abbrev pub Guarded : Route S → Type 0
  Guarded r = r.predicate ≢ none

  guarded_lem :
      (routes : List (Route S)) (matched : Bool) (message : Message) (s : S)
      → All Guarded routes
      → (s' : S) × (feed_routes none routes matched message s ≡ returned s')
  unfolding feed_routes pass
  guarded_lem [] matched message s h = (s, refl)
  guarded_lem (r ∷ routes) matched message s (g, h) = elim (Option-cases r.predicate) [
    | inl e ↦ absurd (g e)
    | inr (p, e) ↦ elim (Option-cases (p message)) [
      | inl k ↦ rw (e, k) (guarded_lem routes matched message s h)
      | inr (false, k) ↦ rw (e, k) (guarded_lem routes matched message s h)
      | inr (true, k) ↦
          rw (e, k) (guarded_lem routes true message (caught (r.receiver message s)) h)
    ]
  ]

  -- A router whose routes all have a predicate, without `passthrough`, never raises, whatever its
  -- predicates and receivers raise.
  pub router_feed_returns :
      (routes : List (Route S)) (message : Message) (s : S)
      → All Guarded routes
      → (s' : S) × (feed (init (some routes) none) message s ≡ returned s')
  unfolding feed init
  router_feed_returns routes message s h = guarded_lem routes false message s h
