-- ===== src/Receivers/EventCapture/Spans.antt =====
-- The spans of a capture, against the log of its events.
use embedded_bridge.Prelude.{
  ◌≡◌, refl, sym, ap, ◌∙◌, arith, Bool, false, List, [], ◌∷◌, ◌++◌, append-nil, append_assoc,
  Option, none, some, if◌then◌else◌,
}
use embedded_bridge.Prelude.Dict.{lookup}
use embedded_bridge.Receivers.EventCapture.Values.{
  Name, name_of, name_key, name_eq, Action, started, stopped,
}
use embedded_bridge.Receivers.EventCapture.{TraceEvent, EventSpan, EventCapture}

module _ {Time : Type 0} where
  -- Whether the event has this name.
  pub named : Name → TraceEvent Time → Bool
  named n e = elim (name_of e.name) [ none ↦ false | some k ↦ name_eq k n ]

  -- The last event of a name.
  unfoldable pub last_named : Name → List (TraceEvent Time) → Option (TraceEvent Time)
  last_named n [] = none
  last_named n (e ∷ events) = elim (last_named n events) [
    | some e' ↦ some e'
    | none ↦ if named n e then some e else none
  ]

  unfoldable pub if_started : Action → TraceEvent Time → Option (TraceEvent Time)
  if_started started e = some e
  if_started stopped e = none

  -- The event that a stop of this name closes: the last event of the name, if it is a start.
  unfoldable pub open_start : Name → List (TraceEvent Time) → Option (TraceEvent Time)
  open_start n events = elim (last_named n events) [ none ↦ none | some e ↦ if_started e.action e ]

  unfoldable pub span_of : Option (TraceEvent Time) → TraceEvent Time → List (EventSpan Time)
  span_of none e = []
  span_of (some start) e = record { name = e.name; start = start; stop = e } ∷ []

  -- The span that an event completes, if any, behind the events `seen`.
  unfoldable pub span_at : Action → List (TraceEvent Time) → TraceEvent Time → List (EventSpan Time)
  span_at started seen e = []
  span_at stopped seen e = elim (name_of e.name) [
    | none ↦ []
    | some n ↦ span_of (open_start n seen) e
  ]

  -- The spans of the events, of which `seen` came before.
  unfoldable pub spans_of : List (TraceEvent Time) → List (TraceEvent Time) → List (EventSpan Time)
  spans_of seen [] = []
  spans_of seen (e ∷ events) = span_at e.action seen e ++ spans_of (seen ++ (e ∷ [])) events

  -- The spans are those of the log, and the pending starts are the open ones of the log.
  pub record IsPaired (s : EventCapture Time) : Type 0 where
    pub paired : s.spans ≡ spans_of [] s.events
    pub open_starts : (n : Name) → lookup name_key n s.pending ≡ open_start n s.events

  last_named-append :
      (n : Name) (events : List (TraceEvent Time)) (e : TraceEvent Time)
      → last_named n (events ++ (e ∷ [])) ≡ (if named n e then some e else last_named n events)
  unfolding last_named
  last_named-append n [] e = refl
  last_named-append n (e' ∷ events) e = ground (arith, last_named-append n events e)

  pub open_start-append :
      (n : Name) (events : List (TraceEvent Time)) (e : TraceEvent Time)
      → open_start n (events ++ (e ∷ []))
        ≡ (if named n e then if_started e.action e else open_start n events)
  unfolding open_start
  open_start-append n events e = ground (arith, last_named-append n events e)

  pub spans_of-append :
      (seen events : List (TraceEvent Time)) (e : TraceEvent Time)
      → spans_of seen (events ++ (e ∷ []))
        ≡ spans_of seen events ++ span_at e.action (seen ++ events) e
  unfolding spans_of
  spans_of-append seen [] e =
      append-nil (span_at e.action seen e)
      ∙ ap (λ (t : List (TraceEvent Time)). span_at e.action t e) (sym (append-nil seen))
  spans_of-append seen (e' ∷ events) e =
      ap (λ (t : List (EventSpan Time)). span_at e'.action seen e' ++ t)
        (spans_of-append (seen ++ (e' ∷ [])) events e
          ∙ ap
              (λ (t : List (TraceEvent Time)).
                spans_of (seen ++ (e' ∷ [])) events ++ span_at e.action t e)
              (append_assoc seen (e' ∷ []) events))
      ∙ sym (
          append_assoc (span_at e'.action seen e') (spans_of (seen ++ (e' ∷ [])) events)
            (span_at e.action (seen ++ (e' ∷ events)) e))

  pub named_lem :
      (n k : Name) (e : TraceEvent Time) → name_of e.name ≡ some k → named n e ≡ name_eq k n
  unfolding named
  named_lem n k e h = rw (named, h) refl

  pub unnamed : (n : Name) (e : TraceEvent Time) → name_of e.name ≡ none → named n e ≡ false
  unfolding named
  unnamed n e h = rw (named, h) refl
