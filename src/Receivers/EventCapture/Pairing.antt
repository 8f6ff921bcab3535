-- ===== src/Receivers/EventCapture/Pairing.antt =====
-- Every message keeps the spans paired with the log of the events.
use embedded_bridge.Prelude.{
  ◌≡◌, refl, sym, ap, ◌∙◌, Bool, List, [], ◌∷◌, ◌++◌, append-nil, Option, none, some, Option-cases,
  Bool-cases, inl, inr, if◌then◌else◌,
}
use mathlib.Core.Path.{subst}
use embedded_bridge.Prelude.Dict.{lookup, lookup-insert, lookup-remove}
use embedded_bridge.Text.Utf8.{Text}
use embedded_bridge.Framing.Message.Handler.{Message}
use embedded_bridge.Receivers.Router.{caught, returned, raised}
use embedded_bridge.Text.Literal.{codes, text_key}
use embedded_bridge.Receivers.EventCapture.Values.{
  action_of, given_name, raw_ts_of, Json, Fields, Name, name_of, name_key, name_eq, name_eq→eq,
  Action, started, stopped, number_of,
}
use embedded_bridge.Receivers.EventCapture.{
  brace_line, call, TraceEvent, EventSpan, EventCapture, init, match_event, complete_span,
  take_event, take_unhashable, count_wrap, trace_event, feed_event, feed_fields, feed, has_wrapped,
}
use embedded_bridge.Receivers.EventCapture.Spans.{
  last_named, if_started, open_start, span_of, span_at, spans_of, IsPaired, open_start-append,
  spans_of-append, named_lem, unnamed,
}

module _ {Time : Type 0} where
  pub logged : EventCapture Time → TraceEvent Time → EventCapture Time
  logged s e = record s { events = s.events ++ (e ∷ []); on_event = call s.on_event e }

  -- The spans of the log behind one more event.
  logged_spans :
      (s : EventCapture Time) (e : TraceEvent Time)
      → IsPaired s
      → spans_of [] (s.events ++ (e ∷ [])) ≡ s.spans ++ span_at e.action s.events e
  logged_spans s e v =
      spans_of-append [] s.events e
      ∙ ap (λ (t : List (EventSpan Time)). t ++ span_at e.action s.events e) (sym v.paired)

  span_at-unnamed :
      (a : Action) (seen : List (TraceEvent Time)) (e : TraceEvent Time)
      → name_of e.name ≡ none
      → span_at a seen e ≡ []
  unfolding span_at
  span_at-unnamed started seen e h = refl
  span_at-unnamed stopped seen e h = rw (span_at, h) refl

  span_at-stopped :
      (seen : List (TraceEvent Time)) (k : Name) (e : TraceEvent Time)
      → name_of e.name ≡ some k
      → span_at stopped seen e ≡ span_of (open_start k seen) e
  unfolding span_at
  span_at-stopped seen k e h = rw (span_at, h) refl

  logged-IsPaired :
      (s : EventCapture Time) (e : TraceEvent Time)
      → name_of e.name ≡ none
      → IsPaired s
      → IsPaired (logged s e)
  unfolding logged
  logged-IsPaired s e h v = record {
    paired = sym (
        logged_spans s e v
        ∙ ap (λ (t : List (EventSpan Time)). s.spans ++ t) (span_at-unnamed e.action s.events e h)
        ∙ append-nil s.spans);
    open_starts = λ n.
        v.open_starts n
        ∙ sym (
            open_start-append n s.events e
            ∙ ap (λ (b : Bool). if b then if_started e.action e else open_start n s.events)
                (unnamed n e h));
  }

  start-IsPaired :
      (s : EventCapture Time) (k : Name) (e : TraceEvent Time)
      → e.action ≡ started
      → name_of e.name ≡ some k
      → IsPaired s
      → IsPaired (match_event started (logged s e) k e)
  unfolding match_event logged if_started
  start-IsPaired s k e a h v = record {
    paired = sym (
        logged_spans s e v
        ∙ ap (λ (x : Action). s.spans ++ span_at x s.events e) a
        ∙ unfold span_at in append-nil s.spans);
    open_starts = λ n.
        lookup-insert name_key k n e s.pending
        ∙ ap (λ (o : Option (TraceEvent Time)). if name_eq k n then some e else o) (v.open_starts n)
        ∙ sym (
            open_start-append n s.events e
            ∙ ap (λ (b : Bool). if b then if_started e.action e else open_start n s.events)
                (named_lem n k e h)
            ∙ ap (λ (x : Action). if name_eq k n then if_started x e else open_start n s.events) a);
  }

  -- What a stop leaves open.
  stopped_open :
      (s : EventCapture Time) (n k : Name) (e : TraceEvent Time)
      → e.action ≡ stopped
      → name_of e.name ≡ some k
      → open_start n (s.events ++ (e ∷ [])) ≡ (if name_eq k n then none else open_start n s.events)
  unfolding if_started
  stopped_open s n k e a h =
      open_start-append n s.events e
      ∙ ap (λ (b : Bool). if b then if_started e.action e else open_start n s.events)
          (named_lem n k e h)
      ∙ ap (λ (x : Action). if name_eq k n then if_started x e else open_start n s.events) a

  stopped_spans :
      (s : EventCapture Time) (k : Name) (e : TraceEvent Time)
      → e.action ≡ stopped
      → name_of e.name ≡ some k
      → IsPaired s
      → spans_of [] (s.events ++ (e ∷ [])) ≡ s.spans ++ span_of (lookup name_key k s.pending) e
  stopped_spans s k e a h v =
      logged_spans s e v
      ∙ ap (λ (x : Action). s.spans ++ span_at x s.events e) a
      ∙ ap (λ (t : List (EventSpan Time)). s.spans ++ t) (span_at-stopped s.events k e h)
      ∙ ap (λ (o : Option (TraceEvent Time)). s.spans ++ span_of o e) (sym (v.open_starts k))

  stop-IsPaired :
      (s : EventCapture Time) (k : Name) (e : TraceEvent Time)
      → e.action ≡ stopped
      → name_of e.name ≡ some k
      → IsPaired s
      → IsPaired (match_event stopped (logged s e) k e)
  unfolding match_event logged
  stop-IsPaired s k e a h v = elim (Option-cases (lookup name_key k s.pending)) [
    | inl l ↦
        rw (match_event, l)
          (record {
            paired = sym (
                stopped_spans s k e a h v
                ∙ ap (λ (o : Option (TraceEvent Time)). s.spans ++ span_of o e) l
                ∙ unfold span_of in append-nil s.spans);
            open_starts = λ n. nothing_open n l ∙ sym (stopped_open s n k e a h);
          })
    | inr (start, l) ↦
        rw (match_event, l)
          (record {
            paired =
                unfold complete_span span_of in
                sym (
                  stopped_spans s k e a h v
                  ∙ ap (λ (o : Option (TraceEvent Time)). s.spans ++ span_of o e) l);
            open_starts = λ n.
                unfold complete_span in
                (lookup-remove name_key k n s.pending
                  ∙ ap (λ (o : Option (TraceEvent Time)). if name_eq k n then none else o)
                      (v.open_starts n)
                  ∙ sym (stopped_open s n k e a h));
          })
  ]
    where
      nothing_open :
          (n : Name)
          → lookup name_key k s.pending ≡ none
          → lookup name_key n s.pending ≡ (if name_eq k n then none else open_start n s.events)
      nothing_open n l = elim (Bool-cases (name_eq k n)) [
        | inl q ↦ rw q (ap (λ (x : Name). lookup name_key x s.pending) (sym (name_eq→eq k n q)) ∙ l)
        | inr q ↦ rw q (v.open_starts n)
      ]

  match-IsPaired :
      (a : Action) (s : EventCapture Time) (k : Name) (e : TraceEvent Time)
      → e.action ≡ a
      → name_of e.name ≡ some k
      → IsPaired s
      → IsPaired (match_event a (logged s e) k e)
  match-IsPaired started s k e a h v = start-IsPaired s k e a h v
  match-IsPaired stopped s k e a h v = stop-IsPaired s k e a h v

  caught-take_unhashable : (a : Action) (s : EventCapture Time) → caught (take_unhashable a s) ≡ s
  unfolding take_unhashable caught
  caught-take_unhashable started s = refl
  caught-take_unhashable stopped s = by_pending s.pending
    where
      by_pending :
          (pending : List (Name × TraceEvent Time))
          → caught (elim pending [ [] ↦ returned s | p ∷ rest ↦ raised s ]) ≡ s
      by_pending [] = refl
      by_pending (p ∷ rest) = refl

  take-IsPaired :
      (s : EventCapture Time) (e : TraceEvent Time)
      → IsPaired s
      → IsPaired (caught (take_event s e))
  unfolding take_event caught logged
  take-IsPaired s e v = elim (Option-cases (name_of e.name)) [
    | inl h ↦
        rw (take_event, h)
          (subst IsPaired (sym (caught-take_unhashable e.action (logged s e)))
            (logged-IsPaired s e h v))
    | inr (k, h) ↦ rw (take_event, h) (unfold logged in match-IsPaired e.action s k e refl h v)
  ]

  count-IsPaired :
      (s : EventCapture Time) (wrapped : Bool) (raw : Json)
      → IsPaired s
      → IsPaired (count_wrap s wrapped raw)
  unfolding count_wrap
  count-IsPaired s wrapped raw v = record { paired = v.paired; open_starts = v.open_starts }

  feed_event-IsPaired :
      (s : EventCapture Time) (now : Time) (a : Action) (name raw : Json)
      → IsPaired s
      → IsPaired (caught (feed_event s now a name raw))
  unfolding feed_event caught
  feed_event-IsPaired s now a name raw v = elim (Option-cases (has_wrapped s.last_raw_ts_us raw)) [
    | inl h ↦ rw (feed_event, h) v
    | inr (wrapped, h) ↦ elim (Option-cases (number_of raw)) [
      | inl k ↦ rw (feed_event, h, k) (count-IsPaired s wrapped raw v)
      | inr (n, k) ↦
          rw (feed_event, h, k)
            (take-IsPaired (count_wrap s wrapped raw)
              (trace_event (count_wrap s wrapped raw) now a name n)
              (count-IsPaired s wrapped raw v))
    ]
  ]

  fields-IsPaired :
      (s : EventCapture Time) (now : Time) (fields : Fields)
      → IsPaired s
      → IsPaired (caught (feed_fields s now fields))
  unfolding feed_fields caught
  fields-IsPaired s now fields v =
      elim (Option-cases (action_of (lookup text_key (codes "ph") fields))) [
        | inl h ↦ rw (feed_fields, h) v
        | inr (a, h) ↦ elim (Option-cases (given_name (lookup text_key (codes "name") fields))) [
          | inl k ↦ rw (feed_fields, h, k) v
          | inr (name, k) ↦
              rw (feed_fields, h, k)
                (feed_event-IsPaired s now a name (raw_ts_of (lookup text_key (codes "ts") fields))
                  v)
        ]
      ]

  feed-IsPaired :
      (loads : Text → Option Fields) (s : EventCapture Time) (now : Time) (m : Message)
      → IsPaired s
      → IsPaired (caught (feed loads s now m))
  unfolding feed caught
  feed-IsPaired loads s now m v = elim (Option-cases (brace_line m)) [
    | inl h ↦ rw (feed, h) v
    | inr (line, h) ↦ elim (Option-cases (loads line)) [
      | inl k ↦ rw (feed, h, k) v
      | inr (fields, k) ↦ rw (feed, h, k) (fields-IsPaired s now fields v)
    ]
  ]

  -- A run of messages; what one raises is caught, as a router does.
  pub feed_messages :
      (Text → Option Fields) → EventCapture Time → List (Time × Message) → EventCapture Time
  feed_messages loads s [] = s
  feed_messages loads s ((now, m) ∷ messages) =
      feed_messages loads (caught (feed loads s now m)) messages

  -- After any run of messages, whatever they hold and whether they raise, the spans are exactly those
  -- of the log of events: one for each stop whose name's last event before it is a start, with this
  -- start, in the order of the stops; and the pending events are the starts not yet followed by an
  -- event of their name. This holds of a run from any state in which it holds.
  pub feed_messages-IsPaired :
      (loads : Text → Option Fields) (s : EventCapture Time) (messages : List (Time × Message))
      → IsPaired s
      → IsPaired (feed_messages loads s messages)
  unfolding feed_messages
  feed_messages-IsPaired loads s [] v = v
  feed_messages-IsPaired loads s ((now, m) ∷ messages) v =
      feed_messages-IsPaired loads (caught (feed loads s now m)) messages
        (feed-IsPaired loads s now m v)

-- A new capture is paired.
pub init-IsPaired :
    {Time : Type 0} (on_event : Option (List (TraceEvent Time)))
    (on_span : Option (List (EventSpan Time)))
    → IsPaired (init on_event on_span)
unfolding init spans_of open_start last_named lookup
init-IsPaired on_event on_span = record { paired = refl; open_starts = λ n. refl }
