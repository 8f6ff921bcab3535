-- ===== src/Receivers/CrashDetector/Capture.antt =====
-- What a run of the detector captures.
use embedded_bridge.Prelude.{
  ◌+◌, ◌≤◌, ◌<◌, ◌≡◌, refl, sym, ap, ◌∙◌, arith, true, false, List, [], ◌∷◌, ◌++◌, append_assoc,
  append-nil, none, some, length, length-append,
}
use embedded_bridge.Text.Utf8.{Text}
use embedded_bridge.Framing.Message.Handler.{Message, text}
use embedded_bridge.Receivers.CrashDetector.{
  check, hang_event, TimeOps, CrashPattern, CrashEvent, CrashDetector, first_match, line_of,
  crash_reason, pattern_of, finalize_crash, set_event, feed_more, feed_match, feed_open, feed,
  check_timeout, crash, silent_hang,
}

pub data Step (Time : Type 0) : Type 0 where
  fed : Time → Message → Step Time
  checked : Time → Step Time

module _ {Time : Type 0} where
  pub run : TimeOps Time → CrashDetector Time → List (Step Time) → CrashDetector Time
  run ops d [] = d
  run ops d (fed now message ∷ steps) = run ops (feed d now message) steps
  run ops d (checked now ∷ steps) = run ops (check_timeout ops d now) steps

  feed-frozen :
      (d : CrashDetector Time) (event : CrashEvent Time) (now : Time) (message : Message)
      → d.crash_event ≡ some event
      → feed d now message ≡ d
  unfolding feed
  feed-frozen d event now message e = ground (arith, e)

  check-frozen :
      (ops : TimeOps Time) (d : CrashDetector Time) (event : CrashEvent Time) (now : Time)
      → d.crash_event ≡ some event
      → check_timeout ops d now ≡ d
  unfolding check_timeout
  check-frozen ops d event now e = ground (arith, e)

  -- The first event is the last: once it is set, no message and no check changes the detector or
  -- calls the callback again.
  pub run-frozen :
      (ops : TimeOps Time) (d : CrashDetector Time) (event : CrashEvent Time)
      (steps : List (Step Time))
      → d.crash_event ≡ some event
      → run ops d steps ≡ d
  unfolding run
  run-frozen ops d event [] e = refl
  run-frozen ops d event (fed now message ∷ steps) e =
      ap (λ (t : CrashDetector Time). run ops t steps) (feed-frozen d event now message e)
      ∙ run-frozen ops d event steps e
  run-frozen ops d event (checked now ∷ steps) e =
      ap (λ (t : CrashDetector Time). run ops t steps) (check-frozen ops d event now e)
      ∙ run-frozen ops d event steps e

  -- A run of text messages, each with the clock's reading when it arrives.
  pub feed_lines : CrashDetector Time → List (Time × Text) → CrashDetector Time
  feed_lines d [] = d
  feed_lines d ((now, line) ∷ lines) = feed_lines (feed d now (text line)) lines

  unfoldable pub texts : List (Time × Text) → List Text
  texts [] = []
  texts ((now, line) ∷ lines) = line ∷ texts lines

  -- A detector that has seen the pattern `cp` and holds `lines`.
  pub watching : CrashDetector Time → CrashPattern → List Text → CrashDetector Time
  watching d cp lines = record d {
    crash_detected = true;
    crash_lines = lines;
    crash_event = none;
    triggered_pattern = some cp;
  }

  pub captured : CrashPattern → List Text → Time → CrashEvent Time
  captured cp lines now = record {
    reason = crash (some cp.name);
    pattern = some cp.pattern;
    lines = lines;
    timestamp = now;
  }

  -- One more line, short of the limit and at it.
  watch_more :
      (d : CrashDetector Time) (cp : CrashPattern) (lines : List Text) (line : Text) (now : Time)
      → length lines + 1 < d.crash_line_limit
      → feed (watching d cp lines) now (text line)
        ≡ watching (record d { last_feed_time = some now }) cp (lines ++ (line ∷ []))
  unfolding feed watching feed_open feed_more finalize_crash set_event line_of
  watch_more d cp lines line now h = ground (arith, length-append lines (line ∷ []))

  watch_last :
      (d : CrashDetector Time) (cp : CrashPattern) (lines : List Text) (line : Text) (now : Time)
      → d.crash_line_limit ≤ length lines + 1
      → (feed (watching d cp lines) now (text line)).crash_event
        ≡ some (captured cp (lines ++ (line ∷ [])) now)
  unfolding feed watching captured feed_open feed_more finalize_crash set_event crash_reason
      pattern_of line_of
  watch_last d cp lines line now h = ground (arith, length-append lines (line ∷ []))

  first_line :
      (d : CrashDetector Time) (cp : CrashPattern) (line : Text) (now : Time)
      → d.crash_event ≡ none
      → d.crash_detected ≡ false
      → d.crash_lines ≡ []
      → first_match d.patterns line ≡ some cp
      → 1 < d.crash_line_limit
      → feed d now (text line) ≡ watching (record d { last_feed_time = some now }) cp (line ∷ [])
  unfolding feed feed_open feed_match watching line_of
  first_line d cp line now e k l m h = ground (arith, e, k, l, m)

  watch_lines :
      (d : CrashDetector Time) (cp : CrashPattern) (seen : List Text) (lines : List (Time × Text))
      (last : Text) (now : Time)
      → d.crash_line_limit ≡ length seen + length lines + 1
      → (feed_lines (watching d cp seen) (lines ++ ((now, last) ∷ []))).crash_event
        ≡ some (captured cp (seen ++ (texts lines ++ (last ∷ []))) now)
  unfolding feed_lines texts
  watch_lines d cp seen [] last now h = watch_last d cp seen last now (omega (arith, h))
  watch_lines d cp seen ((t, line) ∷ lines) last now h =
      ap (λ (x : CrashDetector Time). (feed_lines x (lines ++ ((now, last) ∷ []))).crash_event)
        (watch_more d cp seen line t (omega (arith, h)))
      ∙ watch_lines (record d { last_feed_time = some t }) cp (seen ++ (line ∷ [])) lines last now
          (omega (arith, h, length-append seen (line ∷ [])))
      ∙ ap (λ (x : List Text). some (captured cp x now))
          (append_assoc seen (line ∷ []) (texts lines ++ (last ∷ [])))

  -- On a detector that has no event, is not capturing and has a limit of two lines or more, a line of
  -- text that holds a pattern starts the capture: the lines of text that are fed behind it, each at
  -- its own time and as many as the limit allows, make the event with the last of them. The event
  -- names the first pattern that matches, has the time of the last line, and holds these lines in
  -- their order, the matching line first.
  pub crash_captured :
      (d : CrashDetector Time) (cp : CrashPattern) (start : Time) (line : Text)
      (lines : List (Time × Text)) (now : Time) (last : Text)
      → d.crash_event ≡ none
      → d.crash_detected ≡ false
      → d.crash_lines ≡ []
      → first_match d.patterns line ≡ some cp
      → d.crash_line_limit ≡ length lines + 2
      → (feed_lines d ((start, line) ∷ (lines ++ ((now, last) ∷ [])))).crash_event
        ≡ some (captured cp (line ∷ (texts lines ++ (last ∷ []))) now)
  unfolding feed_lines
  crash_captured d cp start line lines now last e k l m h =
      ap (λ (t : CrashDetector Time). (feed_lines t (lines ++ ((now, last) ∷ []))).crash_event)
        (first_line d cp line start e k l m (omega (arith, h)))
      ∙ watch_lines (record d { last_feed_time = some start }) cp (line ∷ []) lines last now
          (omega (arith, h))

  check_timeout-watching :
      (ops : TimeOps Time) (d : CrashDetector Time) (cp : CrashPattern) (lines : List Text)
      (now last timeout : Time)
      → d.silent_timeout ≡ some timeout
      → d.last_feed_time ≡ some last
      → ops.at_least (ops.minus now last) timeout ≡ true
      → (check_timeout ops (watching d cp lines) now).crash_event
        ≡ some (hang_event ops (ops.minus now last) now)
  unfolding check_timeout check watching set_event
  check_timeout-watching ops d cp lines now last timeout e k h = ground (arith, e, k, h)

  abbrev at : CrashDetector Time → Time → CrashDetector Time
  at d now = record d { last_feed_time = some now }

  -- When the last line was fed.
  unfoldable pub last_time : Time → List (Time × Text) → Time
  last_time now [] = now
  last_time now ((t, line) ∷ lines) = last_time t lines

  -- Lines that do not reach the limit.
  watch_open :
      (d : CrashDetector Time) (cp : CrashPattern) (seen : List Text) (lines : List (Time × Text))
      (now : Time)
      → length seen + length lines < d.crash_line_limit
      → feed_lines (watching (at d now) cp seen) lines
        ≡ watching (at d (last_time now lines)) cp (seen ++ texts lines)
  unfolding feed_lines texts last_time
  watch_open d cp seen [] now h =
      ap (λ (t : List Text). watching (at d now) cp t) (sym (append-nil seen))
  watch_open d cp seen ((t, line) ∷ lines) now h =
      ap (λ (x : CrashDetector Time). feed_lines x lines)
        (watch_more (at d now) cp seen line t (omega (arith, h)))
      ∙ watch_open d cp (seen ++ (line ∷ [])) lines t
          (omega (arith, h, length-append seen (line ∷ [])))
      ∙ ap (λ (x : List Text). watching (at d (last_time t lines)) cp x)
          (append_assoc seen (line ∷ []) (texts lines))

  -- On a detector that has no event and is not capturing, where a line of text holds a pattern, lines
  -- of text are fed behind it, each at its own time and together with it fewer than the limit, and the
  -- device then goes silent for the timeout since the last of them, `check_timeout` makes the crash a
  -- silent hang: the event names no pattern and holds none of the lines, neither the one that matched
  -- nor those behind it.
  pub crash_lost :
      (ops : TimeOps Time) (d : CrashDetector Time) (cp : CrashPattern) (start : Time) (line : Text)
      (lines : List (Time × Text)) (later timeout : Time)
      → d.crash_event ≡ none
      → d.crash_detected ≡ false
      → d.crash_lines ≡ []
      → first_match d.patterns line ≡ some cp
      → length lines + 1 < d.crash_line_limit
      → d.silent_timeout ≡ some timeout
      → ops.at_least (ops.minus later (last_time start lines)) timeout ≡ true
      → (check_timeout ops (feed_lines d ((start, line) ∷ lines)) later).crash_event
        ≡ some (record {
          reason = silent_hang (ops.shown (ops.minus later (last_time start lines)));
          pattern = none;
          lines = [];
          timestamp = later;
        })
  unfolding feed_lines hang_event
  crash_lost ops d cp start line lines later timeout e k l m h silent late =
      let now = last_time start lines in
      ap (λ (t : CrashDetector Time). (check_timeout ops (feed_lines t lines) later).crash_event)
        (first_line d cp line start e k l m (omega (arith, h)))
      ∙ ap (λ (t : CrashDetector Time). (check_timeout ops t later).crash_event)
          (watch_open d cp (line ∷ []) lines start (omega (arith, h)))
      ∙ check_timeout-watching ops (at d now) cp (line ∷ texts lines) later now timeout silent refl
          late
