-- ===== src/Receivers/SleepWake/Patterns/Announced.antt =====
-- A line that announces a sleep, as the default pattern reads it.
use embedded_bridge.Prelude.{
  ℕ, ◌-◌, ◌≡◌, refl, ap, ◌∙◌, true, false, [], ◌∷◌, ◌++◌, Option, none, some, length, take, All,
  Option-cases, inl, inr, ◌==◌,
}
use embedded_bridge.Text.Utf8.{Text}
use embedded_bridge.Text.Number.{Unicode}
use embedded_bridge.Text.Strip.{is_space, strip, EndsSolid, strip-EndsSolid}
use embedded_bridge.Text.Literal.{codes}
use embedded_bridge.Text.Regex.{
  Regex, Captures, or_else, one, many, seq, optional, match_one, match_many, match_with, match,
  search, group_of,
}
use embedded_bridge.Text.Regex.Spans.{
  match_many-none, match_many-taken, match_many-end, consumed, consumed_all,
}
use embedded_bridge.Framing.Message.Handler.{text}
use embedded_bridge.Receivers.CrashDetector.{line_of}
use embedded_bridge.Receivers.SleepWake.{
  SleepEvent, SleepWakeMonitor, awake, sleeping, call_sleep, feed, feed_line, check_sleep_patterns,
  transition_to_sleeping, clean_reason,
}
use embedded_bridge.Receivers.SleepWake.Patterns.{
  fold, folded_then, is_any, is_digit, reason_part, sleep_re, float_group, match_of, compiled,
  esp32_sleep_patterns,
}

-- The rest of a whole pattern.
abbrev found : Captures → Text → Option (Captures × Text)
found groups rest = some (groups, rest)

module _ (unicode : Unicode) where
  -- The reason behind "because ".
  reason_part-match :
      (groups : Captures) (c : ℕ) (reason : Text)
      → is_space c ≡ false
      → All (λ x. is_any x ≡ true) (c ∷ reason)
      → match_with (reason_part unicode) groups (codes "because " ++ (c ∷ reason)) found
        ≡ some (((2, c ∷ reason) ∷ groups), [])
  unfolding reason_part folded_then fold match_with match_one or_else is_space
  reason_part-match groups c reason solid (any, anys) =
      let last : match_many is_any reason (λ text.
        found ((2, take (length (c ∷ reason) - length text) (c ∷ reason)) ∷ groups) text)
          ≡ some (((2, c ∷ reason) ∷ groups), []) =
        match_many-end is_any reason
          (λ text. found ((2, take (length (c ∷ reason) - length text) (c ∷ reason)) ∷ groups) text)
          _ anys (ap (λ (t : Text). some (((2, t) ∷ groups), [])) (consumed_all (c ∷ reason))) in
      rw (match_many-none is_space c reason _ solid) (rw any (rw last refl))

  -- The pattern behind the digits.
  abbrev tail_re : Regex
  tail_re = folded_then (codes " second") (
      seq (optional (one (λ x. fold x == 115)))
        (seq (optional (one (λ x. x == 0x2C))) (seq (many is_space) (reason_part unicode))))

  tail_re-match :
      (groups : Captures) (c : ℕ) (reason : Text)
      → is_space c ≡ false
      → All (λ x. is_any x ≡ true) (c ∷ reason)
      → match_with tail_re groups (codes " seconds because " ++ (c ∷ reason)) found
        ≡ some (((2, c ∷ reason) ∷ groups), [])
  unfolding folded_then fold match_with match_one match_many or_else is_space
  tail_re-match groups c reason solid any = rw (reason_part-match groups c reason solid any) refl

  -- The digits of the duration, and what the pattern has behind them.
  sleep_re-match :
      (d : ℕ) (digits : Text) (c : ℕ) (reason : Text)
      → All (λ x. is_digit unicode x ≡ true) (d ∷ digits)
      → is_digit unicode 32 ≡ false
      → is_space c ≡ false
      → All (λ x. is_any x ≡ true) (c ∷ reason)
      → match
          (sleep_re unicode)
          (codes "sleep for " ++ ((d ∷ digits) ++ (codes " seconds because " ++ (c ∷ reason))))
        ≡ some (((2, c ∷ reason) ∷ (1, d ∷ digits) ∷ []), [])
  unfolding match sleep_re folded_then fold match_with match_one or_else is_space
  sleep_re-match d digits c reason (dig, digs) no_digit solid any =
      let rest = codes " seconds because " ++ (c ∷ reason) in
      rw dig (
        match_many-taken (is_digit unicode) digits 32 (codes "seconds because " ++ (c ∷ reason))
          (λ text.
            match_with tail_re
              ((1, take (length ((d ∷ digits) ++ rest) - length text) ((d ∷ digits) ++ rest)) ∷ [])
              text found)
          _ digs no_digit
          (tail_re-match _ c reason solid any
            ∙ ap (λ (t : Text). some (((2, c ∷ reason) ∷ (1, t) ∷ []), []))
                (consumed (d ∷ digits) rest)))

  -- The pattern does not start at a character that is no s.
  no_start :
      (x : ℕ) (line : Text) → (fold x == 115) ≡ false → match (sleep_re unicode) (x ∷ line) ≡ none
  unfolding match sleep_re folded_then match_with match_one
  no_start x line h = rw h refl

  search-sleep_re :
      (front line : Text) (found_here : Captures × Text)
      → All (λ x. (fold x == 115) ≡ false) front
      → match (sleep_re unicode) line ≡ some found_here
      → search (sleep_re unicode) (front ++ line) ≡ some found_here
  unfolding search or_else
  search-sleep_re [] [] m hs h = h
  search-sleep_re [] (x ∷ line) m hs h = rw h refl
  search-sleep_re (x ∷ front) line m (hx, hs) h =
      rw (no_start x (front ++ line) hx) (search-sleep_re front line m hs h)

-- A monitor that an event has put to sleep, with the call of `on_sleep`.
abbrev pub asleep_with :
    {Time : Type 0}
    → SleepWakeMonitor Time
    → Option Time
    → Option Text
    → Time
    → SleepWakeMonitor Time
asleep_with m duration reason now =
    let event : SleepEvent _ = record { duration = duration; reason = reason; timestamp = now } in
    record m {
      state = sleeping;
      sleep_event = some event;
      on_sleep = elim m.on_sleep [ none ↦ none | some calls ↦ some (calls ++ (event ∷ [])) ];
    }

module _ {Time : Type 0} (float_of : Text → Option Time) (unicode : Unicode) where
  check_default :
      (m : SleepWakeMonitor Time) (now : Time) (line digits : Text) (c : ℕ) (reason : Text)
      → search (sleep_re unicode) line ≡ some (((2, c ∷ reason) ∷ (1, digits) ∷ []), [])
      → strip (c ∷ reason) ≡ c ∷ reason
      → check_sleep_patterns (esp32_sleep_patterns float_of unicode) m now line
        ≡ transition_to_sleeping m (float_of digits) (some (c ∷ reason)) now
  unfolding check_sleep_patterns esp32_sleep_patterns compiled match_of float_group group_of
      clean_reason
  check_default m now line digits c reason h stripped =
      rw (check_sleep_patterns, h) (rw (clean_reason, stripped) refl)

  -- What `transition_to_sleeping` does, written out.
  asleep-since :
      (m : SleepWakeMonitor Time) (duration : Option Time) (reason : Option Text) (now : Time)
      → transition_to_sleeping m duration reason now ≡ asleep_with m duration reason now
  unfolding transition_to_sleeping call_sleep
  asleep-since m duration reason now = elim (Option-cases m.on_sleep) [
    | inl e ↦ rw (transition_to_sleeping, e) refl
    | inr (calls, e) ↦ rw (transition_to_sleeping, e) refl
  ]

  announced_lem :
      (front : Text) (d : ℕ) (digits : Text) (c : ℕ) (reason : Text) (m : SleepWakeMonitor Time)
      (now : Time)
      → m.state ≡ awake
      → m.sleep_patterns ≡ esp32_sleep_patterns float_of unicode
      → All (λ x. (fold x == 115) ≡ false) front
      → All (λ x. is_digit unicode x ≡ true) (d ∷ digits)
      → is_digit unicode 32 ≡ false
      → is_space c ≡ false
      → All (λ x. is_any x ≡ true) (c ∷ reason)
      → EndsSolid (c ∷ reason)
      → feed m now (
          text (
            front
            ++ (codes "sleep for "
                ++ ((d ∷ digits) ++ (codes " seconds because " ++ (c ∷ reason))))))
        ≡ transition_to_sleeping m (float_of (d ∷ digits)) (some (c ∷ reason)) now
  unfolding feed feed_line line_of
  announced_lem front d digits c reason m now e p hs digs no_digit solid any ends =
      let line =
        codes "sleep for " ++ ((d ∷ digits) ++ (codes " seconds because " ++ (c ∷ reason))) in
      rw (feed, e, p)
        (check_default _ now (front ++ line) (d ∷ digits) c reason
          (search-sleep_re unicode front line _ hs
            (sleep_re-match unicode d digits c reason digs no_digit solid any))
          (strip-EndsSolid c reason solid ends))

  -- With the default patterns, an awake monitor that is fed a line of text "sleep for <digits> seconds
  -- because <reason>" is sleeping, holds the event with the number that `float` reads in these digits
  -- as the duration, with this reason and with the present time, and has called `on_sleep`, if it has
  -- one, with this event; nothing else of it changes. The words are in lower case here; before them
  -- the line may have any text without an s in either case and without the long s (U+017F). The
  -- reason is not empty and has no newline and no white space at its ends, there is a digit at least,
  -- and a space is no digit.
  pub feed-announced :
      (front : Text) (d : ℕ) (digits : Text) (c : ℕ) (reason : Text) (m : SleepWakeMonitor Time)
      (now : Time)
      → m.state ≡ awake
      → m.sleep_patterns ≡ esp32_sleep_patterns float_of unicode
      → All (λ x. (fold x == 115) ≡ false) front
      → All (λ x. is_digit unicode x ≡ true) (d ∷ digits)
      → is_digit unicode 32 ≡ false
      → is_space c ≡ false
      → All (λ x. is_any x ≡ true) (c ∷ reason)
      → EndsSolid (c ∷ reason)
      → feed m now (
          text (
            front
            ++ (codes "sleep for "
                ++ ((d ∷ digits) ++ (codes " seconds because " ++ (c ∷ reason))))))
        ≡ asleep_with m (float_of (d ∷ digits)) (some (c ∷ reason)) now
  feed-announced front d digits c reason m now e p hs digs no_digit solid any ends =
      announced_lem front d digits c reason m now e p hs digs no_digit solid any ends
      ∙ asleep-since m (float_of (d ∷ digits)) (some (c ∷ reason)) now
