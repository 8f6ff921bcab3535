-- ===== src/Receivers/SleepWake/Patterns.antt =====
-- python/src/embedded_bridge/receivers/sleep_wake.py, the default patterns of the ESP32. The tables
-- of Unicode and `float` on texts are parameters. `re.IGNORECASE` compares characters after folding;
-- outside ASCII only two characters fold to letters that these patterns could have.
mod Announced
mod Tests
use embedded_bridge.Prelude.{
  ℕ, ◌+◌, Bool, true, false, not, List, [], ◌∷◌, Option, none, some, leb, ◌==◌, ◌&&◌, if◌then◌else◌,
}
use embedded_bridge.Text.Utf8.{Text}
use embedded_bridge.Text.Number.{Unicode}
use embedded_bridge.Text.Strip.{is_space}
use embedded_bridge.Text.Literal.{codes}
use embedded_bridge.Text.Regex.{Regex, one, many, seq, optional, group, Captures, search, group_of}
use embedded_bridge.Receivers.SleepWake.{Match, SleepPattern}

-- U+017F folds to s, U+212A to k.
pub fold : ℕ → ℕ
fold c =
    if leb 65 c && leb c 90
    then c + 32
    else if c == 0x17F
    then 115
    else if c == 0x212A
    then 107
    else c

-- A text of folded characters, before the rest of a pattern.
pub folded_then : Text → Regex → Regex
folded_then [] r = r
folded_then (c ∷ text) r = seq (one (λ x. fold x == c)) (folded_then text r)

pub is_any : ℕ → Bool
is_any c = not (c == 10)

-- A text alone: the rest of the pattern is a repetition of no characters.
pub nothing : Regex
nothing = many (λ _. false)

module _ (unicode : Unicode) where
  pub is_digit : ℕ → Bool
  is_digit c = elim (unicode.digit_of c) [ none ↦ false | some _ ↦ true ]

  -- `(?:because\s+)?(.+)?`
  pub reason_part : Regex
  reason_part =
      seq (optional (folded_then (codes "because") (seq (one is_space) (many is_space))))
        (optional (group 2 (seq (one is_any) (many is_any))))

  -- `sleep for (\d+) seconds?,?\s*(?:because\s+)?(.+)?`
  pub sleep_re : Regex
  sleep_re = folded_then (codes "sleep for ") (
      seq (group 1 (seq (one is_digit) (many is_digit))) (
        folded_then (codes " second") (
          seq (optional (one (λ x. fold x == 115)))
            (seq (optional (one (λ x. x == 0x2C))) (seq (many is_space) reason_part)))))

pub warm_boot_re : Regex
warm_boot_re = folded_then (codes "warm boot") nothing

pub wakeup_re : Regex
wakeup_re =
    folded_then (codes "rst:0x5")
      (seq (many is_any) (folded_then (codes "deepsleep_reset") nothing))

module _ {Time : Type 0} (float_of : Text → Option Time) where
  -- `float(match.group(1))`, where a group that is missing or did not match raises.
  pub float_group : Option Text → Option Time
  float_group none = none
  float_group (some text) = float_of text

  pub match_of : Option (Captures × Text) → Option (Match Time)
  match_of none = none
  match_of (some (groups, rest)) =
      some (record { duration = float_group (group_of 1 groups); group_2 = group_of 2 groups })

  pub compiled : Text → Regex → SleepPattern Time
  compiled name r = record { name = name; search = λ line. match_of (search r line) }

  pub esp32_sleep_patterns : Unicode → List (SleepPattern Time)
  esp32_sleep_patterns unicode = compiled (codes "esp32_sleep") (sleep_re unicode) ∷ []

  pub esp32_wake_patterns : List (SleepPattern Time)
  esp32_wake_patterns =
      compiled (codes "esp32_warm_boot") warm_boot_re
      ∷ compiled (codes "esp32_wakeup") wakeup_re
      ∷ []
