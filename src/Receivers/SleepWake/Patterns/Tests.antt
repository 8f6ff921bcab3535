-- ===== src/Receivers/SleepWake/Patterns/Tests.antt =====
-- The default patterns at concrete lines, with the digits of ASCII and whole seconds.
use embedded_bridge.Prelude.{
  ℕ, ◌+◌, ◌*◌, ◌-◌, ◌≡◌, refl, false, [], ◌∷◌, some, none, leb, ◌&&◌, if◌then◌else◌,
}
use embedded_bridge.Text.Utf8.{Text}
use embedded_bridge.Text.Number.{Unicode}
use embedded_bridge.Text.Strip.{is_space, EndsSolid}
use embedded_bridge.Text.Literal.{codes}
use embedded_bridge.Text.Regex.{search, match, match_with, match_one, match_many, or_else}
use embedded_bridge.Framing.Message.Handler.{text}
use embedded_bridge.Receivers.SleepWake.{SleepWakeMonitor, init, feed}
use embedded_bridge.Receivers.SleepWake.Patterns.{
  fold, folded_then, is_any, is_digit, nothing, wakeup_re, esp32_sleep_patterns,
  esp32_wake_patterns,
}
use embedded_bridge.Receivers.SleepWake.Patterns.Announced.{asleep_with, feed-announced}

abbrev ascii : Unicode
ascii = record {
  is_word = λ c. false;
  digit_of = λ c. if leb 48 c && leb c 57 then some (c - 48) else none;
}

abbrev value : ℕ → Text → ℕ
value n [] = n
value n (c ∷ rest) = value (n * 10 + (c - 48)) rest

abbrev start : SleepWakeMonitor ℕ
start =
    init none (esp32_sleep_patterns (λ t. some (value 0 t)) ascii)
      (esp32_wake_patterns (λ t. some (value 0 t))) (some []) (some 0)

feed-announced_example :
    feed start 5 (text (codes "[I] Deep sleep for 60 seconds because idle"))
    ≡ asleep_with start (some 60) (some (codes "idle")) 5
unfolding fold is_any is_digit is_space EndsSolid init
feed-announced_example =
    feed-announced (λ t. some (value 0 t)) ascii (codes "[I] Deep ") 54 (codes "0") 105
      (codes "dle") start 5 refl refl
      (refl, (refl, (refl, (refl, (refl, (refl, (refl, (refl, (refl, tt))))))))) (refl, (refl, tt))
      refl refl (refl, (refl, (refl, (refl, tt)))) refl

search-wakeup_re :
    search wakeup_re (codes "RST:0x5 (DeepSleep_Reset),boot") ≡ some ([], codes "),boot")
unfolding search match match_with match_one match_many or_else wakeup_re nothing folded_then fold
    is_any
search-wakeup_re = refl
