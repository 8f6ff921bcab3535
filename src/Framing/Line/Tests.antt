-- ===== src/Framing/Line/Tests.antt =====
-- The theorems at a framer that has been fed half a line and half a character.
use embedded_bridge.Prelude.{◌≡◌, refl, [], ◌∷◌, ◌++◌}
use embedded_bridge.Text.Utf8.{waiting}
use embedded_bridge.Framing.Line.{LineFramer, feed}
use embedded_bridge.Framing.Line.Lines.{line_feed-append}

abbrev half_line : LineFramer
half_line = record { decoder = waiting 1 2 0x80 0xBF; buf = 65 ∷ 13 ∷ []; messages = [] }

line_feed-append_example :
    feed half_line ((0xA9 ∷ 13 ∷ []) ++ (10 ∷ 66 ∷ []))
    ≡ feed (feed half_line (0xA9 ∷ 13 ∷ [])) (10 ∷ 66 ∷ [])
line_feed-append_example =
    line_feed-append half_line (0xA9 ∷ 13 ∷ []) (10 ∷ 66 ∷ []) (refl, (refl, tt))
