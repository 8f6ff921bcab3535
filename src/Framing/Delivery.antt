-- ===== src/Framing/Delivery.antt =====
-- What the frame decoders share: which payloads a decoder with a bounded buffer hands to its
-- callback, as the specification of their round trips.
use embedded_bridge.Prelude.{ℕ, List, [], ◌∷◌, ◌++◌, length, leb, if◌then◌else◌}

-- The calls of `on_frame` that a frame with this payload leads to: none for an empty payload or
-- for one that does not fit the buffer.
abbrev pub accepted : ℕ → List ℕ → List (List ℕ)
accepted buf_size [] = []
accepted buf_size (b ∷ p) = if leb (length (b ∷ p)) buf_size then (b ∷ p) ∷ [] else []

abbrev pub accepted_all : ℕ → List (List ℕ) → List (List ℕ)
accepted_all buf_size [] = []
accepted_all buf_size (p ∷ ps) = accepted buf_size p ++ accepted_all buf_size ps
