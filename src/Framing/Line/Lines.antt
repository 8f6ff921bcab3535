-- ===== src/Framing/Line/Lines.antt =====
-- The lines of a stream do not depend on how it is cut into chunks.
use embedded_bridge.Prelude.{
  ℕ, zero, suc, ◌≤◌, ◌<◌, ◌≡◌, refl, sym, ap, ◌∙◌, arith, false, List, [], ◌∷◌, ◌++◌, append-nil,
  append_assoc, none, some, length, ◌==◌, if◌then◌else◌, Bool-cases, inl, inr, All, All-append, ◌⊎◌,
  Option, Option-cases, ==→eq,
}
use mathlib.Core.Path.{subst}
use embedded_bridge.Text.Utf8.{Text, Decoder, step, decode_from}
use embedded_bridge.Framing.Message.Handler.{strip_cr}
use embedded_bridge.Framing.Line.{LineFramer, partition, split_lines, feed, newline}

-- The loop as one pass, with the line under way.
pub scan : Text → Text → List Text → Text × List Text
scan line [] messages = (line, messages)
scan line (c ∷ buf) messages =
    if c == newline
    then scan [] buf (messages ++ (strip_cr line ∷ []))
    else scan (line ++ (c ∷ [])) buf messages

abbrev pub NoNewline : Text → Type 0
NoNewline t = All (λ c. (c == newline) ≡ false) t

scan-append :
    (line a b : Text) (messages : List Text)
    → scan line (a ++ b) messages ≡ scan (scan line a messages).0 b (scan line a messages).1
unfolding scan
scan-append line [] b messages = refl
scan-append line (c ∷ a) b messages = elim (Bool-cases (c == newline)) [
  | inl e ↦ rw e (scan-append [] a b (messages ++ (strip_cr line ∷ [])))
  | inr e ↦ rw e (scan-append (line ++ (c ∷ [])) a b messages)
]

scan-line :
    (line a : Text) (messages : List Text)
    → NoNewline a
    → scan line a messages ≡ (line ++ a, messages)
unfolding scan
scan-line line [] messages h = λ i. (sym (append-nil line) i, messages)
scan-line line (c ∷ a) messages (e, h) =
    rw e (
      scan-line (line ++ (c ∷ [])) a messages h ∙ (λ i. (append_assoc line (c ∷ []) a i, messages)))

scan-NoNewline :
    (line a : Text) (messages : List Text) → NoNewline line → NoNewline (scan line a messages).0
unfolding scan
scan-NoNewline line [] messages h = h
scan-NoNewline line (c ∷ a) messages h = elim (Bool-cases (c == newline)) [
  | inl e ↦ rw e (scan-NoNewline [] a (messages ++ (strip_cr line ∷ [])) tt)
  | inr e ↦ rw e (
      scan-NoNewline (line ++ (c ∷ [])) a messages
        (All-append (λ c. (c == newline) ≡ false) line (c ∷ []) h (e, tt)))
]

-- What partition finds, against the scan.
scan-partition :
    (line buf : Text) (messages : List Text)
    → ((partition buf ≡ none) × NoNewline buf)
      ⊎ ((t : Text) × (rest : Text) × (partition buf ≡ some (t, rest))
          × (length rest < length buf)
          × (scan line buf messages ≡ scan [] rest (messages ++ (strip_cr (line ++ t) ∷ []))))
unfolding partition scan
scan-partition line [] messages = inl (refl, tt)
scan-partition line (c ∷ buf) messages = elim (Bool-cases (c == newline)) [
  | inl e ↦ inr ([], buf, rw e refl, omega arith, rw (e, append-nil line) refl)
  | inr e ↦ elim (scan-partition (line ++ (c ∷ [])) buf messages) [
    | inl (p, h) ↦ inl (rw (e, p) refl, (e, h))
    | inr (t, rest, p, l, q) ↦ inr (
      c ∷ t,
      rest,
      rw (e, p) refl,
      omega (arith, l),
      rw e (
          q
          ∙ ap (λ (u : Text). scan [] rest (messages ++ (strip_cr u ∷ [])))
              (append_assoc line (c ∷ []) t)),
    )
  ]
]

-- The loop with enough fuel is the pass.
split_lines-scan :
    (fuel : ℕ) (buf : Text) (messages : List Text)
    → length buf ≤ fuel
    → split_lines fuel buf messages ≡ scan [] buf messages
unfolding split_lines
split_lines-scan zero [] messages h = unfold scan in refl
split_lines-scan zero (c ∷ buf) messages h = absurd (omega arith)
split_lines-scan (suc fuel) buf messages h = elim (scan-partition [] buf messages) [
  | inl (p, n) ↦ rw (split_lines, p) (sym (scan-line [] buf messages n))
  | inr (t, rest, p, l, q) ↦
      rw (split_lines, p, q)
        (split_lines-scan fuel rest (messages ++ (strip_cr t ∷ [])) (omega (arith, l)))
]

pub decode_from-append :
    (d : Decoder) (a b : List ℕ)
    → decode_from d (a ++ b) ≡ (
      (decode_from d a).0 ++ (decode_from (decode_from d a).1 b).0,
      (decode_from (decode_from d a).1 b).1,
    )
unfolding decode_from
decode_from-append d [] b = refl
decode_from-append d (c ∷ a) b = rw (decode_from-append (step d c).1 a b) (λ i. (
  sym
      (append_assoc (step d c).0 (decode_from (step d c).1 a).0
        (decode_from (decode_from (step d c).1 a).1 b).0)
      i,
  (decode_from (decode_from (step d c).1 a).1 b).1,
))

-- What `feed` does, in one pass over the text.
fed : LineFramer → List ℕ → LineFramer
fed s bytes = record {
  decoder = (decode_from s.decoder bytes).1;
  buf = (scan s.buf (decode_from s.decoder bytes).0 s.messages).0;
  messages = (scan s.buf (decode_from s.decoder bytes).0 s.messages).1;
}

feed_lem : (s : LineFramer) (bytes : List ℕ) → NoNewline s.buf → feed s bytes ≡ fed s bytes
unfolding feed fed
feed_lem s bytes h =
    rw
      (
        split_lines-scan (length (s.buf ++ (decode_from s.decoder bytes).0))
            (s.buf ++ (decode_from s.decoder bytes).0) s.messages (omega arith),
        scan-append [] s.buf (decode_from s.decoder bytes).0 s.messages,
        scan-line [] s.buf s.messages h,
      )
      refl

fed-NoNewline : (s : LineFramer) (bytes : List ℕ) → NoNewline s.buf → NoNewline (fed s bytes).buf
unfolding fed
fed-NoNewline s bytes h = scan-NoNewline s.buf (decode_from s.decoder bytes).0 s.messages h

fed-append : (s : LineFramer) (a b : List ℕ) → fed s (a ++ b) ≡ fed (fed s a) b
unfolding fed
fed-append s a b =
    rw
      (
        decode_from-append s.decoder a b,
        scan-append s.buf (decode_from s.decoder a).0 (decode_from (decode_from s.decoder a).1 b).0
            s.messages,
      )
      refl

-- A framer whose buffer keeps no newline keeps none after it has been fed: every line that ends is
-- delivered at once.
pub feed-NoNewline :
    (s : LineFramer) (bytes : List ℕ) → NoNewline s.buf → NoNewline (feed s bytes).buf
feed-NoNewline s bytes h = rw (feed_lem s bytes h) (fed-NoNewline s bytes h)

-- Two chunks give the lines of their concatenation, also where they cut a character or an end of
-- line in two, for a framer whose buffer keeps no newline.
pub line_feed-append :
    (s : LineFramer) (a b : List ℕ) → NoNewline s.buf → feed s (a ++ b) ≡ feed (feed s a) b
line_feed-append s a b h =
    feed_lem s (a ++ b) h
    ∙ fed-append s a b
    ∙ sym (feed_lem (fed s a) b (fed-NoNewline s a h))
    ∙ ap (λ (t : LineFramer). feed t b) (sym (feed_lem s a h))

-- The text in front of the first newline, and the text behind it.
abbrev pub Splits : Text → Option (Text × Text) → Type 0
Splits buf none = Unit
Splits buf (some (line, rest)) = buf ≡ line ++ (newline ∷ rest)

pub partition-Splits : (buf : Text) → Splits buf (partition buf)
unfolding partition
partition-Splits [] = tt
partition-Splits (c ∷ buf) = elim (Bool-cases (c == newline)) [
  | inl e ↦ rw e (ap (λ (x : ℕ). x ∷ buf) (==→eq c newline e))
  | inr e ↦ rw e (elim (Option-cases (partition buf)) [
    | inl nothing ↦ rw nothing tt
    | inr ((line, rest), found) ↦
        rw found (ap (λ (x : Text). c ∷ x) (subst (Splits buf) found (partition-Splits buf)))
  ])
]
