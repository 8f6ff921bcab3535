-- ===== src/Testing/Session/Lines.antt =====
-- What a read of a line takes off the stream: nothing that the transport gave is lost.
use embedded_bridge.Prelude.{
  ◌≢◌, arith, ℕ, zero, suc, ◌≡◌, refl, [], ◌∷◌, ◌++◌, append-nil, Option, none, some, length, ◌==◌,
  inl, inr, Bool-cases, Option-cases, ==→eq,
}
use mathlib.Core.Path.{subst}
use embedded_bridge.Text.Utf8.{Text, decode_from}
use embedded_bridge.Text.Strip.{strip}
use embedded_bridge.Framing.Line.{partition, newline}
use embedded_bridge.Framing.Line.Lines.{Splits, partition-Splits}
use embedded_bridge.Testing.Session.{
  Host, TestSession, Ending, returned, timed_out, raised, stuck, deadline_of, is_before, read_bytes,
  received, line_or_none, read_loop, read_line,
}
use embedded_bridge.Testing.Session.Stream.{
  Passed, Passed-trans, stopped, looked, is_before-Passed, idle-Passed, received-Passed,
  dropped-Passed,
}

-- What `line_or_none` says of the line without its white space.
found_lem : (line : Text) (t : Text) → line_or_none line ≡ some t → (strip line ≡ t) × (t ≢ [])
unfolding line_or_none
found_lem line t = by_text (strip line)
  where
    by_text :
        (text : Text)
        → (elim text [ [] ↦ none | c ∷ rest ↦ some (c ∷ rest) ]) ≡ some t
        → (text ≡ t) × (t ≢ [])
    by_text [] e = absurd (ground (arith, e))
    by_text (c ∷ rest) e = ground (arith, e)

blank_lem : (line : Text) → line_or_none line ≡ none → strip line ≡ []
unfolding line_or_none
blank_lem line = by_text (strip line)
  where
    by_text :
        (text : Text) → (elim text [ [] ↦ none | c ∷ rest ↦ some (c ∷ rest) ]) ≡ none → text ≡ []
    by_text [] e = refl
    by_text (c ∷ rest) e = absurd (ground (arith, e))

module _ {W Time : Type 0} (host : Host W Time) (timeout : Time) where
  -- The line that a call returns, without its white space, is the first where something is left.
  unfoldable pub IsTaken : TestSession W → Text → TestSession W → Type 0
  IsTaken s t s' =
      (before : TestSession W) × (line : Text) × Passed host timeout s before
      × (before.line_buf ≡ line ++ (newline ∷ s'.line_buf))
      × (strip line ≡ t)
      × (t ≢ [])
      × (s' ≡ record before { line_buf = s'.line_buf })

  abbrev pub Kept : TestSession W → Ending (Option Text) × TestSession W → Type 0
  Kept s (returned none, s') = Passed host timeout s s'
  Kept s (returned (some t), s') = IsTaken s t s'
  Kept s (timed_out, s') = ⊥
  Kept s (raised, s') = ⊥
  Kept s (stuck, s') = Passed host timeout s s'

  Kept-from :
      (s s₁ : TestSession W) (ending : Ending (Option Text)) (s' : TestSession W)
      → Passed host timeout s s₁
      → Kept s₁ (ending, s')
      → Kept s (ending, s')
  unfolding IsTaken
  Kept-from s s₁ (returned none) s' p k = Passed-trans host timeout s s₁ s' p k
  Kept-from s s₁ (returned (some t)) s' p (before, line, q, b, l, some_left, same) =
      (before, line, Passed-trans host timeout s s₁ before p q, b, l, some_left, same)
  Kept-from s s₁ timed_out s' p k = k
  Kept-from s s₁ raised s' p k = k
  Kept-from s s₁ stuck s' p k = Passed-trans host timeout s s₁ s' p k

  -- A line that ends a call.
  line-Kept :
      (s : TestSession W) (line rest : Text) (found : Option Text)
      → s.line_buf ≡ line ++ (newline ∷ rest)
      → line_or_none line ≡ found
      → Kept s (returned found, record s { line_buf = rest })
  unfolding IsTaken decode_from
  line-Kept s line rest none e l = dropped-Passed host timeout s line rest e (blank_lem line l)
  line-Kept s line rest (some t) e l = (
    s,
    line,
    record {
      bytes = [];
      lines = [];
      reads = stopped s.world;
      decoder_kept = refl;
      text_kept = append-nil s.line_buf;
      blank = tt;
    },
    e,
    (found_lem line t l).0,
    (found_lem line t l).1,
    refl,
  )

  cut : (buf line rest : Text) → partition buf ≡ some (line, rest) → buf ≡ line ++ (newline ∷ rest)
  cut buf line rest e = subst (Splits buf) e (partition-Splits buf)

  read_loop-Kept :
      (fuel : ℕ) (deadline : Time) (s : TestSession W)
      → Kept s (read_loop host fuel deadline timeout s)
  unfolding read_loop decode_from
  read_loop-Kept zero deadline s = record {
    bytes = [];
    lines = [];
    reads = stopped s.world;
    decoder_kept = refl;
    text_kept = append-nil s.line_buf;
    blank = tt;
  }
  read_loop-Kept (suc fuel) deadline s =
      let (early, s₀) = is_before host deadline s in
      let (bytes, s₁) = read_bytes host timeout s₀ in
      let s₂ = received host bytes s₁ in
      let looked_at = is_before-Passed host timeout deadline s in
      let again : (s' : TestSession W)
          → Passed host timeout s s'
          → Kept s (read_loop host fuel deadline timeout s') =
        λ s' p.
          Kept-from s s' (read_loop host fuel deadline timeout s').0
            (read_loop host fuel deadline timeout s').1 p (read_loop-Kept fuel deadline s') in
      elim (Bool-cases early) [
        | inr late ↦ rw late looked_at
        | inl in_time ↦ rw in_time (elim (Bool-cases (length bytes == 0)) [
          | inl idle ↦
              let p =
                Passed-trans host timeout s s₀ s₁ looked_at
                  (idle-Passed host timeout s₀ (==→eq (length bytes) 0 idle)) in
              rw idle (elim (Option-cases (partition s₁.line_buf)) [
                | inl open_line ↦ rw open_line (again s₁ p)
                | inr ((line, rest), e) ↦ rw e (
                    Kept-from s s₁ (returned (line_or_none line)) (record s₁ { line_buf = rest }) p
                      (line-Kept s₁ line rest (line_or_none line) (cut s₁.line_buf line rest e)
                        refl))
              ])
          | inr busy ↦
              let p =
                Passed-trans host timeout s s₀ s₂ looked_at (received-Passed host timeout s₀) in
              rw busy (elim (Option-cases (partition s₂.line_buf)) [
                | inl open_line ↦ rw open_line (again s₂ p)
                | inr ((line, rest), e) ↦
                    let whole = cut s₂.line_buf line rest e in
                    let s₃ = record s₂ { line_buf = rest } in
                    rw e (elim (Option-cases (line_or_none line)) [
                      | inl blank ↦ rw blank (
                          again s₃ (
                            Passed-trans host timeout s s₂ s₃ p (
                              dropped-Passed host timeout s₂ line rest whole
                                (blank_lem line blank))))
                      | inr (t, found) ↦ rw found (
                          Kept-from s s₂ (returned (some t)) s₃ p
                            (line-Kept s₂ line rest (some t) whole found))
                    ])
              ])
        ])
      ]

  -- A read of a line loses nothing, whatever chunks the transport gives: what was buffered and what the
  -- bytes read decode to are lines of white space only, then the line that is returned without the
  -- white space at its ends, then the new buffer, and the decoder is the one behind these bytes. Where
  -- no line is returned there are lines of white space and the new buffer only; and no exception
  -- escapes.
  pub read_line-Kept : (fuel : ℕ) (s : TestSession W) → Kept s (read_line host fuel timeout s)
  unfolding read_line deadline_of decode_from
  read_line-Kept fuel s =
      let (deadline, s') = deadline_of host timeout s in
      Kept-from s s' (read_loop host fuel deadline timeout s').0
        (read_loop host fuel deadline timeout s').1
        (record {
          bytes = [];
          lines = [];
          reads = looked s.world s'.world [] (stopped s'.world);
          decoder_kept = refl;
          text_kept = append-nil s.line_buf;
          blank = tt;
        })
        (read_loop-Kept fuel deadline s')
