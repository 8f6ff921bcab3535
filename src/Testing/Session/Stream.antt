-- ===== src/Testing/Session/Stream.antt =====
-- What the session takes off the stream of the transport, from one state to another.
use embedded_bridge.Prelude.{
  ℕ, ◌≡◌, refl, sym, ap, ◌∙◌, arith, List, [], ◌∷◌, ◌++◌, append-nil, append_assoc, Option, none,
  some, length, inl, inr, Option-cases, All, All-append,
}
use mathlib.Core.Path.{subst}
use embedded_bridge.Text.Utf8.{Text, decode_from}
use embedded_bridge.Text.Strip.{strip}
use embedded_bridge.Framing.Line.{newline}
use embedded_bridge.Framing.Line.Lines.{decode_from-append}
use embedded_bridge.Testing.Session.{Host, TestSession, is_before, read_bytes, received}

-- Lines, each with its newline.
abbrev pub joined : List Text → Text
joined [] = []
joined (line ∷ lines) = line ++ (newline ∷ joined lines)

joined-append : (a b : List Text) → joined (a ++ b) ≡ joined a ++ joined b
joined-append [] b = refl
joined-append (line ∷ a) b =
    ap (λ (x : Text). line ++ (newline ∷ x)) (joined-append a b)
    ∙ sym (append_assoc line (newline ∷ joined a) (joined b))

abbrev pub IsBlank : Text → Type 0
IsBlank line = strip line ≡ []

module _ {W Time : Type 0} (host : Host W Time) (timeout : Time) where
  abbrev pub read_of : W → Option (List ℕ) × W
  read_of w = host.transport.read none (some (host.ops.min (host.ops.tenths 1) timeout)) w

  -- Looks at the clock and reads of the transport lead from one world to another; the bytes are what
  -- the reads gave.
  pub data Reads : W → List ℕ → W → Type 0 where
    stopped : (w : W) → Reads w [] w
    looked : (w w' : W) (bytes : List ℕ) → Reads (host.clock w).1 bytes w' → Reads w bytes w'
    failed :
        (w w' : W) (bytes : List ℕ)
        → (read_of w).0 ≡ none
        → Reads (read_of w).1 bytes w'
        → Reads w bytes w'
    took :
        (w w' : W) (chunk bytes : List ℕ)
        → (read_of w).0 ≡ some chunk
        → Reads (read_of w).1 bytes w'
        → Reads w (chunk ++ bytes) w'

  Reads-append :
      (w w' w'' : W) (a b : List ℕ) → Reads w a w' → Reads w' b w'' → Reads w (a ++ b) w''
  Reads-append w w' w'' a b (stopped _) k = k
  Reads-append w w' w'' a b (looked _ _ _ h) k =
      looked w w'' (a ++ b) (Reads-append (host.clock w).1 w' w'' a b h k)
  Reads-append w w' w'' a b (failed _ _ _ e h) k =
      failed w w'' (a ++ b) e (Reads-append (read_of w).1 w' w'' a b h k)
  Reads-append w w' w'' _ b (took _ _ chunk bytes e h) k =
      subst (λ x. Reads w x w'') (sym (append_assoc chunk bytes b))
        (took w w'' chunk (bytes ++ b) e (Reads-append (read_of w).1 w' w'' bytes b h k))

  -- The buffer and what the bytes decode to are blank lines and the new buffer.
  pub record Passed (s s' : TestSession W) : Type 0 where
    pub bytes : List ℕ
    pub lines : List Text
    pub reads : Reads s.world bytes s'.world
    pub decoder_kept : (decode_from s.decoder bytes).1 ≡ s'.decoder
    pub text_kept : s.line_buf ++ (decode_from s.decoder bytes).0 ≡ joined lines ++ s'.line_buf
    pub blank : All IsBlank lines

  pub Passed-trans : (s s' s'' : TestSession W) → Passed s s' → Passed s' s'' → Passed s s''
  Passed-trans s s' s'' p q = record {
    bytes = p.bytes ++ q.bytes;
    lines = p.lines ++ q.lines;
    reads = Reads-append s.world s'.world s''.world p.bytes q.bytes p.reads q.reads;
    decoder_kept = rw (decode_from-append s.decoder p.bytes q.bytes, p.decoder_kept) q.decoder_kept;
    text_kept =
        rw (decode_from-append s.decoder p.bytes q.bytes, p.decoder_kept)
          (sym (
              append_assoc s.line_buf (decode_from s.decoder p.bytes).0
                (decode_from s'.decoder q.bytes).0)
            ∙ ap (λ (x : Text). x ++ (decode_from s'.decoder q.bytes).0) p.text_kept
            ∙ append_assoc (joined p.lines) s'.line_buf (decode_from s'.decoder q.bytes).0
            ∙ ap (λ (x : Text). joined p.lines ++ x) q.text_kept
            ∙ sym (append_assoc (joined p.lines) (joined q.lines) s''.line_buf)
            ∙ ap (λ (x : Text). x ++ s''.line_buf) (sym (joined-append p.lines q.lines)));
    blank = All-append IsBlank p.lines q.lines p.blank q.blank;
  }

  pub is_before-Passed :
      (deadline : Time) (s : TestSession W) → Passed s (is_before host deadline s).1
  unfolding is_before decode_from
  is_before-Passed deadline s = record {
    bytes = [];
    lines = [];
    reads = looked s.world (host.clock s.world).1 [] (stopped (host.clock s.world).1);
    decoder_kept = refl;
    text_kept = append-nil s.line_buf;
    blank = tt;
  }

  chunk-Reads : (w : W) (chunk : List ℕ) → (read_of w).0 ≡ some chunk → Reads w chunk (read_of w).1
  chunk-Reads w chunk e =
      subst (λ x. Reads w x (read_of w).1) (append-nil chunk)
        (took w (read_of w).1 chunk [] e (stopped (read_of w).1))

  nothing-Reads : (w : W) → (read_of w).0 ≡ none → Reads w [] (read_of w).1
  nothing-Reads w e = failed w (read_of w).1 [] e (stopped (read_of w).1)

  -- A read that gave no bytes.
  untouched-Passed :
      (s : TestSession W)
      → Reads s.world [] (read_of s.world).1
      → Passed s (record s { world = (read_of s.world).1 })
  unfolding decode_from
  untouched-Passed s reads = record {
    bytes = [];
    lines = [];
    reads = reads;
    decoder_kept = refl;
    text_kept = append-nil s.line_buf;
    blank = tt;
  }

  empty-Passed :
      (s : TestSession W) (chunk : List ℕ)
      → (read_of s.world).0 ≡ some chunk
      → length chunk ≡ 0
      → Passed s (record s { world = (read_of s.world).1 })
  empty-Passed s [] e l = untouched-Passed s (chunk-Reads s.world [] e)
  empty-Passed s (b ∷ chunk) e l = absurd (ground (arith, l))

  pub idle-Passed :
      (s : TestSession W)
      → length (read_bytes host timeout s).0 ≡ 0
      → Passed s (read_bytes host timeout s).1
  unfolding read_bytes
  idle-Passed s = elim (Option-cases (read_of s.world).0) [
    | inl e ↦ rw (read_bytes, e) (λ l. untouched-Passed s (nothing-Reads s.world e))
    | inr (chunk, e) ↦ rw (read_bytes, e) (λ l. empty-Passed s chunk e l)
  ]

  pub received-Passed :
      (s : TestSession W)
      → Passed s (received host (read_bytes host timeout s).0 (read_bytes host timeout s).1)
  unfolding read_bytes received decode_from
  received-Passed s = elim (Option-cases (read_of s.world).0) [
    | inl e ↦
        rw (read_bytes, e)
          (record {
            bytes = [];
            lines = [];
            reads = nothing-Reads s.world e;
            decoder_kept = refl;
            text_kept = refl;
            blank = tt;
          })
    | inr (chunk, e) ↦
        rw (read_bytes, e)
          (record {
            bytes = chunk;
            lines = [];
            reads = chunk-Reads s.world chunk e;
            decoder_kept = refl;
            text_kept = refl;
            blank = tt;
          })
  ]

  pub dropped-Passed :
      (s : TestSession W) (line rest : Text)
      → s.line_buf ≡ line ++ (newline ∷ rest)
      → IsBlank line
      → Passed s (record s { line_buf = rest })
  unfolding decode_from
  dropped-Passed s line rest e b = record {
    bytes = [];
    lines = line ∷ [];
    reads = stopped s.world;
    decoder_kept = refl;
    text_kept = append-nil s.line_buf ∙ e ∙ sym (append_assoc line (newline ∷ []) rest);
    blank = (b, tt);
  }
