-- ===== src/Receivers/MemoryTracker/Cycle.antt =====
-- A test of the device, from its memory report before to the one after it.
use embedded_bridge.Prelude.{
  ◌≡◌, refl, ap, ◌∙◌, true, false, List, [], ◌∷◌, some, if◌then◌else◌, length, ltb,
}
use embedded_bridge.Prelude.Int.{ℤ}
use embedded_bridge.Prelude.Dict.{lookup, lookup-insert}
use embedded_bridge.Text.Utf8.{Text}
use embedded_bridge.Text.Literal.{codes, text_eq, text_eq_refl, text_eq→eq, text_key}
use embedded_bridge.Framing.Message.Handler.{Message}
use embedded_bridge.Receivers.Router.{Outcome, returned, raised}
use embedded_bridge.Receivers.CrashDetector.{line_of}
use embedded_bridge.Receivers.MemoryTracker.{
  Value, ParsedTag, Parser, MemoryInfo, MemoryTracker, set_current_test, info_of, with_info, assign,
  is_usable, number_of, assigned, feed_before, feed_after, is_for, feed_parsed, feed,
}

lookup-with_info :
    (name : Text) (info : MemoryInfo) (s : MemoryTracker)
    → lookup text_key name (with_info info s).data_of
      ≡ (if text_eq s.current_test name then some info else lookup text_key name s.data_of)
unfolding with_info
lookup-with_info name info s = lookup-insert text_key s.current_test name info s.data_of

info_of-with_info : (info : MemoryInfo) (s : MemoryTracker) → info_of (with_info info s) ≡ info
unfolding info_of with_info
info_of-with_info info s =
    rw (info_of, lookup-with_info s.current_test info s, text_eq_refl s.current_test) refl

-- The info of a test that reported these numbers.
abbrev pub info_with : ℤ → ℤ → ℤ → ℤ → ℤ → MemoryInfo
info_with free min free' delta min' = record {
  free_before = free;
  min_before = min;
  free_after = free';
  min_after = min';
  delta = delta;
}

module _ (parser : Parser) where
  -- A line with this tag, whose CRC is right where it has one, and its payload.
  pub record IsLine (tag : Text) (payload : List (Text × Value)) (message : Message) : Type 0 where
    pub parsed : ParsedTag
    pub is_parsed : parser.parse_line (line_of message) ≡ some (some parsed)
    pub has_tag : text_eq parsed.tag tag ≡ true
    pub is_usable_line : is_usable parsed.crc_valid ≡ true
    pub has_payload : parser.parse_payload parsed.payload_str ≡ payload

  -- The number that a payload has at a key.
  unfoldable pub Reads : Text → List (Text × Value) → ℤ → Type 0
  Reads key payload n = number_of parser (lookup text_key key payload) ≡ some n

  unfoldable pub feed_all : List Message → MemoryTracker → Outcome MemoryTracker
  feed_all [] s = returned s
  feed_all (message ∷ messages) s = elim (feed parser message s) [
    | returned s' ↦ feed_all messages s'
    | raised s' ↦ raised s'
  ]

  feed-before :
      (message : Message) (payload : List (Text × Value)) (free min : ℤ) (s : MemoryTracker)
      → IsLine (codes "MEM:BEFORE") payload message
      → Reads (codes "free") payload free
      → Reads (codes "min") payload min
      → ltb 0 (length s.current_test) ≡ true
      → feed parser message s
        ≡ returned (with_info (record (info_of s) { free_before = free; min_before = min }) s)
  unfolding Reads feed feed_parsed feed_before assign assigned is_for
  feed-before message payload free min s line f m named =
      rw
        (
          feed, line.is_parsed, line.is_usable_line, line.has_tag, named, line.has_payload,
          assigned, f, m,
        )
        refl

  after_not_before :
      (tag : Text)
      → text_eq tag (codes "MEM:AFTER") ≡ true
      → text_eq tag (codes "MEM:BEFORE") ≡ false
  unfolding text_eq
  after_not_before tag h =
      ap (λ (t : Text). text_eq t (codes "MEM:BEFORE")) (text_eq→eq tag (codes "MEM:AFTER") h)

  feed-after :
      (message : Message) (payload : List (Text × Value)) (free delta min : ℤ) (s : MemoryTracker)
      → IsLine (codes "MEM:AFTER") payload message
      → Reads (codes "free") payload free
      → Reads (codes "delta") payload delta
      → Reads (codes "min") payload min
      → ltb 0 (length s.current_test) ≡ true
      → feed parser message s
        ≡ returned
            (with_info (record (info_of s) { free_after = free; delta = delta; min_after = min }) s)
  unfolding Reads feed feed_parsed feed_after assign assigned is_for
  feed-after message payload free delta min s line f d m named =
      rw
        (
          feed,
          line.is_parsed,
          line.is_usable_line,
          after_not_before line.parsed.tag line.has_tag,
          line.has_tag,
          named,
          line.has_payload,
          assigned,
          f,
          d,
          m,
        )
        refl

  feed_all-two :
      (a b : Message) (s s' s'' : MemoryTracker)
      → feed parser a s ≡ returned s'
      → feed parser b s' ≡ returned s''
      → feed_all (a ∷ b ∷ []) s ≡ returned s''
  unfolding feed_all
  feed_all-two a b s s' s'' e k = rw (feed_all, e, k) refl

  -- Where `set_current_test` gave a name that is not empty, a line MEM:BEFORE and then a line
  -- MEM:AFTER, each without a wrong CRC and with payloads whose numbers `int` reads (an absent one
  -- counts as "0"), are fed without an exception: the data of the named test are then these numbers,
  -- whatever they were, and those of each other test are the same as before.
  pub feed_all-test :
      (name : Text) (before after : Message) (p p' : List (Text × Value))
      (free min free' delta min' : ℤ) (s : MemoryTracker)
      → ltb 0 (length name) ≡ true
      → IsLine (codes "MEM:BEFORE") p before
      → Reads (codes "free") p free
      → Reads (codes "min") p min
      → IsLine (codes "MEM:AFTER") p' after
      → Reads (codes "free") p' free'
      → Reads (codes "delta") p' delta
      → Reads (codes "min") p' min'
      → (s' : MemoryTracker) × (feed_all (before ∷ after ∷ []) (set_current_test name s)
          ≡ returned s')
        × (lookup text_key name s'.data_of ≡ some (info_with free min free' delta min'))
        × ((other : Text)
            → text_eq name other ≡ false
            → lookup text_key other s'.data_of ≡ lookup text_key other s.data_of)
  unfolding set_current_test with_info
  feed_all-test name before after p p' free min free' delta min' s named line f m line' f' d' m' =
      let s₀ = set_current_test name s in
      let s₁ = with_info (record (info_of s₀) { free_before = free; min_before = min }) s₀ in
      let s₂ =
        with_info (record (info_of s₁) { free_after = free'; delta = delta; min_after = min' })
          s₁ in
      let same =
        info_of-with_info (record (info_of s₀) { free_before = free; min_before = min }) s₀ in
      (
        s₂,
        feed_all-two before after s₀ s₁ s₂ (feed-before before p free min s₀ line f m named)
            (feed-after after p' free' delta min' s₁ line' f' d' m' named),
        lookup-with_info name _ s₁
            ∙ rw (text_eq_refl name) (
                ap
                  (λ (i : MemoryInfo).
                    some (record i { free_after = free'; delta = delta; min_after = min' }))
                  same),
        λ other h. lookup-with_info other _ s₁ ∙ rw h (lookup-with_info other _ s₀ ∙ rw h refl),
      )
