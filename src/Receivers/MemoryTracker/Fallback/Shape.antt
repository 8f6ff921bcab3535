-- ===== src/Receivers/MemoryTracker/Fallback/Shape.antt =====
-- What the pattern of a line with a CRC matches.
use embedded_bridge.Prelude.{
  ℕ, ◌-◌, ◌≡◌, ◌≢◌, refl, ap, ◌∙◌, arith, true, false, [], ◌∷◌, ◌++◌, Option, none, some, length,
  take, All,
}
use embedded_bridge.Text.Utf8.{Text}
use embedded_bridge.Text.Strip.{is_space, EndsSolid}
use embedded_bridge.Text.Regex.{
  Regex, Captures, or_else, seq, match_one, match_many, match_few, match_with, is_end, match,
}
use embedded_bridge.Text.Regex.Spans.{
  Fails, match_few-Fails, match_many-none, match_with-literal, consumed,
}
use embedded_bridge.Receivers.MemoryTracker.Fallback.{
  is_any, is_solid, is_hex, spaces, star_part, crc_part, tag_part, payload_part, line_re,
}

-- A CRC behind a space.
abbrev pub crc_tail : ℕ → ℕ → Text
crc_tail a b = 32 ∷ 42 ∷ a ∷ b ∷ []

cons-ne-nil : {x : ℕ} {xs : Text} → (x ∷ xs) ≢ []
cons-ne-nil e = ground (arith, e)

rest_EndsSolid : (x : ℕ) (xs : Text) → EndsSolid (x ∷ xs) → xs ≢ [] → EndsSolid xs
unfolding EndsSolid
rest_EndsSolid x [] h ne = absurd (ne refl)
rest_EndsSolid x (y ∷ xs) h ne = h

module _ {A : Type 0} (groups : Captures) (k : Captures → Text → Option A) where
  star_part-long :
      (a b c d e : ℕ) (text : Text)
      → match_with star_part groups (a ∷ b ∷ c ∷ d ∷ e ∷ text) k ≡ none
  unfolding star_part match_with match_one is_end
  star_part-long a b c d e text = ground arith

  star_part-early :
      (x : ℕ) (xs : Text) (a b : ℕ)
      → match_with star_part groups (x ∷ (xs ++ crc_tail a b)) k ≡ none
  star_part-early x [] a b = star_part-long x 32 42 a b []
  star_part-early x (y ∷ []) a b = star_part-long x y 32 42 a (b ∷ [])
  star_part-early x (y ∷ z ∷ []) a b = star_part-long x y z 32 42 (a ∷ b ∷ [])
  star_part-early x (y ∷ z ∷ w ∷ []) a b = star_part-long x y z w 32 (42 ∷ a ∷ b ∷ [])
  star_part-early x (y ∷ z ∷ w ∷ v ∷ xs) a b = star_part-long x y z w v (xs ++ crc_tail a b)

  -- White space that something else follows is no white space before a CRC.
  many_spaces-none :
      (xs : Text) (a b : ℕ)
      → EndsSolid xs
      → match_many is_space (xs ++ crc_tail a b) (λ text. match_with star_part groups text k) ≡ none
  unfolding EndsSolid match_many or_else
  many_spaces-none [] a b h = absurd h
  many_spaces-none (x ∷ []) a b h = rw h (star_part-early x [] a b)
  many_spaces-none (x ∷ y ∷ xs) a b h =
      ground (arith, many_spaces-none (y ∷ xs) a b h, star_part-early x (y ∷ xs) a b)

  spaces-solid :
      (r : Regex) (c : ℕ) (text : Text)
      → is_space c ≡ false
      → match_with (seq spaces r) groups (c ∷ text) k ≡ none
  unfolding spaces match_with match_one
  spaces-solid r c text h = rw h refl

  crc_part-none :
      (x : ℕ) (xs : Text) (a b : ℕ)
      → EndsSolid (x ∷ xs)
      → match_with crc_part groups (x ∷ (xs ++ crc_tail a b)) k ≡ none
  unfolding EndsSolid crc_part spaces match_with match_one
  crc_part-none x [] a b h = rw h refl
  crc_part-none x (y ∷ xs) a b h = ground (arith, many_spaces-none (y ∷ xs) a b h)

  crc_part-crc_tail :
      (a b : ℕ)
      → is_hex a ≡ true
      → is_hex b ≡ true
      → match_with crc_part groups (crc_tail a b) k ≡ k ((3, a ∷ b ∷ []) ∷ groups) []
  unfolding crc_part spaces star_part match_with match_one match_many or_else is_end is_space
  crc_part-crc_tail a b ha hb = rw (ha, hb) refl

module _ {A : Type 0} (k : Captures → Text → Option A) where
  crc_part-Fails :
      (groups : Text → Captures) (xs : Text) (a b : ℕ)
      → (xs ≢ [] → EndsSolid xs)
      → Fails (λ text. match_with crc_part (groups text) text k) xs (crc_tail a b)
  unfolding Fails
  crc_part-Fails groups [] a b h = tt
  crc_part-Fails groups (x ∷ xs) a b h = (
    crc_part-none (groups (x ∷ (xs ++ crc_tail a b))) k x xs a b (h cons-ne-nil),
    crc_part-Fails groups xs a b (rest_EndsSolid x xs (h cons-ne-nil)),
  )

  -- The payload, and the CRC behind it.
  payload_part-match :
      (groups : Captures) (p : ℕ) (ps : Text) (a b : ℕ) (x : A)
      → is_space p ≡ false
      → All (λ c. is_any c ≡ true) (p ∷ ps)
      → EndsSolid (p ∷ ps)
      → is_hex a ≡ true
      → is_hex b ≡ true
      → k ((3, a ∷ b ∷ []) ∷ (2, p ∷ ps) ∷ groups) [] ≡ some x
      → match_with (seq payload_part crc_part) groups (32 ∷ p ∷ (ps ++ crc_tail a b)) k ≡ some x
  unfolding payload_part spaces match_with match_one is_space or_else
  payload_part-match groups p ps a b x solid any ends ha hb h =
      let payload = p ∷ ps in
      let tail = crc_tail a b in
      let groups_at : Text → Captures =
        λ text. (2, take (length (payload ++ tail) - length text) (payload ++ tail)) ∷ groups in
      let last : match_with crc_part (groups_at tail) tail k ≡ some x =
        crc_part-crc_tail (groups_at tail) k a b ha hb
        ∙ ap (λ (t : Text). k ((3, a ∷ b ∷ []) ∷ (2, t) ∷ groups) []) (consumed payload tail)
        ∙ h in
      rw
        (match_many-none is_space p (ps ++ tail)
            (λ text'. match_few is_any text' (λ text''.
              match_with crc_part ((2, take (length text' - length text'') text') ∷ groups) text''
                k))
            solid
          ∙ match_few-Fails is_any payload tail
              (λ text. match_with crc_part (groups_at text) text k) x any
              (crc_part-Fails groups_at payload a b (λ _. ends)) last)
        refl

  payload_part-none :
      (groups : Captures) (x : ℕ) (text : Text)
      → is_solid x ≡ true
      → match_with (seq payload_part crc_part) groups (x ∷ text) k ≡ none
  unfolding payload_part crc_part spaces match_with match_one or_else is_solid
  payload_part-none groups x text h = ground (arith, h)

  tag-Fails :
      (groups : Text → Captures) (xs rest : Text)
      → All (λ c. is_solid c ≡ true) xs
      → Fails (λ text. match_with (seq payload_part crc_part) (groups text) text k) xs rest
  unfolding Fails
  tag-Fails groups [] rest h = tt
  tag-Fails groups (x ∷ xs) rest (solid, h) = (
    payload_part-none (groups (x ∷ (xs ++ rest))) x (xs ++ rest) solid,
    tag-Fails groups xs rest h,
  )

-- A line with a tag, a payload and a CRC, behind its prefix.
abbrev pub line_of_parts : Text → Text → Text → ℕ → ℕ → Text
line_of_parts prefix tag payload a b = prefix ++ (tag ++ (32 ∷ (payload ++ crc_tail a b)))

pub line_re-match :
    (prefix : Text) (t : ℕ) (ts : Text) (p : ℕ) (ps : Text) (a b : ℕ)
    → All (λ c. is_solid c ≡ true) (t ∷ ts)
    → is_space p ≡ false
    → All (λ c. is_any c ≡ true) (p ∷ ps)
    → EndsSolid (p ∷ ps)
    → is_hex a ≡ true
    → is_hex b ≡ true
    → match (line_re prefix) (line_of_parts prefix (t ∷ ts) (p ∷ ps) a b)
      ≡ some (((3, a ∷ b ∷ []) ∷ (2, p ∷ ps) ∷ (1, t ∷ ts) ∷ []), [])
unfolding match line_re tag_part match_one match_with
line_re-match prefix t ts p ps a b (solid, solids) start any ends ha hb =
    let rest = 32 ∷ ((p ∷ ps) ++ crc_tail a b) in
    let tag = t ∷ ts in
    let k : Captures → Text → Option (Captures × Text) = λ groups text. some (groups, text) in
    let groups_at : Text → Captures =
      λ text. (1, take (length (tag ++ rest) - length text) (tag ++ rest)) ∷ [] in
    match_with-literal prefix (tag ++ rest) (seq tag_part (seq payload_part crc_part)) [] k
    ∙ rw solid (
        match_few-Fails is_solid ts rest
          (λ text. match_with (seq payload_part crc_part) (groups_at text) text k)
          (((3, a ∷ b ∷ []) ∷ (2, p ∷ ps) ∷ (1, tag) ∷ []), []) solids
          (tag-Fails k groups_at ts rest solids)
          (payload_part-match k (groups_at rest) p ps a b _ start any ends ha hb (
            ap (λ (x : Text). some (((3, a ∷ b ∷ []) ∷ (2, p ∷ ps) ∷ (1, x) ∷ []), []))
              (consumed tag rest))))
