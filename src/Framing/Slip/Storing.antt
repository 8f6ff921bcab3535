-- ===== src/Framing/Slip/Storing.antt =====
-- A stuffed payload in the framer's buffer: stored whole if there is room, an error if not.
use embedded_bridge.Prelude.{
  ℕ, ◌+◌, ◌≤◌, ◌<◌, ◌≡◌, refl, sym, ap, ◌∙◌, arith, true, false, List, [], ◌∷◌, ◌++◌, length,
  append_assoc, Bool-cases, inl, inr, append-nil, length-append, ltb, ◌==◌,
}
use embedded_bridge.Framing.Slip.{
  end_byte, SlipFramer, store, on_escaped, process_byte, process_bytes,
}
use embedded_bridge.Framing.Slip.Encoder.{stuffed_byte, stuffed}

pub process_bytes-append :
    (s : SlipFramer) (xs ys : List ℕ)
    → process_bytes s (xs ++ ys) ≡ process_bytes (process_bytes s xs) ys
unfolding process_bytes
process_bytes-append s [] ys = refl
process_bytes-append s (x ∷ xs) ys = process_bytes-append (process_byte s x) xs ys

-- Outside an escape the stuffed form of a byte stores that byte.
process_bytes-stuffed_byte :
    (s : SlipFramer) (b : ℕ) → s.escape ≡ false → process_bytes s (stuffed_byte b) ≡ store s b
unfolding process_bytes process_byte on_escaped store
process_bytes-stuffed_byte s b h = elim (Bool-cases (b == end_byte)) [
  | inl e ↦ rw e (ground arith)
  | inr e ↦ ground arith
]

-- The store of a whole payload.
pub store_all : SlipFramer → List ℕ → SlipFramer
store_all s [] = s
store_all s (b ∷ p) = store_all (store s b) p

escape-store : (s : SlipFramer) (b : ℕ) → (store s b).escape ≡ s.escape
unfolding store
escape-store s b = ground arith

pub process_bytes-stuffed :
    (s : SlipFramer) (p : List ℕ) → s.escape ≡ false → process_bytes s (stuffed p) ≡ store_all s p
unfolding store_all
process_bytes-stuffed s [] h = unfold process_bytes in refl
process_bytes-stuffed s (b ∷ p) h =
    process_bytes-append s (stuffed_byte b) (stuffed p)
    ∙ ap (λ (t : SlipFramer). process_bytes t (stuffed p)) (process_bytes-stuffed_byte s b h)
    ∙ process_bytes-stuffed (store s b) p (escape-store s b ∙ h)

-- A payload for which there is room ends up behind the buffer.
pub store_all-fits :
    (s : SlipFramer) (p : List ℕ)
    → length s.buf + length p ≤ s.buf_size
    → store_all s p ≡ record s { buf = s.buf ++ p }
unfolding store_all
store_all-fits s [] h = λ i. record s { buf = sym (append-nil s.buf) i }
store_all-fits s (b ∷ p) h =
    ap (λ (t : SlipFramer). store_all t p) (stored (ground arith))
    ∙ store_all-fits (record s { buf = s.buf ++ (b ∷ []) }) p
        (omega (arith, length-append s.buf (b ∷ [])))
    ∙ (λ i. record s { buf = append_assoc s.buf (b ∷ []) p i })
  where
    stored : ltb (length s.buf) s.buf_size ≡ true → store s b ≡ record s { buf = s.buf ++ (b ∷ []) }
    stored e = unfold store in rw e refl

pub store_all-keeps :
    (s : SlipFramer) (p : List ℕ)
    → ((store_all s p).frames ≡ s.frames) × ((store_all s p).buf_size ≡ s.buf_size)
unfolding store_all store
store_all-keeps s [] = (refl, refl)
store_all-keeps s (b ∷ p) = ground (arith, store_all-keeps (store s b) p)

store_all-error : (s : SlipFramer) (p : List ℕ) → s.error ≡ true → (store_all s p).error ≡ true
unfolding store_all store
store_all-error s [] h = h
store_all-error s (b ∷ p) h = store_all-error (store s b) p (ground arith)

-- A payload for which there is no room leaves an error.
pub store_all-overflow :
    (s : SlipFramer) (p : List ℕ)
    → length s.buf ≤ s.buf_size
    → s.buf_size < length s.buf + length p
    → (store_all s p).error ≡ true
unfolding store_all
store_all-overflow s [] h k = absurd (omega arith)
store_all-overflow s (b ∷ p) h k = elim (Bool-cases (ltb (length s.buf) s.buf_size)) [
  | inl e ↦
      store_all-overflow (store s b) p
        (unfold store in rw e (ground (arith, length-append s.buf (b ∷ []))))
        (unfold store in rw e (ground (arith, length-append s.buf (b ∷ []))))
  | inr e ↦ store_all-error (store s b) p (unfold store in rw e)
]
