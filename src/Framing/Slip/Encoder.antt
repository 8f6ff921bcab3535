-- ===== src/Framing/Slip/Encoder.antt =====
-- The encoder: its loop as a plain recursion, and what it never writes.
use embedded_bridge.Prelude.{
  ℕ, ◌*◌, ◌≤◌, ◌≡◌, ◌≢◌, sym, ap, ◌∙◌, arith, List, [], ◌∷◌, ◌++◌, All, All-append, length, ◌==◌,
  if◌then◌else◌, append-nil, append_assoc, if-holds, if-holds_by, length-append,
}
use embedded_bridge.Framing.Slip.{end_byte, esc, esc_end, esc_esc, emit, emit_all, encode}

-- The stuffed form of one byte, and of a payload.
abbrev pub stuffed_byte : ℕ → List ℕ
stuffed_byte b =
    if b == end_byte then esc ∷ esc_end ∷ [] else if b == esc then esc ∷ esc_esc ∷ [] else b ∷ []

abbrev pub stuffed : List ℕ → List ℕ
stuffed [] = []
stuffed (b ∷ payload) = stuffed_byte b ++ stuffed payload

emit_lem : (out : List ℕ) (b : ℕ) → emit out b ≡ out ++ stuffed_byte b
unfolding emit
emit_lem out b =
    ground (
      arith,
      append_assoc out (esc ∷ []) (esc_end ∷ []),
      append_assoc out (esc ∷ []) (esc_esc ∷ []),
    )

emit_all_lem : (out payload : List ℕ) → emit_all out payload ≡ out ++ stuffed payload
unfolding emit_all
emit_all_lem out [] = sym (append-nil out)
emit_all_lem out (b ∷ payload) =
    emit_all_lem (emit out b) payload
    ∙ ap (λ (t : List ℕ). t ++ stuffed payload) (emit_lem out b)
    ∙ append_assoc out (stuffed_byte b) (stuffed payload)

pub encode_lem :
    (payload : List ℕ) → encode payload ≡ end_byte ∷ (stuffed payload ++ (end_byte ∷ []))
unfolding encode
encode_lem payload =
    ap (λ (t : List ℕ). t ++ (end_byte ∷ [])) (emit_all_lem (end_byte ∷ []) payload)

length-stuffed_byte : (b : ℕ) → (1 ≤ length (stuffed_byte b)) × (length (stuffed_byte b) ≤ 2)
length-stuffed_byte b = ground arith

abbrev NoEnd : List ℕ → Type 0
NoEnd = All (λ x. x ≢ end_byte)

stuffed_byte-NoEnd : (b : ℕ) → NoEnd (stuffed_byte b)
stuffed_byte-NoEnd b =
    if-holds_by NoEnd (b == end_byte) (λ h. (omega arith, (omega arith, tt)))
      (λ h. if-holds NoEnd (b == esc) (omega arith, (omega arith, tt)) (ground arith, tt))

stuffed-NoEnd : (payload : List ℕ) → NoEnd (stuffed payload)
stuffed-NoEnd [] = tt
stuffed-NoEnd (b ∷ payload) =
    All-append (λ x. x ≢ end_byte) (stuffed_byte b) (stuffed payload) (stuffed_byte-NoEnd b)
      (stuffed-NoEnd payload)

length-stuffed :
    (payload : List ℕ)
    → (length payload ≤ length (stuffed payload)) × (length (stuffed payload) ≤ 2 * length payload)
length-stuffed [] = omega arith
length-stuffed (b ∷ payload) = omega (
  arith,
  length-stuffed payload,
  length-append (stuffed_byte b) (stuffed payload),
  length-stuffed_byte b,
)

-- An encoded frame is `end_byte`, a body without `end_byte` that is as long as the payload or up
-- to twice as long, and `end_byte`.
pub encode_shape :
    (payload : List ℕ)
    → (body : List ℕ) × (encode payload ≡ end_byte ∷ (body ++ (end_byte ∷ [])))
      × All (λ x. x ≢ end_byte) body
      × (length payload ≤ length body)
      × (length body ≤ 2 * length payload)
encode_shape payload = (
  stuffed payload,
  encode_lem payload,
  stuffed-NoEnd payload,
  (length-stuffed payload).0,
  (length-stuffed payload).1,
)
