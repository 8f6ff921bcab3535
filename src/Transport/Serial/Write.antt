-- ===== src/Transport/Serial/Write.antt =====
-- The bytes that a write of a SerialTransport hands to pyserial.
use embedded_bridge.Prelude.{
  ℕ, ◌+◌, ◌≡◌, refl, sym, ◌∙◌, arith, inl, inr, ◌⊎◌, List, [], ◌++◌, append-nil, true, false,
  Bool-cases, none, Option-cases,
}
use embedded_bridge.Transport.Result.{
  not_connected, write_failed, reconnect_failed, Result, ok, err,
}
use embedded_bridge.Transport.Serial.Port.{System}
use embedded_bridge.Transport.Serial.{SerialTransport, do_reconnect, send, send_again, open_port}
use embedded_bridge.Transport.Serial.Log.{Log}
use embedded_bridge.Transport.Serial.Reconnect.{Clock, Ended}

module _ {W Port : Type 0} (sys : System W Port) (log : Log sys) where
  -- A part of the bytes, from the front, is added to the log; all of them where `done` holds.
  unfoldable pub Handed : List ℕ → SerialTransport W Port → SerialTransport W Port → Type 0 → Type 0
  Handed bytes s s' Done =
      (part : List ℕ) × (rest : List ℕ) × (part ++ rest ≡ bytes)
      × (log.written s'.world ≡ log.written s.world ++ part)
      × (Done → part ≡ bytes)

  -- Nothing is added.
  Handed-none :
      (bytes : List ℕ) (s s' : SerialTransport W Port) {Done : Type 0}
      → log.written s'.world ≡ log.written s.world
      → (Done → [] ≡ bytes)
      → Handed bytes s s' Done
  unfolding Handed
  Handed-none bytes s s' e none_done =
      ([], bytes, refl, e ∙ sym (append-nil (log.written s.world)), none_done)

  pub Handed-weaken :
      (bytes : List ℕ) (s s' : SerialTransport W Port) {Done Less : Type 0}
      → (Less → Done)
      → Handed bytes s s' Done
      → Handed bytes s s' Less
  unfolding Handed
  Handed-weaken bytes s s' less (part, rest, e, k, done) = (part, rest, e, k, λ h. done (less h))

  -- `send` changes nothing but the world.
  send-Handed :
      (bytes : List ℕ) (port : Port) (s : SerialTransport W Port)
      → Handed bytes s (send sys bytes port s).1 ((send sys bytes port s).0 ≡ true)
        × ((w : W) × ((send sys bytes port s).1 ≡ record s { world = w }))
  unfolding Handed send
  send-Handed bytes port s = elim (Bool-cases (sys.write port bytes s.world).0) [
    | inl all ↦
        let w = (sys.write port bytes s.world).1 in
        rw (Handed, send, all)
          (
            (
              bytes,
              [],
              append-nil bytes,
              log.written_flush port w ∙ log.written_all port bytes s.world all,
              λ _. refl,
            ),
            ((sys.flush port w).1, refl),
          )
    | inr not_all ↦
        let (part, rest, e, k) = log.written_part port bytes s.world not_all in
        rw (Handed, send, not_all)
          (
            (part, rest, e, k, λ h. absurd (ground (arith, h))),
            ((sys.write port bytes s.world).1, refl),
          )
  ]

  -- An attempt hands over a part of the bytes and changes nothing but the world: the port and its path
  -- are the same.
  unfoldable pub Tried : List ℕ → SerialTransport W Port → SerialTransport W Port → Type 0 → Type 0
  Tried bytes s s' Done = Handed bytes s s' Done × ((w : W) × (s' ≡ record s { world = w }))

  pub send-Tried :
      (bytes : List ℕ) (port : Port) (s : SerialTransport W Port) {Less : Type 0}
      → (Less → (send sys bytes port s).0 ≡ true)
      → Tried bytes s (send sys bytes port s).1 Less
  unfolding Tried
  send-Tried bytes port s less =
      let (handed, same) = send-Handed bytes port s in
      (Handed-weaken bytes s (send sys bytes port s).1 less handed, same)

  pub untried :
      (bytes : List ℕ) (s : SerialTransport W Port) {Done : Type 0}
      → (Done → ⊥)
      → Tried bytes s s Done
  unfolding Tried
  untried bytes s never = (Handed-none bytes s s refl (λ h. absurd (never h)), (s.world, refl))

  pub send_again-Tried :
      (bytes : List ℕ) (s : SerialTransport W Port)
      → Tried bytes s (send_again sys bytes s).1 ((send_again sys bytes s).0 ≡ ok tt)
  unfolding send_again
  send_again-Tried bytes s = elim (Option-cases (open_port sys s)) [
    | inl closed ↦ rw (send_again, closed) (untried bytes s (λ h. ground (arith, h)))
    | inr (port, found) ↦ rw (send_again, found) (send-Tried bytes port s (λ h. ground (arith, h)))
  ]

module _ {W Port : Type 0} (sys : System W Port) (log : Log sys) (clock : Clock sys) where
  -- One attempt: it succeeds, or there is no open port, or it raises and `reconnect` is off.
  unfoldable pub Once :
      List ℕ → SerialTransport W Port → Result (Unit {0}) × SerialTransport W Port → Type 0
  Once bytes s (result, s') =
      Tried sys log bytes s s' (result ≡ ok tt)
      × ((result ≡ ok tt)
          ⊎ (((open_port sys s ≡ none) × (result ≡ err not_connected) × (s' ≡ s))
              ⊎ ((s.reconnect ≡ false) × (result ≡ err write_failed))))

  -- Two attempts, with a reconnect between them: the first leaves `s₁`, and the second starts from the
  -- transport that the reconnect leaves. A reconnect that raises is the end.
  unfoldable pub Twice :
      ℕ → List ℕ → SerialTransport W Port → Result (Unit {0}) × SerialTransport W Port → Type 0
  Twice g bytes s (result, s') =
      (s.reconnect ≡ true)
      × ((s₁ : SerialTransport W Port) × Tried sys log bytes s s₁ ⊥
          × Ended sys clock (clock.now s₁.world + s₁.reconnect_timeout) (do_reconnect sys g s₁)
          × (log.written (do_reconnect sys g s₁).1.world ≡ log.written s₁.world)
          × ((((do_reconnect sys g s₁).0 ≡ ok tt)
                × Tried sys log bytes (do_reconnect sys g s₁).1 s' (result ≡ ok tt))
              ⊎ (((do_reconnect sys g s₁).0 ≡ err reconnect_failed)
                  × ((result, s') ≡ do_reconnect sys g s₁))))

  abbrev pub Written :
      ℕ → List ℕ → SerialTransport W Port → Result (Unit {0}) × SerialTransport W Port → Type 0
  Written g bytes s x = Once bytes s x ⊎ Twice g bytes s x
