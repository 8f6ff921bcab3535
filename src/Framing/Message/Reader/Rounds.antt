-- ===== src/Framing/Message/Reader/Rounds.antt =====
-- `feed` by its rounds, free of fuel.
use embedded_bridge.Prelude.{ℕ, zero, suc, ◌≤◌, ◌≡◌, refl, arith, List, [], ◌∷◌, length}
use embedded_bridge.Framing.Message.Handler.{StreamingMessageHandler}
use embedded_bridge.Framing.Message.Reader.{MessageReader, feed_step, feed_loop, feed}
use embedded_bridge.Framing.Message.Reader.Invariant.{
  IsValid, feed_step-IsValid, feed_step_progress,
}

module _ {H : Type 0} (ops : StreamingMessageHandler H) where
  enough_fuel :
      (f g : ℕ) (r : MessageReader H) (bytes : List ℕ)
      → length bytes ≤ f
      → length bytes ≤ g
      → IsValid r
      → feed_loop ops f r bytes ≡ feed_loop ops g r bytes
  unfolding feed_loop
  enough_fuel f g r [] h k v = refl
  enough_fuel zero g r (c ∷ bytes) h k v = absurd (omega arith)
  enough_fuel (suc f) zero r (c ∷ bytes) h k v = absurd (omega arith)
  enough_fuel (suc f) (suc g) r (c ∷ bytes) h k v =
      enough_fuel f g (feed_step ops r.state r c bytes).0 (feed_step ops r.state r c bytes).1
        (omega (arith, feed_step_progress ops r.state r c bytes refl v))
        (omega (arith, feed_step_progress ops r.state r c bytes refl v))
        (feed_step-IsValid ops r.state r c bytes refl v)

  -- One round, and the rest.
  pub feed_round :
      (r : MessageReader H) (c : ℕ) (bytes : List ℕ)
      → IsValid r
      → feed ops r (c ∷ bytes)
        ≡ feed ops (feed_step ops r.state r c bytes).0 (feed_step ops r.state r c bytes).1
  unfolding feed feed_loop
  feed_round r c bytes v =
      enough_fuel (length bytes) (length (feed_step ops r.state r c bytes).1)
        (feed_step ops r.state r c bytes).0 (feed_step ops r.state r c bytes).1
        (feed_step_progress ops r.state r c bytes refl v) (omega arith)
        (feed_step-IsValid ops r.state r c bytes refl v)
