-- ===== src/Prelude/Accessible.antt =====
-- Every native number is accessible under `<`, for loops that end because a number falls.
use Prim.Native.Nat.{ℕ, zero, suc, ◌<◌}
use mathlib.Core.WellFounded.{Acc}
use native.Mathlib.Omega.{arith}

reached : (bound m : ℕ) → m < bound → Acc ◌<◌ m
reached zero m h = absurd (omega arith)
reached (suc bound) m h = Acc.intro m (λ below hb. reached bound below (omega arith))

unfoldable pub every_number-Acc : (n : ℕ) → Acc ◌<◌ n
unfolding reached
every_number-Acc n = reached (suc n) n (omega arith)
