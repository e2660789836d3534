-- ===== src/Base/Order.antt =====
-- The order of the native numbers is well founded, for loops whose counter falls.
use Prim.Native.Nat.{ℕ, zero, suc, ◌<◌}
use mathlib.Core.WellFounded.{Acc, WellFounded}
use native.Mathlib.Omega.{arith}

Acc_under : (k n : ℕ) → n < k → Acc ◌<◌ n
Acc_under zero n h = absurd (omega arith)
Acc_under (suc k) n h = Acc.intro n (λ m hm. Acc_under k m (omega arith))

unfoldable pub lt_wf : WellFounded ◌<◌
unfolding Acc_under
lt_wf = record { apply = λ n. Acc_under (suc n) n (omega arith) }
