-- ===== src/Common/WfOrder.antt =====
-- `<` on the native numbers is well founded.
use Prim.Native.Nat.{ℕ, zero, suc, ◌<◌}
use native.Mathlib.Omega.{arith}
use mathlib.Core.WellFounded.{Acc, WellFounded}

acc_lt : (k n : ℕ) → n < k → Acc ◌<◌ n
acc_lt zero n h = elim h [ ]
acc_lt (suc k) n h = Acc.intro n (λ m hm. acc_lt k m (omega arith))

unfoldable pub lt_wf : WellFounded ◌<◌
unfolding acc_lt
lt_wf = record { apply = λ n. acc_lt (suc n) n (omega arith) }
