-- ===== src/Base/Bits.antt =====
-- Laws of a small range of numbers, such as the bytes, checked by evaluating each case.
use Prim.Native.Nat.{ℕ, zero, suc, ◌<◌}
use mathlib.Core.Path.{◌≡◌}
use mathlib.Core.Bool.{Bool, true, false}
use native.Mathlib.Omega.{arith}
use bitch.Base.Tests.{if◌then◌else◌}

-- The law `p` at each number under `bound`, the largest first.
unfoldable pub checked : (ℕ → Bool) → ℕ → Bool
checked p zero = true
checked p (suc bound) = if p bound then checked p bound else false

-- A table that has been checked gives the law at a variable.
pub law_of-checked : (p : ℕ → Bool) {x bound : ℕ} → checked p bound ≡ true → x < bound → p x ≡ true
unfolding checked
law_of-checked p {bound = zero} table under = elim under [ ]
law_of-checked p {x} {bound = suc bound} table under =
    ground (arith, law_of-checked p {x = x} {bound = bound})
