-- ===== src/Common/Arithmetic.antt =====
-- Facts on products, quotients and remainders by a variable.
use Prim.Native.Nat.{ℕ, zero, suc, ◌+◌, ◌-◌, ◌*◌, ◌/◌, ◌%◌, ◌≤◌, ◌<◌}
use mathlib.Core.Path.{◌≡◌}
use mathlib.Core.WellFounded.{Acc, WellFounded}
use native.Mathlib.Omega.{arith}
use native.Mathlib.Nat.{div-add-mod}

-- Row `i` of width `b` ends where row `i + 1` begins.
pub row-le : (i c b : ℕ) → i < c → i * b + b ≤ c * b
row-le i c b h = grind arith

pub row-lt : (i c b : ℕ) → i * b < c * b → i < c
row-lt i c b h = grind arith

-- The row of a position is unique.
pub row_unique : (i c b j k : ℕ) → j < b → k < b → i * b + j ≡ c * b + k → i ≡ c
row_unique i c b j k hj hk e = grind arith

pub div-mul-add-mod : (p b : ℕ) → p / b * b + p % b ≡ p
div-mul-add-mod p b = omega (arith, div-add-mod p b)

pub row_of : (p c b : ℕ) → c * b ≤ p → p < c * b + b → (p / b ≡ c) × (p % b ≡ p - c * b)
row_of p c b h k = grind arith

acc_below : (k n : ℕ) → n < k → Acc ◌<◌ n
acc_below zero n h = absurd (omega arith)
acc_below (suc k) n h = Acc.intro n (λ m hm. acc_below k m (omega arith))

unfoldable pub lt_wf : WellFounded ◌<◌
unfolding acc_below
lt_wf = record { apply = λ n. acc_below (suc n) n (omega arith) }
