-- ===== src/Common/Integers.antt =====
-- Integers over the native numbers, and the int that a size_t converts to.
use Prim.Native.Nat.{ℕ, ◌-◌, ◌^◌, ◌%◌}
use mathlib.Core.Bool.{Bool, true, false}
use learn_web.Common.Tests.{if◌then◌else◌, ltb, leb}

-- `negsuc n` is -(n + 1).
pub data ℤ : Type 0 where
  pos negsuc : ℕ → ℤ

infix 50 ◌≤?◌
abbrev pub ◌≤?◌ : ℤ → ℤ → Bool
pos a ≤? pos b = leb a b
pos a ≤? negsuc b = false
negsuc a ≤? pos b = true
negsuc a ≤? negsuc b = leb b a

-- `(int)n` for an unsigned n: its low 32 bits, in two's complement.
abbrev pub signed32 : ℕ → ℤ
signed32 n = let m = n % 2 ^ 32 in if ltb m (2 ^ 31) then pos m else negsuc (2 ^ 32 - 1 - m)

-- `(int64_t)n` for an unsigned n.
abbrev pub signed64 : ℕ → ℤ
signed64 n = let m = n % 2 ^ 64 in if ltb m (2 ^ 63) then pos m else negsuc (2 ^ 64 - 1 - m)
