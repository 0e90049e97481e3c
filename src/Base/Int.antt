-- ===== src/Base/Int.antt =====
-- Integers over the native numbers, as far as rounding needs them.
use Prim.Native.Nat.{ℕ, suc, ◌+◌, ◌≤◌, max}

-- `negsuc n` is -(n + 1).
pub data ℤ : Type 0 where
  pos : ℕ → ℤ
  negsuc : ℕ → ℤ

abbrev pub pos_part : ℤ → ℕ
pos_part (pos n) = n
pos_part (negsuc _) = 0

abbrev pub neg_part : ℤ → ℕ
neg_part (pos _) = 0
neg_part (negsuc n) = suc n

infix 50 ◌≤ℤ◌
abbrev pub ◌≤ℤ◌ : ℤ → ℤ → Type 0
a ≤ℤ b = pos_part a + neg_part b ≤ pos_part b + neg_part a

-- `max(m, z)` for a natural `m`.
abbrev pub max_ℤ : ℕ → ℤ → ℕ
max_ℤ m (pos n) = max m n
max_ℤ m (negsuc _) = m
