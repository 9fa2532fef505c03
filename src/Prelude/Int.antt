-- ===== src/Prelude/Int.antt =====
-- Integers over the native numbers; `negsuc n` is -(n + 1).
use Prim.Native.Nat.{ℕ, suc, ◌+◌, ◌*◌}
use mathlib.Core.Bool.{Bool}
use foliqant.Prelude.Tests.{ltb, leb, ◌==◌}

pub data ℤ : Type 0 where
  pos : ℕ → ℤ
  negsuc : ℕ → ℤ

abbrev pub pos_part : ℤ → ℕ
pos_part (pos n) = n
pos_part (negsuc _) = 0

abbrev pub neg_part : ℤ → ℕ
neg_part (pos _) = 0
neg_part (negsuc n) = suc n

-- `m * a < n * b` and the like, for positive `m` and `n`: comparison of two fractions
abbrev pub scaled_ltb : ℕ → ℤ → ℕ → ℤ → Bool
scaled_ltb m a n b = ltb (m * pos_part a + n * neg_part b) (n * pos_part b + m * neg_part a)

abbrev pub scaled_leb : ℕ → ℤ → ℕ → ℤ → Bool
scaled_leb m a n b = leb (m * pos_part a + n * neg_part b) (n * pos_part b + m * neg_part a)

abbrev pub scaled_eq : ℕ → ℤ → ℕ → ℤ → Bool
scaled_eq m a n b = (m * pos_part a + n * neg_part b) == (n * pos_part b + m * neg_part a)
