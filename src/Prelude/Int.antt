-- ===== src/Prelude/Int.antt =====
-- Signed integers over the native numbers, and their 64-bit reading.
use Prim.Native.Nat.{ℕ, suc, ◌+◌, ◌-◌, ◌*◌, ◌%◌, ◌^◌}
use mathlib.Core.Bool.{Bool}
use common_tools.Prelude.Tests.{ltb, leb, if◌then◌else◌}

-- `negsuc n` is -(n + 1).
pub data ℤ : Type 0 where
  pos : ℕ → ℤ
  negsuc : ℕ → ℤ

abbrev pub pos_part : ℤ → ℕ
pos_part (pos n) = n
pos_part (negsuc n) = 0

abbrev pub neg_part : ℤ → ℕ
neg_part (pos n) = 0
neg_part (negsuc n) = suc n

abbrev pub ltb_ℤ : ℤ → ℤ → Bool
ltb_ℤ a b = ltb (pos_part a + neg_part b) (pos_part b + neg_part a)

abbrev pub leb_ℤ : ℤ → ℤ → Bool
leb_ℤ a b = leb (pos_part a + neg_part b) (pos_part b + neg_part a)

-- The integer that a pattern of 64 bits stands for.
abbrev pub int64 : ℕ → ℤ
int64 n = let p = n % 2 ^ 64 in if ltb p (2 ^ 63) then pos p else negsuc (2 ^ 64 - p - 1)

-- `2 * a` over `int64`.
abbrev pub double64 : ℤ → ℤ
double64 (pos n) = int64 (2 * n)
double64 (negsuc n) = int64 (2 ^ 65 - 2 * suc n)
