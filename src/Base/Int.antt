-- ===== src/Base/Int.antt =====
-- C's `int` where a value may go below 0: `negsuc n` is -(n + 1).
use Prim.Native.Nat.{ℕ, zero, suc, ◌+◌, ◌-◌}
use mathlib.Core.Path.{◌≡◌}
use native.Mathlib.Omega.{arith}
use mathlib.Core.Bool.{Bool}
use gsconferencing.Base.Tests.{ltb, leb, ◌==◌, if◌then◌else◌}

pub data ℤ : Type 0 where
  pos : ℕ → ℤ
  negsuc : ℕ → ℤ

abbrev pub pos_part : ℤ → ℕ
pos_part (pos n) = n
pos_part (negsuc n) = 0

abbrev pub neg_part : ℤ → ℕ
neg_part (pos n) = 0
neg_part (negsuc n) = suc n

abbrev pub int_lt : ℤ → ℤ → Bool
int_lt a b = ltb (pos_part a + neg_part b) (pos_part b + neg_part a)

abbrev pub int_eq : ℤ → ℤ → Bool
int_eq a b = pos_part a + neg_part b == pos_part b + neg_part a

abbrev pub int_inc : ℤ → ℤ
int_inc (pos n) = pos (n + 1)
int_inc (negsuc zero) = pos 0
int_inc (negsuc (suc n)) = negsuc n

abbrev pub int_dec : ℤ → ℤ
int_dec (pos zero) = negsuc 0
int_dec (pos (suc n)) = pos n
int_dec (negsuc n) = negsuc (n + 1)

-- The difference of two sums.
abbrev pub int_of : ℕ → ℕ → ℤ
int_of p n = if leb n p then pos (p - n) else negsuc (n - p - 1)

abbrev pub int_add : ℤ → ℤ → ℤ
int_add a b = int_of (pos_part a + pos_part b) (neg_part a + neg_part b)

pub int_of_parts :
    (a b c d : ℕ)
    → int_of (pos_part (int_of a b) + c) (neg_part (int_of a b) + d) ≡ int_of (a + c) (b + d)
int_of_parts a b c d = ground arith
