-- ===== src/Base/Words.antt =====
-- C's `unsigned int` and `x & mask` for a mask of ones.
use Prim.Native.Nat.{ℕ, zero, suc, ◌+◌, ◌-◌, ◌*◌, ◌/◌, ◌%◌, ◌^◌, ◌≤◌, ◌<◌}
use Prim.Native.Nat.{min, digits, bit_and, bit_and-bitwise}
use mathlib.Core.Path.{◌≡◌, ap, ◌∙◌}
use native.Mathlib.Nat.{pow-suc, one-le-pow, mod-lt, mod-eq_of_lt, mod-eq-sub-mod, div-add-mod'}
use native.Mathlib.Omega.{arith}
use native.Mathlib.Decide.{dec_lt}
use gsconferencing.Base.Tests.{leb, if◌then◌else◌}

abbrev pub u32_mod : ℕ
u32_mod = 4294967296

abbrev pub u32_add : ℕ → ℕ → ℕ
u32_add a b = (a + b) % u32_mod

abbrev pub u32_sub : ℕ → ℕ → ℕ
u32_sub a b = (a + u32_mod - b) % u32_mod

abbrev low_digits : ℕ → ℕ → ℕ → ℕ
low_digits = digits (λ b. zero) min

-- `q * 2 ^ k + r` shares with `k` ones the digits of `r`.
low_digits_ones :
    (n a k q r : ℕ) → a ≤ n → a ≡ q * 2 ^ k + r → r < 2 ^ k → low_digits n a (2 ^ k - 1) ≡ r
low_digits_ones zero zero k q r le e lt = omega arith
low_digits_ones zero (suc a) k q r le e lt = absurd (omega arith)
low_digits_ones (suc n) zero k q r le e lt = omega arith
low_digits_ones (suc n) (suc a) zero q r le e lt = omega (
  arith,
  low_digits_ones n (suc a / 2) zero (suc a / 2) 0 (omega arith) (omega arith) (omega arith),
)
low_digits_ones (suc n) (suc a) (suc k) q r le e lt = omega (
  arith,
  ap (low_digits n (suc a / 2)) ones,
  bits,
  pow-suc 2 k,
  one-le-pow k 2 (omega arith),
  low_digits_ones n (suc a / 2) k q (r / 2) (omega arith) half (omega (arith, pow-suc 2 k)),
)
  where
    scale : q * 2 ^ suc k ≡ 2 * (q * 2 ^ k)
    scale = omega (arith, ap (λ (t : ℕ). q * t) (pow-suc 2 k))

    half : suc a / 2 ≡ q * 2 ^ k + r / 2
    half = omega (arith, scale)

    ones : (2 ^ suc k - 1) / 2 ≡ 2 ^ k - 1
    ones = omega (arith, pow-suc 2 k)

    bits : min (suc a % 2) ((2 ^ suc k - 1) % 2) ≡ r % 2
    bits = omega (arith, scale, pow-suc 2 k, one-le-pow k 2 (omega arith))

-- `x & (2 ^ k - 1)` is the remainder by `2 ^ k`.
pub bit_and_ones : (k a : ℕ) → bit_and a (2 ^ k - 1) ≡ a % 2 ^ k
bit_and_ones k a =
    bit_and-bitwise a (2 ^ k - 1)
    ∙ low_digits_ones a a k (a / 2 ^ k) (a % 2 ^ k) (omega arith)
        (omega (arith, div-add-mod' a (2 ^ k))) (mod-lt a (one-le-pow k 2 (omega arith)))

-- A sum of two remainders, or a step past the end, comes round once at most.
pub mod_round : (a m : ℕ) → a < m + m → a % m ≡ (if leb m a then a - m else a)
mod_round a m h = elim (dec_lt a m) [
  | yes lt ↦ ground (arith, mod-eq_of_lt lt)
  | no ge ↦ ground (
    arith,
    mod-eq-sub-mod {n = a} {m = m} (omega arith),
    mod-eq_of_lt {n = a - m} {m = m} (omega arith),
  )
]
