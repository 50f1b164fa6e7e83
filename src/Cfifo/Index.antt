-- ===== src/Cfifo/Index.antt =====
-- The index arithmetic of include/cfifo.h for a fifo of `2 ^ k` slots: no index leaves the buffer,
-- and the tests agree with the length.
use Prim.Native.Nat.{bit_and}
use native.Mathlib.Nat.{one-le-pow, pow-le-pow_right}
use gsconferencing.Base.{
  ℕ, ◌+◌, ◌-◌, ◌%◌, ◌^◌, ◌≤◌, ◌<◌, ◌≡◌, ◌∙◌, ap, ◌↔◌, ◌≢◌, true, arith, ◌==◌, if◌then◌else◌, leb,
  u32_add, u32_sub, bit_and_ones, mod_round,
}
use gsconferencing.Cfifo.{Cfifo, init, len, full, empty, clear, write_in, advance_in, advance_out}

-- Both indices lie in a buffer of `2 ^ k` slots.
pub record IsValid {A : Type 0} (k : ℕ) (cf : Cfifo A) : Type 0 where
  pub small : k ≤ 31
  pub ones : cf.mask ≡ 2 ^ k - 1
  pub inp_in : cf.inp ≤ cf.mask
  pub out_in : cf.out ≤ cf.mask

size_bound : (k : ℕ) → k ≤ 31 → (1 ≤ 2 ^ k) × (2 ^ k ≤ 2147483648)
size_bound k h =
    (one-le-pow k 2 (omega arith), pow-le-pow_right {n = 2} (omega arith) {i = k} {j = 31} h)

module _ {A : Type 0} {k : ℕ} {cf : Cfifo A} (v : IsValid k cf) where
  pub mask_bound : cf.mask < 2147483648
  mask_bound = omega (arith, size_bound k v.small)

  -- `& mask` is the remainder by the number of slots.
  pub bit_and-mask : (a : ℕ) → bit_and a cf.mask ≡ a % (cf.mask + 1)
  bit_and-mask a =
      ap (bit_and a) v.ones
      ∙ bit_and_ones k a
      ∙ ap (λ (n : ℕ). a % n) (omega (arith, size_bound k v.small, v.ones))

  -- One step along the buffer, round its end.
  pub next_lem :
      (i : ℕ) → i ≤ cf.mask → bit_and (u32_add i 1) cf.mask ≡ (if i == cf.mask then 0 else i + 1)
  next_lem i h = ground (
    arith,
    bit_and-mask (u32_add i 1),
    ap (λ (a : ℕ). a % (cf.mask + 1)) plain,
    mod_round (i + 1) (cf.mask + 1) (omega arith),
  )
    where
      plain : u32_add i 1 ≡ i + 1
      plain = omega (arith, mask_bound)

  pub len_lem :
      len cf ≡ (if leb cf.out cf.inp then cf.inp - cf.out else cf.inp + (cf.mask + 1) - cf.out)
  unfolding len
  len_lem = ground (
    arith,
    bit_and-mask (u32_sub (u32_add cf.inp (u32_add cf.mask 1)) cf.out),
    ap (λ (a : ℕ). a % (cf.mask + 1)) plain,
    mod_round (cf.inp + (cf.mask + 1) - cf.out) (cf.mask + 1) (omega (arith, v.inp_in, v.out_in)),
    v.inp_in,
    v.out_in,
  )
    where
      plain : u32_sub (u32_add cf.inp (u32_add cf.mask 1)) cf.out ≡ cf.inp + (cf.mask + 1) - cf.out
      plain = omega (arith, mask_bound, v.inp_in, v.out_in)

  -- The test `cfifo_full` holds exactly at `mask` elements, and `cfifo_empty` at none.
  pub full-len_iff : (full cf ≡ true) ↔ (len cf ≡ cf.mask)
  unfolding full
  full-len_iff = ground (arith, len_lem, next_lem cf.inp v.inp_in, v.inp_in, v.out_in)

  pub empty-len_iff : (empty cf ≡ true) ↔ (len cf ≡ 0)
  unfolding empty
  empty-len_iff = ground (arith, len_lem, v.inp_in, v.out_in)

  pub len-le-mask : len cf ≤ cf.mask
  len-le-mask = ground (arith, len_lem, v.inp_in, v.out_in)

  -- Every operation keeps both indices in the buffer.
  pub advance_in-IsValid : IsValid k (advance_in cf)
  unfolding advance_in
  advance_in-IsValid = ground (arith, next_lem cf.inp v.inp_in, v)

  pub advance_out-IsValid : IsValid k (advance_out cf)
  unfolding advance_out
  advance_out-IsValid = ground (arith, next_lem cf.out v.out_in, v)

  pub clear-IsValid : IsValid k (clear cf)
  unfolding clear
  clear-IsValid = ground (arith, v)

  pub write_in-IsValid : (x : A) → IsValid k (write_in cf x)
  unfolding write_in
  write_in-IsValid x = ground (arith, v)

module _ {A : Type 0} {k : ℕ} {cf : Cfifo A} (v : IsValid k cf) where
  -- One more element, but a full fifo comes back to empty.
  pub len-advance_in : len (advance_in cf) ≡ (if len cf == cf.mask then 0 else len cf + 1)
  unfolding advance_in
  len-advance_in = ground (
    arith,
    len_lem v,
    len_lem (advance_in-IsValid v),
    next_lem v cf.inp v.inp_in,
    v.inp_in,
    v.out_in,
  )

  pub len-advance_out : len cf ≢ 0 → len (advance_out cf) ≡ len cf - 1
  unfolding advance_out
  len-advance_out h = ground (
    arith,
    len_lem v,
    len_lem (advance_out-IsValid v),
    next_lem v cf.out v.out_in,
    v.inp_in,
    v.out_in,
  )

pub init-IsValid : {A : Type 0} (memory : ℕ → A) (k e : ℕ) → k ≤ 31 → IsValid k (init memory k e)
unfolding init
init-IsValid memory k e h = ground (arith, size_bound k h)
