-- ===== src/Cfifo.antt =====
-- include/cfifo.h: the circular fifo with free-running masked indices. An element slot is named by
-- its index: slot `i` is the block of `1 << eord` bytes at `data + (i << eord)`, and the memory that
-- `malloc` returns is any function from slots to contents. `unsigned int` arithmetic wraps.
pub mod Index
pub mod Queue
pub mod Refine
pub mod Steps
mod Tests
use Prim.Native.Nat.{bit_and}
use gsconferencing.Base.{ℕ, ◌+◌, ◌-◌, ◌*◌, ◌^◌, Bool, ◌==◌, if◌then◌else◌, u32_add, u32_sub, update}

-- `in` is a reserved word: the field is `inp`.
pub record Cfifo (A : Type 0) : Type 0 where
  pub inp : ℕ
  pub out : ℕ
  pub mask : ℕ
  pub eord : ℕ
  pub slots : ℕ → A

-- What `cfifo_in` and `cfifo_out` return.
pub data Status : Type 0 where
  done : Status
  nothing : Status

module _ {A : Type 0} where
  unfoldable pub init : (ℕ → A) → ℕ → ℕ → Cfifo A
  init memory size_order e_order = record {
    inp = 0;
    out = 0;
    mask = 2 ^ size_order - 1;
    eord = e_order;
    slots = memory;
  }

  unfoldable pub len : Cfifo A → ℕ
  len cf = bit_and (u32_sub (u32_add cf.inp (u32_add cf.mask 1)) cf.out) cf.mask

  unfoldable pub full : Cfifo A → Bool
  full cf = bit_and (u32_add cf.inp 1) cf.mask == cf.out

  unfoldable pub empty : Cfifo A → Bool
  empty cf = cf.out == cf.inp

  unfoldable pub clear : Cfifo A → Cfifo A
  clear cf = record cf { out = cf.inp }

  -- The slot that `in` points to, and its byte offset in `data`.
  unfoldable pub get_in : Cfifo A → ℕ
  get_in cf = cf.inp

  unfoldable pub offset : Cfifo A → ℕ → ℕ
  offset cf i = i * 2 ^ cf.eord

  -- A write through the pointer of `cfifo_get_in`.
  unfoldable pub write_in : Cfifo A → A → Cfifo A
  unfolding get_in
  write_in cf v = record cf { slots = update cf.slots (get_in cf) v }

  unfoldable pub advance_in : Cfifo A → Cfifo A
  advance_in cf = record cf { inp = bit_and (u32_add cf.inp 1) cf.mask }

  -- `cfifo_in`, with no test of `cfifo_full`.
  unfoldable pub put_in : Cfifo A → Cfifo A × Status
  put_in cf = (advance_in cf, done)

  -- The slot's contents behind the pointer of `cfifo_get_out`.
  unfoldable pub get_out : Cfifo A → A
  get_out cf = cf.slots cf.out

  unfoldable pub advance_out : Cfifo A → Cfifo A
  advance_out cf = record cf { out = bit_and (u32_add cf.out 1) cf.mask }

  unfoldable pub take_out : Cfifo A → Cfifo A × Status
  take_out cf = if empty cf then (cf, nothing) else (advance_out cf, done)
