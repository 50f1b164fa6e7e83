-- ===== src/Packet.antt =====
-- serv/packet.c and serv/block.c: where packets come from. A slot of `cache_base` is named by its
-- offset, a block of the pool by a number; `free_list` holds the free blocks.
pub mod Handout
mod Tests
use Prim.Native.Nat.{bit_and}
use gsconferencing.Base.{
  ℕ, zero, suc, ◌+◌, Option, none, some, List, [], ◌∷◌, ◌++◌, Bool, true, false, not, ◌==◌,
  if◌then◌else◌, update,
}

abbrev pub pack_count : ℕ
pack_count = 1024

abbrev pub count_mask : ℕ
count_mask = 1023

-- `cache_use` and `cache_pos`.
pub record Cache : Type 0 where
  pub used : ℕ → Bool
  pub pos : ℕ

-- The loop of `pack_get_cache` that goes round to `pos`, `n` steps at most.
unfoldable pub find_unused : (ℕ → Bool) → ℕ → ℕ → ℕ → Option ℕ
find_unused used pos zero i = none
find_unused used pos (suc n) i =
    let rest = find_unused used pos n (bit_and (i + 1) count_mask) in
    if i == pos then none else if used i then rest else some i

-- Hand out the slot `i`.
unfoldable pub hand_out : Cache → ℕ → Cache
hand_out s i = record { used = update s.used i true; pos = bit_and (i + 1) count_mask }

unfoldable pub get_found : Cache → Option ℕ → Option ℕ × Cache
get_found s none = (none, s)
get_found s (some i) = (some i, hand_out s i)

unfoldable pub get_cache : Cache → Option ℕ × Cache
get_cache s =
    if s.used s.pos
    then get_found s (find_unused s.used s.pos pack_count (bit_and (s.pos + 1) count_mask))
    else (some s.pos, hand_out s s.pos)

unfoldable pub free_cache : Cache → ℕ → Cache
free_cache s i = record { used = update s.used i false; pos = i }

-- `struct block_pool`; `malloc` names new blocks by `count`.
pub record Pool : Type 0 where
  pub free_list : List ℕ
  pub count : ℕ
  pub limited : Bool

-- The loop of `init_block_pool`.
unfoldable pub blocks : ℕ → List ℕ
blocks zero = []
blocks (suc n) = blocks n ++ (n ∷ [])

unfoldable pub init_pool : ℕ → Bool → Pool
init_pool n limited = record { free_list = blocks n; count = n; limited = limited }

unfoldable pub alloc_from : Pool → List ℕ → Option ℕ × Pool
alloc_from p (b ∷ bs) = (some b, record p { free_list = bs })
alloc_from p [] = if p.limited then (none, p) else (some p.count, record p { count = p.count + 1 })

unfoldable pub alloc_block : Pool → Option ℕ × Pool
alloc_block p = alloc_from p p.free_list

unfoldable pub free_block : Pool → ℕ → Pool
free_block p b = record p { free_list = b ∷ p.free_list }
