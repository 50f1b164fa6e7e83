-- ===== src/Recent.antt =====
-- client/client.c and client/mix.c: the ring of the sequence numbers that came last, by which a
-- second copy of a packet is known.
pub mod Window
mod Tests
use Prim.Native.Nat.{bit_and}
use gsconferencing.Base.{ℕ, zero, suc, ◌+◌, ◌-◌, Bool, true, false, ◌==◌, if◌then◌else◌, update}

-- `struct recent_info`, and the fields `recent_seqs` and `recent_pos` of client/mix.c.
pub record Recent : Type 0 where
  pub seqs : ℕ → ℕ
  pub size : ℕ
  pub pos : ℕ

-- The index of entry `i`, counted back from the newest.
abbrev pub entry : Recent → ℕ → ℕ
entry r i = bit_and (r.pos + r.size - i) (r.size - 1)

-- The loop from entry `i`, `n` of them left.
unfoldable pub find_recent : Recent → ℕ → ℕ → ℕ → Bool
find_recent r seq zero i = false
find_recent r seq (suc n) i =
    let rest = find_recent r seq n (i + 1) in if seq == r.seqs (entry r i) then true else rest

unfoldable pub add_recent : Recent → ℕ → Recent
add_recent r seq =
    let pos = bit_and (r.pos + 1) (r.size - 1) in
    record r { pos = pos; seqs = update r.seqs pos seq }

-- `recent_test`, and `is_recved` of client/mix.c.
unfoldable pub recent_test : Recent → ℕ → Bool × Recent
recent_test r seq = if find_recent r seq r.size 0 then (true, r) else (false, add_recent r seq)
