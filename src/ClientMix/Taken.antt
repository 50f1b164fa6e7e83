-- ===== src/ClientMix/Taken.antt =====
-- What `get_mix_audio` takes.
use gsconferencing.Base.{
  ℕ, zero, suc, ◌+◌, ◌≤◌, ◌<◌, ◌≡◌, ◌≢◌, ◌⊎◌, not, ◌&&◌, ◌∙◌, sym, ap, refl, List, [], true, arith,
  ◌==◌, if◌then◌else◌, ltb, ℤ, pos, int_eq, length, length-append, Bool-cases, inl, inr,
}
use mathlib.Core.Bool.{false≢true}
use gsconferencing.Cfifo
use gsconferencing.ClientMix.{
  Pack, PackQueue, Mixing, queue_num, put_queue, take_one, take_loop, get_mix_audio, some_empty,
}
use gsconferencing.ClientMix.Queues.{IsMixing, used, used-update, used-update_out}

abbrev busy : ℕ → ℕ
busy dev_id = if dev_id == 0 then 0 else 1

-- A queue that keeps its sender is counted as before.
used-put_queue :
    (m : Mixing) (i : ℕ) (q : PackQueue) (n : ℕ)
    → q.dev_id ≡ (m.queues i).dev_id
    → used (put_queue m i q).queues n ≡ used m.queues n
used-put_queue m i q n same = elim (Bool-cases (ltb i n)) [
  | inl lt ↦ omega (arith, used-update m.queues i q n (ground arith), ap busy same)
  | inr ge ↦ used-update_out m.queues i q n (ground arith)
]

-- What the loop's body takes of queue `i`.
record Took (m : Mixing) (i : ℕ) (r : List Pack × Mixing) : Type 0 where
  one : length r.0 ≡ busy (m.queues i).dev_id
  same : (n : ℕ) → used r.1.queues n ≡ used m.queues n

take_one-Took : (m : Mixing) (i : ℕ) → Took m i (take_one m i)
unfolding take_one
take_one-Took m i = elim (Bool-cases ((m.queues i).dev_id == 0)) [
  | inl idle ↦ rw idle (record { one = rw idle refl; same = λ n. refl })
  | inr run ↦ rw run (record { one = rw run refl; same = λ n. used-put_queue m i _ n refl })
]

next_used :
    (m : Mixing) (i : ℕ) → used m.queues (i + 1) ≡ busy (m.queues i).dev_id + used m.queues i
unfolding used
next_used m i = ap (used m.queues) next
  where
    next : i + 1 ≡ suc i
    next = omega arith

take_loop_count :
    (n i : ℕ) (m : Mixing) → used m.queues i + length (take_loop n i m).0 ≡ used m.queues (i + n)
unfolding take_loop
take_loop_count zero i m = omega (arith, ap (used m.queues) zero_more)
  where
    zero_more : i + 0 ≡ i
    zero_more = omega arith
take_loop_count (suc n) i m =
    let (p, m1) = take_one m i in
    let t : Took m i (take_one m i) = take_one-Took m i in
    omega (
      arith,
      length-append p (take_loop n (i + 1) m1).0,
      take_loop_count n (i + 1) m1,
      t.one,
      t.same (i + 1),
      t.same (i + 1 + n),
      next_used m i,
      ap (used m.queues) one_more,
    )
  where
    one_more : i + 1 + n ≡ i + suc n
    one_more = omega arith

-- A queue in use with no packet.
pub Starved : Mixing → Type 0
Starved m = (i : ℕ) × (i < 8) × ((m.queues i).dev_id ≢ 0) × (Cfifo.empty (m.queues i).fifo ≡ true)

some_empty-Starved : (n i : ℕ) (m : Mixing) → i + n ≤ 8 → some_empty n i m ≡ true → Starved m
unfolding some_empty Starved
some_empty-Starved zero i m le e = absurd (false≢true e)
some_empty-Starved (suc n) i m le e =
    elim (Bool-cases (not ((m.queues i).dev_id == 0) && Cfifo.empty (m.queues i).fifo)) [
      | inl here ↦ (i, omega arith, ground arith, ground arith)
      | inr there ↦ some_empty-Starved n (i + 1) m (omega arith) (rw there at e)
    ]

no_count : {c : ℤ} (n : ℕ) → c ≡ pos n → int_eq c (pos 0) ≡ true → n ≡ 0
no_count {c} n e z = ground (arith, ap (λ (k : ℤ). int_eq k (pos 0)) e)

-- In order, `get_mix_audio` gives nothing when no queue is in use or one in use is empty, and
-- otherwise as many packets as there are queues in use.
pub get_mix_audio-count :
    {m : Mixing}
    → IsMixing m
    → (((get_mix_audio m).0 ≡ []) × ((m.dev_count ≡ pos 0) ⊎ Starved m))
      ⊎ (pos (length (get_mix_audio m).0) ≡ m.dev_count)
unfolding get_mix_audio used
get_mix_audio-count {m} v = elim (Bool-cases (int_eq m.dev_count (pos 0))) [
  | inl idle ↦ rw idle (inl (refl, inl (v.counted ∙ ap pos (no_count _ v.counted idle))))
  | inr some_ ↦ elim (Bool-cases (some_empty queue_num 0 m)) [
    | inl hungry ↦
        rw (some_, hungry) (inl (refl, inr (some_empty-Starved 8 0 m (omega arith) hungry)))
    | inr ready ↦
        rw (some_, ready) (inr (ap pos (omega (arith, take_loop_count 8 0 m)) ∙ sym v.counted))
  ]
]
