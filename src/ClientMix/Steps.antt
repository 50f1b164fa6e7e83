-- ===== src/ClientMix/Steps.antt =====
-- Every call from outside keeps the queues in order.
use gsconferencing.Base.{
  ℕ, zero, suc, ◌+◌, ◌≤◌, ◌<◌, ◌≢◌, ◌∙◌, sym, refl, Option, none, some, List, [], ◌∷◌, Bool, true,
  false, not, ◌&&◌, ltb, arith, ◌==◌, pos, int_lt, int_eq, if-cases, ==_refl, Bool-cases, inl, inr,
}
use gsconferencing.Cfifo
use gsconferencing.Cfifo.{Cfifo}
use gsconferencing.Cfifo.Index.{
  IsValid, clear-IsValid, advance_in-IsValid, advance_out-IsValid, write_in-IsValid,
}
use gsconferencing.Recent.{recent_test}
use gsconferencing.Recent.Window.{recent_test-window_lem}
use gsconferencing.ClientMix.{
  Pack, Mixing, Search, Op, found, missing, open_dev, close_dev, put_pack, get_packs, queue_num,
  put_queue, find_queue, assign, get_queue_index, remove_found, mix_audio_open, mix_audio_close,
  drop_out, flush_fifo, cleanup_queue, cleanup_loop, cleanup_queues, queue_pack, put_new, put_at,
  put_mix_audio, take_one, take_loop, get_mix_audio, some_empty, step,
}
use gsconferencing.ClientMix.Queues.{
  IsMixing, SearchIsRight, put_queue-IsMixing, remove_queue-IsMixing, find_queue-SearchIsRight,
  assign-IsMixing,
}

-- The index names a queue in use.
IsIndex : Mixing → Option ℕ → Type 0
IsIndex m none = Unit
IsIndex m (some i) = (i < 8) × ((m.queues i).dev_id ≢ 0)

assign-IsIndex :
    (m : Mixing) (id : ℕ) (new : Bool) (s : Search)
    → id ≢ 0
    → SearchIsRight m.queues id 8 s
    → IsIndex (assign m id new s).1 (assign m id new s).0
unfolding assign SearchIsRight IsIndex
assign-IsIndex m id new (found i) real (lt, e) = (lt, λ z. real (sym e ∙ z))
assign-IsIndex m id new (missing none) real right = tt
assign-IsIndex m id false (missing (some a)) real right = tt
assign-IsIndex m id true (missing (some a)) real (lt, idle, none_) = rw (==_refl a) (lt, real)

get_queue_index_lem :
    {m : Mixing} (id : ℕ) (new : Bool)
    → IsMixing m
    → let (o, m1) = get_queue_index m id new in IsMixing m1 × IsIndex m1 o
unfolding get_queue_index IsIndex SearchIsRight
get_queue_index_lem {m} id new v = elim (Bool-cases (id == 0)) [
  | inl zero_ ↦ rw zero_ (v, tt)
  | inr real ↦ rw real (
    assign-IsMixing id new _ (ground arith) right v,
    assign-IsIndex m id new _ (ground arith) right,
  )
]
  where
    right : SearchIsRight m.queues id 8 (find_queue m.queues id queue_num 0 none)
    right = find_queue-SearchIsRight m.queues id 8 0 none nothing
      where
        nothing : SearchIsRight m.queues id 0 (missing none)
        nothing k lt = absurd (omega arith)

mix_audio_open-IsMixing : {m : Mixing} (id : ℕ) → IsMixing m → IsMixing (mix_audio_open m id)
unfolding mix_audio_open
mix_audio_open-IsMixing id v = (get_queue_index_lem id true v).0

remove_found-IsMixing :
    {m : Mixing} (o : Option ℕ) → IsMixing m → IsIndex m o → IsMixing (remove_found m o)
unfolding remove_found IsIndex
remove_found-IsMixing none v ok = v
remove_found-IsMixing (some i) v (lt, busy) = remove_queue-IsMixing i lt busy v

mix_audio_close-IsMixing : {m : Mixing} (id : ℕ) → IsMixing m → IsMixing (mix_audio_close m id)
unfolding mix_audio_close
mix_audio_close-IsMixing id v =
    let (v1, ok) = get_queue_index_lem id false v in remove_found-IsMixing _ v1 ok

-- A queue whose fifo alone is written.
put_fifo-IsMixing :
    {m : Mixing} (i : ℕ) (q : Cfifo Pack)
    → i < 8
    → IsValid 5 q
    → IsMixing m
    → IsMixing (put_queue m i (record (m.queues i) { fifo = q }))
put_fifo-IsMixing i q lt fifo v = put_queue-IsMixing i _ lt refl fifo (v.rings i) v

cleanup_queue-IsMixing : {m : Mixing} (i : ℕ) → i < 8 → IsMixing m → IsMixing (cleanup_queue m i)
unfolding cleanup_queue
cleanup_queue-IsMixing {m} i lt v =
    if-cases IsMixing ((m.queues i).dev_id == 0) (λ idle. v)
      (λ busy.
        if-cases IsMixing (Cfifo.empty (m.queues i).fifo)
          (λ hung. remove_queue-IsMixing i lt (ground arith) v)
          (λ alive. put_fifo-IsMixing i _ lt (clear-IsValid (v.fifos i)) v))

cleanup_loop-IsMixing :
    (n i : ℕ) {m : Mixing} → i + n ≤ 8 → IsMixing m → IsMixing (cleanup_loop n i m)
unfolding cleanup_loop
cleanup_loop-IsMixing zero i le v = v
cleanup_loop-IsMixing (suc n) i le v =
    cleanup_loop-IsMixing n (i + 1) (omega arith) (cleanup_queue-IsMixing i (omega arith) v)

cleanup_queues-IsMixing : {m : Mixing} → IsMixing m → IsMixing (cleanup_queues m)
unfolding cleanup_queues
cleanup_queues-IsMixing v = cleanup_loop-IsMixing 8 0 (omega arith) v

-- The flag is no part of it.
fast_fwd-IsMixing : {m : Mixing} (b : Bool) → IsMixing m → IsMixing (record m { fast_fwd = b })
fast_fwd-IsMixing b v = record {
  one_each = v.one_each;
  counted = v.counted;
  fifos = v.fifos;
  rings = v.rings;
}

-- What a call that also returns something leaves.
record Leaves {A : Type 0} (r : A × Mixing) : Type 0 where
  kept : IsMixing r.1

leaves : {A : Type 0} {a : A} {m : Mixing} → IsMixing m → Leaves (a, m)
leaves v = record { kept = v }

queue_pack-IsMixing :
    {m : Mixing} (i : ℕ) (p : Pack) → i < 8 → IsMixing m → Leaves (queue_pack m i p)
unfolding queue_pack
queue_pack-IsMixing {m} i p lt v =
    let v1 = put_fifo-IsMixing i _ lt (advance_in-IsValid (write_in-IsValid (v.fifos i) p)) v in
    if-cases Leaves
      (int_lt (pos 0) m.auto_close_max
        && not (
            int_lt (pos (Cfifo.len (Cfifo.advance_in (Cfifo.write_in (m.queues i).fifo p))))
              m.auto_close_max))
      (λ many. leaves (fast_fwd-IsMixing true (cleanup_queues-IsMixing v1))) (λ few. leaves v1)

put_new-IsMixing : {m : Mixing} (i : ℕ) (p : Pack) → i < 8 → IsMixing m → Leaves (put_new m i p)
unfolding put_new
put_new-IsMixing {m} i p lt v =
    if-cases Leaves (int_lt (pos 1) m.dev_count)
      (λ several.
        if-cases Leaves (Cfifo.full (m.queues i).fifo) (λ all. leaves (cleanup_queues-IsMixing v))
          (λ room. queue_pack-IsMixing i p lt v))
      (λ one. leaves v)

put_at-IsMixing :
    {m : Mixing} (p : Pack) (o : Option ℕ) → IsIndex m o → IsMixing m → Leaves (put_at m p o)
unfolding put_at IsIndex
put_at-IsMixing p none ok v = leaves v
put_at-IsMixing {m} p (some i) (lt, busy) v =
    if-cases Leaves (recent_test (m.queues i).recent p.seq).0 (λ seen. leaves v)
      (λ new.
        put_new-IsMixing i p lt (
          put_queue-IsMixing i _ lt refl (v.fifos i) (recent_test-window_lem p.seq (v.rings i)).2
            v))

put_mix_audio-IsMixing : {m : Mixing} (p : Pack) → IsMixing m → IsMixing (put_mix_audio m p).1
unfolding put_mix_audio
put_mix_audio-IsMixing p v =
    let (v1, ok) = get_queue_index_lem _ true v in (put_at-IsMixing p _ ok v1).kept

drop_out-IsValid : (n : ℕ) {q : Cfifo Pack} → IsValid 5 q → IsValid 5 (drop_out n q)
unfolding drop_out
drop_out-IsValid zero v = v
drop_out-IsValid (suc n) v = drop_out-IsValid n (advance_out-IsValid v)

take_one-IsMixing : {m : Mixing} (i : ℕ) → i < 8 → IsMixing m → Leaves (take_one m i)
unfolding take_one flush_fifo
take_one-IsMixing {m} i lt v =
    if-cases Leaves ((m.queues i).dev_id == 0) (λ idle. leaves v)
      (λ busy. leaves (
        put_fifo-IsMixing i _ lt
          (advance_out-IsValid (
            if-cases (IsValid 5) (not m.fast_fwd && ltb 4 (Cfifo.len (m.queues i).fifo))
              (λ long. drop_out-IsValid _ (v.fifos i)) (λ short. v.fifos i)))
          v))

take_loop-IsMixing : (n i : ℕ) {m : Mixing} → i + n ≤ 8 → IsMixing m → IsMixing (take_loop n i m).1
unfolding take_loop
take_loop-IsMixing zero i le v = v
take_loop-IsMixing (suc n) i le v =
    take_loop-IsMixing n (i + 1) (omega arith) (take_one-IsMixing i (omega arith) v).kept

get_mix_audio-IsMixing : {m : Mixing} → IsMixing m → Leaves (get_mix_audio m)
unfolding get_mix_audio
get_mix_audio-IsMixing {m} v =
    if-cases Leaves (int_eq m.dev_count (pos 0)) (λ none_. leaves v)
      (λ some_.
        if-cases Leaves (some_empty queue_num 0 m) (λ drained. leaves (fast_fwd-IsMixing false v))
          (λ ready. record { kept = take_loop-IsMixing 8 0 (omega arith) v }))

step-IsMixing : {m : Mixing} (o : Op) → IsMixing m → IsMixing (step m o)
unfolding step
step-IsMixing (open_dev id) v = mix_audio_open-IsMixing id v
step-IsMixing (close_dev id) v = mix_audio_close-IsMixing id v
step-IsMixing (put_pack p) v = put_mix_audio-IsMixing p v
step-IsMixing get_packs v = (get_mix_audio-IsMixing v).kept

abbrev pub run : Mixing → List Op → Mixing
run m [] = m
run m (o ∷ os) = run (step m o) os

-- Whatever sequence of calls comes from outside, every sender has one queue at most, `dev_count` is
-- the number of queues in use, the indices of every fifo stay in its 32 slots, and the rings of
-- recent numbers stay rings of 4.
pub run-IsMixing : (os : List Op) {m : Mixing} → IsMixing m → IsMixing (run m os)
run-IsMixing [] v = v
run-IsMixing (o ∷ os) v = run-IsMixing os (step-IsMixing o v)
