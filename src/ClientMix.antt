-- ===== src/ClientMix.antt =====
-- client/mix.c: the packets of up to 8 senders, each in a queue of its own, from which one packet per
-- sender is taken at a time to be mixed. The sound in a packet is the list of its samples.
pub mod Queues
pub mod Steps
pub mod Taken
mod Tests
use Prim.Native.Nat.{bit_and}
use gsconferencing.Base.{
  ℕ, zero, suc, ◌+◌, ◌-◌, Option, none, some, List, [], ◌∷◌, ◌++◌, Bool, true, false, not, ◌&&◌,
  ◌==◌, if◌then◌else◌, ltb, ℤ, pos, int_lt, int_eq, int_inc, int_dec, update,
}
use gsconferencing.Cfifo
use gsconferencing.Cfifo.{Cfifo}
use gsconferencing.Recent.{Recent, recent_test}

pub record Pack : Type 0 where
  pub id : ℕ
  pub seq : ℕ
  pub samples : List ℤ

-- `struct pack_queue`
pub record PackQueue : Type 0 where
  pub dev_id : ℕ
  pub recent : Recent
  pub fifo : Cfifo Pack

abbrev pub queue_num : ℕ
queue_num = 8

pub record Mixing : Type 0 where
  pub queues : ℕ → PackQueue
  pub dev_count : ℤ
  pub auto_close_max : ℤ
  pub fast_fwd : Bool

abbrev pub put_queue : Mixing → ℕ → PackQueue → Mixing
put_queue m i q = record m { queues = update m.queues i q }

-- `mix_audio_init`: the rings are not touched.
unfoldable pub mix_audio_init : (ℕ → Pack) → Mixing → Mixing
mix_audio_init memory m = record m {
  queues = λ i. record (m.queues i) { dev_id = 0; fifo = Cfifo.init memory 5 11 };
  dev_count = pos 0;
}

-- How the search of `get_queue_index` ends: at the device's queue, or with `avi`.
pub data Search : Type 0 where
  found : ℕ → Search
  missing : Option ℕ → Search

abbrev pub first_some : Option ℕ → ℕ → Option ℕ
first_some none i = some i
first_some (some a) i = some a

-- The loop from entry `i`, `n` entries left.
unfoldable pub find_queue : (ℕ → PackQueue) → ℕ → ℕ → ℕ → Option ℕ → Search
find_queue queues id zero i avi = missing avi
find_queue queues id (suc n) i avi =
    let rest =
      find_queue queues id n (i + 1) (if (queues i).dev_id == 0 then first_some avi i else avi) in
    if (queues i).dev_id == id then found i else rest

-- After the loop; `none` is -1.
unfoldable pub assign : Mixing → ℕ → Bool → Search → Option ℕ × Mixing
assign m id new (found i) = (some i, m)
assign m id new (missing none) = (none, m)
assign m id false (missing (some a)) = (none, m)
assign m id true (missing (some a)) = (
  some a,
  record (put_queue m a (record (m.queues a) { dev_id = id })) { dev_count = int_inc m.dev_count },
)

unfoldable pub get_queue_index : Mixing → ℕ → Bool → Option ℕ × Mixing
get_queue_index m id new =
    if id == 0 then (none, m) else assign m id new (find_queue m.queues id queue_num 0 none)

unfoldable pub remove_queue : Mixing → ℕ → Mixing
remove_queue m i =
    record (put_queue m i
      (record (m.queues i) { fifo = Cfifo.clear (m.queues i).fifo; dev_id = 0 })) {
        dev_count = int_dec m.dev_count;
      }

unfoldable pub mix_audio_open : Mixing → ℕ → Mixing
mix_audio_open m id = (get_queue_index m id true).1

unfoldable pub remove_found : Mixing → Option ℕ → Mixing
remove_found m none = m
remove_found m (some i) = remove_queue m i

unfoldable pub mix_audio_close : Mixing → ℕ → Mixing
mix_audio_close m id = let (o, m1) = get_queue_index m id false in remove_found m1 o

-- `cfifo__out`, `n` times.
unfoldable pub drop_out : ℕ → Cfifo Pack → Cfifo Pack
drop_out zero q = q
drop_out (suc n) q = drop_out n (Cfifo.advance_out q)

unfoldable pub flush_fifo : Cfifo Pack → Cfifo Pack
flush_fifo q = drop_out (Cfifo.len q - 1) q

-- The body of the loop of `cleanup_queues`.
unfoldable pub cleanup_queue : Mixing → ℕ → Mixing
cleanup_queue m i =
    if (m.queues i).dev_id == 0
    then m
    else if Cfifo.empty (m.queues i).fifo
    then remove_queue m i
    else put_queue m i (record (m.queues i) { fifo = Cfifo.clear (m.queues i).fifo })

unfoldable pub cleanup_loop : ℕ → ℕ → Mixing → Mixing
cleanup_loop zero i m = m
cleanup_loop (suc n) i m = cleanup_loop n (i + 1) (cleanup_queue m i)

unfoldable pub cleanup_queues : Mixing → Mixing
cleanup_queues = cleanup_loop queue_num 0

-- What `put_mix_audio` returns: -1, 0 and 1.
pub data Put : Type 0 where
  refused : Put
  alone : Put
  queued : Put

unfoldable pub queue_pack : Mixing → ℕ → Pack → Put × Mixing
queue_pack m i p =
    let q = Cfifo.advance_in (Cfifo.write_in (m.queues i).fifo p) in
    let m1 = put_queue m i (record (m.queues i) { fifo = q }) in
    if int_lt (pos 0) m.auto_close_max && not (int_lt (pos (Cfifo.len q)) m.auto_close_max)
    then (queued, record (cleanup_queues m1) { fast_fwd = true })
    else (queued, m1)

-- The packet is new.
unfoldable pub put_new : Mixing → ℕ → Pack → Put × Mixing
put_new m i p =
    if int_lt (pos 1) m.dev_count
    then (if Cfifo.full (m.queues i).fifo then (refused, cleanup_queues m) else queue_pack m i p)
    else (alone, m)

unfoldable pub put_at : Mixing → Pack → Option ℕ → Put × Mixing
put_at m p none = (refused, m)
put_at m p (some i) =
    let (seen, recent) = recent_test (m.queues i).recent p.seq in
    if seen
    then (refused, m)
    else put_new (put_queue m i (record (m.queues i) { recent = recent })) i p

unfoldable pub put_mix_audio : Mixing → Pack → Put × Mixing
put_mix_audio m p = let (o, m1) = get_queue_index m (bit_and p.id 0xffffff) true in put_at m1 p o

-- Some queue in use is empty; from entry `i`, `n` left.
unfoldable pub some_empty : ℕ → ℕ → Mixing → Bool
some_empty zero i m = false
some_empty (suc n) i m =
    let rest = some_empty n (i + 1) m in
    if not ((m.queues i).dev_id == 0) && Cfifo.empty (m.queues i).fifo then true else rest

-- The body of the second loop of `get_mix_audio`: no packet of a queue that is not in use.
unfoldable pub take_one : Mixing → ℕ → List Pack × Mixing
take_one m i =
    let f = (m.queues i).fifo in
    let q = if not m.fast_fwd && ltb 4 (Cfifo.len f) then flush_fifo f else f in
    if (m.queues i).dev_id == 0
    then ([], m)
    else (Cfifo.get_out q ∷ [], put_queue m i (record (m.queues i) { fifo = Cfifo.advance_out q }))

unfoldable pub take_loop : ℕ → ℕ → Mixing → List Pack × Mixing
take_loop zero i m = ([], m)
take_loop (suc n) i m =
    let (p, m1) = take_one m i in let (ps, m2) = take_loop n (i + 1) m1 in (p ++ ps, m2)

-- `get_mix_audio` up to the call of `pcm_mix`: the packets that are mixed into the first of them, in
-- their order; NULL for none.
unfoldable pub get_mix_audio : Mixing → List Pack × Mixing
get_mix_audio m =
    if int_eq m.dev_count (pos 0)
    then ([], m)
    else if some_empty queue_num 0 m
    then ([], record m { fast_fwd = false })
    else take_loop queue_num 0 m

-- The calls from outside.
pub data Op : Type 0 where
  open_dev : ℕ → Op
  close_dev : ℕ → Op
  put_pack : Pack → Op
  get_packs : Op

unfoldable pub step : Mixing → Op → Mixing
step m (open_dev id) = mix_audio_open m id
step m (close_dev id) = mix_audio_close m id
step m (put_pack p) = (put_mix_audio m p).1
step m get_packs = (get_mix_audio m).1
