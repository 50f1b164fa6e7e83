-- ===== src/Tag.antt =====
-- serv/tag.c: the outstanding devices of a tag and their packet queues. `LOCK` and the other
-- threads are left out: each function here is one critical section or runs in the casting thread.
pub mod Search
pub mod Outstanding
pub mod Effect
pub mod Flush
pub mod Sync
mod Tests
use gsconferencing.Base.{
  ℕ, zero, suc, ◌+◌, ◌-◌, ◌^◌, Option, none, some, [], ◌∷◌, ◌++◌, Bool, true, false, not, ◌&&◌,
  ◌==◌, if◌then◌else◌, ltb, update, is_some,
}
use gsconferencing.Cfifo
use gsconferencing.Cfifo.{Cfifo}
use gsconferencing.Device.{Channel, max_mix, put_dev, mix_open_dev, mix_close_dev}

abbrev pub holds : Option ℕ → ℕ → Bool
holds none d = false
holds (some e) d = e == d

-- The search loops over `mix_devs` from entry `i`, `n` entries left: the first entry that is NULL,
-- the first that is `d`, and the first other than `skip` that is taken.
unfoldable pub find_free : (ℕ → Option ℕ) → ℕ → ℕ → Option ℕ
find_free devs zero i = none
find_free devs (suc n) i = if is_some (devs i) then find_free devs n (i + 1) else some i

unfoldable pub find_dev : (ℕ → Option ℕ) → ℕ → ℕ → ℕ → Option ℕ
find_dev devs d zero i = none
find_dev devs d (suc n) i = if holds (devs i) d then some i else find_dev devs d n (i + 1)

unfoldable pub find_other : (ℕ → Option ℕ) → ℕ → ℕ → ℕ → Option ℕ
find_other devs skip zero j = none
find_other devs skip (suc n) j =
    if not (j == skip) && is_some (devs j) then some j else find_other devs skip n (j + 1)

-- The body of the loop of `tag_add_outstanding` at the free entry `i`.
unfoldable pub take_entry : Channel → ℕ → ℕ → Channel
unfolding put_dev
take_entry c d i =
    let devs = update c.tag.mix_devs i (some d) in
    let t = record (c.tag) {
      mix_devs = devs;
      mix_ref = if is_some (devs c.tag.mix_ref) then c.tag.mix_ref else i;
      mix_count = c.tag.mix_count + 1;
    } in
    put_dev (record c { tag = t }) d (record (c.devs d) { mixbit = 2 ^ i; timeouts = 0 })

unfoldable pub add_outstanding : Channel → ℕ → Channel
add_outstanding c d =
    if (c.devs d).mixbit == 0
    then elim (find_free c.tag.mix_devs max_mix 0) [
      | none ↦ c
      | some i ↦ mix_open_dev (take_entry c d i) d
    ]
    else c

-- What the loop of `tag_rm_outstanding` does at the entry `i` that holds the device.
unfoldable pub clear_entry : Channel → ℕ → Channel
clear_entry c i =
    let other : ℕ = elim (find_other c.tag.mix_devs i max_mix 0) [
      | none ↦ c.tag.mix_ref
      | some j ↦ j
    ] in
    record c {
      tag = record (c.tag) {
        mix_devs = update c.tag.mix_devs i none;
        mix_ref = if c.tag.mix_ref == i then other else c.tag.mix_ref;
        mix_count = c.tag.mix_count - 1;
      };
    }

unfoldable pub rm_entry : Channel → ℕ → Channel
rm_entry c d = elim (find_dev c.tag.mix_devs d max_mix 0) [ none ↦ c | some i ↦ clear_entry c i ]

unfoldable pub rm_outstanding : Channel → ℕ → Channel
unfolding put_dev
rm_outstanding c d =
    let c1 = rm_entry c d in mix_close_dev (put_dev c1 d (record (c1.devs d) { mixbit = 0 })) d

-- `_dev_in_packet` and `__dev_out_packet` (which clears the slot that it reads).
unfoldable pub dev_in_packet : Cfifo (Option ℕ) → ℕ → Cfifo (Option ℕ)
dev_in_packet q p = Cfifo.advance_in (Cfifo.write_in q (some p))

unfoldable pub dev_out_packet : Cfifo (Option ℕ) → Option ℕ × Cfifo (Option ℕ)
dev_out_packet q =
    (Cfifo.get_out q, Cfifo.advance_out (record q { slots = update q.slots q.out none }))

abbrev pub set_fifo : Channel → ℕ → Cfifo (Option ℕ) → Channel
unfolding put_dev
set_fifo c d q = put_dev c d (record (c.devs d) { fifo = q })

-- `tag_in_dev_packet`: 1 when the packet is queued.
unfoldable pub in_dev_packet : Channel → ℕ → ℕ → Channel × Bool
unfolding put_dev
in_dev_packet c d p =
    if (c.devs d).mixbit == 0
    then (c, false)
    else if Cfifo.full (c.devs d).fifo
    then (c, false)
    else (set_fifo c d (dev_in_packet (c.devs d).fifo p), true)

unfoldable pub out_dev_packet : Channel → ℕ → Option ℕ × Channel
unfolding put_dev
out_dev_packet c d = let (p, q) = dev_out_packet (c.devs d).fifo in (p, set_fifo c d q)

-- `pack_free`; the pool itself is `Packet`.
unfoldable pub pack_free : Channel → Option ℕ → Channel
pack_free c none = c
pack_free c (some p) = record c { freed = c.freed ++ (p ∷ []) }

unfoldable pub drop_queue_front : Channel → ℕ → Channel
drop_queue_front c d = let (p, c1) = out_dev_packet c d in pack_free c1 p

-- `for( ; l>1 ; l-- ) drop_queue_front(d)` with `n = l - 1` rounds to go.
unfoldable pub drop_fronts : ℕ → Channel → ℕ → Channel
drop_fronts zero c d = c
drop_fronts (suc n) c d = drop_fronts n (drop_queue_front c d) d

unfoldable pub flush_queue : Channel → ℕ → Channel
unfolding put_dev
flush_queue c d =
    let c1 = drop_fronts (Cfifo.len (c.devs d).fifo - 1) c d in
    put_dev c1 d (record (c1.devs d) { flushed = (c1.devs d).flushed + 1 })

-- `for( i=0 ; i<8 ; i++ ) if( (d = t->mix_devs[i]) ) …`, from entry `i`, `n` entries left: the
-- body may change the entries behind it.
unfoldable pub for_devs : (Channel → ℕ → Channel) → ℕ → ℕ → Channel → Channel
for_devs body zero i c = c
for_devs body (suc n) i c =
    for_devs body n (i + 1) (elim (c.tag.mix_devs i) [ none ↦ c | some d ↦ body c d ])

unfoldable pub flush_all_queues : Channel → Channel
flush_all_queues = for_devs flush_queue max_mix 0

unfoldable pub update_dev_timeout : Channel → ℕ → Channel
unfolding put_dev
update_dev_timeout c d =
    let more = put_dev c d (record (c.devs d) { timeouts = (c.devs d).timeouts + 1 }) in
    if Cfifo.empty (c.devs d).fifo
    then (if ltb 300 ((c.devs d).timeouts + 1) then rm_outstanding more d else more)
    else put_dev c d (record (c.devs d) { timeouts = 0 })

unfoldable pub update_dev_timeouts : Channel → Channel
update_dev_timeouts = for_devs update_dev_timeout max_mix 0

-- The body of the loop of `flush_queues`: the new state, and whether `c++` is reached.
unfoldable pub flush_loaded : Channel → ℕ → Channel × Bool
unfolding put_dev
flush_loaded c d =
    let l = Cfifo.len (c.devs d).fifo in
    let high = (c.devs d).highload + 1 in
    let loaded = put_dev c d (record (c.devs d) { highload = high }) in
    if ltb 6 l
    then (flush_queue c d, true)
    else if ltb 1 l
    then (if ltb 180 high then (flush_queue loaded d, true) else (loaded, false))
    else (put_dev c d (record (c.devs d) { highload = 0 }), false)

unfoldable pub flush_queues_loop : ℕ → ℕ → Channel → ℕ → Channel × ℕ
flush_queues_loop zero i c count = (c, count)
flush_queues_loop (suc n) i c count =
    let r : Channel × Bool = elim (c.tag.mix_devs i) [
      | none ↦ (c, false)
      | some d ↦ flush_loaded c d
    ] in
    flush_queues_loop n (i + 1) r.0 (if r.1 then count + 1 else count)

unfoldable pub flush_queues : Channel → Channel × Bool
flush_queues c = let (c1, count) = flush_queues_loop max_mix 0 c 0 in (c1, ltb 0 count)

unfoldable pub queue_bell : Channel → ℕ → Bool
queue_bell c d = not (Cfifo.empty (c.devs d).fifo)

unfoldable pub bells : ℕ → ℕ → Channel → Bool
bells zero i c = true
bells (suc n) i c =
    elim (c.tag.mix_devs i) [ none ↦ true | some d ↦ queue_bell c d ] && bells n (i + 1) c

unfoldable pub all_queues_bell : Channel → Bool
all_queues_bell = bells max_mix 0

-- `wait_all_queues`, with `left` the rounds until `++waited > 50`, so that `waited` is `50 - left`.
-- `others left` is what the other threads do during this round's `usleep`.
unfoldable pub wait_all_loop : (ℕ → Channel → Channel) → ℕ → Channel → Channel × Bool
wait_all_loop others zero c =
    if all_queues_bell c then (c, true) else (update_dev_timeouts (others 0 c), false)
wait_all_loop others (suc left) c =
    let rest = wait_all_loop others left (update_dev_timeouts (others (suc left) c)) in
    if all_queues_bell c then (c, true) else rest

unfoldable pub wait_all_queues : (ℕ → Channel → Channel) → Channel → Channel × Bool
wait_all_queues others = wait_all_loop others 50
