-- ===== src/Tag/Flush.antt =====
-- A device's packet queue: what `tag_in_dev_packet` accepts, and what a flush drops and frees.
use mathlib.Core.List.{append_assoc, append-nil}
use gsconferencing.Base.{
  ℕ, zero, suc, ◌-◌, ◌≤◌, ◌≡◌, ◌≢◌, ◌⊎◌, refl, ap, ◌∙◌, sym, Option, none, some, List, [], ◌∷◌,
  ◌++◌, true, false, arith, ◌==◌, length, take, drop, somes, somes-cons, Bool-cases, inl, inr,
  ==_refl, update,
}
use gsconferencing.Cfifo
use gsconferencing.Cfifo.{Cfifo}
use gsconferencing.Cfifo.Index.{IsValid, advance_out-IsValid, full-len_iff}
use gsconferencing.Cfifo.Refine.{contents, length-contents}
use gsconferencing.Cfifo.Steps.{contents-advance_in, contents-advance_out, contents-clear_slot}
use gsconferencing.Device.{Channel, Device, put_dev}
use gsconferencing.Tag.{
  in_dev_packet, dev_in_packet, dev_out_packet, out_dev_packet, pack_free, drop_queue_front,
  drop_fronts, flush_queue,
}

-- The packets that a device's queue holds, oldest first, and the state of its fifo.
abbrev pub queued : Channel → ℕ → List (Option ℕ)
queued c d = contents (c.devs d).fifo

abbrev pub QueueIsValid : Channel → ℕ → Type 0
QueueIsValid c d = IsValid 5 (c.devs d).fifo

-- The mark and the queue as they are left by a device's update.
module _ (c : Channel) (d : ℕ) (r : Device) where
  pub put_dev_same : (put_dev c d r).devs d ≡ r
  unfolding put_dev
  put_dev_same = ground arith

  pub put_dev_other : (e : ℕ) → e ≢ d → (put_dev c d r).devs e ≡ c.devs e
  unfolding put_dev
  put_dev_other e ne = ground arith

-- With a queue whose indices are valid, `tag_in_dev_packet` takes a packet exactly if the device
-- is outstanding and its queue is not full; then the packet is the last of the queue, and
-- otherwise nothing changes.
pub in_dev_packet_lem :
    {c : Channel} (d p : ℕ)
    → QueueIsValid c d
    → (((in_dev_packet c d p).1 ≡ true)
          × ((c.devs d).mixbit ≢ 0)
          × (length (queued c d) ≢ (c.devs d).fifo.mask)
          × (queued (in_dev_packet c d p).0 d ≡ queued c d ++ (some p ∷ []))
        ⊎ ((in_dev_packet c d p) ≡ (c, false))
          × (((c.devs d).mixbit ≡ 0) ⊎ (length (queued c d) ≡ (c.devs d).fifo.mask)))
unfolding in_dev_packet put_dev dev_in_packet
in_dev_packet_lem {c} d p v = elim (Bool-cases ((c.devs d).mixbit == 0)) [
  | inl idle ↦ rw idle (inr (refl, inl (ground arith)))
  | inr busy ↦ elim (Bool-cases (Cfifo.full (c.devs d).fifo)) [
    | inl all ↦
        rw (busy, all)
          (inr (refl, inr (ground (arith, full-len_iff v, length-contents (c.devs d).fifo))))
    | inr room ↦
        rw (busy, room, ==_refl d)
          (inl (
            refl,
            ground arith,
            ground (arith, full-len_iff v, length-contents (c.devs d).fifo),
            contents-advance_in v (some p) room,
          ))
  ]
]

module _ (c : Channel) (p : Option ℕ) where
  devs-pack_free : (pack_free c p).devs ≡ c.devs
  unfolding pack_free
  devs-pack_free = ground arith

  freed-pack_free : (pack_free c p).freed ≡ c.freed ++ somes (p ∷ [])
  unfolding pack_free
  freed-pack_free = elim p as (λ o. (pack_free c o).freed ≡ c.freed ++ somes (o ∷ [])) [
    | none ↦ sym (append-nil c.freed)
    | some x ↦ refl
  ]

module _ (c : Channel) (d : ℕ) where
  -- One packet leaves the front of the queue, and is freed.
  drop_queue_front_lem :
      {x : Option ℕ} {r : List (Option ℕ)}
      → QueueIsValid c d
      → queued c d ≡ x ∷ r
      → (queued (drop_queue_front c d) d ≡ r)
        × ((drop_queue_front c d).freed ≡ c.freed ++ somes (x ∷ []))
        × QueueIsValid (drop_queue_front c d) d
        × ((e : ℕ) → e ≢ d → (drop_queue_front c d).devs e ≡ c.devs e)
  unfolding drop_queue_front out_dev_packet dev_out_packet put_dev
  drop_queue_front_lem {x} {r} v e =
      let q = (c.devs d).fifo in
      let taken : Cfifo.get_out q ≡ x = (contents-advance_out v e).0 in
      let c1 = (out_dev_packet c d).1 in
      (
        rw (devs-pack_free c1 (Cfifo.get_out q), ==_refl d) (contents-clear_slot v none e),
        rw (freed-pack_free c1 (Cfifo.get_out q), taken),
        rw (devs-pack_free c1 (Cfifo.get_out q), ==_refl d) (advance_out-IsValid (cleared v)),
        λ f ne. rw (devs-pack_free c1 (Cfifo.get_out q)) (ground arith),
      )
    where
      cleared :
          {q : Cfifo (Option ℕ)}
          → IsValid 5 q
          → IsValid 5 (record q { slots = update q.slots q.out none })
      cleared v = record { small = v.small; ones = v.ones; inp_in = v.inp_in; out_in = v.out_in }

-- What `n` rounds of the loop of `flush_queue` leave of a queue that held `q`.
abbrev Dropped : Channel → ℕ → List (Option ℕ) → ℕ → Channel → Type 0
Dropped c d q n c' =
    (queued c' d ≡ drop n q)
    × (c'.freed ≡ c.freed ++ somes (take n q))
    × QueueIsValid c' d
    × ((e : ℕ) → e ≢ d → c'.devs e ≡ c.devs e)

drop_fronts_lem :
    (n : ℕ) (c : Channel) (d : ℕ) (q : List (Option ℕ))
    → QueueIsValid c d
    → queued c d ≡ q
    → n ≤ length q
    → Dropped c d q n (drop_fronts n c d)
unfolding drop_fronts
drop_fronts_lem zero c d q v e le = (e, sym (append-nil c.freed), v, λ f ne. refl)
drop_fronts_lem (suc n) c d [] v e le = absurd (omega arith)
drop_fronts_lem (suc n) c d (x ∷ q) v e le =
    let (left, gone, valid, others) = drop_queue_front_lem c d v e in
    let (left', gone', valid', others') =
      drop_fronts_lem n (drop_queue_front c d) d q valid left (omega arith) in
    (
      left',
      gone'
          ∙ ap (λ (l : List ℕ). l ++ somes (take n q)) gone
          ∙ append_assoc c.freed (somes (x ∷ [])) (somes (take n q))
          ∙ ap (λ (l : List ℕ). c.freed ++ l) (sym (somes-cons x (take n q))),
      valid',
      λ f ne. others' f ne ∙ others f ne,
    )

-- On a queue whose indices are valid, `flush_queue` keeps the newest packet and frees all that
-- came before it, in order; the indices stay valid, and no other device is touched.
pub flush_queue_lem :
    (c : Channel) (d e : ℕ)
    → QueueIsValid c d
    → e ≢ d
    → (queued (flush_queue c d) d ≡ drop (length (queued c d) - 1) (queued c d))
      × ((flush_queue c d).freed ≡ c.freed ++ somes (take (length (queued c d) - 1) (queued c d)))
      × QueueIsValid (flush_queue c d) d
      × ((flush_queue c d).devs e ≡ c.devs e)
unfolding flush_queue put_dev
flush_queue_lem c d e v ne =
    let n = Cfifo.len (c.devs d).fifo - 1 in
    let (left, gone, valid, others) =
      drop_fronts_lem n c d (queued c d) v refl (omega (arith, length-contents (c.devs d).fifo)) in
    rw (length-contents (c.devs d).fifo, ==_refl d)
      (left, gone, valid, put_dev_other (drop_fronts n c d) d _ e ne ∙ others e ne)
