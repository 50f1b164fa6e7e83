-- ===== src/Tag/Sync.antt =====
-- The loops over all outstanding devices: the time-out of empty queues, and the wait for data.
use gsconferencing.Base.{
  ℕ, zero, suc, ◌+◌, ◌≤◌, ◌<◌, ◌≡◌, refl, Option, none, some, true, arith, ltb, ◌==◌, Bool-cases,
  inl, inr,
}
use mathlib.Core.Bool.{false≢true}
use gsconferencing.Cfifo
use gsconferencing.Device.{Channel, Device, max_mix, put_dev}
use gsconferencing.Tag.{
  for_devs, update_dev_timeout, update_dev_timeouts, queue_bell, bells, all_queues_bell,
  wait_all_loop, wait_all_queues, in_dev_packet,
}
use gsconferencing.Tag.Outstanding.{Mixes, rm_outstanding-Mixes, transfer-Mixes}

-- A property of the channel that the body keeps is kept by the loop over the devices.
pub for_devs_inv {ℓ} :
    (P : Channel → Type ℓ) (body : Channel → ℕ → Channel)
    → ((c : Channel) (d : ℕ) → P c → P (body c d))
    → (n i : ℕ) (c : Channel) → P c
    → P (for_devs body n i c)
unfolding for_devs
for_devs_inv P body keep zero i c p = p
for_devs_inv P body keep (suc n) i c p =
    for_devs_inv P body keep n (i + 1) _ (visit (c.tag.mix_devs i))
  where
    visit : (o : Option ℕ) → P (elim o [ none ↦ c | some d ↦ body c d ])
    visit none = p
    visit (some d) = keep c d p

-- A write to a device's record that leaves its mark alone keeps the invariant.
pub put_dev-Mixes :
    {c : Channel} (d : ℕ) (r : Device)
    → r.mixbit ≡ (c.devs d).mixbit
    → Mixes c
    → Mixes (put_dev c d r)
unfolding put_dev
put_dev-Mixes {c} d r same v = transfer-Mixes {c = c} refl (λ e. ground arith) v

-- A packet that is queued, or not, leaves the entries as they are.
pub in_dev_packet-Mixes : {c : Channel} (d p : ℕ) → Mixes c → Mixes (in_dev_packet c d p).0
unfolding in_dev_packet
in_dev_packet-Mixes {c} d p v = elim (Bool-cases ((c.devs d).mixbit == 0)) [
  | inl idle ↦ rw idle v
  | inr busy ↦ elim (Bool-cases (Cfifo.full (c.devs d).fifo)) [
    | inl all ↦ rw (busy, all) v
    | inr room ↦ rw (busy, room) (put_dev-Mixes d _ refl v)
  ]
]

update_dev_timeout-Mixes : (c : Channel) (d : ℕ) → Mixes c → Mixes (update_dev_timeout c d)
unfolding update_dev_timeout
update_dev_timeout-Mixes c d v = elim (Bool-cases (Cfifo.empty (c.devs d).fifo)) [
  | inr ready ↦ rw ready (put_dev-Mixes d _ refl v)
  | inl idle ↦ elim (Bool-cases (ltb 300 ((c.devs d).timeouts + 1))) [
    | inl hung ↦ rw (idle, hung) (rm_outstanding-Mixes d (put_dev-Mixes d _ refl v))
    | inr fresh ↦ rw (idle, fresh) (put_dev-Mixes d _ refl v)
  ]
]

-- `tag_update_dev_timeouts` keeps `Mixes`, the agreement of `mix_devs`, `mix_count`, `mix_ref` and
-- the devices' `mixbit`, though it removes the devices that have hung while it walks over
-- `mix_devs`.
pub update_dev_timeouts-Mixes : {c : Channel} → Mixes c → Mixes (update_dev_timeouts c)
unfolding update_dev_timeouts
update_dev_timeouts-Mixes v =
    for_devs_inv Mixes update_dev_timeout update_dev_timeout-Mixes max_mix 0 _ v

bells_sound :
    (n i j d : ℕ) (c : Channel)
    → bells n i c ≡ true
    → i ≤ j
    → j < i + n
    → c.tag.mix_devs j ≡ some d
    → queue_bell c d ≡ true
unfolding bells
bells_sound zero i j d c b lo hi at = ground arith
bells_sound (suc n) i j d c b lo hi at = ground (arith, bells_sound n (i + 1) j d c)

module _ (others : ℕ → Channel → Channel) where
  module _ (keep : (k : ℕ) (c : Channel) → Mixes c → Mixes (others k c)) where
    wait_all_loop-Mixes : (left : ℕ) {c : Channel} → Mixes c → Mixes (wait_all_loop others left c).0
    unfolding wait_all_loop
    wait_all_loop-Mixes zero {c} v = elim (Bool-cases (all_queues_bell c)) [
      | inl ring ↦ rw ring v
      | inr silent ↦ rw silent (update_dev_timeouts-Mixes (keep 0 c v))
    ]
    wait_all_loop-Mixes (suc left) {c} v = elim (Bool-cases (all_queues_bell c)) [
      | inl ring ↦ rw ring v
      | inr silent ↦
          rw silent (wait_all_loop-Mixes left (update_dev_timeouts-Mixes (keep (suc left) c v)))
    ]

    -- `wait_all_queues` keeps `Mixes` if what the other threads do meanwhile keeps it.
    pub wait_all_queues-Mixes : {c : Channel} → Mixes c → Mixes (wait_all_queues others c).0
    unfolding wait_all_queues
    wait_all_queues-Mixes v = wait_all_loop-Mixes 50 v

  wait_all_loop_data :
      (left i d : ℕ) (c : Channel)
      → (wait_all_loop others left c).1 ≡ true
      → i < max_mix
      → (wait_all_loop others left c).0.tag.mix_devs i ≡ some d
      → queue_bell (wait_all_loop others left c).0 d ≡ true
  unfolding wait_all_loop all_queues_bell
  wait_all_loop_data zero i d c done lt at = elim (Bool-cases (bells max_mix 0 c)) [
    | inl ring ↦ rw ring (bells_sound max_mix 0 i d c ring (omega arith) lt (rw ring at at))
    | inr silent ↦ absurd (false≢true (rw silent at done))
  ]
  wait_all_loop_data (suc left) i d c done lt at = elim (Bool-cases (bells max_mix 0 c)) [
    | inl ring ↦ rw ring (bells_sound max_mix 0 i d c ring (omega arith) lt (rw ring at at))
    | inr silent ↦ rw silent (
        wait_all_loop_data left i d (update_dev_timeouts (others (suc left) c)) (rw silent at done)
          lt (rw silent at at))
  ]

  -- Where `wait_all_queues` returns 1, whatever the other threads did meanwhile, every outstanding
  -- device has data in its queue.
  pub wait_all_queues_data :
      (i d : ℕ) (c : Channel)
      → (wait_all_queues others c).1 ≡ true
      → i < max_mix
      → (wait_all_queues others c).0.tag.mix_devs i ≡ some d
      → queue_bell (wait_all_queues others c).0 d ≡ true
  unfolding wait_all_queues
  wait_all_queues_data i d c = wait_all_loop_data 50 i d c
