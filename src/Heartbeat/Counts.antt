-- ===== src/Heartbeat/Counts.antt =====
-- The counters of active devices, and that heartbeats and their absence keep them.
use gsconferencing.Base.{
  ℕ, suc, ◌+◌, ◌<◌, ◌≡◌, ◌∙◌, sym, ap, ap₂, refl, List, [], ◌∷◌, Bool, true, false, ◌&&◌, arith,
  ◌==◌, if◌then◌else◌, ltb, ℤ, pos, int_inc, int_dec, update, if-cases, if-true, if-false,
  Bool-cases, inl, inr,
}
use gsconferencing.Device.{Channel, Device, put_dev}
use gsconferencing.Tag.{rm_outstanding}
use gsconferencing.Tag.Sync.{put_dev-Mixes}
use gsconferencing.Ptc.{member}
use gsconferencing.Ptc.Stack.{Distinct}
use gsconferencing.Discuss.{Room, dev, del_open}
use gsconferencing.Discuss.Users.{SameUser, rm_outstanding-SameUser}
use gsconferencing.Discuss.Open.{IsValid, del_open-IsValid}
use gsconferencing.Heartbeat.{Group, set_dev, same_flag, do_activate, bury}

abbrev counts_as : ℕ → Device → ℕ
counts_as k r = if r.kind == k && r.active then 1 else 0

-- The active devices of type `k`.
unfoldable pub online : ℕ → (ℕ → Device) → List ℕ → ℕ
online k devs [] = 0
online k devs (e ∷ es) = counts_as k (devs e) + online k devs es

pub record IsOrderly (g : Group) : Type 0 where
  pub valid : IsValid g.room
  pub once : Distinct g.members
  pub counted : (k : ℕ) → k < 8 → g.active_count k ≡ pos (online k g.room.chan.devs g.members)

-- What the counters and the room do not read.
record SameCount (devs devs' : ℕ → Device) : Type 0 where
  kinds : (e : ℕ) → (devs' e).kind ≡ (devs e).kind
  actives : (e : ℕ) → (devs' e).active ≡ (devs e).active

online-SameCount :
    {devs devs' : ℕ → Device} (k : ℕ) (ms : List ℕ)
    → SameCount devs devs'
    → online k devs' ms ≡ online k devs ms
unfolding online
online-SameCount k [] same = refl
online-SameCount k (e ∷ ms) same =
    ap₂ ◌+◌ (ground (arith, same.kinds e, same.actives e)) (online-SameCount k ms same)

module _ (k : ℕ) (devs : ℕ → Device) (d : ℕ) (r : Device) where
  online-update_out :
      (ms : List ℕ) → member d ms ≡ false → online k (update devs d r) ms ≡ online k devs ms
  unfolding online member
  online-update_out [] out = refl
  online-update_out (e ∷ ms) out = ground (arith, online-update_out ms)

  online-update :
      (ms : List ℕ)
      → Distinct ms
      → member d ms ≡ true
      → online k (update devs d r) ms + counts_as k (devs d) ≡ online k devs ms + counts_as k r
  unfolding online member
  online-update [] once in_ = ground arith
  online-update (e ∷ ms) (fresh, once) in_ = elim (Bool-cases (d == e)) [
    | inl here ↦ rw here (
        omega (
          arith,
          online-update_out ms (ap (λ (x : ℕ). member x ms) (equal here) ∙ fresh),
          ap (λ (x : ℕ). counts_as k (devs x)) (equal here),
        ))
    | inr there ↦ rw there (omega (arith, online-update ms once (rw there at in_)))
  ]
    where
      equal : (d == e) ≡ true → d ≡ e
      equal same = ground arith

-- A device's record that is the same for the room.
put_dev-IsValid :
    {room : Room} (d : ℕ) (r : Device)
    → r.is_open ≡ (dev room d).is_open
    → r.db_open ≡ (dev room d).db_open
    → r.mixbit ≡ (dev room d).mixbit
    → IsValid room
    → IsValid (record room { chan = put_dev room.chan d r })
unfolding put_dev
put_dev-IsValid {room} d r o b m v = record {
  counted = v.counted;
  once = v.once;
  flagged = λ e. ground (arith, v.flagged e);
  saved = λ e. ground (arith, v.saved e);
  mixes = put_dev-Mixes d r m v.mixes;
}

-- A device's record that is the same for the counters, too.
pub set_dev-IsOrderly :
    {g : Group} (d : ℕ) (r : Device)
    → r.kind ≡ (dev g.room d).kind
    → r.active ≡ (dev g.room d).active
    → r.is_open ≡ (dev g.room d).is_open
    → r.db_open ≡ (dev g.room d).db_open
    → r.mixbit ≡ (dev g.room d).mixbit
    → IsOrderly g
    → IsOrderly (set_dev g d r)
unfolding put_dev
set_dev-IsOrderly {g} d r k a o b m v = record {
  valid = put_dev-IsValid d r o b m v.valid;
  once = v.once;
  counted = λ i lt. v.counted i lt ∙ ap pos (sym (online-SameCount i g.members same));
}
  where
    same : SameCount g.room.chan.devs (update g.room.chan.devs d r)
    same = record { kinds = λ e. ground arith; actives = λ e. ground arith }

-- The counter of one type goes up or down with the number of devices.
one_counter :
    (x : ℤ) (a : Bool) (n n' : ℕ)
    → x ≡ pos n
    → (a ≡ true → n' ≡ n + 1)
    → (a ≡ false → n ≡ n' + 1)
    → (if a then int_inc x else int_dec x) ≡ pos n'
one_counter x true n n' e up down = ap int_inc e ∙ ap pos (sym (up refl))
one_counter x false n n' e up down = ap int_dec (e ∙ ap pos less)
  where
    less : n ≡ suc n'
    less = omega (arith, down refl)

-- A device of the group changes its state.
activated-IsOrderly :
    {g : Group} (d : ℕ) (a : Bool)
    → member d g.members ≡ true
    → same_flag (dev g.room d).active a ≡ false
    → IsOrderly g
    → IsOrderly (do_activate g d a)
unfolding do_activate
activated-IsOrderly {g} d a in_ other v = rw other (record {
  valid = put_dev-IsValid d new refl refl refl v.valid;
  once = v.once;
  counted = count;
})
  where
    new : Device
    new = record (dev g.room d) { active = a; db_online = a }

    known : (k : ℕ) → k < 8 → ((dev g.room d).kind == k) ≡ true → ltb (dev g.room d).kind 8 ≡ true
    known k lt e = ground arith

    it : (k : ℕ) → ((dev g.room d).kind == k) ≡ true → (dev g.room d).kind ≡ k
    it k e = ground arith

    count :
        (k : ℕ)
        → k < 8
        → (if ltb (dev g.room d).kind 8
              then update g.active_count (dev g.room d).kind (
                  if a
                  then int_inc (g.active_count (dev g.room d).kind)
                  else int_dec (g.active_count (dev g.room d).kind))
              else g.active_count)
            k
          ≡ pos (online k (update g.room.chan.devs d new) g.members)
    count k lt =
        let moved = online-update k g.room.chan.devs d new g.members v.once in_ in
        elim (Bool-cases ((dev g.room d).kind == k)) [
          | inl mine ↦
              ap (λ (f : ℕ → ℤ). f k) (if-true _ (known k lt mine))
              ∙ if-true _ mine
              ∙ one_counter _ a _ _ (ap g.active_count (it k mine) ∙ v.counted k lt)
                  (λ on. ground (arith, moved)) (λ off. ground (arith, moved))
          | inr theirs ↦
              if-cases (λ (f : ℕ → ℤ). f k ≡ g.active_count k) (ltb (dev g.room d).kind 8)
                (λ small. if-false _ theirs) (λ large. refl)
              ∙ v.counted k lt
              ∙ ap pos (ground (arith, moved))
        ]

pub do_activate-IsOrderly :
    {g : Group} (d : ℕ) (a : Bool)
    → member d g.members ≡ true
    → IsOrderly g
    → IsOrderly (do_activate g d a)
unfolding do_activate
do_activate-IsOrderly {g} d a in_ v = elim (Bool-cases (same_flag (dev g.room d).active a)) [
  | inl same ↦ rw (same, do_activate) v
  | inr other ↦ activated-IsOrderly d a in_ other v
]

-- What `del_open` leaves alone.
pub record KeptByClose (r r' : Room) : Type 0 where
  pub kinds : (e : ℕ) → (dev r' e).kind ≡ (dev r e).kind
  pub actives : (e : ℕ) → (dev r' e).active ≡ (dev r e).active
  pub hbeats : (e : ℕ) → (dev r' e).hbeat ≡ (dev r e).hbeat

pub del_open-KeptByClose : (r : Room) (d : ℕ) → KeptByClose r (del_open r d)
unfolding del_open put_dev
del_open-KeptByClose r d = record {
  kinds = λ e. ground (arith, same.kinds d, same.kinds e);
  actives = λ e. ground (arith, same.actives d, same.actives e);
  hbeats = λ e. ground (arith, same.hbeats d, same.hbeats e);
}
  where
    c1 : Channel
    c1 = put_dev r.chan d (record (r.chan.devs d) { is_open = false })

    same : SameUser c1 (rm_outstanding c1 d)
    same = rm_outstanding-SameUser c1 d

-- A device leaves the discussion.
del_open-IsOrderly :
    {g : Group} (d : ℕ)
    → (dev g.room d).is_open ≡ true
    → IsOrderly g
    → IsOrderly (record g { room = del_open g.room d })
del_open-IsOrderly {g} d open_ v = record {
  valid = del_open-IsValid d v.valid open_;
  once = v.once;
  counted = λ k lt. v.counted k lt ∙ ap pos (sym (online-SameCount k g.members same));
}
  where
    kept : KeptByClose g.room (del_open g.room d)
    kept = del_open-KeptByClose g.room d

    same : SameCount g.room.chan.devs (del_open g.room d).chan.devs
    same = record { kinds = kept.kinds; actives = kept.actives }

pub bury-IsOrderly :
    {g : Group} (d : ℕ) → member d g.members ≡ true → IsOrderly g → IsOrderly (bury g d)
unfolding bury
bury-IsOrderly {g} d in_ v =
    let g1 = do_activate g d false in
    let v1 : IsOrderly g1 = do_activate-IsOrderly d false in_ v in
    elim (Bool-cases (dev g1.room d).is_open) [
      | inl open_ ↦ rw open_ (del_open-IsOrderly d open_ v1)
      | inr shut ↦ rw shut v1
    ]
