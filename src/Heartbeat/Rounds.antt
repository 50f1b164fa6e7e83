-- ===== src/Heartbeat/Rounds.antt =====
-- What one round of `run_heartbeat_god` does to each device.
use gsconferencing.Base.{
  ℕ, ◌+◌, ◌≤◌, ◌<◌, ◌≡◌, ◌≢◌, ◌∙◌, refl, List, [], ◌∷◌, Bool, true, false, ◌&&◌, arith, ◌==◌, ltb,
  Bool-cases, inl, inr,
}
use mathlib.Core.Path.{subst}
use gsconferencing.Device.{Channel, put_dev}
use gsconferencing.Tag.{rm_outstanding}
use gsconferencing.Ptc.{member}
use gsconferencing.Ptc.Stack.{Distinct}
use gsconferencing.Discuss.{Room, dev, del_open}
use gsconferencing.Discuss.Users.{SameUser, rm_outstanding-SameUser}
use gsconferencing.Heartbeat.{
  Group, set_dev, do_activate, check_net, bury, god_one, god_loop, god_round,
}
use gsconferencing.Heartbeat.Counts.{KeptByClose, del_open-KeptByClose}

-- A device as it was before.
record Untouched (r r' : Room) (e : ℕ) : Type 0 where
  hbeat : (dev r' e).hbeat ≡ (dev r e).hbeat
  active : (dev r' e).active ≡ (dev r e).active
  is_open : (dev r' e).is_open ≡ (dev r e).is_open

Untouched-trans :
    {r r' r'' : Room} {e : ℕ} → Untouched r r' e → Untouched r' r'' e → Untouched r r'' e
Untouched-trans a b = record {
  hbeat = b.hbeat ∙ a.hbeat;
  active = b.active ∙ a.active;
  is_open = b.is_open ∙ a.is_open;
}

module _ (r : Room) (d : ℕ) where
  c1 : Channel
  c1 = put_dev r.chan d (record (r.chan.devs d) { is_open = false })

  same : SameUser c1 (rm_outstanding c1 d)
  same = rm_outstanding-SameUser c1 d

  del_open_shut : (dev (del_open r d) d).is_open ≡ false
  unfolding del_open put_dev c1
  del_open_shut = ground (arith, same.opens d)

  del_open-Untouched : (e : ℕ) → e ≢ d → Untouched r (del_open r d) e
  unfolding del_open put_dev c1
  del_open-Untouched e ne =
      let kept = del_open-KeptByClose r d in
      record {
        hbeat = kept.hbeats e;
        active = kept.actives e;
        is_open = ground (arith, same.opens e);
      }

-- A device that is late, after its round.
record Buried (g g' : Group) (d : ℕ) : Type 0 where
  kept_beats : (dev g'.room d).hbeat ≡ (dev g.room d).hbeat
  inactive : (dev g'.room d).active ≡ false
  shut : (dev g'.room d).is_open ≡ false
  others : (e : ℕ) → e ≢ d → Untouched g.room g'.room e

do_activate_lem :
    (g : Group) (d : ℕ)
    → ((dev (do_activate g d false).room d).hbeat ≡ (dev g.room d).hbeat)
      × ((dev (do_activate g d false).room d).active ≡ false)
      × ((e : ℕ) → e ≢ d → Untouched g.room (do_activate g d false).room e)
unfolding do_activate put_dev
do_activate_lem g d = (
  ground arith,
  ground arith,
  λ e ne. record { hbeat = ground arith; active = ground arith; is_open = ground arith },
)

bury-Buried : (g : Group) (d : ℕ) → Buried g (bury g d) d
unfolding bury
bury-Buried g d =
    let g1 = do_activate g d false in
    let (beats, off, others) = do_activate_lem g d in
    let kept : KeptByClose g1.room (del_open g1.room d) = del_open-KeptByClose g1.room d in
    elim (Bool-cases (dev g1.room d).is_open) [
      | inl open_ ↦ rw open_ (record {
        kept_beats = kept.hbeats d ∙ beats;
        inactive = kept.actives d ∙ off;
        shut = del_open_shut g1.room d;
        others = λ e ne. Untouched-trans (others e ne) (del_open-Untouched g1.room d e ne);
      })
      | inr closed ↦
          rw closed (record { kept_beats = beats; inactive = off; shut = closed; others = others })
    ]

check_net_room : (g : Group) (d : ℕ) (b : Bool) → (check_net g d b).room ≡ g.room
unfolding check_net
check_net_room g d b = ground arith

-- One device's turn.
record Turned (r : Room) (d : ℕ) (r' : Room) : Type 0 where
  later : (dev r' d).hbeat ≡ (dev r d).hbeat + 1
  dead : 3 ≤ (dev r d).hbeat → (dev r' d).active ≡ false
  silenced : 3 ≤ (dev r d).hbeat → (dev r d).active ≡ true → (dev r' d).is_open ≡ false
  alive :
      (dev r d).hbeat < 3
      → ((dev r' d).active ≡ (dev r d).active) × ((dev r' d).is_open ≡ (dev r d).is_open)

abbrev count_beat : Group → ℕ → Group
count_beat g d = set_dev g d (record (dev g.room d) { hbeat = (dev g.room d).hbeat + 1 })

count_beat_lem :
    (g : Group) (d : ℕ)
    → ((dev (count_beat g d).room d).hbeat ≡ (dev g.room d).hbeat + 1)
      × ((dev (count_beat g d).room d).active ≡ (dev g.room d).active)
      × ((dev (count_beat g d).room d).is_open ≡ (dev g.room d).is_open)
      × ((e : ℕ) → e ≢ d → Untouched g.room (count_beat g d).room e)
unfolding put_dev
count_beat_lem g d = (
  ground arith,
  ground arith,
  ground arith,
  λ e ne. record { hbeat = ground arith; active = ground arith; is_open = ground arith },
)

god_one_lem :
    (ping : ℕ → Bool) (g : Group) (d : ℕ)
    → Turned g.room d (god_one ping g d).room
      × ((e : ℕ) → e ≢ d → Untouched g.room (god_one ping g d).room e)
unfolding god_one
god_one_lem ping g d =
    let g1 = count_beat g d in
    let (beats, on, open_, others) = count_beat_lem g d in
    let b : Buried g1 (bury g1 d) d = bury-Buried g1 d in
    elim (Bool-cases (ltb 3 ((dev g.room d).hbeat + 1) && (dev g.room d).active)) [
      | inl late ↦
          rw (late, check_net_room (bury g1 d) d (ping d))
            (
              record {
                later = b.kept_beats ∙ beats;
                dead = λ old. b.inactive;
                silenced = λ old was. b.shut;
                alive = λ young. absurd (ground arith);
              },
              λ e ne. Untouched-trans (others e ne) (b.others e ne),
            )
      | inr early ↦ rw early (
        record {
          later = beats;
          dead = λ old. on ∙ ground arith;
          silenced = λ old was. absurd (ground arith);
          alive = λ young. (on, open_);
        },
        others,
      )
    ]

god_loop-Untouched :
    (ping : ℕ → Bool) (ds : List ℕ) (g : Group) (e : ℕ)
    → member e ds ≡ false
    → Untouched g.room (god_loop ping g ds).room e
unfolding god_loop member
god_loop-Untouched ping [] g e out = record { hbeat = refl; active = refl; is_open = refl }
god_loop-Untouched ping (d ∷ ds) g e out =
    Untouched-trans ((god_one_lem ping g d).1 e (ground arith))
      (god_loop-Untouched ping ds (god_one ping g d) e (ground arith))

-- Before or after its turn, the device is as it was.
Turned-after : {r r' r'' : Room} {d : ℕ} → Turned r d r' → Untouched r' r'' d → Turned r d r''
Turned-after t u = record {
  later = u.hbeat ∙ t.later;
  dead = λ old. u.active ∙ t.dead old;
  silenced = λ old was. u.is_open ∙ t.silenced old was;
  alive = λ young. (u.active ∙ (t.alive young).0, u.is_open ∙ (t.alive young).1);
}

Turned-before : {r r' r'' : Room} {d : ℕ} → Untouched r r' d → Turned r' d r'' → Turned r d r''
Turned-before u t = record {
  later = omega (arith, t.later, u.hbeat);
  dead = λ old. t.dead (omega (arith, u.hbeat));
  silenced = λ old was. t.silenced (omega (arith, u.hbeat)) (u.active ∙ was);
  alive = λ young. let (a, o) = t.alive (omega (arith, u.hbeat)) in (a ∙ u.active, o ∙ u.is_open);
}

god_loop-Turned :
    (ping : ℕ → Bool) (ds : List ℕ) (g : Group) (e : ℕ)
    → Distinct ds
    → member e ds ≡ true
    → Turned g.room e (god_loop ping g ds).room
unfolding god_loop member
god_loop-Turned ping [] g e once in_ = ground arith
god_loop-Turned ping (d ∷ ds) g e (fresh, once) in_ = elim (Bool-cases (e == d)) [
  | inl here ↦
      subst (λ (x : ℕ). Turned g.room x (god_loop ping (god_one ping g d) ds).room) (equal here)
        (Turned-after (god_one_lem ping g d).0
          (god_loop-Untouched ping ds (god_one ping g d) d fresh))
  | inr there ↦
      Turned-before ((god_one_lem ping g d).1 e (ground arith))
        (god_loop-Turned ping ds (god_one ping g d) e once (rw there at in_))
]
  where
    equal : (e == d) ≡ true → d ≡ e
    equal same = ground arith

-- In a round of `run_heartbeat_god`, each device of the group, which it has once, counts one more
-- heartbeat missed. If it missed three before, it is inactive afterwards, and its microphone is
-- closed if it was active until then; if it missed fewer, neither changes.
pub god_round_lem :
    (ping : ℕ → Bool) (g : Group) (d : ℕ)
    → Distinct g.members
    → member d g.members ≡ true
    → let r = dev g.room d in
      let r' = dev (god_round ping g).room d in
      (r'.hbeat ≡ r.hbeat + 1)
      × (3 ≤ r.hbeat → r'.active ≡ false)
      × (3 ≤ r.hbeat → r.active ≡ true → r'.is_open ≡ false)
      × (r.hbeat < 3 → (r'.active ≡ r.active) × (r'.is_open ≡ r.is_open))
unfolding god_round
god_round_lem ping g d once in_ =
    let t : Turned g.room d (god_loop ping g g.members).room =
      god_loop-Turned ping g.members g d once in_ in
    (t.later, t.dead, t.silenced, t.alive)
