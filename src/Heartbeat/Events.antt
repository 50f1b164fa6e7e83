-- ===== src/Heartbeat/Events.antt =====
-- Heartbeats and rounds keep the counters and the room in order.
use gsconferencing.Base.{
  ℕ, ◌+◌, ◌≡◌, ◌∙◌, refl, List, [], ◌∷◌, Bool, true, false, ◌&&◌, arith, if◌then◌else◌, ltb,
  if-cases, Option-cases, inl, inr,
}
use gsconferencing.Device.{put_dev}
use gsconferencing.Ptc.{member}
use gsconferencing.Discuss.{dev}
use gsconferencing.Heartbeat.{
  same_flag, Group, do_activate, dev_heartbeat, check_net, bury, god_one, god_loop, god_round,
}
use gsconferencing.Heartbeat.Counts.{
  IsOrderly, set_dev-IsOrderly, do_activate-IsOrderly, bury-IsOrderly,
}

check_net-IsOrderly : {g : Group} (d : ℕ) (b : Bool) → IsOrderly g → IsOrderly (check_net g d b)
unfolding check_net
check_net-IsOrderly d true v = v
check_net-IsOrderly {g} d false v = elim (Option-cases g.cyctl) [
  | inl none_ ↦ rw none_ v
  | inr (c, at) ↦ rw at (record { valid = v.valid; once = v.once; counted = v.counted })
]

god_one-IsOrderly :
    (ping : ℕ → Bool) {g : Group} (d : ℕ)
    → member d g.members ≡ true
    → IsOrderly g
    → IsOrderly (god_one ping g d)
unfolding god_one put_dev
god_one-IsOrderly ping {g} d in_ v =
    let h = (dev g.room d).hbeat + 1 in
    let v1 = set_dev-IsOrderly d (record (dev g.room d) { hbeat = h }) refl refl refl refl refl v in
    if-cases IsOrderly (ltb 3 h && (dev g.room d).active)
      (λ late. check_net-IsOrderly d (ping d) (bury-IsOrderly d in_ v1)) (λ early. v1)

abbrev SameMembers : Group → Group → Type 0
SameMembers g g' = g'.members ≡ g.members

members-do_activate : (g : Group) (d : ℕ) (a : Bool) → (do_activate g d a).members ≡ g.members
unfolding do_activate
members-do_activate g d a =
    if-cases (SameMembers g) (same_flag (dev g.room d).active a) (λ same. refl) (λ other. refl)

members-bury : (g : Group) (d : ℕ) → (bury g d).members ≡ g.members
unfolding bury
members-bury g d =
    if-cases (SameMembers g) (dev (do_activate g d false).room d).is_open
      (λ open_. members-do_activate g d false) (λ shut. members-do_activate g d false)

members-check_net : (g : Group) (d : ℕ) (b : Bool) → (check_net g d b).members ≡ g.members
unfolding check_net
members-check_net g d true = refl
members-check_net g d false = elim (Option-cases g.cyctl) [
  | inl none_ ↦ rw none_ refl
  | inr (c, at) ↦ rw at refl
]

module _ (ping : ℕ → Bool) where
  pub members-god_one : (g : Group) (d : ℕ) → (god_one ping g d).members ≡ g.members
  unfolding god_one
  members-god_one g d =
      if-cases (SameMembers g) (ltb 3 ((dev g.room d).hbeat + 1) && (dev g.room d).active)
        (λ late. members-check_net (bury _ d) d (ping d) ∙ members-bury _ d) (λ early. refl)

  god_loop-IsOrderly :
      (ds : List ℕ) {g : Group}
      → ((d : ℕ) → member d ds ≡ true → member d g.members ≡ true)
      → IsOrderly g
      → IsOrderly (god_loop ping g ds)
  unfolding god_loop member
  god_loop-IsOrderly [] in_ v = v
  god_loop-IsOrderly (d ∷ ds) {g} in_ v =
      god_loop-IsOrderly ds (λ e at. rw (members-god_one g d) (in_ e (ground arith)))
        (god_one-IsOrderly ping d (in_ d (ground arith)) v)

dev_heartbeat-IsOrderly :
    {g : Group} (d : ℕ) → member d g.members ≡ true → IsOrderly g → IsOrderly (dev_heartbeat g d)
unfolding dev_heartbeat put_dev
dev_heartbeat-IsOrderly {g} d in_ v =
    let v1 = set_dev-IsOrderly d (record (dev g.room d) { hbeat = 0 }) refl refl refl refl refl v in
    if-cases IsOrderly (dev g.room d).active (λ on. v1) (λ off. do_activate-IsOrderly d true in_ v1)

-- What happens to the group: a heartbeat of a device, and a round of `run_heartbeat_god`.
pub data Event : Type 0 where
  beat : ℕ → Event
  tick : (ℕ → Bool) → Event

unfoldable pub happen : Group → Event → Group
happen g (beat d) = if member d g.members then dev_heartbeat g d else g
happen g (tick ping) = god_round ping g

abbrev pub run : Group → List Event → Group
run g [] = g
run g (e ∷ es) = run (happen g e) es

happen-IsOrderly : {g : Group} (e : Event) → IsOrderly g → IsOrderly (happen g e)
unfolding happen god_round
happen-IsOrderly {g} (beat d) v =
    if-cases IsOrderly (member d g.members) (λ in_. dev_heartbeat-IsOrderly d in_ v) (λ out. v)
happen-IsOrderly {g} (tick ping) v = god_loop-IsOrderly ping g.members (λ d in_. in_) v

-- Whatever heartbeats come from the devices of the group, each a member of it once, and however many
-- rounds go by, `active_count` is the number of active devices of each of the 8 types, and the list
-- of open users, its count, the devices' flags and the mixing entries of the tag stay consistent.
pub run-IsOrderly : (es : List Event) {g : Group} → IsOrderly g → IsOrderly (run g es)
run-IsOrderly [] v = v
run-IsOrderly (e ∷ es) v = run-IsOrderly es (happen-IsOrderly e v)
