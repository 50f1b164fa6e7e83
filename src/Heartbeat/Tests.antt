-- ===== src/Heartbeat/Tests.antt =====
-- Devices 1, 2 and 3; device 3 does not report any more.
use gsconferencing.Base.{
  ℕ, ◌+◌, ◌≤◌, ◌<◌, ◌≡◌, refl, some, [], ◌∷◌, Bool, true, false, arith, ◌==◌, if◌then◌else◌, pos,
}
use gsconferencing.Ptc.{member}
use gsconferencing.Discuss.{dev}
use gsconferencing.Heartbeat.{Group, god_round, god_loop, god_one}
use gsconferencing.Heartbeat.Counts.{IsOrderly, online}
use gsconferencing.Heartbeat.Events.{beat, tick, run, run-IsOrderly, happen}
use gsconferencing.Heartbeat.Rounds.{god_round_lem}
use gsconferencing.Fixtures.{hall, hall-IsValid}

abbrev group : Group
group = record {
  room = hall;
  members = 1 ∷ 2 ∷ 3 ∷ [];
  active_count =
      λ k. if k == 1 then pos 1 else if k == 2 then pos 1 else if k == 3 then pos 1 else pos 0;
  ents_dirty = false;
  cyctl = some 2;
  rescues = [];
}

group-IsOrderly : IsOrderly group
unfolding online member
group-IsOrderly = record {
  valid = hall-IsValid;
  once = (refl, (refl, (refl, tt)));
  counted = λ k lt. ground arith;
}

run-IsOrderly_example : IsOrderly (run group (beat 1 ∷ tick (λ _. false) ∷ []))
run-IsOrderly_example = run-IsOrderly (beat 1 ∷ tick (λ _. false) ∷ []) group-IsOrderly

abbrev silence : ℕ → Bool
silence _ = false

abbrev late : Group
late = run group (tick silence ∷ tick silence ∷ tick silence ∷ [])

god_round_example :
    let r = dev late.room 3 in
    let r' = dev (god_round silence late).room 3 in
    (r'.hbeat ≡ r.hbeat + 1)
    × (3 ≤ r.hbeat → r'.active ≡ false)
    × (3 ≤ r.hbeat → r.active ≡ true → r'.is_open ≡ false)
    × (r.hbeat < 3 → (r'.active ≡ r.active) × (r'.is_open ≡ r.is_open))
unfolding member happen god_round god_loop god_one
god_round_example =
    god_round_lem silence late 3
      (run-IsOrderly (tick silence ∷ tick silence ∷ tick silence ∷ []) group-IsOrderly).once refl
