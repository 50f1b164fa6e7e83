-- ===== src/Packet/Tests.antt =====
-- Three packets are taken from an empty cache, the second is given back, and one more taken.
use gsconferencing.Base.{refl, [], ◌∷◌, List, true, false, arith, if◌then◌else◌, ◌==◌}
use mathlib.Core.Bool.{false≢true}
use gsconferencing.Ptc.{member}
use gsconferencing.Packet.{Cache}
use gsconferencing.Packet.Handout.{
  Use, Op, take_slot, give_slot, IsValid, run_slots, run_slots-IsValid,
}

abbrev unused : Use
unused = record { cache = record { used = λ _. false; pos = 0 }; held = [] }

abbrev calls : List Op
calls = take_slot ∷ take_slot ∷ take_slot ∷ give_slot 1 ∷ take_slot ∷ []

unused-IsValid : IsValid unused
unfolding member
unused-IsValid = record {
  once = tt;
  marked = λ i. refl;
  bounded = λ i h. absurd (false≢true h);
  pos_in = omega arith;
}

run_slots-IsValid_example : IsValid (run_slots unused calls)
run_slots-IsValid_example = run_slots-IsValid calls unused-IsValid

abbrev busy : Cache
busy = record { used = λ i. if i == 5 then false else true; pos = 9 }
