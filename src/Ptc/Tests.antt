-- ===== src/Ptc/Tests.antt =====
-- Two cameras and three microphones.
use gsconferencing.Base.{◌≡◌, refl, some, [], ◌∷◌, arith, ◌==◌, if◌then◌else◌}
use gsconferencing.Ptc.{
  Directory, Ptc, ptc_send, ptc_remove, after_remove, is_curr, member, unlink, order, add_ptc,
}
use gsconferencing.Ptc.Stack.{IsValid, ptc_remove_lem, without}

-- Devices 1 to 3 are aimed at by camera 10, and every device's handle is its id.
abbrev hall : Directory
hall = record {
  get_device = λ i. some i;
  id = λ d. d;
  ptc_id = λ d. if d == 10 then 10 else 10;
  ptc_cmd = λ d. if d == 10 then [] else d ∷ [];
}

abbrev spoken : Ptc
spoken = record { known = 10 ∷ []; stack = 2 ∷ 1 ∷ []; curr = some 2; sent = [] }

spoken-IsValid : IsValid spoken
unfolding member
spoken-IsValid = record { once = (refl, (refl, tt)); current = refl; bounded = omega arith }

ptc_remove_example :
    IsValid (ptc_remove hall spoken 2) × ((ptc_remove hall spoken 2).stack ≡ 1 ∷ [])
unfolding without
ptc_remove_example = ptc_remove_lem hall 2 spoken-IsValid

-- When the last speaker leaves, the camera goes back to the one before.
back_to_previous :
    (ptc_remove hall spoken 2).sent
    ≡ record { dest = 10; from_id = 1; to_id = 10; cmd = 1 ∷ [] } ∷ []
unfolding ptc_remove member unlink after_remove is_curr ptc_send order add_ptc
back_to_previous = refl
