-- ===== src/Recover/Tests.antt =====
-- Witness of `Recover`: device 4 is open when the server stops.
use gsconferencing.Base.{ℕ, ◌≡◌, refl, [], ◌∷◌, true, false, arith, pos}
use gsconferencing.Device.{soft_mixer}
use gsconferencing.Ptc.{member}
use gsconferencing.Ptc.Stack.{Distinct}
use gsconferencing.Discuss.{Room, dev, add_open}
use gsconferencing.Discuss.Open.{IsValid, add_open-IsValid}
use gsconferencing.Discuss.Seats.{add_open-flags}
use gsconferencing.Recover.{restart}
use gsconferencing.Recover.Speakers.{restart-IsValid}
use gsconferencing.Fixtures.{hall, hall-IsValid, directory, queue}

abbrev before : Room
before = add_open hall 4

restart-IsValid_example :
    IsValid
      (restart directory soft_mixer (λ _. true) queue (pos 1) (pos 2) before.chan.devs (4 ∷ 2 ∷ []))
    × ((d : ℕ)
        → (dev
            (restart directory soft_mixer
              (λ _. true)
              queue
              (pos 1)
              (pos 2)
              before.chan.devs
              (4 ∷ 2 ∷ []))
            d).is_open
          ≡ (dev before d).is_open)
restart-IsValid_example =
    restart-IsValid directory soft_mixer (λ _. true) queue (pos 1) (pos 2) before (4 ∷ 2 ∷ [])
      before-IsValid devices-Distinct others_shut
  where
    before-IsValid : IsValid before
    before-IsValid = add_open-IsValid 4 hall-IsValid refl

    devices-Distinct : Distinct (4 ∷ 2 ∷ [])
    devices-Distinct = unfold member in (refl, (refl, tt))

    others_shut : (d : ℕ) → member d (4 ∷ 2 ∷ []) ≡ false → (dev before d).is_open ≡ false
    others_shut d away = unfold member in ground (arith, (add_open-flags hall 4 d).0)
