-- ===== src/Recent/Tests.antt =====
-- A ring of four that has seen 7, 8 and 9.
use gsconferencing.Base.{◌-◌, ◌≡◌, refl, arith, [], ◌∷◌, if◌then◌else◌, take}
use gsconferencing.Recent.{Recent, recent_test, find_recent, add_recent}
use gsconferencing.Recent.Window.{IsRing, window, elem, recent_test-window_lem}

abbrev fresh : Recent
fresh = record { seqs = λ _. 0; size = 4; pos = 0 }

abbrev seen : Recent
seen = (recent_test (recent_test (recent_test fresh 7).1 8).1 9).1

four_seen : window (recent_test seen 5).1 ≡ 5 ∷ 9 ∷ 8 ∷ 7 ∷ []
unfolding recent_test find_recent add_recent
four_seen = refl

fresh-IsRing : IsRing 2 fresh
fresh-IsRing = record { sized = refl; inside = omega arith }

recent_test_example :
    ((recent_test fresh 7).0 ≡ elem 7 (window fresh))
    × (window (recent_test fresh 7).1
        ≡ (if elem 7 (window fresh) then window fresh else 7 ∷ take (4 - 1) (window fresh)))
    × IsRing 2 (recent_test fresh 7).1
recent_test_example = recent_test-window_lem 7 fresh-IsRing
