-- ===== src/Brcmd/Tests.antt =====
-- The command "hi" for device 101, named 256 times, and device 102, whose client hears it.
use gsconferencing.Base.{
  ℕ, ◌<◌, true, length, zero, suc, ◌≤◌, ◌≡◌, refl, some, List, [], ◌∷◌, ◌++◌, arith, replicate,
}
use gsconferencing.Recent.{Recent}
use gsconferencing.Recent.Window.{IsRing, elem}
use gsconferencing.Brcmd.{
  Air, send_chunks, send_multi, async_brcast, make_brcmd_multi, int_bytes, Listener,
  brcast_cmd_to_multi,
}
use gsconferencing.Brcmd.Ints.{Words}
use gsconferencing.Brcmd.Places.{listen, heard, occurrences}
use gsconferencing.Brcmd.Reach.{brcast_cmd_to_multi-handle_brcast_cmd}
use gsconferencing.Brcmd.Fresh.{AreFresh}

abbrev ring : Recent
ring = record { seqs = λ _. 0; size = 8; pos = 0 }

abbrev client : Listener
client = record { id = 102; tag_id = 1; recent = ring; handled = [] }

abbrev air : Air
air = record { seq = 4; sent = [] }

-- The last of the ids is in a packet of its own.
abbrev ids : List ℕ
ids = replicate 256 101 ++ (102 ∷ [])

abbrev hi : List ℕ
hi = 104 ∷ 105 ∷ 0 ∷ []

ring-IsRing : IsRing 3 ring
ring-IsRing = record { sized = refl; inside = omega arith }

replicate-Words : (n : ℕ) (xs : List ℕ) → Words xs → Words (replicate n 101 ++ xs)
unfolding Words
replicate-Words zero xs ok = ok
replicate-Words (suc n) xs ok = (omega arith, replicate-Words n xs ok)

ids-Words : Words ids
ids-Words = replicate-Words 256 (102 ∷ []) (unfold Words in (omega arith, tt))

ring-AreFresh : AreFresh ring 4 8
unfolding AreFresh
ring-AreFresh zero lt = refl
ring-AreFresh (suc zero) lt = refl
ring-AreFresh (suc (suc zero)) lt = refl
ring-AreFresh (suc (suc (suc zero))) lt = refl
ring-AreFresh (suc (suc (suc (suc zero)))) lt = refl
ring-AreFresh (suc (suc (suc (suc (suc zero))))) lt = refl
ring-AreFresh (suc (suc (suc (suc (suc (suc zero)))))) lt = refl
ring-AreFresh (suc (suc (suc (suc (suc (suc (suc zero))))))) lt = refl
ring-AreFresh (suc (suc (suc (suc (suc (suc (suc (suc j)))))))) lt = absurd (omega arith)

-- The two packets are heard by turns.
abbrev places : List ℕ
places = 1 ∷ 0 ∷ 1 ∷ 0 ∷ []

every_place :
    (m : ℕ)
    → m < length (brcast_cmd_to_multi (record { seq = 4; sent = [] }) hi ids).sent
    → elem m places ≡ true
unfolding brcast_cmd_to_multi send_chunks send_multi async_brcast make_brcmd_multi int_bytes
every_place zero lt = refl
every_place (suc zero) lt = refl
every_place (suc (suc m)) lt = absurd (omega arith)

brcast-handle_example :
    let us = (brcast_cmd_to_multi (record { seq = 4; sent = [] }) hi ids).sent in
    (l' : Listener) × (n : ℕ) × (listen client (heard us places) ≡ some l')
    × (l'.handled ≡ [] ++ replicate n hi)
    × (n ≤ occurrences 102 ids)
    × (1 ≤ occurrences 102 ids → 1 ≤ n)
brcast-handle_example =
    brcast_cmd_to_multi-handle_brcast_cmd places 4 hi ids client (omega arith) (omega arith)
      (omega arith) ids-Words ring-IsRing ring-AreFresh every_place
