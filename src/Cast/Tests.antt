-- ===== src/Cast/Tests.antt =====
-- A tag that has cast three packets, and a request to repeat the second.
use gsconferencing.Base.{◌≤◌, ◌+◌, ◌≡◌, none, some, [], ◌∷◌, ◌++◌, arith, drop, take, somes}
use gsconferencing.Cfifo
use gsconferencing.Cast.{Casting, Packet, outdate_pack, repeat_cast, broadcast_pack}
use gsconferencing.Cast.Ring.{ring, outdate_packs, outdate_packs_lem}
use gsconferencing.Cast.Repeat.{newest, repeat_cast_lem}

abbrev fresh : Casting
fresh = record {
  id = 1;
  packs = λ r. record { seq = 40 + r; tag = 1; rep_count = 5; body = r ∷ [] };
  rep_pack = λ _. none;
  rep_pos = 0;
  rep_reqs = Cfifo.init (λ _. (0, 0)) 4 6;
  seq = 43;
  sent = [];
  freed = [];
}

abbrev three : Casting
three = outdate_packs fresh (1 ∷ 2 ∷ 3 ∷ [])

outdate_packs_example :
    (ring three ≡ drop 3 (ring fresh ++ (some 1 ∷ some 2 ∷ some 3 ∷ [])))
    × (three.freed ≡ somes (take 3 (ring fresh ++ (some 1 ∷ some 2 ∷ some 3 ∷ []))))
outdate_packs_example = outdate_packs_lem fresh (1 ∷ 2 ∷ 3 ∷ []) (omega arith)

abbrev second : Packet
second = record { seq = 42; tag = 1; rep_count = 0; body = 2 ∷ [] }

repeat_cast_example :
    ((repeat_cast three 42).sent ≡ broadcast_pack second ∷ [])
    × (((repeat_cast three 42).packs 2).rep_count ≤ 8)
    × (ring (repeat_cast three 42) ≡ ring three)
unfolding outdate_packs outdate_pack ring newest
repeat_cast_example = repeat_cast_lem three 42 2 (omega arith) (omega arith)
