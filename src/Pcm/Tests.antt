-- ===== src/Pcm/Tests.antt =====
-- Three buffers of two samples at 0, 10 and 20, and the memory about them.
use gsconferencing.Base.{
  ℕ, ◌+◌, ◌/◌, ◌≤◌, ◌≡◌, ◌↔◌, refl, inr, [], ◌∷◌, arith, true, ◌==◌, if◌then◌else◌, ℤ, pos, negsuc,
}
use gsconferencing.Pcm.{clip, pcm_mix, pcm_silent, mix_loop, mix_sum}
use gsconferencing.Pcm.Mix.{total, ahead, Apart, IsShort, pcm_mix_lem}
use gsconferencing.Pcm.Silent.{energy, pcm_silent-energy_iff}

abbrev sounds : ℕ → ℤ
sounds a =
    if a == 0
    then pos 30000
    else if a == 1
    then negsuc 19999
    else if a == 10
    then pos 20000
    else if a == 21
    then negsuc 29999
    else pos 5

first_clipped : pcm_mix sounds 0 (10 ∷ 20 ∷ []) 2 0 ≡ pos 32767
unfolding pcm_mix mix_loop mix_sum clip
first_clipped = refl

second_clipped : pcm_mix sounds 0 (10 ∷ 20 ∷ []) 2 1 ≡ negsuc 32767
unfolding pcm_mix mix_loop mix_sum clip
second_clipped = refl

sounds-Apart : Apart 0 2 (0 ∷ 10 ∷ 20 ∷ [])
unfolding Apart
sounds-Apart =
    (λ i j lt le e. omega arith, (λ i j lt le e. omega arith, (λ i j lt le e. omega arith, tt)))

pcm_mix_example :
    let sum = total sounds (ahead 1 (0 ∷ 10 ∷ 20 ∷ [])) in
    let after = pcm_mix sounds 0 (10 ∷ 20 ∷ []) 2 in
    (after (0 + 1) ≡ clip sum)
    × IsShort (after (0 + 1))
    × (IsShort sum → after (0 + 1) ≡ sum)
    × (after 7 ≡ sounds 7)
pcm_mix_example =
    pcm_mix_lem sounds 0 (10 ∷ 20 ∷ []) 2 1 7 sounds-Apart (omega arith) (inr (omega arith))

pcm_silent-energy_example :
    (pcm_silent sounds 10 4 20000 ≡ true) ↔ (energy sounds 10 (4 / 2) ≤ 20000)
pcm_silent-energy_example = pcm_silent-energy_iff sounds 10 4 20000
