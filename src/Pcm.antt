-- ===== src/Pcm.antt =====
-- serv/pcm.c: the mix of several sound buffers and the test for silence. The memory is a function
-- from addresses to 16-bit samples, a buffer the address of its first sample, so that buffers may
-- overlap.
pub mod Mix
pub mod Silent
mod Tests
use gsconferencing.Base.{
  ℕ, zero, suc, ◌+◌, ◌/◌, List, [], ◌∷◌, map, Bool, true, false, if◌then◌else◌, ltb, ℤ, pos, negsuc,
  int_lt, int_add, update,
}

-- `mix += *( (*pbuf)++ )` for each pointer.
unfoldable pub mix_sum : (ℕ → ℤ) → List ℕ → ℤ → ℤ
mix_sum mem [] mix = mix
mix_sum mem (p ∷ ps) mix = mix_sum mem ps (int_add mix (mem p))

abbrev pub bump : List ℕ → List ℕ
bump ps = map (λ (p : ℕ). p + 1) ps

unfoldable pub clip : ℤ → ℤ
clip mix =
    if int_lt (pos 32767) mix
    then pos 32767
    else if int_lt mix (negsuc 32767)
    then negsuc 32767
    else mix

-- The loop over the samples, `n` of them left.
unfoldable pub mix_loop : ℕ → ℕ → ℕ → List ℕ → (ℕ → ℤ) → ℕ → ℤ
mix_loop zero i buf0 ps mem = mem
mix_loop (suc n) i buf0 ps mem =
    mix_loop n (i + 1) buf0 (bump ps) (update mem (buf0 + i) (clip (mix_sum mem ps (pos 0))))

-- `pcm_mix` of the buffers `buf0` and `others`, seven at most.
unfoldable pub pcm_mix : (ℕ → ℤ) → ℕ → List ℕ → ℕ → ℕ → ℤ
pcm_mix mem buf0 others samples = mix_loop samples 0 buf0 (buf0 ∷ others) mem

abbrev pub abs : ℤ → ℕ
abs (pos n) = n
abs (negsuc n) = n + 1

-- The loop of `pcm_silent`, `n` samples left.
unfoldable pub silent_loop : (ℕ → ℤ) → ℕ → ℕ → ℕ → ℕ → Bool
silent_loop mem buf zero e threshold = true
silent_loop mem buf (suc n) e threshold =
    let rest = silent_loop mem (buf + 1) n (e + abs (mem buf)) threshold in
    if ltb threshold (e + abs (mem buf)) then false else rest

unfoldable pub pcm_silent : (ℕ → ℤ) → ℕ → ℕ → ℕ → Bool
pcm_silent mem buf len threshold = silent_loop mem buf (len / 2) 0 threshold
