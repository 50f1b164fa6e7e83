-- ===== src/Playback/Tests.antt =====
-- Witnesses of `Playback`.
use gsconferencing.Base.{ℕ, ◌+◌, ◌*◌, ◌%◌, ◌≡◌, refl, arith, ℤ, pos}
use gsconferencing.Playback.{pcm_mono_to_stereo, pcm_stereo_to_mono, cksum}
use gsconferencing.Playback.Channels.{pcm_stereo_to_mono-pcm_mono_to_stereo}
use gsconferencing.Playback.Cksum.{cksum_cancel}

-- Samples 1000, 1001, ..., in a buffer at 100.
abbrev samples : ℕ → ℤ
samples a = pos (a + 900)

pcm_stereo_to_mono-pcm_mono_to_stereo_example :
    ((pcm_mono_to_stereo samples 100 (2 * 3)).0 (100 + 2 * 2) ≡ samples (100 + 2))
    × ((pcm_mono_to_stereo samples 100 (2 * 3)).0 (100 + 2 * 2 + 1) ≡ samples (100 + 2))
    × ((pcm_stereo_to_mono
            (pcm_mono_to_stereo samples 100 (2 * 3)).0
            100
            (pcm_mono_to_stereo samples 100 (2 * 3)).1).0
          (100 + 2)
        ≡ samples (100 + 2))
    × ((pcm_stereo_to_mono
          (pcm_mono_to_stereo samples 100 (2 * 3)).0
          100
          (pcm_mono_to_stereo samples 100 (2 * 3)).1).1
        ≡ 2 * 3)
pcm_stereo_to_mono-pcm_mono_to_stereo_example =
    pcm_stereo_to_mono-pcm_mono_to_stereo samples 100 3 2 (omega arith)

abbrev hash : ℕ → ℕ
hash a = (a * 37) % 256

cksum_cancel_example : (hash (8 + 15) ≡ hash (8 + 15)) × (cksum hash 8 (8 + 32) ≡ 0)
cksum_cancel_example =
    cksum_cancel hash hash 8 15 (omega arith) (omega arith) (omega arith) (λ i lt. refl)
