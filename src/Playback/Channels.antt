-- ===== src/Playback/Channels.antt =====
-- One channel is doubled, and two are joined, in place.
use gsconferencing.Base.{
  ℕ, zero, suc, ◌+◌, ◌*◌, ◌/◌, ◌%◌, ◌≤◌, ◌<◌, ◌≡◌, refl, ap, ◌∙◌, ◌⊎◌, inl, inr, true, false, ◌==◌,
  arith, ℤ,
}
use gsconferencing.Playback.{mono_loop, stereo_loop, pcm_stereo_to_mono, pcm_mono_to_stereo}
use gsconferencing.Playback.Spread.{spread, spread_lem}

stereo_loop-spread :
    (buf odd k : ℕ) (mem : ℕ → ℤ)
    → odd ≤ 1
    → stereo_loop buf odd k mem ≡ spread (λ v. v) (λ v. v) buf odd k mem
unfolding stereo_loop spread
stereo_loop-spread buf odd zero mem le = refl
stereo_loop-spread buf odd (suc k) mem le =
    let half : (odd + 2 * k) / 2 ≡ k = omega arith in
    let at : buf + (odd + 2 * k) ≡ buf + odd + 2 * k = omega arith in
    rw (half, at) (stereo_loop-spread buf odd k _ le)

mono_loop_out :
    (buf i left : ℕ) (mem : ℕ → ℤ) (a : ℕ)
    → (a < buf + i) ⊎ (buf + i + left ≤ a)
    → mono_loop buf i left mem a ≡ mem a
unfolding mono_loop
mono_loop_out buf i zero mem a out = refl
mono_loop_out buf i (suc left) mem a out =
    let other : (buf + i == a) ≡ false = ground (arith, out) in
    mono_loop_out buf (i + 1) left _ a
      (elim out [ inl lt ↦ inl (omega arith) | inr le ↦ inr (omega arith) ])
    ∙ rw other refl

mono_loop_lem :
    (buf i left : ℕ) (mem : ℕ → ℤ) (j : ℕ)
    → j < left
    → mono_loop buf i left mem (buf + (i + j)) ≡ mem (buf + (i + j) * 2)
unfolding mono_loop
mono_loop_lem buf i zero mem j lt = absurd (omega arith)
mono_loop_lem buf i (suc left) mem zero lt =
    let here : i + 0 ≡ i = omega arith in
    let same : (buf + i == buf + i) ≡ true = ground arith in
    rw here (mono_loop_out buf (i + 1) left _ (buf + i) (inl (omega arith)) ∙ rw same refl)
mono_loop_lem buf i (suc left) mem (suc j) lt =
    let there : i + suc j ≡ i + 1 + j = omega arith in
    let other : (buf + i == buf + (i + 1 + j) * 2) ≡ false = ground arith in
    rw there (mono_loop_lem buf (i + 1) left _ j (omega arith) ∙ rw other refl)

-- For a buffer of whole samples, pcm_mono_to_stereo writes each sample to both channels, and
-- pcm_stereo_to_mono then gives back every sample in its place, and the length.
pub pcm_stereo_to_mono-pcm_mono_to_stereo :
    (mem : ℕ → ℤ) (buf samples j : ℕ)
    → j < samples
    → ((pcm_mono_to_stereo mem buf (2 * samples)).0 (buf + 2 * j) ≡ mem (buf + j))
      × ((pcm_mono_to_stereo mem buf (2 * samples)).0 (buf + 2 * j + 1) ≡ mem (buf + j))
      × ((pcm_stereo_to_mono
              (pcm_mono_to_stereo mem buf (2 * samples)).0
              buf
              (pcm_mono_to_stereo mem buf (2 * samples)).1).0
            (buf + j)
          ≡ mem (buf + j))
      × ((pcm_stereo_to_mono
            (pcm_mono_to_stereo mem buf (2 * samples)).0
            buf
            (pcm_mono_to_stereo mem buf (2 * samples)).1).1
          ≡ 2 * samples)
unfolding pcm_mono_to_stereo pcm_stereo_to_mono
pcm_stereo_to_mono-pcm_mono_to_stereo mem buf samples j lt =
    let even : (2 * samples) % 2 ≡ 0 = omega arith in
    let rounds : (2 * samples) / 2 ≡ samples = omega arith in
    let frames : 2 * samples * 2 / 4 ≡ samples = omega arith in
    let (left, right) = spread_lem (λ (v : ℤ). v) (λ v. v) buf 0 samples mem j lt in
    let out : stereo_loop buf 0 samples mem ≡ spread (λ v. v) (λ v. v) buf 0 samples mem =
      stereo_loop-spread buf 0 samples mem (omega arith) in
    let first : stereo_loop buf 0 samples mem (buf + 2 * j) ≡ mem (buf + j) =
      ap (λ (m : ℕ → ℤ). m (buf + 2 * j)) out
      ∙ ap (spread (λ (v : ℤ). v) (λ v. v) buf 0 samples mem) (omega arith)
      ∙ left in
    let second : stereo_loop buf 0 samples mem (buf + 2 * j + 1) ≡ mem (buf + j) =
      ap (λ (m : ℕ → ℤ). m (buf + 2 * j + 1)) out
      ∙ ap (spread (λ (v : ℤ). v) (λ v. v) buf 0 samples mem) (omega arith)
      ∙ right in
    let back : mono_loop buf 0 samples (stereo_loop buf 0 samples mem) (buf + (0 + j))
        ≡ stereo_loop buf 0 samples mem (buf + (0 + j) * 2) =
      mono_loop_lem buf 0 samples (stereo_loop buf 0 samples mem) j lt in
    let at : buf + (0 + j) ≡ buf + j = omega arith in
    let at' : buf + (0 + j) * 2 ≡ buf + 2 * j = omega arith in
    rw (even, rounds, frames) (first, second, (rw (at, at') at back) ∙ first, omega arith)
