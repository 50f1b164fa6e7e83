-- ===== src/Pcm/Silent.antt =====
-- The test for silence, which stops early, against the whole energy.
use gsconferencing.Base.{
  ℕ, zero, suc, ◌+◌, ◌/◌, ◌≤◌, ◌≡◌, ◌↔◌, true, refl, arith, ltb, Bool-cases, inl, inr, ℤ,
}
use mathlib.Core.Bool.{false≢true}
use gsconferencing.Pcm.{abs, silent_loop, pcm_silent}

-- The absolute values of the `n` samples of a buffer, added up.
abbrev pub energy : (ℕ → ℤ) → ℕ → ℕ → ℕ
energy mem buf zero = 0
energy mem buf (suc n) = abs (mem buf) + energy mem (buf + 1) n

silent_loop_lem :
    (mem : ℕ → ℤ) (n buf e threshold : ℕ)
    → e ≤ threshold
    → (silent_loop mem buf n e threshold ≡ true) ↔ (e + energy mem buf n ≤ threshold)
unfolding silent_loop
silent_loop_lem mem zero buf e threshold le = (λ _. omega arith, λ _. refl)
silent_loop_lem mem (suc n) buf e threshold le =
    elim (Bool-cases (ltb threshold (e + abs (mem buf)))) [
      | inl over ↦ rw over (λ h. absurd (false≢true h), λ h. absurd (ground arith))
      | inr under ↦
          let rest = silent_loop_lem mem n (buf + 1) (e + abs (mem buf)) threshold (ground arith) in
          rw under (λ h. omega (arith, rest.0 h), λ h. rest.1 (omega arith))
    ]

-- `pcm_silent` holds of a buffer of `len` bytes exactly if the absolute values of its samples come
-- to the threshold at most, although it gives up at the first sample that passes it.
pub pcm_silent-energy_iff :
    (mem : ℕ → ℤ) (buf len threshold : ℕ)
    → (pcm_silent mem buf len threshold ≡ true) ↔ (energy mem buf (len / 2) ≤ threshold)
unfolding pcm_silent
pcm_silent-energy_iff mem buf len threshold =
    let (there, back) = silent_loop_lem mem (len / 2) buf 0 threshold (omega arith) in
    (λ h. omega (arith, there h), λ h. back (omega arith))
