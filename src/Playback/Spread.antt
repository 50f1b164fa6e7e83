-- ===== src/Playback/Spread.antt =====
-- A loop that goes down through a buffer and writes two entries for each one that it reads does not
-- overwrite what it has still to read.
use gsconferencing.Base.{
  ℕ, zero, suc, ◌+◌, ◌*◌, ◌≤◌, ◌<◌, ◌≡◌, refl, ap, ◌∙◌, ◌⊎◌, inl, inr, true, false, ◌==◌, arith,
  update, Bool-cases,
}

module _ {A : Type 0} (f g : A → A) (buf odd : ℕ) where
  -- The loop for `k` entries.
  unfoldable pub spread : ℕ → (ℕ → A) → ℕ → A
  spread zero mem = mem
  spread (suc k) mem =
      let v = mem (buf + k) in
      spread k (update (update mem (buf + odd + 2 * k) (f v)) (buf + odd + 2 * k + 1) (g v))

  -- The rest of the memory stays.
  pub spread_out :
      (k : ℕ) (mem : ℕ → A) (a : ℕ)
      → (a < buf + odd) ⊎ (buf + odd + 2 * k ≤ a)
      → spread k mem a ≡ mem a
  unfolding spread
  spread_out zero mem a out = refl
  spread_out (suc k) mem a out =
      let first : (buf + odd + 2 * k == a) ≡ false = ground (arith, out) in
      let second : (buf + odd + 2 * k + 1 == a) ≡ false = ground (arith, out) in
      spread_out k _ a (elim out [ inl lt ↦ inl lt | inr le ↦ inr (omega arith) ])
      ∙ rw (first, second) refl

  -- Entry `j` is written twice.
  pub spread_lem :
      (k : ℕ) (mem : ℕ → A) (j : ℕ)
      → j < k
      → (spread k mem (buf + odd + 2 * j) ≡ f (mem (buf + j)))
        × (spread k mem (buf + odd + 2 * j + 1) ≡ g (mem (buf + j)))
  unfolding spread
  spread_lem zero mem j lt = absurd (omega arith)
  spread_lem (suc k) mem j lt =
      let v : A = mem (buf + k) in
      let mem1 : ℕ → A =
        update (update mem (buf + odd + 2 * k) (f v)) (buf + odd + 2 * k + 1) (g v) in
      elim (Bool-cases (j == k)) [
        | inl last ↦
            let same : j ≡ k = ground (arith, last) in
            let at : (buf + odd + 2 * k == buf + odd + 2 * k) ≡ true = ground arith in
            let at' : (buf + odd + 2 * k + 1 == buf + odd + 2 * k + 1) ≡ true = ground arith in
            let apart : (buf + odd + 2 * k + 1 == buf + odd + 2 * k) ≡ false = ground arith in
            rw same (
              spread_out k mem1 (buf + odd + 2 * k) (inr (omega arith)) ∙ rw (apart, at) refl,
              spread_out k mem1 (buf + odd + 2 * k + 1) (inr (omega arith)) ∙ rw at' refl,
            )
        | inr before ↦
            let (one, two) = spread_lem k mem1 j (ground (arith, before, lt)) in
            let first : (buf + odd + 2 * k == buf + j) ≡ false = ground (arith, before, lt) in
            let second : (buf + odd + 2 * k + 1 == buf + j) ≡ false = ground (arith, before, lt) in
            let kept : mem1 (buf + j) ≡ mem (buf + j) = rw (first, second) refl in
            (one ∙ ap f kept, two ∙ ap g kept)
      ]
