-- ===== src/Pcm/Mix.antt =====
-- What `pcm_mix` writes.
use gsconferencing.Base.{
  ℕ, zero, suc, ◌+◌, ◌≤◌, ◌<◌, ◌≡◌, ◌≢◌, ◌⊎◌, inl, refl, ap, ap₂, sym, ◌∙◌, List, [], ◌∷◌, map,
  arith, ℤ, pos, negsuc, update, pos_part, neg_part, int_of, int_of_parts,
}
use mathlib.Core.Path.{subst}
use gsconferencing.Pcm.{mix_sum, bump, clip, mix_loop, pcm_mix}

-- The sum of the samples at some addresses, the positive ones and the negative ones apart.
abbrev positives : (ℕ → ℤ) → List ℕ → ℕ
positives mem [] = 0
positives mem (p ∷ ps) = pos_part (mem p) + positives mem ps

abbrev negatives : (ℕ → ℤ) → List ℕ → ℕ
negatives mem [] = 0
negatives mem (p ∷ ps) = neg_part (mem p) + negatives mem ps

abbrev pub total : (ℕ → ℤ) → List ℕ → ℤ
total mem ps = int_of (positives mem ps) (negatives mem ps)

abbrev pub ahead : ℕ → List ℕ → List ℕ
ahead k ps = map (λ (p : ℕ). p + k) ps

-- No buffer's later samples lie where an earlier one of the first buffer is written.
unfoldable pub Apart : ℕ → ℕ → List ℕ → Type 0
Apart buf0 n [] = Unit
Apart buf0 n (p ∷ ps) = ((i j : ℕ) → i < j → j < n → p + j ≢ buf0 + i) × Apart buf0 n ps

unfoldable pub IsShort : ℤ → Type 0
IsShort z = (pos_part z ≤ 32767) × (neg_part z ≤ 32768)

mix_sum_lem :
    (mem : ℕ → ℤ) (ps : List ℕ) (a b : ℕ)
    → mix_sum mem ps (int_of a b) ≡ int_of (a + positives mem ps) (b + negatives mem ps)
unfolding mix_sum
mix_sum_lem mem [] a b = ap₂ int_of (omega arith) (omega arith)
mix_sum_lem mem (p ∷ ps) a b =
    ap (mix_sum mem ps) (int_of_parts a b (pos_part (mem p)) (neg_part (mem p)))
    ∙ mix_sum_lem mem ps (a + pos_part (mem p)) (b + neg_part (mem p))
    ∙ ap₂ int_of (omega arith) (omega arith)

mix_sum-total : (mem : ℕ → ℤ) (ps : List ℕ) → mix_sum mem ps (pos 0) ≡ total mem ps
mix_sum-total mem ps = mix_sum_lem mem ps 0 0 ∙ ap₂ int_of (omega arith) (omega arith)

module _ (mem : ℕ → ℤ) (x : ℕ) (v : ℤ) where
  update_other : (p q : ℕ) → p ≡ q → p ≢ x → update mem x v p ≡ mem q
  update_other p q same ne = ground (arith, ap mem same)

  -- A write to none of the addresses leaves the sums.
  sums-update :
      (n k : ℕ) (ps : List ℕ)
      → suc k < n
      → Apart x n ps
      → (positives (update mem x v) (ahead k (bump ps)) ≡ positives mem (ahead (suc k) ps))
        × (negatives (update mem x v) (ahead k (bump ps)) ≡ negatives mem (ahead (suc k) ps))
  unfolding Apart
  sums-update n k [] lt apart = (refl, refl)
  sums-update n k (p ∷ ps) lt (one, rest) =
      let here =
        update_other (p + 1 + k) (p + suc k) (omega arith)
          (λ e. one 0 (suc k) (omega arith) lt (omega arith)) in
      let (up, down) = sums-update n k ps lt rest in
      (ap₂ ◌+◌ (ap pos_part here) up, ap₂ ◌+◌ (ap neg_part here) down)

ahead-zero : (ps : List ℕ) → ahead 0 ps ≡ ps
ahead-zero [] = refl
ahead-zero (p ∷ ps) = ap₂ ◌∷◌ (omega arith) (ahead-zero ps)

Apart-bump : (buf0 n : ℕ) (ps : List ℕ) → Apart buf0 (suc n) ps → Apart (buf0 + 1) n (bump ps)
unfolding Apart
Apart-bump buf0 n [] apart = tt
Apart-bump buf0 n (p ∷ ps) (one, rest) =
    (λ i j lt le e. one i j lt (omega arith) (omega arith), Apart-bump buf0 n ps rest)

mix_loop_outside :
    (n i buf0 x : ℕ) (ps : List ℕ) (mem : ℕ → ℤ)
    → (x < buf0 + i) ⊎ (buf0 + i + n ≤ x)
    → mix_loop n i buf0 ps mem x ≡ mem x
unfolding mix_loop
mix_loop_outside zero i buf0 x ps mem out = refl
mix_loop_outside (suc n) i buf0 x ps mem out =
    mix_loop_outside n (i + 1) buf0 x (bump ps) _ (widen out)
    ∙ update_other mem _ _ x x refl (apart out)
  where
    widen :
        (x < buf0 + i) ⊎ (buf0 + i + suc n ≤ x) → (x < buf0 + (i + 1)) ⊎ (buf0 + (i + 1) + n ≤ x)
    widen out = ground arith

    apart : (x < buf0 + i) ⊎ (buf0 + i + suc n ≤ x) → x ≢ buf0 + i
    apart out e = ground arith

mix_loop_lem :
    (n i buf0 k : ℕ) (ps : List ℕ) (mem : ℕ → ℤ)
    → k < n
    → Apart (buf0 + i) n ps
    → mix_loop n i buf0 ps mem (buf0 + i + k) ≡ clip (total mem (ahead k ps))
unfolding mix_loop
mix_loop_lem zero i buf0 k ps mem lt apart = absurd (omega arith)
mix_loop_lem (suc n) i buf0 zero ps mem lt apart =
    mix_loop_outside n (i + 1) buf0 (buf0 + i + 0) (bump ps) _ (inl (omega arith))
    ∙ update_self (buf0 + i + 0) (buf0 + i) (omega arith)
    ∙ ap clip (mix_sum-total mem ps ∙ ap (total mem) (sym (ahead-zero ps)))
  where
    update_self :
        (a b : ℕ)
        → a ≡ b
        → update mem b (clip (mix_sum mem ps (pos 0))) a ≡ clip (mix_sum mem ps (pos 0))
    update_self a b e = ground arith
mix_loop_lem (suc n) i buf0 (suc k) ps mem lt apart =
    ap (mix_loop n (i + 1) buf0 (bump ps) _) (omega arith)
    ∙ mix_loop_lem n (i + 1) buf0 k (bump ps) _ (omega arith)
        (subst (λ (b : ℕ). Apart b n (bump ps)) (omega arith) (Apart-bump (buf0 + i) n ps apart))
    ∙ ap clip (ap₂ int_of sums.0 sums.1)
  where
    sums :
        (positives (update mem (buf0 + i) (clip (mix_sum mem ps (pos 0)))) (ahead k (bump ps))
          ≡ positives mem (ahead (suc k) ps))
        × (negatives (update mem (buf0 + i) (clip (mix_sum mem ps (pos 0)))) (ahead k (bump ps))
            ≡ negatives mem (ahead (suc k) ps))
    sums = sums-update mem (buf0 + i) (clip (mix_sum mem ps (pos 0))) (suc n) k ps lt apart

clip-IsShort : (z : ℤ) → IsShort (clip z) × (IsShort z → clip z ≡ z)
unfolding clip IsShort
clip-IsShort (pos n) = ground arith
clip-IsShort (negsuc n) = ground arith

-- Where no buffer's later samples lie in the part of the first that is already written, sample `k`
-- of the first buffer becomes the sum of the samples `k` of all the buffers, clipped to 16 bits
-- (and unchanged where it fits them); and nothing else is written.
pub pcm_mix_lem :
    (mem : ℕ → ℤ) (buf0 : ℕ) (others : List ℕ) (samples k x : ℕ)
    → Apart buf0 samples (buf0 ∷ others)
    → k < samples
    → (x < buf0) ⊎ (buf0 + samples ≤ x)
    → let sum = total mem (ahead k (buf0 ∷ others)) in
      let after = pcm_mix mem buf0 others samples in
      (after (buf0 + k) ≡ clip sum)
      × IsShort (after (buf0 + k))
      × (IsShort sum → after (buf0 + k) ≡ sum)
      × (after x ≡ mem x)
unfolding pcm_mix
pcm_mix_lem mem buf0 others samples k x apart lt out =
    let sum = total mem (ahead k (buf0 ∷ others)) in
    let (short, exact) = clip-IsShort sum in
    let got : mix_loop samples 0 buf0 (buf0 ∷ others) mem (buf0 + k) ≡ clip sum =
      ap (mix_loop samples 0 buf0 (buf0 ∷ others) mem) (omega arith)
      ∙ mix_loop_lem samples 0 buf0 k (buf0 ∷ others) mem lt
          (subst (λ (b : ℕ). Apart b samples (buf0 ∷ others)) (omega arith) apart) in
    (
      got,
      subst IsShort (sym got) short,
      λ fits. got ∙ exact fits,
      mix_loop_outside samples 0 buf0 x (buf0 ∷ others) mem (beside out),
    )
  where
    beside : (x < buf0) ⊎ (buf0 + samples ≤ x) → (x < buf0 + 0) ⊎ (buf0 + 0 + samples ≤ x)
    beside out = ground arith
