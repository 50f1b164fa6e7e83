-- ===== src/Recent/Window.antt =====
-- The ring as the list of what it holds, newest first.
use Prim.Native.Nat.{bit_and}
use gsconferencing.Base.{
  ℕ, zero, suc, ◌+◌, ◌-◌, ◌%◌, ◌^◌, ◌≤◌, ◌<◌, ◌≡◌, ◌≢◌, ◌∙◌, sym, ap, ap₂, refl, List, [], ◌∷◌,
  Bool, true, false, arith, ◌==◌, if◌then◌else◌, leb, take, bit_and_ones, mod_round, Bool-cases,
  inl, inr,
}
use gsconferencing.Recent.{Recent, entry, find_recent, add_recent, recent_test}

-- A ring of `2 ^ k` entries.
pub record IsRing (k : ℕ) (r : Recent) : Type 0 where
  pub sized : r.size ≡ 2 ^ k
  pub inside : r.pos < r.size

abbrev window_from : Recent → ℕ → ℕ → List ℕ
window_from r zero i = []
window_from r (suc n) i = r.seqs (entry r i) ∷ window_from r n (i + 1)

abbrev pub window : Recent → List ℕ
window r = window_from r r.size 0

abbrev pub elem : ℕ → List ℕ → Bool
elem x [] = false
elem x (y ∷ ys) = if x == y then true else elem x ys

find_recent-elem : (r : Recent) (seq n i : ℕ) → find_recent r seq n i ≡ elem seq (window_from r n i)
unfolding find_recent
find_recent-elem r seq zero i = refl
find_recent-elem r seq (suc n) i =
    ap (λ (b : Bool). if seq == r.seqs (entry r i) then true else b)
      (find_recent-elem r seq n (i + 1))

module _ {k : ℕ} {r : Recent} (v : IsRing k r) where
  masked :
      (a : ℕ)
      → a < r.size + r.size
      → bit_and a (r.size - 1) ≡ (if leb r.size a then a - r.size else a)
  masked a lt =
      ap (λ (m : ℕ). bit_and a (m - 1)) v.sized
      ∙ bit_and_ones k a
      ∙ ap (λ (m : ℕ). a % m) (sym v.sized)
      ∙ mod_round a r.size lt

  pub entry_lem :
      (i : ℕ) → i ≤ r.size → entry r i ≡ (if leb i r.pos then r.pos - i else r.pos + r.size - i)
  entry_lem i le = ground (arith, masked (r.pos + r.size - i) (omega (arith, v.inside)), v.inside)

  module _ (seq : ℕ) where
    next_pos : (add_recent r seq).pos ≡ (if r.pos + 1 == r.size then 0 else r.pos + 1)
    unfolding add_recent
    next_pos = ground (arith, masked (r.pos + 1) (omega (arith, v.inside)), v.inside)

    pub add_recent-IsRing : IsRing k (add_recent r seq)
    unfolding add_recent
    add_recent-IsRing = record { sized = v.sized; inside = ground (arith, next_pos, v.inside) }

take-window_from : (r : Recent) (m n i : ℕ) → m ≤ n → take m (window_from r n i) ≡ window_from r m i
take-window_from r zero n i le = refl
take-window_from r (suc m) zero i le = absurd (omega arith)
take-window_from r (suc m) (suc n) i le =
    ap (λ (xs : List ℕ). r.seqs (entry r i) ∷ xs) (take-window_from r m n (i + 1) (omega arith))

module _ {k : ℕ} {r : Recent} (v : IsRing k r) (seq : ℕ) where
  written : (a : ℕ) → a ≡ (add_recent r seq).pos → (add_recent r seq).seqs a ≡ seq
  unfolding add_recent
  written a e = ground arith

  kept : (a b : ℕ) → a ≡ b → b ≢ (add_recent r seq).pos → (add_recent r seq).seqs a ≡ r.seqs b
  unfolding add_recent
  kept a b e ne = ground (arith, ap r.seqs e)

  entry_after :
      (i : ℕ)
      → i ≤ r.size
      → entry (add_recent r seq) i ≡ (
          if leb i (add_recent r seq).pos
          then (add_recent r seq).pos - i
          else (add_recent r seq).pos + r.size - i)
  unfolding add_recent
  entry_after = sized_as (add_recent-IsRing v seq) refl
    where
      sized_as :
          {r' : Recent}
          → IsRing k r'
          → r'.size ≡ r.size
          → (i : ℕ) → i ≤ r.size
          → entry r' i ≡ (if leb i r'.pos then r'.pos - i else r'.pos + r.size - i)
      sized_as {r'} v' e i le =
          entry_lem v' i (omega arith)
          ∙ ap (λ (n : ℕ). if leb i r'.pos then r'.pos - i else r'.pos + n - i) e

  newest : (add_recent r seq).seqs (entry (add_recent r seq) 0) ≡ seq
  newest = written _ (ground (arith, entry_after 0 (omega arith)))

  older :
      (i : ℕ)
      → i + 1 < r.size
      → (add_recent r seq).seqs (entry (add_recent r seq) (i + 1)) ≡ r.seqs (entry r i)
  older i lt = kept _ _ same other
    where
      same : entry (add_recent r seq) (i + 1) ≡ entry r i
      same = ground (
        arith,
        entry_after (i + 1) (omega arith),
        entry_lem v i (omega arith),
        next_pos v seq,
        v.inside,
      )

      other : entry r i ≢ (add_recent r seq).pos
      other e = ground (arith, entry_lem v i (omega arith), next_pos v seq, v.inside)

  window_from-add_recent :
      (n i : ℕ) → i + n < r.size → window_from (add_recent r seq) n (i + 1) ≡ window_from r n i
  window_from-add_recent zero i lt = refl
  window_from-add_recent (suc n) i lt =
      ap₂ ◌∷◌ (older i (omega arith)) (window_from-add_recent n (i + 1) (omega arith))

  window-add_recent : (m : ℕ) → r.size ≡ suc m → window (add_recent r seq) ≡ seq ∷ take m (window r)
  unfolding add_recent
  window-add_recent m e =
      ap (λ (n : ℕ). window_from (add_recent r seq) n 0) e
      ∙ ap₂ ◌∷◌ newest (
          window_from-add_recent m 0 (omega arith)
          ∙ sym (take-window_from r m r.size 0 (omega arith)))

-- On a ring of `2 ^ k` entries `recent_test` finds what is among them; otherwise the number becomes
-- the newest entry and the oldest one goes. It stays such a ring.
pub recent_test-window_lem :
    {k : ℕ} {r : Recent} (seq : ℕ)
    → IsRing k r
    → let after = recent_test r seq in
      (after.0 ≡ elem seq (window r))
      × (window after.1
          ≡ (if elem seq (window r) then window r else seq ∷ take (r.size - 1) (window r)))
      × IsRing k after.1
unfolding recent_test
recent_test-window_lem {k} {r} seq v = elim (Bool-cases (elem seq (window r))) [
  | inl old ↦ rw (find_recent-elem r seq r.size 0, old) (refl, refl, v)
  | inr new ↦
      rw (find_recent-elem r seq r.size 0, new)
        (
          refl,
          window-add_recent v seq (r.size - 1) (omega (arith, v.inside)),
          add_recent-IsRing v seq,
        )
]
