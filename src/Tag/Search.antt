-- ===== src/Tag/Search.antt =====
-- What the search loops over `mix_devs` find, and how an entry that changes is counted.
use gsconferencing.Base.{
  ℕ, zero, suc, ◌+◌, ◌≤◌, ◌<◌, ◌≡◌, ◌≢◌, refl, Option, none, some, true, false, arith,
  if◌then◌else◌, update, is_some,
}
use gsconferencing.Tag.{find_free, find_dev, find_other}

-- How many of the first `n` entries are taken.
unfoldable pub taken : (ℕ → Option ℕ) → ℕ → ℕ
taken s zero = 0
taken s (suc n) = taken s n + (if is_some (s n) then 1 else 0)

module _ (s : ℕ → Option ℕ) where
  taken-update_out : (n i : ℕ) (v : Option ℕ) → n ≤ i → taken (update s i v) n ≡ taken s n
  unfolding taken
  taken-update_out zero i v h = refl
  taken-update_out (suc n) i v h = ground (arith, taken-update_out n i v)

  pub taken-update-some :
      (n i d : ℕ) → i < n → s i ≡ none → taken (update s i (some d)) n ≡ taken s n + 1
  unfolding taken
  taken-update-some zero i d h e = elim h [ ]
  taken-update-some (suc n) i d h e =
      ground (arith, taken-update-some n i d, taken-update_out n i (some d))

  pub taken-update-none :
      (n i d : ℕ) → i < n → s i ≡ some d → taken (update s i none) n + 1 ≡ taken s n
  unfolding taken
  taken-update-none zero i d h e = elim h [ ]
  taken-update-none (suc n) i d h e =
      ground (arith, taken-update-none n i d, taken-update_out n i none)

  pub taken_pos : (n i d : ℕ) → i < n → s i ≡ some d → 0 < taken s n
  taken_pos n i d h e = omega (arith, taken-update-none n i d h e)

  pub taken_none : (n : ℕ) → ((i : ℕ) → i < n → is_some (s i) ≡ false) → taken s n ≡ 0
  unfolding taken
  taken_none zero h = refl
  taken_none (suc n) h = ground (arith, h n, taken_none n (λ i lt. h i (omega arith)))

  pub taken_all : (n : ℕ) → ((i : ℕ) → i < n → is_some (s i) ≡ true) → taken s n ≡ n
  unfolding taken
  taken_all zero h = refl
  taken_all (suc n) h = ground (arith, h n, taken_all n (λ i lt. h i (omega arith)))

  pub taken-le : (n : ℕ) → taken s n ≤ n
  unfolding taken
  taken-le zero = omega arith
  taken-le (suc n) = ground (arith, taken-le n)

  pub taken_free-lt : (n i : ℕ) → i < n → s i ≡ none → taken s n < n
  unfolding taken
  taken_free-lt zero i h e = elim h [ ]
  taken_free-lt (suc n) i h e = ground (arith, taken-le n, taken_free-lt n i)

  pub find_free-some : (n i j : ℕ) → find_free s n i ≡ some j → (i ≤ j) × (j < i + n) × (s j ≡ none)
  unfolding find_free
  find_free-some zero i j e = ground arith
  find_free-some (suc n) i j e = ground (arith, find_free-some n (i + 1) j)

  pub find_free-none :
      (n i j : ℕ) → find_free s n i ≡ none → i ≤ j → j < i + n → is_some (s j) ≡ true
  unfolding find_free
  find_free-none zero i j e lo hi = ground arith
  find_free-none (suc n) i j e lo hi = ground (arith, find_free-none n (i + 1) j)

  pub find_dev-some :
      (d n i j : ℕ) → find_dev s d n i ≡ some j → (i ≤ j) × (j < i + n) × (s j ≡ some d)
  unfolding find_dev
  find_dev-some d zero i j e = ground arith
  find_dev-some d (suc n) i j e = ground (arith, find_dev-some d n (i + 1) j)

  pub find_dev-none : (d n i j : ℕ) → find_dev s d n i ≡ none → i ≤ j → j < i + n → s j ≢ some d
  unfolding find_dev
  find_dev-none d zero i j e lo hi = ground arith
  find_dev-none d (suc n) i j e lo hi = ground (arith, find_dev-none d n (i + 1) j)

  pub find_other-some :
      (k n i j : ℕ)
      → find_other s k n i ≡ some j
      → (i ≤ j) × (j < i + n) × (j ≢ k) × (is_some (s j) ≡ true)
  unfolding find_other
  find_other-some k zero i j e = ground arith
  find_other-some k (suc n) i j e = ground (arith, find_other-some k n (i + 1) j)

  pub find_other-none :
      (k n i j : ℕ) → find_other s k n i ≡ none → i ≤ j → j < i + n → j ≢ k → is_some (s j) ≡ false
  unfolding find_other
  find_other-none k zero i j e lo hi ne = ground arith
  find_other-none k (suc n) i j e lo hi ne = ground (arith, find_other-none k n (i + 1) j)
