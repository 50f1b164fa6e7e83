-- ===== src/Vote/Choices.antt =====
-- The choices of one `result` command and the results they are counted in.
use gsconferencing.Base.{
  ℕ, ◌+◌, ◌≡◌, refl, Option, none, some, List, [], ◌∷◌, Bool, true, false, not, ◌&&◌, ◌||◌, arith,
  ◌==◌, if◌then◌else◌, Bool-cases, inl, inr, ltb, ℤ, pos, negsuc,
}
use gsconferencing.Vote.{Ballot, add_choice, add_choices, vote_score, results_size}

-- How often the option `o` is chosen.
unfoldable pub occurs : ℕ → List ℤ → ℕ
occurs o [] = 0
occurs o (pos i ∷ ts) = (if i == o then 1 else 0) + occurs o ts
occurs o (negsuc n ∷ ts) = occurs o ts

-- The choices for `o` that a vote of this kind has a place for.
unfoldable pub places : Ballot → ℕ → Bool
places b o = not (b.kind == vote_score) && ltb o results_size

unfoldable pub no_negative : List ℤ → Bool
no_negative [] = true
no_negative (pos i ∷ ts) = no_negative ts
no_negative (negsuc n ∷ ts) = false

-- Choices that write nothing outside the results: none is negative, or the vote counts none.
unfoldable pub ok_choices : Ballot → List ℤ → Bool
ok_choices b ts = no_negative ts || b.kind == vote_score

-- What the choices make of a vote.
unfoldable pub Added : Ballot → List ℤ → Option Ballot → Type 0
Added b ts none = ok_choices b ts ≡ false
Added b ts (some b') =
    (ok_choices b ts ≡ true)
    × (b'.kind ≡ b.kind)
    × (b'.cn_options ≡ b.cn_options)
    × ((o : ℕ) → b'.results o ≡ b.results o + (if places b o then occurs o ts else 0))

Added-pos :
    (b b1 : Ballot) (i : ℕ) (ts : List ℤ) (o : Option Ballot)
    → some b1 ≡ add_choice b (pos i)
    → Added b1 ts o
    → Added b (pos i ∷ ts) o
unfolding Added add_choice ok_choices no_negative places occurs
Added-pos b b1 i ts none e h = ground (arith, e)
Added-pos b b1 i ts (some b') e (fine, kind, cn, grown) =
    (ground (arith, e), ground (arith, e), ground (arith, e), λ o. ground (arith, e, grown o))

Added-negsuc :
    (b : Ballot) (n : ℕ) (ts : List ℤ) (o : Option Ballot)
    → (b.kind == vote_score) ≡ true
    → Added b ts o
    → Added b (negsuc n ∷ ts) o
unfolding Added ok_choices no_negative places occurs
Added-negsuc b n ts none score h = ground arith
Added-negsuc b n ts (some b') score (fine, kind, cn, grown) =
    (score, kind, cn, λ o. ground (arith, grown o))

pub add_choices-Added : (ts : List ℤ) (b : Ballot) → Added b ts (add_choices b ts)
unfolding Added add_choices add_choice ok_choices no_negative occurs
add_choices-Added [] b = (refl, refl, refl, λ o. ground arith)
add_choices-Added (pos i ∷ ts) b = Added-pos b _ i ts _ refl (add_choices-Added ts _)
add_choices-Added (negsuc n ∷ ts) b = elim (Bool-cases (b.kind == vote_score)) [
  | inl score ↦
      rw (score, add_choices, add_choice) (Added-negsuc b n ts _ score (add_choices-Added ts b))
  | inr other ↦ rw (other, add_choices, add_choice) other
]
