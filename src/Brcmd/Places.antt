-- ===== src/Brcmd/Places.antt =====
-- What a client hears of a call: the packets at places of its list, and the ids that they are for.
use gsconferencing.Base.{
  ℕ, zero, suc, ◌+◌, ◌≤◌, ◌<◌, ◌≡◌, ◌⊎◌, ◌∙◌, ap, refl, Option, none, some, List, [], ◌∷◌, ◌++◌,
  true, false, arith, ◌==◌, if◌then◌else◌, length, length-append, replicate, inr, get_elem?,
}
use mathlib.Core.Path.{subst}
use gsconferencing.Recent.Window.{elem}
use gsconferencing.Brcmd.{Ucmd, Listener, make_brcmd_multi, handle_brcast_cmd}
use gsconferencing.Brcmd.Ints.{Words}
use gsconferencing.Brcmd.Fresh.{left, left-first}
use gsconferencing.Brcmd.Split.{packets, concat, Sized}

-- A client that receives packets one after the other.
unfoldable pub listen : Listener → List Ucmd → Option Listener
listen l [] = some l
listen l (u ∷ us) = elim (handle_brcast_cmd l u) [ none ↦ none | some l1 ↦ listen l1 us ]

-- What a client hears of the packets of a call: those whose places are listed, in that order. Each
-- packet has a thread of its own, which repeats it, so that the order is any and places come again.
unfoldable pub heard : List Ucmd → List ℕ → List Ucmd
heard us [] = []
heard us (j ∷ js) = elim (get_elem? us j) [ none ↦ heard us js | some u ↦ u ∷ heard us js ]

abbrev pub occurrences : ℕ → List ℕ → ℕ
occurrences x [] = 0
occurrences x (y ∷ ys) = (if x == y then 1 else 0) + occurrences x ys

occurrences-append :
    (x : ℕ) (xs ys : List ℕ) → occurrences x (xs ++ ys) ≡ occurrences x xs + occurrences x ys
occurrences-append x [] ys = omega arith
occurrences-append x (y ∷ xs) ys = omega (arith, occurrences-append x xs ys)

elem-occurrences :
    (x : ℕ) (ys : List ℕ)
    → ((elem x ys ≡ true) × (1 ≤ occurrences x ys)) ⊎ ((elem x ys ≡ false) × (occurrences x ys ≡ 0))
elem-occurrences x [] = inr (refl, refl)
elem-occurrences x (y ∷ ys) = ground (arith, elem-occurrences x ys)

Words-append : (xs ys : List ℕ) → Words (xs ++ ys) → Words xs × Words ys
unfolding Words
Words-append [] ys ok = (tt, ok)
Words-append (x ∷ xs) ys (lt, ok) = let (l, r) = Words-append xs ys ok in ((lt, l), r)

pub replicate-snoc : {A : Type 0} (n : ℕ) (a : A) → replicate n a ++ (a ∷ []) ≡ replicate (n + 1) a
replicate-snoc zero a = refl
replicate-snoc {A} (suc n) a =
    ap (λ (r : List A). a ∷ r) (replicate-snoc n a) ∙ ap (λ (k : ℕ). replicate k a) one_more
  where
    one_more : suc (n + 1) ≡ suc n + 1
    one_more = omega arith

pub past_end : {A : Type 0} (xs : List A) (j : ℕ) → get_elem? xs j ≡ none → length xs ≤ j
past_end [] j e = omega arith
past_end (x ∷ xs) zero e = cc
past_end (x ∷ xs) (suc j) e = omega (arith, past_end xs j e)

-- The packet at a place.
abbrev pub packet_at : ℕ → List ℕ → ℕ → Option (List ℕ) → Option Ucmd
packet_at s rep j part = elim part [
  | none ↦ none
  | some c ↦ some (make_brcmd_multi (record { seq = s + j; sent = [] }) rep c)
]

pub packets_at :
    (s : ℕ) (rep : List ℕ) (cs : List (List ℕ)) (j : ℕ)
    → get_elem? (packets s rep cs) j ≡ packet_at s rep j (get_elem? cs j)
unfolding packets make_brcmd_multi
packets_at s rep [] j = refl
packets_at s rep (c ∷ cs) zero =
    ap (λ (t : ℕ). some (make_brcmd_multi (record { seq = t; sent = [] }) rep c)) (omega arith)
packets_at s rep (c ∷ cs) (suc j) = packets_at (s + 1) rep cs j ∙ moved (get_elem? cs j)
  where
    moved : (o : Option (List ℕ)) → packet_at (s + 1) rep j o ≡ packet_at s rep (suc j) o
    moved none = refl
    moved (some p) =
        ap (λ (t : ℕ). some (make_brcmd_multi (record { seq = t; sent = [] }) rep p)) (omega arith)

-- What is known of a part.
pub part_at :
    (cs : List (List ℕ)) (j : ℕ) (c : List ℕ)
    → get_elem? cs j ≡ some c
    → Sized cs
    → Words (concat cs)
    → (j < length cs) × Words c × (length c < 2147483648)
unfolding Sized concat
part_at [] j c e sized ok = cc
part_at (d ∷ cs) zero c e (lo, hi, sized) ok =
    let same : d ≡ c = cc in
    (
      omega arith,
      subst Words same (Words-append d (concat cs) ok).0,
      subst (λ (p : List ℕ). length p < 2147483648) same (omega arith),
    )
part_at (d ∷ cs) (suc j) c e (lo, hi, sized) ok =
    let (lt, words, small) = part_at cs j c e sized (Words-append d (concat cs) ok).1 in
    (omega arith, words, small)

pub length-packets :
    (s : ℕ) (rep : List ℕ) (cs : List (List ℕ)) → length (packets s rep cs) ≡ length cs
unfolding packets
length-packets s rep [] = refl
length-packets s rep (c ∷ cs) = ap suc (length-packets (s + 1) rep cs)

pub parts-le-ids : (cs : List (List ℕ)) → Sized cs → length cs ≤ length (concat cs)
unfolding Sized concat
parts-le-ids [] ok = omega arith
parts-le-ids (c ∷ cs) (lo, hi, ok) = omega (arith, length-append c (concat cs), parts-le-ids cs ok)

-- Whether the part at a place lists the id.
abbrev pub listed_in : ℕ → Option (List ℕ) → ℕ
listed_in id part = elim part [ none ↦ 0 | some c ↦ if elem id c then 1 else 0 ]

abbrev pub listed : ℕ → List (List ℕ) → ℕ → ℕ
listed id cs m = listed_in id (get_elem? cs m)

pub listed-occurrences :
    (id : ℕ) (cs : List (List ℕ))
    → (left (listed id cs) (length cs) [] ≤ occurrences id (concat cs))
      × (1 ≤ occurrences id (concat cs) → 1 ≤ left (listed id cs) (length cs) [])
unfolding concat left
listed-occurrences id [] = (omega arith, λ h. absurd (omega arith))
listed-occurrences id (c ∷ cs) =
    let (most, least) = listed-occurrences id cs in
    (
      ground (
        arith,
        most,
        left-first (listed id (c ∷ cs)) (length cs),
        occurrences-append id c (concat cs),
        elem-occurrences id c,
      ),
      λ some_. ground (
        arith,
        least,
        left-first (listed id (c ∷ cs)) (length cs),
        occurrences-append id c (concat cs),
        elem-occurrences id c,
        some_,
      ),
    )
