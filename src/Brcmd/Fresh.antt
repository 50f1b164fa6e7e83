-- ===== src/Brcmd/Fresh.antt =====
-- The numbers of the packets of one call in a client's ring, whatever order they come in.
use gsconferencing.Base.{
  ℕ, zero, suc, ◌+◌, ◌-◌, ◌%◌, ◌^◌, ◌≤◌, ◌<◌, ◌≡◌, ◌∙◌, ap, ap₂, refl, List, [], ◌∷◌, ◌++◌, Bool,
  true, false, arith, ◌==◌, if-false, if◌then◌else◌, take, length,
}
use gsconferencing.Recent.{Recent, recent_test}
use gsconferencing.Recent.Window.{IsRing, window, elem, recent_test-window_lem}

-- The 16 bits that packet `j` of a call has for its number.
abbrev pub number : ℕ → ℕ → ℕ
number s j = (s + j + 1) % 65536

-- None of the `n` numbers after `s` is in the ring.
unfoldable pub AreFresh : Recent → ℕ → ℕ → Type 0
AreFresh r s n = (j : ℕ) → j < n → elem (number s j) (window r) ≡ false

-- The sum of `f` below `n`, without the places that are listed.
unfoldable pub left : (ℕ → ℕ) → ℕ → List ℕ → ℕ
left f zero js = 0
left f (suc m) js = (if elem m js then 0 else f m) + left f m js

left-above : (f : ℕ → ℕ) (n j : ℕ) (js : List ℕ) → n ≤ j → left f n (j ∷ js) ≡ left f n js
unfolding left
left-above f zero j js le = refl
left-above f (suc m) j js le = ground (arith, left-above f m j js (omega arith))

pub left-cons :
    (f : ℕ → ℕ) (n j : ℕ) (js : List ℕ)
    → j < n
    → elem j js ≡ false
    → f j + left f n (j ∷ js) ≡ left f n js
unfolding left
left-cons f zero j js lt out = absurd (omega arith)
left-cons f (suc m) j js lt out = ground (arith, left-cons f m j js, left-above f m j js)

pub left-all :
    (f : ℕ → ℕ) (n : ℕ) (js : List ℕ) → ((m : ℕ) → m < n → elem m js ≡ true) → left f n js ≡ 0
unfolding left
left-all f zero js all = refl
left-all f (suc m) js all =
    ground (arith, all m (omega arith), left-all f m js (λ i lt. all i (omega arith)))

pub left-first : (f : ℕ → ℕ) (n : ℕ) → left f (suc n) [] ≡ f 0 + left (λ m. f (suc m)) n []
unfolding left
left-first f zero = refl
left-first f (suc n) = omega (arith, left-first f n)

pub left-ones : (n : ℕ) → left (λ _. 1) n [] ≡ n
unfolding left
left-ones zero = refl
left-ones (suc n) = omega (arith, left-ones n)

elem-take : (n x : ℕ) (ys : List ℕ) → elem x ys ≡ false → elem x (take n ys) ≡ false
elem-take zero x ys e = refl
elem-take (suc n) x [] e = refl
elem-take (suc n) x (y ∷ ys) e = ground (arith, elem-take n x ys)

take-append :
    (n : ℕ) (xs ys : List ℕ) → length xs ≤ n → take n (xs ++ ys) ≡ xs ++ take (n - length xs) ys
take-append n [] ys le = ap (λ (m : ℕ). take m ys) (omega arith)
take-append zero (x ∷ xs) ys le = absurd (omega arith)
take-append (suc n) (x ∷ xs) ys le =
    ap (λ (r : List ℕ). x ∷ r)
      (take-append n xs ys (omega arith) ∙ ap (λ (m : ℕ). xs ++ take m ys) (omega arith))

abbrev numbers : ℕ → List ℕ → List ℕ
numbers s [] = []
numbers s (j ∷ js) = number s j ∷ numbers s js

length-numbers : (s : ℕ) (js : List ℕ) → length (numbers s js) ≡ length js
length-numbers s [] = refl
length-numbers s (j ∷ js) = ap suc (length-numbers s js)

-- The ring when the packets `js` of a call of `n` packets have come, each once, the latest first.
pub record Holds (s n : ℕ) (r : Recent) (js : List ℕ) : Type 0 where
  pub rest : List ℕ
  pub shape : window r ≡ numbers s js ++ rest
  pub old : (m : ℕ) → m < n → elem (number s m) rest ≡ false
  pub below : (m : ℕ) → elem m js ≡ true → m < n
  pub counted : length js + left (λ _. 1) n js ≡ n

module _ (s n : ℕ) (few : n ≤ 65536) where
  elem-numbers :
      (m : ℕ) (js rest : List ℕ)
      → m < n
      → elem (number s m) rest ≡ false
      → ((i : ℕ) → elem i js ≡ true → i < n)
      → elem (number s m) (numbers s js ++ rest) ≡ elem m js
  elem-numbers m [] rest lt old below = old
  elem-numbers m (j ∷ js) rest lt old below =
      let rec = elem-numbers m js rest lt old (λ i at. below i (ground (arith, at))) in
      let lt_j : j < n = below j (ground arith) in
      ap₂ (λ (b c : Bool). if b then true else c) (same_number lt_j) rec
    where
      same_number : j < n → (number s m == number s j) ≡ (m == j)
      same_number lt_j = ground arith

  module _ {k : ℕ} {r : Recent} {js : List ℕ} (v : IsRing k r) (h : Holds s n r js) where
    pub Holds-known : (m : ℕ) → m < n → elem (number s m) (window r) ≡ elem m js
    Holds-known m lt =
        ap (elem (number s m)) h.shape ∙ elem-numbers m js h.rest lt (h.old m lt) h.below

    pub Holds-cons :
        (j : ℕ)
        → j < n
        → elem j js ≡ false
        → n ≤ 2 ^ k
        → Holds s n (recent_test r (number s j)).1 (j ∷ js)
    Holds-cons j lt out room = record {
      rest = take (r.size - 1 - length (numbers s js)) h.rest;
      shape =
          (recent_test-window_lem (number s j) v).1
          ∙ if-false (window r) (Holds-known j lt ∙ out)
          ∙ ap (λ (w : List ℕ). number s j ∷ take (r.size - 1) w) h.shape
          ∙ ap (λ (w : List ℕ). number s j ∷ w)
              (take-append (r.size - 1) (numbers s js) h.rest (
                omega (
                  arith,
                  length-numbers s js,
                  h.counted,
                  left-cons (λ _. 1) n j js lt out,
                  room,
                  v.sized,
                )));
      old = λ m lt_m. elem-take _ (number s m) h.rest (h.old m lt_m);
      below = λ m at. ground (arith, h.below m);
      counted = omega (arith, h.counted, left-cons (λ _. 1) n j js lt out);
    }
