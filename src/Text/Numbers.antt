-- ===== src/Text/Numbers.antt =====
-- Numbers that are printed are read back.
use gsconferencing.Base.{
  ℕ, zero, suc, ◌+◌, ◌-◌, ◌*◌, ◌/◌, ◌%◌, ◌<◌, ◌≡◌, refl, ap, ◌∙◌, [], ◌∷◌, ◌++◌, Bool, true, false,
  if-cases, ltb, arith, Bool-cases, inl, inr,
}
use gsconferencing.Text.{Bytes, is_digit, put_digits, print_int, read_digits, atoi}

-- The string is at its end, or goes on with something else than a digit.
abbrev pub Stops : Bytes → Type 0
Stops [] = Unit
Stops (c ∷ cs) = is_digit c ≡ false

pub read_digits-Stops : (n : ℕ) (s : Bytes) → Stops s → read_digits n s ≡ n
unfolding read_digits
read_digits-Stops n [] h = refl
read_digits-Stops n (c ∷ cs) h = rw h refl

digit_lem : (n : ℕ) → is_digit (b'0' + n % 10) ≡ true
digit_lem n = ground arith

-- The digits of `n` are read as `n`.
read_digits-put_digits :
    (k n : ℕ) (out : Bytes) → n < k → read_digits 0 (put_digits k n out) ≡ read_digits n out
unfolding put_digits
read_digits-put_digits zero n out lt = absurd (omega arith)
read_digits-put_digits (suc k) n out lt = elim (Bool-cases (ltb n 10)) [
  | inl small ↦
      let last : 0 * 10 + (b'0' + n % 10 - b'0') ≡ n = ground (arith, small) in
      rw small (unfold read_digits in rw (digit_lem n, last) refl)
  | inr big ↦
      let fewer : n / 10 < k = ground (arith, big) in
      let all : (n / 10) * 10 + (b'0' + n % 10 - b'0') ≡ n = omega arith in
      rw (big, read_digits-put_digits k (n / 10) ((b'0' + n % 10) ∷ out) fewer)
        (unfold read_digits in rw (digit_lem n, all) refl)
]

put_digits-append : (k n : ℕ) (out s : Bytes) → put_digits k n out ++ s ≡ put_digits k n (out ++ s)
unfolding put_digits
put_digits-append zero n out s = refl
put_digits-append (suc k) n out s = elim (Bool-cases (ltb n 10)) [
  | inl small ↦ rw small refl
  | inr big ↦ rw (big, put_digits-append k (n / 10) ((b'0' + n % 10) ∷ out) s) refl
]

-- A number is read back from its decimal print, whatever follows that is no digit.
pub atoi-print_int : (n : ℕ) (s : Bytes) → Stops s → atoi (print_int n ++ s) ≡ n
unfolding atoi print_int
atoi-print_int n s h =
    ap (read_digits 0) (put_digits-append (suc n) n [] s)
    ∙ read_digits-put_digits (suc n) n s (omega arith)
    ∙ read_digits-Stops n s h

-- All bytes fail a test.
abbrev pub Avoids : (ℕ → Bool) → Bytes → Type 0
Avoids delim [] = Unit
Avoids delim (c ∷ cs) = (delim c ≡ false) × Avoids delim cs

put_digits-Avoids :
    (delim : ℕ → Bool) (k n : ℕ) (out : Bytes)
    → ((c : ℕ) → is_digit c ≡ true → delim c ≡ false)
    → Avoids delim out
    → Avoids delim (put_digits k n out)
unfolding put_digits
put_digits-Avoids delim zero n out digits clean = clean
put_digits-Avoids delim (suc k) n out digits clean =
    let one : Avoids delim ((b'0' + n % 10) ∷ out) =
      (digits (b'0' + n % 10) (digit_lem n), clean) in
    if-cases (Avoids delim) (ltb n 10) (λ small. one)
      (λ big. put_digits-Avoids delim k (n / 10) ((b'0' + n % 10) ∷ out) digits one)

-- A printed number has no delimiter, where no digit is one.
pub print_int-Avoids :
    (delim : ℕ → Bool) (n : ℕ)
    → ((c : ℕ) → is_digit c ≡ true → delim c ≡ false)
    → Avoids delim (print_int n)
unfolding print_int
print_int-Avoids delim n digits = put_digits-Avoids delim (suc n) n [] digits tt

-- It has at least one digit, and begins with one.
abbrev pub Begins : Bytes → Type 0
Begins s = (c : ℕ) × (cs : Bytes) × (s ≡ c ∷ cs) × (is_digit c ≡ true)

put_digits-Begins : (k n c : ℕ) (cs : Bytes) → is_digit c ≡ true → Begins (put_digits k n (c ∷ cs))
unfolding put_digits
put_digits-Begins zero n c cs d = (c, cs, refl, d)
put_digits-Begins (suc k) n c cs d =
    if-cases Begins (ltb n 10) (λ small. (b'0' + n % 10, c ∷ cs, refl, digit_lem n))
      (λ big. put_digits-Begins k (n / 10) (b'0' + n % 10) (c ∷ cs) (digit_lem n))

pub print_int-Begins : (n : ℕ) → Begins (print_int n)
unfolding print_int put_digits
print_int-Begins n =
    if-cases Begins (ltb n 10) (λ small. (b'0' + n % 10, [], refl, digit_lem n))
      (λ big. put_digits-Begins n (n / 10) (b'0' + n % 10) [] (digit_lem n))
