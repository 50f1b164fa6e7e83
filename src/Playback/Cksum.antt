-- ===== src/Playback/Cksum.antt =====
-- The printed check sum tells hashes apart.
use Prim.Native.Nat.{bit_xor}
use gsconferencing.Base.{
  ℕ, zero, suc, ◌+◌, ◌*◌, ◌/◌, ◌%◌, ◌<◌, ◌≡◌, refl, sym, ap, ◌∙◌, inl, inr, true, false, ◌==◌,
  arith, update, List, [], ◌∷◌, Bool-cases, bit_xor_cancel, bit_xor-lt,
}
use gsconferencing.Playback.{digit, i2a, print_loop, salt, salt_loop, cksum}
use gsconferencing.Playback.Spread.{spread, spread_lem}

abbrev high : ℕ → ℕ
high v = digit (v / 16)

abbrev low : ℕ → ℕ
low v = digit (v % 16)

print_loop-spread : (sum k : ℕ) (mem : ℕ → ℕ) → print_loop sum k mem ≡ spread high low sum 0 k mem
unfolding print_loop spread i2a
print_loop-spread sum zero mem = refl
print_loop-spread sum (suc k) mem =
    let at : sum + k * 2 ≡ sum + 0 + 2 * k = omega arith in rw at (print_loop-spread sum k _)

-- No two of the 16 digits are the same character.
digit_cancel : (s t : ℕ) → s < 16 → t < 16 → digit s ≡ digit t → s ≡ t
digit_cancel s t hs ht e = ground arith

byte_cancel : (v w : ℕ) → v < 256 → w < 256 → high v ≡ high w → low v ≡ low w → v ≡ w
byte_cancel v w hv hw e f =
    let top : v / 16 ≡ w / 16 = digit_cancel (v / 16) (w / 16) (omega arith) (omega arith) e in
    let rest : v % 16 ≡ w % 16 = digit_cancel (v % 16) (w % 16) (omega arith) (omega arith) f in
    omega arith

-- The salt takes nothing away.
salt_loop_cancel :
    (ss : List ℕ) (a : ℕ) (mem mem' : ℕ → ℕ) (x : ℕ)
    → salt_loop a mem ss x ≡ salt_loop a mem' ss x
    → mem x ≡ mem' x
unfolding salt_loop
salt_loop_cancel [] a mem mem' x e = e
salt_loop_cancel (s ∷ ss) a mem mem' x e =
    let later =
      salt_loop_cancel ss (a + 1) (update mem a (bit_xor (mem a) s))
        (update mem' a (bit_xor (mem' a) s)) x e in
    elim (Bool-cases (a == x)) [
      | inr other ↦ rw other at later
      | inl here ↦
          let same : a ≡ x = ground (arith, here) in
          let both : bit_xor (mem a) s ≡ bit_xor (mem' a) s = rw here at later in
          sym (ap mem same)
          ∙ sym (bit_xor_cancel (mem a) s)
          ∙ ap (λ (v : ℕ). bit_xor v s) both
          ∙ bit_xor_cancel (mem' a) s
          ∙ ap mem' same
    ]

abbrev AreBytes : List ℕ → Type 0
AreBytes [] = Unit
AreBytes (b ∷ bs) = (b < 256) × AreBytes bs

salt_loop-lt :
    (ss : List ℕ) (a : ℕ) (mem : ℕ → ℕ) (x : ℕ)
    → AreBytes ss
    → mem x < 256
    → salt_loop a mem ss x < 256
unfolding salt_loop
salt_loop-lt [] a mem x bytes lt = lt
salt_loop-lt (s ∷ ss) a mem x (small, bytes) lt =
    salt_loop-lt ss (a + 1) (update mem a (bit_xor (mem a) s)) x bytes (elim (Bool-cases (a == x)) [
      | inr other ↦ rw other lt
      | inl here ↦
          let same : a ≡ x = ground (arith, here) in
          let byte : mem a < 256 = omega (arith, ap mem same) in
          rw here (bit_xor-lt 8 (mem a) s byte small)
    ])

salt_bytes : AreBytes salt
salt_bytes = (
  omega arith,
  (
    omega arith,
    (
      omega arith,
      (
        omega arith,
        (
          omega arith,
          (
            omega arith,
            (
              omega arith,
              (
                omega arith,
                (
                  omega arith,
                  (
                    omega arith,
                    (
                      omega arith,
                      (omega arith, (omega arith, (omega arith, (omega arith, (omega arith, tt))))),
                    ),
                  ),
                ),
              ),
            ),
          ),
        ),
      ),
    ),
  ),
)

printed :
    (mem : ℕ → ℕ) (sum j : ℕ)
    → j < 16
    → (cksum mem sum (sum + 0 + 2 * j) ≡ high (salt_loop sum mem salt (sum + j)))
      × (cksum mem sum (sum + 0 + 2 * j + 1) ≡ low (salt_loop sum mem salt (sum + j)))
unfolding cksum
printed mem sum j lt =
    let (first, second) = spread_lem high low sum 0 16 (salt_loop sum mem salt) j lt in
    let loop = print_loop-spread sum 16 (salt_loop sum mem salt) in
    let before : (sum + 32 == sum + 0 + 2 * j) ≡ false = ground arith in
    let before' : (sum + 32 == sum + 0 + 2 * j + 1) ≡ false = ground arith in
    (
      rw before (ap (λ (m : ℕ → ℕ). m (sum + 0 + 2 * j)) loop ∙ first),
      rw before' (ap (λ (m : ℕ → ℕ). m (sum + 0 + 2 * j + 1)) loop ∙ second),
    )

-- Check sums that agree in their 32 characters are those of the same hash: no byte of it is lost in
-- the salt or in the printing, which goes on in the buffer of the hash itself; and the string ends
-- behind the 32 characters.
pub cksum_cancel :
    (mem mem' : ℕ → ℕ) (sum j : ℕ)
    → j < 16
    → mem (sum + j) < 256
    → mem' (sum + j) < 256
    → ((i : ℕ) → i < 32 → cksum mem sum (sum + i) ≡ cksum mem' sum (sum + i))
    → (mem (sum + j) ≡ mem' (sum + j)) × (cksum mem sum (sum + 32) ≡ 0)
cksum_cancel mem mem' sum j lt byte byte' same =
    let (first, second) = printed mem sum j lt in
    let (first', second') = printed mem' sum j lt in
    let at : sum + 0 + 2 * j ≡ sum + 2 * j = omega arith in
    let at' : sum + 0 + 2 * j + 1 ≡ sum + (2 * j + 1) = omega arith in
    let top : high (salt_loop sum mem salt (sum + j)) ≡ high (salt_loop sum mem' salt (sum + j)) =
      sym first
      ∙ ap (cksum mem sum) at
      ∙ same (2 * j) (omega arith)
      ∙ ap (cksum mem' sum) (sym at)
      ∙ first' in
    let rest : low (salt_loop sum mem salt (sum + j)) ≡ low (salt_loop sum mem' salt (sum + j)) =
      sym second
      ∙ ap (cksum mem sum) at'
      ∙ same (2 * j + 1) (omega arith)
      ∙ ap (cksum mem' sum) (sym at')
      ∙ second' in
    (
      salt_loop_cancel salt sum mem mem' (sum + j) (
          byte_cancel _ _ (salt_loop-lt salt sum mem (sum + j) salt_bytes byte)
            (salt_loop-lt salt sum mem' (sum + j) salt_bytes byte') top rest),
      (let here : (sum + 32 == sum + 32) ≡ true = ground arith in unfold cksum in rw here refl),
    )
