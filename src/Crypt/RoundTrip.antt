-- ===== src/Crypt/RoundTrip.antt =====
-- What `encode` writes, `decode` reads.
use Prim.Native.Nat.{bit_and, bit_xor}
use gsconferencing.Base.{
  ℕ, zero, suc, ◌+◌, ◌/◌, ◌^◌, ◌<◌, ◌≡◌, refl, ap, some, List, [], ◌∷◌, arith, get_elem?, length,
  bit_and_ones, bit_xor_cancel,
}
use gsconferencing.Crypt.{keydata, crypt_loop, xor_crypt, salt_to_key, encode, decode}

get_elem?-some {ℓ} :
    {A : Type ℓ} (xs : List A) (i : ℕ) → i < length xs → (x : A) × (get_elem? xs i ≡ some x)
get_elem?-some [] i h = elim h [ ]
get_elem?-some (x ∷ xs) zero h = (x, refl)
get_elem?-some (x ∷ xs) (suc i) h = get_elem?-some xs i (omega arith)

-- What a second pass over `out` with the same key gives back.
TwicePassed : List ℕ → ℕ → List ℕ → Type 0
TwicePassed key k bytes =
    (out : List ℕ) × (crypt_loop key k bytes ≡ some out)
    × (crypt_loop key k out ≡ some bytes)
    × (length out ≡ length bytes)

twice_cons :
    (key : List ℕ) (k b : ℕ) (bytes : List ℕ)
    → (x : ℕ) × (get_elem? key k ≡ some x)
    → TwicePassed key (bit_and (k + 1) 15) bytes
    → TwicePassed key k (b ∷ bytes)
unfolding crypt_loop TwicePassed
twice_cons key k b bytes (x, at) (out, there, back, same) = (
  bit_xor b x ∷ out,
  rw (at, there, crypt_loop) refl,
  rw (at, back, bit_xor_cancel b x, crypt_loop) refl,
  ap suc same,
)

-- A second pass with the same key undoes the first, and no byte outside the key is read.
crypt_loop_twice :
    (key : List ℕ) (k : ℕ) (bytes : List ℕ) → length key ≡ 16 → k < 16 → TwicePassed key k bytes
unfolding crypt_loop TwicePassed
crypt_loop_twice key k [] l h = ([], refl, refl, refl)
crypt_loop_twice key k (b ∷ bytes) l h =
    twice_cons key k b bytes (get_elem?-some key k (omega arith))
      (crypt_loop_twice key (bit_and (k + 1) 15) bytes l (omega (arith, bit_and_ones 4 (k + 1))))

key_at : (i : ℕ) → i < 8 → (key : List ℕ) × (get_elem? keydata i ≡ some key) × (length key ≡ 16)
key_at zero h = (_, refl, refl)
key_at (suc zero) h = (_, refl, refl)
key_at (suc (suc zero)) h = (_, refl, refl)
key_at (suc (suc (suc zero))) h = (_, refl, refl)
key_at (suc (suc (suc (suc zero)))) h = (_, refl, refl)
key_at (suc (suc (suc (suc (suc zero))))) h = (_, refl, refl)
key_at (suc (suc (suc (suc (suc (suc zero)))))) h = (_, refl, refl)
key_at (suc (suc (suc (suc (suc (suc (suc zero))))))) h = (_, refl, refl)
key_at (suc (suc (suc (suc (suc (suc (suc (suc i)))))))) h = absurd (omega arith)

decode-encode_with :
    (r : ℕ) (bytes : List ℕ) (key : List ℕ)
    → get_elem? keydata (salt_to_key (bit_and r 0xff)) ≡ some key
    → TwicePassed key 0 bytes
    → (out : List ℕ) × (encode r bytes ≡ some out)
      × (decode out ≡ some bytes)
      × (length out ≡ length bytes + 1)
unfolding encode decode xor_crypt TwicePassed
decode-encode_with r bytes key at (out, there, back, same) =
    (bit_and r 0xff ∷ out, rw (at, there, encode) refl, rw (at, back, xor_crypt) refl, omega arith)

-- Whatever the random number and the bytes, `encode` reads no key and no byte of a key that is not
-- there, what it gives is one byte longer, and `decode` makes the bytes of it again.
pub decode-encode :
    (r : ℕ) (bytes : List ℕ)
    → (out : List ℕ) × (encode r bytes ≡ some out)
      × (decode out ≡ some bytes)
      × (length out ≡ length bytes + 1)
unfolding salt_to_key
decode-encode r bytes =
    let salt = bit_and r 0xff in
    let (key, at, size) =
      key_at (salt_to_key salt) (omega (arith, bit_and_ones 3 (salt / 2 ^ 3))) in
    decode-encode_with r bytes key at (crypt_loop_twice key 0 bytes size (omega arith))
