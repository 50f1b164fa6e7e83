-- ===== src/Crypt.antt =====
-- include/encode.h: the exclusive or with a key that a random byte chooses. A buffer is the list of
-- its bytes; `rand` is an argument.
pub mod RoundTrip
mod Tests
use Prim.Native.Nat.{bit_and, bit_xor}
use gsconferencing.Base.{
  ℕ, zero, suc, ◌+◌, ◌/◌, ◌%◌, ◌^◌, Option, none, some, List, [], ◌∷◌, get_elem?,
}

abbrev pub keydata : List (List ℕ)
keydata =
    (0xd2 ∷ 0x8f ∷ 0xed ∷ 0x4f ∷ 0x20 ∷ 0x28 ∷ 0xb5 ∷ 0x64 ∷ 0x47 ∷ 0x0d ∷ 0x25 ∷ 0xb0 ∷ 0x84 ∷ 0x11
      ∷ 0x6e ∷ 0xad ∷ [])
    ∷ (0x7c ∷ 0x50 ∷ 0x4f ∷ 0x29 ∷ 0x8b ∷ 0x61 ∷ 0x06 ∷ 0x9c ∷ 0xf9 ∷ 0xfa ∷ 0xfb ∷ 0xd0 ∷ 0xca
        ∷ 0x0b ∷ 0x14 ∷ 0x39 ∷ [])
    ∷ (0x39 ∷ 0xe3 ∷ 0x6b ∷ 0xe0 ∷ 0xf2 ∷ 0x48 ∷ 0x1f ∷ 0xd4 ∷ 0x28 ∷ 0xcb ∷ 0x52 ∷ 0x3e ∷ 0x93
        ∷ 0x61 ∷ 0x3d ∷ 0xec ∷ [])
    ∷ (0xe0 ∷ 0x3d ∷ 0xf8 ∷ 0x17 ∷ 0xa7 ∷ 0xb6 ∷ 0x3d ∷ 0xad ∷ 0x62 ∷ 0x53 ∷ 0xc8 ∷ 0x82 ∷ 0xcc
        ∷ 0xc8 ∷ 0x4f ∷ 0x45 ∷ [])
    ∷ (0xfb ∷ 0xfa ∷ 0x58 ∷ 0x77 ∷ 0xf1 ∷ 0x81 ∷ 0x35 ∷ 0x4d ∷ 0x77 ∷ 0x91 ∷ 0x7e ∷ 0x5e ∷ 0x86
        ∷ 0xe7 ∷ 0x25 ∷ 0x0d ∷ [])
    ∷ (0x1a ∷ 0xd1 ∷ 0xd0 ∷ 0x01 ∷ 0xcb ∷ 0x71 ∷ 0x42 ∷ 0x30 ∷ 0x99 ∷ 0x6a ∷ 0x6b ∷ 0xe8 ∷ 0x66
        ∷ 0xd6 ∷ 0x88 ∷ 0x1d ∷ [])
    ∷ (0x05 ∷ 0x36 ∷ 0xee ∷ 0x70 ∷ 0x70 ∷ 0x1e ∷ 0x8d ∷ 0x2f ∷ 0x55 ∷ 0xad ∷ 0xaa ∷ 0x2c ∷ 0xdb
        ∷ 0x60 ∷ 0x96 ∷ 0xd7 ∷ [])
    ∷ (0x61 ∷ 0x4f ∷ 0x4a ∷ 0x76 ∷ 0x76 ∷ 0xd4 ∷ 0x82 ∷ 0x68 ∷ 0xcb ∷ 0x0b ∷ 0x57 ∷ 0x33 ∷ 0xb7
        ∷ 0x85 ∷ 0xa5 ∷ 0x63 ∷ [])
    ∷ []

-- The loop of `xor_crypt`: `none` for a read outside the key.
unfoldable pub crypt_loop : List ℕ → ℕ → List ℕ → Option (List ℕ)
crypt_loop key k [] = some []
crypt_loop key k (b ∷ bs) =
    let rest = crypt_loop key (bit_and (k + 1) 15) bs in
    elim (get_elem? key k) [
      | none ↦ none
      | some x ↦ elim rest [ none ↦ none | some cs ↦ some (bit_xor b x ∷ cs) ]
    ]

unfoldable pub xor_crypt : List ℕ → ℕ → Option (List ℕ)
xor_crypt bytes keyindex = elim (get_elem? keydata keyindex) [
  | none ↦ none
  | some key ↦ crypt_loop key 0 bytes
]

unfoldable pub salt_to_key : ℕ → ℕ
salt_to_key salt = bit_and (salt / 2 ^ 3) 7

unfoldable pub encode : ℕ → List ℕ → Option (List ℕ)
encode random bytes =
    let salt = bit_and random 0xff in
    elim (xor_crypt bytes (salt_to_key salt)) [ none ↦ none | some out ↦ some (salt ∷ out) ]

-- Of no bytes at all the code reads a salt that is not there.
unfoldable pub decode : List ℕ → Option (List ℕ)
decode [] = none
decode (salt ∷ bytes) = xor_crypt bytes (salt_to_key salt)
