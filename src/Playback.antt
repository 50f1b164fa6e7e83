-- ===== src/Playback.antt =====
-- client/pcm.c: channels of sound are joined and doubled in the buffer itself; and include/cksum.h,
-- which prints a check sum in the same manner. Memory is a function from addresses, of samples or of
-- bytes. The hash of sha/sha128.c is an argument.
pub mod Spread
pub mod Channels
pub mod Cksum
mod Tests
use Prim.Native.Nat.{bit_xor}
use gsconferencing.Base.{
  ℕ, zero, suc, ◌+◌, ◌-◌, ◌*◌, ◌/◌, ◌%◌, List, [], ◌∷◌, Option, none, some, get_elem?, ltb,
  if◌then◌else◌, update, ℤ,
}

-- The loop of `pcm_stereo_to_mono`: sample `i` of `n`, of which `left` are left.
unfoldable pub mono_loop : ℕ → ℕ → ℕ → (ℕ → ℤ) → ℕ → ℤ
mono_loop buf i zero mem = mem
mono_loop buf i (suc left) mem =
    mono_loop buf (i + 1) left (update mem (buf + i) (mem (buf + i * 2)))

-- It returns the new length as well.
unfoldable pub pcm_stereo_to_mono : (ℕ → ℤ) → ℕ → ℕ → (ℕ → ℤ) × ℕ
pcm_stereo_to_mono mem buf len = (mono_loop buf 0 (len / 4) mem, len / 2)

-- The loop of `pcm_mono_to_stereo` down from `i = odd + 2 * k - 2`.
unfoldable pub stereo_loop : ℕ → ℕ → ℕ → (ℕ → ℤ) → ℕ → ℤ
stereo_loop buf odd zero mem = mem
stereo_loop buf odd (suc k) mem =
    let i = odd + 2 * k in
    let v = mem (buf + i / 2) in
    stereo_loop buf odd k (update (update mem (buf + i) v) (buf + i + 1) v)

unfoldable pub pcm_mono_to_stereo : (ℕ → ℤ) → ℕ → ℕ → (ℕ → ℤ) × ℕ
pcm_mono_to_stereo mem buf len = (stereo_loop buf (len % 2) (len / 2) mem, len * 2)

-- `h(t)`
abbrev pub digit : ℕ → ℕ
digit t = if ltb t 10 then b'#' + t else b':' + (t - 10)

-- `i2a` of the byte `v` to `a`.
unfoldable pub i2a : (ℕ → ℕ) → ℕ → ℕ → ℕ → ℕ
i2a mem v a = update (update mem a (digit (v / 16))) (a + 1) (digit (v % 16))

-- The loop from `i = k - 1` down, and the NUL.
unfoldable pub print_loop : ℕ → ℕ → (ℕ → ℕ) → ℕ → ℕ
print_loop sum zero mem = mem
print_loop sum (suc k) mem = print_loop sum k (i2a mem (mem (sum + k)) (sum + k * 2))

abbrev pub salt : List ℕ
salt =
    0x29 ∷ 0x55 ∷ 0xba ∷ 0xb3 ∷ 0x9e ∷ 0xbc ∷ 0xe4 ∷ 0xf3 ∷ 0x5b ∷ 0x71 ∷ 0x12 ∷ 0x45 ∷ 0xe8 ∷ 0xc6
    ∷ 0x6f ∷ 0xd5 ∷ []

-- The exclusive or with the salt, word by word, from byte `i` on.
unfoldable pub salt_loop : ℕ → (ℕ → ℕ) → List ℕ → ℕ → ℕ
salt_loop a mem [] = mem
salt_loop a mem (s ∷ ss) = salt_loop (a + 1) (update mem a (bit_xor (mem a) s)) ss

-- `cksum` of some data whose hash, 16 bytes, `shaHashData` has written to `sum` in `mem`.
unfoldable pub cksum : (ℕ → ℕ) → ℕ → ℕ → ℕ
cksum mem sum = update (print_loop sum 16 (salt_loop sum mem salt)) (sum + 32) 0
