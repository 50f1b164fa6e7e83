-- ===== src/Crypt/Tests.antt =====
-- Runs of the encoding at concrete bytes.
use gsconferencing.Base.{ℕ, ◌+◌, ◌≡◌, some, List, [], ◌∷◌, length}
use gsconferencing.Crypt.{encode, decode}
use gsconferencing.Crypt.RoundTrip.{decode-encode}

decode-encode_example :
    (out : List ℕ) × (encode 0x1234 (1 ∷ 2 ∷ 3 ∷ []) ≡ some out)
    × (decode out ≡ some (1 ∷ 2 ∷ 3 ∷ []))
    × (length out ≡ length {A = ℕ} (1 ∷ 2 ∷ 3 ∷ []) + 1)
decode-encode_example = decode-encode 0x1234 (1 ∷ 2 ∷ 3 ∷ [])
