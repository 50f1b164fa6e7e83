-- ===== src/Base/Store.antt =====
-- Memory as a function from indices or addresses, written at one place at a time.
use Prim.Native.Nat.{ℕ}
use gsconferencing.Base.Tests.{◌==◌, if◌then◌else◌}

abbrev pub update {ℓ} : {A : Type ℓ} → (ℕ → A) → ℕ → A → ℕ → A
update f i v j = if i == j then v else f j
