-- ===== src/Listen/Asking.antt =====
-- As long as packets wait, the one expected has been asked for.
use gsconferencing.Base.{ℕ, ◌≡◌, ◌≢◌, ◌⊎◌, List, [], ◌∷◌, ◌++◌, true}
use gsconferencing.Cfifo
use gsconferencing.Listen.{AudioPack, Intake}
use gsconferencing.Listen.Keeping.{IsListening, waiting}

-- No packet that waits has the number 0.
abbrev pub Nonzero : List AudioPack → Type 0
Nonzero [] = Unit
Nonzero (p ∷ ps) = (p.seq ≢ 0) × Nonzero ps

-- Nothing waits, or the latest request is for the packet expected.
abbrev pub Asks : Intake → Type 0
Asks r =
    (waiting r ≡ [])
    ⊎ ((tag : ℕ) × (earlier : List (ℕ × ℕ)) × (r.requests ≡ earlier ++ ((tag, r.expect_seq) ∷ [])))

pub record IsAsking (r : Intake) : Type 0 where
  pub valid : IsListening r
  pub retransmits : r.enable_retransmit ≡ true
  pub nonzero : Nonzero (waiting r)
  pub asks : Asks r

-- The same without the request, where the loop starts.
record IsReady (r : Intake) : Type 0 where
  valid : IsListening r
  retransmits : r.enable_retransmit ≡ true
  nonzero : Nonzero (waiting r)
