-- ===== src/Listen/Taking.antt =====
-- Every packet taken is played or waits, once.
use gsconferencing.Base.{◌+◌, ◌≡◌, List, [], ◌∷◌, Bool, ◌==◌, if◌then◌else◌}
use gsconferencing.Cfifo
use gsconferencing.Cfifo.{Cfifo}
use gsconferencing.Listen.{AudioPack, Intake, is_late, recved, packet_seq_outdate}
use gsconferencing.Listen.Keeping.{IsListening, count, held}

-- One packet comes in addition.
record Takes (r : Intake) (p : AudioPack) (r' : Intake) : Type 0 where
  valid : IsListening r'
  more : (t : AudioPack → Bool) → held t r' ≡ held t r + count t (p ∷ [])

-- The packets that are not notices, and not late when they come.
unfoldable pub taken : Intake → List AudioPack → List AudioPack
taken r [] = []
taken r (p ∷ ps) =
    let rest = taken (recved r p) ps in
    if p.kind == packet_seq_outdate then rest else if is_late r p then rest else p ∷ rest
