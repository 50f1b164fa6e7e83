-- ===== src/Listen/Stream.antt =====
-- A stream of packets, each of which may be lost first, and repaired or outdated.
use gsconferencing.Base.{
  ℕ, ◌+◌, ◌≤◌, ◌≡◌, List, [], ◌∷◌, ◌++◌, true, ◌==◌, if◌then◌else◌, length, map,
}
use gsconferencing.Listen.{AudioPack, Intake, packet_seq_outdate}
use gsconferencing.Listen.Keeping.{IsListening, waiting}
use gsconferencing.Listen.Gap.{Numbered, repeat_request}

-- A packet that was lost and comes after `behind`, or the notice that it is outdated.
pub record Episode : Type 0 where
  pub behind : List AudioPack
  pub last : AudioPack

abbrev pub arrivals : Episode → List AudioPack
arrivals g = g.behind ++ (g.last ∷ [])

-- What it has to bring to be heard.
abbrev pub heard : Episode → List AudioPack
heard g = if g.last.kind == packet_seq_outdate then g.behind else g.last ∷ g.behind

-- The packet expected, `s`, is lost, at most three behind it come in order, and then `s` or the
-- notice that it is outdated.
pub record IsGap (s : ℕ) (g : Episode) : Type 0 where
  pub lost : g.last.seq ≡ s
  pub in_order : Numbered (s + 1) g.behind
  pub few : length g.behind ≤ 3

-- A listener for which nothing waits.
pub record IsCalm (r : Intake) (s : ℕ) : Type 0 where
  pub valid : IsListening r
  pub retransmits : r.enable_retransmit ≡ true
  pub calm : waiting r ≡ []
  pub expects : r.expect_seq ≡ s

record Healed (r : Intake) (s : ℕ) (g : Episode) (r' : Intake) : Type 0 where
  calm : IsCalm r' (s + 1 + length g.behind)
  all : r'.played ≡ r.played ++ heard g
  asked : r'.requests ≡ r.requests ++ map (repeat_request s) g.behind

-- Gaps that follow each other from number `s` on: a gap with nothing behind is a packet in time.
abbrev pub Gaps : ℕ → List Episode → Type 0
Gaps s [] = Unit
Gaps s (g ∷ gs) = IsGap s g × Gaps (s + 1 + length g.behind) gs

-- The number after the last one.
unfoldable pub end_of : ℕ → List Episode → ℕ
end_of s [] = s
end_of s (g ∷ gs) = end_of (s + 1 + length g.behind) gs

unfoldable pub all_arrivals : List Episode → List AudioPack
all_arrivals [] = []
all_arrivals (g ∷ gs) = arrivals g ++ all_arrivals gs

unfoldable pub all_heard : List Episode → List AudioPack
all_heard [] = []
all_heard (g ∷ gs) = heard g ++ all_heard gs

unfoldable pub all_requests : ℕ → List Episode → List (ℕ × ℕ)
all_requests s [] = []
all_requests s (g ∷ gs) =
    map (repeat_request s) g.behind ++ all_requests (s + 1 + length g.behind) gs
