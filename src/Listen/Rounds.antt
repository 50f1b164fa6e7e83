-- ===== src/Listen/Rounds.antt =====
-- The loop of `queue_audio_pack` ends.
use gsconferencing.Base.{ℕ, zero, suc, ◌<◌, ◌≡◌, inl, inr, refl, ap, List, [], ◌∷◌, arith, length}
use gsconferencing.Cfifo
use gsconferencing.Cfifo.Refine.{length-contents}
use gsconferencing.Listen.{
  AudioPack, Intake, advance, enque_pack, get_wait_pack, get_wait_seq, queue_wait, proceed,
}
use gsconferencing.Listen.Keeping.{
  IsListening, waiting, first-cases, empty-true, get_wait_pack_lem, advance-get,
}

pub none_waits : (r : Intake) → IsListening r → waiting r ≡ [] → get_wait_seq r ≡ 0
unfolding get_wait_seq
none_waits r v e = rw (empty-true r v e) refl

pub waiting-advance :
    (r : Intake) (p : AudioPack) (q : List AudioPack)
    → IsListening r
    → waiting r ≡ p ∷ q
    → waiting (advance (get_wait_pack r).1 (get_wait_pack r).0) ≡ q
unfolding advance enque_pack
waiting-advance r p q v e = let (first, rest, ok, seq) = get_wait_pack_lem r p q v e in rest

-- Two bounds on the rounds that are both enough.
queue_wait_enough :
    (tag n m : ℕ) (r : Intake)
    → IsListening r
    → length (waiting r) < n
    → length (waiting r) < m
    → queue_wait tag n r ≡ queue_wait tag m r
unfolding queue_wait
queue_wait_enough tag zero m r v lt lt' = absurd (omega arith)
queue_wait_enough tag (suc n) zero r v lt lt' = absurd (omega arith)
queue_wait_enough tag (suc n) (suc m) r v lt lt' = elim (first-cases r) [
  | inl e ↦ rw (none_waits r v e) refl
  | inr (p, q, e) ↦
      let one = advance-get r p q v e in
      let fewer : length (waiting (advance (get_wait_pack r).1 (get_wait_pack r).0)) ≡ length q =
        ap length (waiting-advance r p q v e) in
      rw
        (queue_wait_enough tag n m (advance (get_wait_pack r).1 (get_wait_pack r).0) one.valid
          (omega (arith, ap length e, fewer)) (omega (arith, ap length e, fewer)))
        refl
]

-- The loop of `queue_audio_pack` ends by itself, after at most as many rounds as packets wait and
-- one more: any greater bound on its rounds gives the same result.
pub proceed-queue_wait :
    (tag n : ℕ) (r : Intake)
    → IsListening r
    → Cfifo.len r.wait_packs < n
    → queue_wait tag n r ≡ proceed tag r
unfolding proceed
proceed-queue_wait tag n r v lt =
    queue_wait_enough tag n (suc (Cfifo.len r.wait_packs)) r v
      (omega (arith, length-contents r.wait_packs)) (omega (arith, length-contents r.wait_packs))
