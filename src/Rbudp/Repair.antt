-- ===== src/Rbudp/Repair.antt =====
-- What the sender does with requests: it has the latest 32 packets, and answers a bounded number of
-- times for each.
use Prim.Native.Nat.{bit_and}
use gsconferencing.Base.{
  ℕ, zero, suc, ◌+◌, ◌-◌, ◌%◌, ◌≤◌, ◌<◌, ◌≡◌, ◌≢◌, refl, ap, ◌∙◌, List, [], ◌∷◌, true, false, ◌&&◌,
  arith, ◌==◌, ==_iff, ◌⊎◌, if◌then◌else◌, if-true, if-false, length, Bool-cases, inl, inr, ltb,
  bit_and_ones,
}
use gsconferencing.Rbudp.{
  RbudpPacket, retran, repair, Sender, Reply, silent, to_requester, to_all, broadcast, next_seq,
  u16_mod, repeat_slot, retransmit, rep_mask, is_retran,
}

abbrev pub request_for : ℕ → ℕ → RbudpPacket
request_for tag q = record { tag = tag; kind = retran; seq = q; extra = 0; body = [] }

-- The sender after it has broadcast some messages.
unfoldable pub after_all : Sender → ℕ → List (List ℕ) → Sender
after_all s tag [] = s
after_all s tag (m ∷ ms) = after_all (broadcast s tag 0 m true).1 tag ms

slot : (q : ℕ) → bit_and q rep_mask ≡ q % 32
slot q = bit_and_ones 5 q

keeps_slot :
    (ms : List (List ℕ)) (s : Sender) (tag q : ℕ)
    → q ≤ s.seq
    → s.seq + length ms < q + 32
    → s.seq + length ms < u16_mod
    → (after_all s tag ms).rep_bufs (bit_and q rep_mask) ≡ s.rep_bufs (bit_and q rep_mask)
unfolding after_all
keeps_slot [] s tag q lo near fits = refl
keeps_slot (m ∷ ms) s tag q lo near fits =
    let next : (broadcast s tag 0 m true).1.seq ≡ s.seq + 1 = unfold broadcast in ground arith in
    let apart : (bit_and (next_seq s.seq) rep_mask == bit_and q rep_mask) ≡ false =
      ground (arith, slot (next_seq s.seq), slot q) in
    keeps_slot ms (broadcast s tag 0 m true).1 tag q (omega (arith, next)) (omega (arith, next))
      (omega (arith, next))
    ∙ (unfold broadcast in if-false _ apart)

retransmit_unasked :
    (s : Sender) (tag q : ℕ)
    → (s.rep_bufs (bit_and q rep_mask)).seq ≡ q
    → s.rep_seq (bit_and q rep_mask) ≢ q
    → (retransmit s (request_for tag q)).0 ≡ to_requester (s.rep_bufs (bit_and q rep_mask))
unfolding retransmit repeat_slot
retransmit_unasked s tag q held unasked =
    let same : ((s.rep_bufs (bit_and q rep_mask)).seq == q) ≡ true = ground (arith, held) in
    let new : (s.rep_seq (bit_and q rep_mask) == q) ≡ false = ground arith in
    rw (same, retransmit, new, repeat_slot) refl

broadcast_slot :
    (s : Sender) (tag extra : ℕ) (m : List ℕ)
    → s.seq + 1 < u16_mod
    → ((broadcast s tag extra m true).1.seq ≡ s.seq + 1)
      × ((broadcast s tag extra m true).1.rep_bufs (bit_and (s.seq + 1) rep_mask)
          ≡ record (broadcast s tag extra m true).0 { kind = repair })
      × ((broadcast s tag extra m true).0.seq ≡ s.seq + 1)
unfolding broadcast
broadcast_slot s tag extra m fits =
    let plain : next_seq s.seq ≡ s.seq + 1 = ground arith in
    let here : (bit_and (next_seq s.seq) rep_mask == bit_and (s.seq + 1) rep_mask) ≡ true =
      (==_iff _ _).1 (ap (λ (q : ℕ). bit_and q rep_mask) plain) in
    (plain, if-true _ here, plain)

-- A packet is still there when at most 31 others were broadcast after it and the sequence numbers
-- have not wrapped round: the first request for it is answered by the same packet, marked as repaired
-- and sent to the requester only, if no request for it came before.
pub first_repair :
    (s : Sender) (tag extra : ℕ) (m : List ℕ) (ms : List (List ℕ))
    → length ms ≤ 31
    → s.seq + 1 + length ms < u16_mod
    → (after_all (broadcast s tag extra m true).1 tag ms).rep_seq (bit_and (s.seq + 1) rep_mask)
      ≢ s.seq + 1
    → (retransmit
        (after_all (broadcast s tag extra m true).1 tag ms)
        (request_for tag (s.seq + 1))).0
      ≡ to_requester (record (broadcast s tag extra m true).0 { kind = repair })
first_repair s tag extra m ms few fits unasked =
    let (now, stored, sent) = broadcast_slot s tag extra m (omega arith) in
    let held =
      keeps_slot ms (broadcast s tag extra m true).1 tag (s.seq + 1) (omega (arith, now))
        (omega (arith, now)) (omega (arith, now))
      ∙ stored in
    retransmit_unasked (after_all (broadcast s tag extra m true).1 tag ms) tag (s.seq + 1)
      (ap (λ (p : RbudpPacket). p.seq) held ∙ sent) unasked
    ∙ ap to_requester held

-- How many of `n` equal requests are answered.
abbrev pub answers : Reply → ℕ
answers silent = 0
answers (to_requester p) = 1
answers (to_all p) = 1

unfoldable pub answered : ℕ → Sender → RbudpPacket → ℕ
answered zero s req = 0
answered (suc n) s req = answers (retransmit s req).0 + answered n (retransmit s req).1 req

-- The requests counted for the sequence number `q` so far.
unfoldable pub asked : Sender → ℕ → ℕ
asked s q = if s.rep_seq (bit_and q rep_mask) == q then s.rep_count (bit_and q rep_mask) else 0

-- A request is counted, and answered only as one of the first 20.
one_answer :
    (s : Sender) (req : RbudpPacket)
    → ((answers (retransmit s req).0 ≡ 0) × ((retransmit s req).1 ≡ s))
      ⊎ ((asked (retransmit s req).1 req.seq ≡ asked s req.seq + 1)
          × (answers (retransmit s req).0 ≡ (if ltb (asked s req.seq) 20 then 1 else 0)))
unfolding retransmit repeat_slot asked
one_answer s req =
    elim (Bool-cases
      (is_retran req.kind && (s.rep_bufs (bit_and req.seq rep_mask)).seq == req.seq)) [
        | inl hit ↦ rw (hit, retransmit) (inr (ground arith, ground arith))
        | inr miss ↦ rw (miss, retransmit) (inl (refl, refl))
      ]

-- However often a packet is asked for, it is sent again at most 20 times, those counted before
-- included.
pub answered-le : (n : ℕ) (s : Sender) (req : RbudpPacket) → answered n s req ≤ 20 - asked s req.seq
unfolding answered
answered-le zero s req = omega arith
answered-le (suc n) s req = elim (one_answer s req) [
  | inl (none_sent, same) ↦ rw same (omega (arith, answered-le n s req))
  | inr (counted, sent) ↦ ground (arith, answered-le n (retransmit s req).1 req)
]
