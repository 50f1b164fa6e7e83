-- ===== src/Rbudp/Receive.antt =====
-- What the receiver's loop commits: the packet and all that wait, in the order of their arrival.
use mathlib.Core.List.{append_assoc, append-nil}
use gsconferencing.Base.{
  ℕ, zero, suc, ◌+◌, ◌%◌, ◌≡◌, refl, sym, ap, ◌∙◌, List, [], ◌∷◌, ◌++◌, false, arith, length,
}
use gsconferencing.Cfifo
use gsconferencing.Cfifo.{Cfifo}
use gsconferencing.Cfifo.Index.{IsValid}
use gsconferencing.Cfifo.Refine.{contents, length-contents, take-IsValid, put-IsValid}
use gsconferencing.Cfifo.Steps.{contents-advance_out, contents-advance_in, empty-false}
use gsconferencing.Rbudp.{
  RbudpPacket, Receiver, u16_mod, drain, commit, get_wait, put_wait, deliver,
}

-- The queue `wait_packs` of 8 slots.
abbrev pub IsOrdered : Receiver → Type 0
IsOrdered r = IsValid 3 r.wait

-- `expect_seq` after the packets are committed.
unfoldable pub expect_after : ℕ → List RbudpPacket → ℕ
expect_after e [] = e
expect_after e (p ∷ ps) = expect_after ((p.seq + 1) % u16_mod) ps

-- What a receiver is after it has committed the packets and has nothing left to wait.
pub record Committed (r : Receiver) (ps : List RbudpPacket) (r' : Receiver) : Type 0 where
  pub all : r'.committed ≡ r.committed ++ ps
  pub expected : r'.expect ≡ expect_after r.expect ps
  pub waiting : contents r'.wait ≡ []
  pub tags : r'.tag ≡ r.tag
  pub asked : r'.requests ≡ r.requests
  pub valid : IsOrdered r'

-- A packet more, from the front of the queue.
one_more :
    (n : ℕ) {q : List RbudpPacket} (r : Receiver) {p : RbudpPacket}
    → Cfifo.get_out r.wait ≡ p
    → Committed
        (commit (get_wait r).1 (get_wait r).0)
        q
        (drain n (commit (get_wait r).1 (get_wait r).0))
    → Committed r (p ∷ q) (drain n (commit (get_wait r).1 (get_wait r).0))
unfolding commit get_wait expect_after
one_more n {q} r first later = record {
  all =
      later.all
      ∙ append_assoc r.committed (Cfifo.get_out r.wait ∷ []) q
      ∙ ap (λ (x : RbudpPacket). r.committed ++ (x ∷ q)) first;
  expected =
      later.expected ∙ ap (λ (x : RbudpPacket). expect_after ((x.seq + 1) % u16_mod) q) first;
  waiting = later.waiting;
  tags = later.tags;
  asked = later.asked;
  valid = later.valid;
}

drain_lem :
    (n : ℕ) (q : List RbudpPacket) {r : Receiver}
    → IsOrdered r
    → contents r.wait ≡ q
    → length q ≡ n
    → Committed r q (drain n r)
unfolding drain expect_after
drain_lem zero [] v e l = record {
  all = sym (append-nil _);
  expected = refl;
  waiting = e;
  tags = refl;
  asked = refl;
  valid = v;
}
drain_lem zero (p ∷ q) v e l = absurd (omega arith)
drain_lem (suc n) [] v e l = absurd (omega arith)
drain_lem (suc n) (p ∷ q) {r} v e l =
    let (first, rest) = contents-advance_out v e in
    let busy : Cfifo.empty r.wait ≡ false = empty-false v e in
    let popped : (Cfifo.take_out r.wait).0 ≡ Cfifo.advance_out r.wait =
      unfold Cfifo.take_out in rw busy refl in
    let ok : IsOrdered (commit (get_wait r).1 (get_wait r).0) =
      unfold commit get_wait in take-IsValid v in
    let left : contents (commit (get_wait r).1 (get_wait r).0).wait ≡ q =
      unfold commit get_wait in (ap contents popped ∙ rest) in
    let later = drain_lem n q {r = commit (get_wait r).1 (get_wait r).0} ok left (omega arith) in
    rw (busy, drain) (one_more n r first later)

-- The packet and all that wait are committed, in order, and nothing waits any longer.
pub deliver_lem :
    {r : Receiver} (p : RbudpPacket) → IsOrdered r → Committed r (p ∷ contents r.wait) (deliver r p)
unfolding deliver
deliver_lem {r} p v =
    let ok : IsOrdered (commit r p) = unfold commit in v in
    let same : contents (commit r p).wait ≡ contents r.wait = unfold commit in refl in
    let later =
      drain_lem (Cfifo.len r.wait) (contents r.wait) {r = commit r p} ok same
        (length-contents r.wait) in
    unfold commit in
    record {
      all = later.all ∙ append_assoc r.committed (p ∷ []) (contents r.wait);
      expected = later.expected ∙ (unfold expect_after in refl);
      waiting = later.waiting;
      tags = later.tags;
      asked = later.asked;
      valid = later.valid;
    }

-- A packet is put behind those that wait.
pub put_wait_lem :
    (r : Receiver) (p : RbudpPacket)
    → IsOrdered r
    → Cfifo.full r.wait ≡ false
    → (contents (put_wait r p).wait ≡ contents r.wait ++ (p ∷ [])) × IsOrdered (put_wait r p)
unfolding put_wait Cfifo.put_in
put_wait_lem r p v room = (contents-advance_in v p room, unfold Cfifo.put_in in put-IsValid p v)
