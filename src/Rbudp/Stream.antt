-- ===== src/Rbudp/Stream.antt =====
-- A sender and a receiver over a link that loses nothing.
use mathlib.Core.List.{append_assoc, append-nil, map-append}
use gsconferencing.Base.{
  ℕ, ◌+◌, ◌-◌, ◌%◌, ◌<◌, ◌≡◌, refl, sym, ap, ◌∙◌, List, [], ◌∷◌, ◌++◌, map, true, false, ◌&&◌, ◌||◌,
  arith, ◌==◌, ==_refl, Bool-cases, inl, inr, ltb,
}
use gsconferencing.Cfifo
use gsconferencing.Cfifo.Refine.{contents}
use gsconferencing.Rbudp.{
  RbudpPacket, Sender, Receiver, broadcast, next_seq, u16_mod, adjust, accept, accept_adjusted,
  receive, receive_all, deliver,
}
use gsconferencing.Rbudp.Receive.{IsOrdered, Committed, deliver_lem, expect_after}

-- What the sender puts on the link for some messages, whether `sendto` reports success or not.
unfoldable pub broadcast_all : Sender → ℕ → List (List ℕ) → List RbudpPacket
broadcast_all s tag [] = []
broadcast_all s tag (m ∷ ms) = let (p, s1) = broadcast s tag 0 m true in p ∷ broadcast_all s1 tag ms

-- The receiver waits for nothing, and expects the sender's next packet, or any.
pub record Synced (s : Sender) (r : Receiver) : Type 0 where
  pub in_range : s.seq < u16_mod
  pub nothing_waits : contents r.wait ≡ []
  pub expected : (r.expect == 0 || r.expect == (s.seq + 1) % u16_mod) ≡ true
  pub valid : IsOrdered r

-- The packet is committed at once.
record Took (r : Receiver) (p : RbudpPacket) (r' : Receiver) : Type 0 where
  one_more : r'.committed ≡ r.committed ++ (p ∷ [])
  next_expected : r'.expect ≡ (p.seq + 1) % u16_mod
  none_waits : contents r'.wait ≡ []
  same_tag : r'.tag ≡ r.tag
  still_valid : IsOrdered r'

deliver-Took :
    (r : Receiver) (p : RbudpPacket) → IsOrdered r → contents r.wait ≡ [] → Took r p (deliver r p)
unfolding expect_after
deliver-Took r p v e =
    let all : Committed r (p ∷ contents r.wait) (deliver r p) = deliver_lem p v in
    record {
      one_more = all.all ∙ ap (λ (l : List RbudpPacket). r.committed ++ (p ∷ l)) e;
      next_expected = all.expected ∙ ap (λ (l : List RbudpPacket). expect_after r.expect (p ∷ l)) e;
      none_waits = all.waiting;
      same_tag = all.tags;
      still_valid = all.valid;
    }

accepted :
    (s : Sender) (r : Receiver) (p : RbudpPacket)
    → Synced s r
    → p.tag ≡ r.tag
    → p.seq ≡ next_seq s.seq
    → Took r p (receive r p)
unfolding receive accept_adjusted adjust accept
accepted s r p v same_tag seq =
    let here : (p.tag == r.tag) ≡ true = ground (arith, same_tag) in
    let later : ltb p.seq r.expect ≡ false = ground (arith, v.expected, v.in_range, seq) in
    let reached : (p.seq == p.seq) ≡ true = ==_refl p.seq in
    elim (Bool-cases (ltb r.expect p.seq && Cfifo.empty r.wait && ltb 1 (p.seq - r.expect))) [
      | inl far ↦
          let ahead = deliver-Took (record r { expect = p.seq }) p v.valid v.nothing_waits in
          rw (here, receive, later, far, adjust, reached, accept)
            (record {
              one_more = ahead.one_more;
              next_expected = ahead.next_expected;
              none_waits = ahead.none_waits;
              same_tag = ahead.same_tag;
              still_valid = ahead.still_valid;
            })
      | inr near ↦
          let right : (p.seq == r.expect || r.expect == 0) ≡ true =
            ground (arith, v.expected, v.in_range, seq) in
          rw (here, receive, later, near, adjust, right, accept)
            (deliver-Took r p v.valid v.nothing_waits)
    ]

Synced-broadcast :
    (s : Sender) (tag : ℕ) (m : List ℕ) {r r' : Receiver}
    → Synced s r
    → Took r (broadcast s tag 0 m true).0 r'
    → Synced (broadcast s tag 0 m true).1 r'
unfolding broadcast
Synced-broadcast s tag m v took = record {
  in_range = ground (arith, v.in_range);
  nothing_waits = took.none_waits;
  expected = ground (arith, took.next_expected);
  valid = took.still_valid;
}

-- Over a link that loses nothing, a receiver that waits for nothing and expects the sender's next
-- packet, or any, commits every message of the sender once, in order, also where the sequence
-- numbers wrap round.
pub stream_lem :
    (ms : List (List ℕ)) (s : Sender) (r : Receiver) (tag : ℕ)
    → Synced s r
    → r.tag ≡ tag % 256
    → map (λ (p : RbudpPacket). p.body) (receive_all r (broadcast_all s tag ms)).committed
      ≡ map (λ (p : RbudpPacket). p.body) r.committed ++ ms
unfolding broadcast_all receive_all
stream_lem [] s r tag v e = sym (append-nil _)
stream_lem (m ∷ ms) s r tag v e =
    let took : Took r (broadcast s tag 0 m true).0 (receive r (broadcast s tag 0 m true).0) =
      accepted s r (broadcast s tag 0 m true).0 v (unfold broadcast in sym e)
        (unfold broadcast in refl) in
    stream_lem ms (broadcast s tag 0 m true).1 (receive r (broadcast s tag 0 m true).0) tag
      (Synced-broadcast s tag m v took) (took.same_tag ∙ e)
    ∙ ap (λ (l : List (List ℕ)). l ++ ms)
        (ap (map (λ (p : RbudpPacket). p.body)) took.one_more
          ∙ map-append (λ (p : RbudpPacket). p.body) r.committed
              ((broadcast s tag 0 m true).0 ∷ []))
    ∙ append_assoc (map (λ (p : RbudpPacket). p.body) r.committed) _ ms
    ∙ (unfold broadcast in refl)
