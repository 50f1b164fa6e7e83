-- ===== src/Rbudp/Gap.antt =====
-- One packet is lost, and repaired while those behind it wait.
use mathlib.Core.Path.{subst}
use mathlib.Core.List.{append_assoc, append-nil}
use gsconferencing.Base.{
  ℕ, suc, ◌+◌, ◌-◌, ◌≤◌, ◌<◌, ◌≡◌, refl, sym, ap, ap₂, ◌∙◌, List, [], ◌∷◌, ◌++◌, true, false, ◌&&◌,
  arith, ◌==◌, if◌then◌else◌, length, length-append, ltb,
}
use gsconferencing.Cfifo
use gsconferencing.Cfifo.{Cfifo}
use gsconferencing.Cfifo.Index.{empty-len_iff, full-len_iff}
use gsconferencing.Cfifo.Refine.{contents, length-contents}
use gsconferencing.Rbudp.{
  RbudpPacket, Receiver, adjust, accept, accept_adjusted, hold, receive, receive_all, put_wait,
  deliver,
}
use gsconferencing.Rbudp.Receive.{IsOrdered, deliver_lem, put_wait_lem}

-- Packets of a tag with consecutive sequence numbers from `s` on.
abbrev pub Numbered : ℕ → ℕ → List RbudpPacket → Type 0
Numbered tag s [] = Unit
Numbered tag s (p ∷ ps) = (p.tag ≡ tag) × (p.seq ≡ s) × Numbered tag (s + 1) ps

-- The request that the first packet that has to wait brings about.
unfoldable pub ask : ℕ → List RbudpPacket → List RbudpPacket → List ℕ
ask e [] [] = []
ask e [] (p ∷ ps) = e ∷ []
ask e (x ∷ q) ps = []

not_full : (r : Receiver) → IsOrdered r → length (contents r.wait) < 7 → Cfifo.full r.wait ≡ false
not_full r v few = ground (arith, full-len_iff v, length-contents r.wait, v.ones)

empty_is :
    (r : Receiver) (q : List RbudpPacket)
    → IsOrdered r
    → contents r.wait ≡ q
    → Cfifo.empty r.wait ≡ (length q == 0)
empty_is r q v e = ground (arith, empty-len_iff v, length-contents r.wait, ap length e)

-- A packet behind the one expected is put with those that wait.
receive_ahead :
    (r : Receiver) (p : RbudpPacket) (q : List RbudpPacket)
    → IsOrdered r
    → contents r.wait ≡ q
    → length q < 7
    → p.tag ≡ r.tag
    → 0 < r.expect
    → p.seq ≡ r.expect + 1 + length q
    → receive r p
      ≡ put_wait
          (if length q == 0 then record r { requests = r.requests ++ (r.expect ∷ []) } else r)
          p
unfolding receive accept_adjusted adjust accept hold
receive_ahead r p q v e few same_tag started seq =
    let here : (p.tag == r.tag) ≡ true = ground (arith, same_tag) in
    let later : ltb p.seq r.expect ≡ false = ground arith in
    let other : (p.seq == r.expect) ≡ false = ground arith in
    let some_expected : (r.expect == 0) ≡ false = ground arith in
    let room : Cfifo.full r.wait ≡ false = not_full r v (omega (arith, ap length e)) in
    let near : (ltb r.expect p.seq && Cfifo.empty r.wait && ltb 1 (p.seq - r.expect)) ≡ false =
      ground (arith, empty_is r q v e) in
    rw
      (
        here,
        receive,
        later,
        near,
        adjust,
        other,
        some_expected,
        accept,
        room,
        hold,
        empty_is r q v e,
      )
      refl

-- A receiver that has put packets with those that wait, and committed none.
record Held (r : Receiver) (q ps : List RbudpPacket) (r' : Receiver) : Type 0 where
  kept : r'.committed ≡ r.committed
  expected : r'.expect ≡ r.expect
  waiting : contents r'.wait ≡ q ++ ps
  tags : r'.tag ≡ r.tag
  asked : r'.requests ≡ r.requests ++ ask r.expect q ps
  valid : IsOrdered r'

-- One packet is put with those that wait.
hold_one :
    (r : Receiver) (p : RbudpPacket) (q : List RbudpPacket)
    → IsOrdered r
    → contents r.wait ≡ q
    → length q < 7
    → p.tag ≡ r.tag
    → 0 < r.expect
    → p.seq ≡ r.expect + 1 + length q
    → Held r q (p ∷ []) (receive r p)
unfolding put_wait ask
hold_one r p [] v e few same_tag started seq =
    let (waiting, valid) = put_wait_lem r p v (not_full r v (omega (arith, ap length e))) in
    rw (receive_ahead r p [] v e few same_tag started seq) (record {
      kept = refl;
      expected = refl;
      waiting = waiting ∙ ap (λ (l : List RbudpPacket). l ++ (p ∷ [])) e;
      tags = refl;
      asked = refl;
      valid = valid;
    })
hold_one r p (x ∷ q) v e few same_tag started seq =
    let (waiting, valid) = put_wait_lem r p v (not_full r v (omega (arith, ap length e))) in
    let some_wait : (suc (length q) == 0) ≡ false = ground arith in
    rw (receive_ahead r p (x ∷ q) v e few same_tag started seq, some_wait)
      (record {
        kept = refl;
        expected = refl;
        waiting = waiting ∙ ap (λ (l : List RbudpPacket). l ++ (p ∷ [])) e;
        tags = refl;
        asked = sym (append-nil r.requests);
        valid = valid;
      })

ask-cons :
    (e : ℕ) (q : List RbudpPacket) (p : RbudpPacket) (ps : List RbudpPacket)
    → ask e q (p ∷ []) ++ ask e (q ++ (p ∷ [])) ps ≡ ask e q (p ∷ ps)
unfolding ask
ask-cons e [] p ps = refl
ask-cons e (x ∷ q) p ps = refl

hold_all :
    (ps q : List RbudpPacket) (r : Receiver)
    → IsOrdered r
    → contents r.wait ≡ q
    → length q + length ps ≤ 7
    → 0 < r.expect
    → Numbered r.tag (r.expect + 1 + length q) ps
    → Held r q ps (receive_all r ps)
unfolding receive_all ask
hold_all [] [] r v e few started ok = record {
  kept = refl;
  expected = refl;
  waiting = e;
  tags = refl;
  asked = sym (append-nil _);
  valid = v;
}
hold_all [] (x ∷ q) r v e few started ok = record {
  kept = refl;
  expected = refl;
  waiting = e ∙ sym (append-nil _);
  tags = refl;
  asked = sym (append-nil _);
  valid = v;
}
hold_all (p ∷ ps) q r v e few started (same_tag, seq, ok) =
    let one = hold_one r p q v e (omega arith) same_tag started seq in
    let there : (receive r p).expect + 1 + length (q ++ (p ∷ [])) ≡ r.expect + 1 + length q + 1 =
      omega (arith, one.expected, length-append q (p ∷ [])) in
    let later =
      hold_all ps (q ++ (p ∷ [])) (receive r p) one.valid one.waiting
        (omega (arith, length-append q (p ∷ []))) (rw one.expected started)
        (subst (λ (n : ℕ). Numbered (receive r p).tag n ps) (sym there) (rw one.tags ok)) in
    record {
      kept = later.kept ∙ one.kept;
      expected = later.expected ∙ one.expected;
      waiting = later.waiting ∙ append_assoc q (p ∷ []) ps;
      tags = later.tags ∙ one.tags;
      asked =
          later.asked
          ∙ ap₂ (λ (l : List ℕ) (n : ℕ). l ++ ask n (q ++ (p ∷ [])) ps) one.asked one.expected
          ∙ append_assoc r.requests (ask r.expect q (p ∷ [])) _
          ∙ ap (λ (l : List ℕ). r.requests ++ l) (ask-cons r.expect q p ps);
      valid = later.valid;
    }

receive_expected :
    (r : Receiver) (p : RbudpPacket)
    → IsOrdered r
    → p.tag ≡ r.tag
    → p.seq ≡ r.expect
    → receive r p ≡ deliver r p
unfolding receive accept_adjusted adjust accept
receive_expected r p v same_tag seq =
    let here : (p.tag == r.tag) ≡ true = ground (arith, same_tag) in
    let later : ltb p.seq r.expect ≡ false = ground arith in
    let not_later : ltb r.expect p.seq ≡ false = ground arith in
    let same : (p.seq == r.expect) ≡ true = ground arith in
    rw (here, receive, later, not_later, adjust, same, accept) refl

receive-append :
    (ps qs : List RbudpPacket) (r : Receiver)
    → receive_all r (ps ++ qs) ≡ receive_all (receive_all r ps) qs
unfolding receive_all
receive-append [] qs r = refl
receive-append (p ∷ ps) qs r = receive-append ps qs (receive r p)

-- When one packet is lost and repaired after at most 7 packets behind it have come in order, all are
-- committed in their order, exactly one request was made, for the lost packet, if any came before
-- the repair, and nothing waits any longer.
pub gap_repaired :
    (r : Receiver) (p : RbudpPacket) (ps : List RbudpPacket)
    → IsOrdered r
    → contents r.wait ≡ []
    → 0 < r.expect
    → p.tag ≡ r.tag
    → p.seq ≡ r.expect
    → Numbered r.tag (r.expect + 1) ps
    → length ps ≤ 7
    → ((receive_all r (ps ++ (p ∷ []))).committed ≡ r.committed ++ (p ∷ ps))
      × ((receive_all r (ps ++ (p ∷ []))).requests ≡ r.requests ++ ask r.expect [] ps)
      × (contents (receive_all r (ps ++ (p ∷ []))).wait ≡ [])
unfolding receive_all
gap_repaired r p ps v e started same_tag seq ok few =
    let first : r.expect + 1 + 0 ≡ r.expect + 1 = omega arith in
    let held =
      hold_all ps [] r v e (omega arith) started
        (subst (λ (n : ℕ). Numbered r.tag n ps) (sym first) ok) in
    let r' : Receiver = receive_all r ps in
    let all = deliver_lem p held.valid in
    rw
      (
        receive-append ps (p ∷ []) r,
        receive_expected r' p held.valid (same_tag ∙ sym held.tags) (seq ∙ sym held.expected),
      )
      (
        all.all ∙ ap₂ (λ (a b : List RbudpPacket). a ++ (p ∷ b)) held.kept held.waiting,
        all.asked ∙ held.asked,
        all.waiting,
      )
