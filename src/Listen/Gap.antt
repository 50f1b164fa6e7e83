-- ===== src/Listen/Gap.antt =====
-- Packets are lost, and repaired or outdated while those behind them wait.
use mathlib.Core.Path.{subst}
use mathlib.Core.List.{append_assoc, append-nil}
use gsconferencing.Base.{
  ℕ, zero, suc, ◌+◌, ◌≤◌, ◌<◌, ◌≡◌, refl, sym, ap, ap₂, ◌∙◌, List, [], ◌∷◌, ◌++◌, true, false, ◌==◌,
  if-true, ltb, arith, u32_mod, length, length-append, map,
}
use gsconferencing.Cfifo
use gsconferencing.Cfifo.Refine.{length-contents}
use gsconferencing.Cfifo.Index.{full-len_iff}
use gsconferencing.Listen.{
  AudioPack, Intake, advance, enque_pack, get_wait_pack, put_wait_pack, get_wait_seq,
  req_repeat_seq, queue_wait, proceed, order_pack, forward, queue_audio_pack, recved, recved_all,
  packet_seq_outdate,
}
use gsconferencing.Listen.Keeping.{
  IsListening, waiting, get_wait_pack_lem, advance-get, put_wait_pack_lem,
}
use gsconferencing.Listen.Rounds.{none_waits, waiting-advance}

-- Packets of sound with consecutive numbers from `s` on.
abbrev pub Numbered : ℕ → List AudioPack → Type 0
Numbered s [] = Unit
Numbered s (p ∷ ps) = ((p.kind == packet_seq_outdate) ≡ false) × (p.seq ≡ s) × Numbered (s + 1) ps

-- All of `ps` is played, with no request, and nothing waits any longer.
pub record Played (r : Intake) (ps : List AudioPack) (n : ℕ) (r' : Intake) : Type 0 where
  pub valid : IsListening r'
  pub retransmits : r'.enable_retransmit ≡ r.enable_retransmit
  pub all : r'.played ≡ r.played ++ ps
  pub asked : r'.requests ≡ r.requests
  pub none_left : waiting r' ≡ []
  pub next : r'.expect_seq ≡ n

-- The first packet that waits, and then the rest.
Played-cons :
    {r r' : Intake} (p : AudioPack) (q : List AudioPack) (n : ℕ)
    → (get_wait_pack r).0 ≡ p
    → Played (advance (get_wait_pack r).1 (get_wait_pack r).0) q n r'
    → Played r (p ∷ q) n r'
unfolding advance get_wait_pack enque_pack
Played-cons {r} p q n first later = record {
  valid = later.valid;
  retransmits = later.retransmits;
  all =
      later.all
      ∙ append_assoc r.played (Cfifo.get_out r.wait_packs ∷ []) q
      ∙ ap (λ (x : AudioPack). r.played ++ (x ∷ q)) first;
  asked = later.asked;
  none_left = later.none_left;
  next = later.next;
}

queue_wait-Played :
    (tag n : ℕ) (q : List AudioPack) (r : Intake)
    → IsListening r
    → waiting r ≡ q
    → length q < n
    → Numbered r.expect_seq q
    → 0 < r.expect_seq
    → r.expect_seq + length q < u32_mod
    → Played r q (r.expect_seq + length q) (queue_wait tag n r)
unfolding queue_wait
queue_wait-Played tag zero q r v e lt nums started fits = absurd (omega arith)
queue_wait-Played tag (suc n) [] r v e lt nums started fits = rw (none_waits r v e) (record {
  valid = v;
  retransmits = refl;
  all = sym (append-nil _);
  asked = refl;
  none_left = e;
  next = omega arith;
})
queue_wait-Played tag (suc n) (p ∷ q) r v e lt (audio, here, nums) started fits =
    let (first, rest, ok, seq) = get_wait_pack_lem r p q v e in
    let some_seq : (get_wait_seq r == 0) ≡ false = ground (arith, seq, here, started) in
    let expected : (get_wait_seq r == r.expect_seq) ≡ true = ground (arith, seq, here) in
    let after : (advance (get_wait_pack r).1 (get_wait_pack r).0).expect_seq ≡ r.expect_seq + 1 =
      unfold advance in omega (arith, ap (λ (x : AudioPack). x.seq) first, here) in
    let later =
      queue_wait-Played tag n q (advance (get_wait_pack r).1 (get_wait_pack r).0)
        (advance-get r p q v e).valid (waiting-advance r p q v e) (omega arith)
        (subst (λ (s : ℕ). Numbered s q) (sym after) nums) (omega (arith, after))
        (omega (arith, after)) in
    rw (some_seq, expected, queue_wait)
      (subst
        (λ (s : ℕ).
          Played r (p ∷ q) s (queue_wait tag n (advance (get_wait_pack r).1 (get_wait_pack r).0)))
        (omega (arith, after)) (Played-cons p q _ first later))

pub proceed-Played :
    (tag : ℕ) (q : List AudioPack) (r : Intake)
    → IsListening r
    → waiting r ≡ q
    → Numbered r.expect_seq q
    → 0 < r.expect_seq
    → r.expect_seq + length q < u32_mod
    → Played r q (r.expect_seq + length q) (proceed tag r)
unfolding proceed
proceed-Played tag q r v e nums started fits =
    queue_wait-Played tag (suc (Cfifo.len r.wait_packs)) q r v e
      (omega (arith, length-contents r.wait_packs, ap length e)) nums started fits

-- A listener that has asked for the packet expected, and let the others wait.
pub record Held (r : Intake) (q ps : List AudioPack) (r' : Intake) : Type 0 where
  pub valid : IsListening r'
  pub retransmits : r'.enable_retransmit ≡ r.enable_retransmit
  pub kept : r'.played ≡ r.played
  pub asked : r'.requests ≡ r.requests ++ map (λ (p : AudioPack). (p.tag, r.expect_seq)) ps
  pub all_wait : waiting r' ≡ q ++ ps
  pub expected : r'.expect_seq ≡ r.expect_seq

-- A packet behind the one expected.
hold_one :
    (r : Intake) (p : AudioPack) (q : List AudioPack)
    → IsListening r
    → r.enable_retransmit ≡ true
    → waiting r ≡ q
    → length q < 3
    → (p.kind == packet_seq_outdate) ≡ false
    → 0 < r.expect_seq
    → r.expect_seq < p.seq
    → recved r p ≡ put_wait_pack (req_repeat_seq r p.tag r.expect_seq) p
unfolding recved queue_audio_pack order_pack
hold_one r p q v on e few audio started ahead =
    let later : ltb p.seq r.expect_seq ≡ false = ground arith in
    let other : (p.seq == r.expect_seq) ≡ false = ground arith in
    let some_expected : (r.expect_seq == 0) ≡ false = ground arith in
    let room : Cfifo.full r.wait_packs ≡ false =
      ground (arith, full-len_iff v, length-contents r.wait_packs, v.ones, ap length e) in
    let through : forward r p ≡ order_pack r p = unfold forward in (if-true (enque_pack r p) on) in
    rw (audio, recved, later, queue_audio_pack, through, other, some_expected, order_pack, room)
      refl

abbrev pub repeat_request : ℕ → AudioPack → ℕ × ℕ
repeat_request e p = (p.tag, e)

hold_one-Held :
    (r : Intake) (p : AudioPack) (q : List AudioPack)
    → IsListening r
    → r.enable_retransmit ≡ true
    → waiting r ≡ q
    → length q < 3
    → (p.kind == packet_seq_outdate) ≡ false
    → 0 < r.expect_seq
    → r.expect_seq < p.seq
    → Held r q (p ∷ []) (recved r p)
hold_one-Held r p q v on e few audio started ahead =
    let asked : Intake = req_repeat_seq r p.tag r.expect_seq in
    let room : Cfifo.full asked.wait_packs ≡ false =
      unfold req_repeat_seq in
      ground (arith, full-len_iff v, length-contents r.wait_packs, v.ones, ap length e) in
    let (more, ok) = put_wait_pack_lem asked p (unfold req_repeat_seq in v) room in
    rw (hold_one r p q v on e few audio started ahead) (record {
      valid = ok;
      retransmits = unfold put_wait_pack req_repeat_seq in refl;
      kept = unfold put_wait_pack req_repeat_seq in refl;
      asked = unfold put_wait_pack req_repeat_seq in refl;
      all_wait = more ∙ (unfold req_repeat_seq in ap (λ (l : List AudioPack). l ++ (p ∷ [])) e);
      expected = unfold put_wait_pack req_repeat_seq in refl;
    })

pub hold_all :
    (ps q : List AudioPack) (s : ℕ) (r : Intake)
    → IsListening r
    → r.enable_retransmit ≡ true
    → waiting r ≡ q
    → length q + length ps ≤ 3
    → Numbered s ps
    → 0 < r.expect_seq
    → r.expect_seq < s
    → Held r q ps (recved_all r ps)
unfolding recved_all
hold_all [] q s r v on e few nums started ahead = record {
  valid = v;
  retransmits = refl;
  kept = refl;
  asked = sym (append-nil _);
  all_wait = e ∙ sym (append-nil _);
  expected = refl;
}
hold_all (p ∷ ps) q s r v on e few (audio, here, nums) started ahead =
    let one = hold_one-Held r p q v on e (omega arith) audio started (omega arith) in
    let later =
      hold_all ps (q ++ (p ∷ [])) (s + 1) (recved r p) one.valid (one.retransmits ∙ on) one.all_wait
        (omega (arith, length-append q (p ∷ []))) nums (omega (arith, one.expected))
        (omega (arith, one.expected)) in
    record {
      valid = later.valid;
      retransmits = later.retransmits ∙ one.retransmits;
      kept = later.kept ∙ one.kept;
      asked =
          later.asked
          ∙ ap₂ (λ (l : List (ℕ × ℕ)) (n : ℕ). l ++ map (repeat_request n) ps) one.asked
              one.expected
          ∙ append_assoc r.requests (repeat_request r.expect_seq p ∷ []) _;
      all_wait = later.all_wait ∙ append_assoc q (p ∷ []) ps;
      expected = later.expected ∙ one.expected;
    }
