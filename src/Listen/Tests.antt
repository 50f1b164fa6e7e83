-- ===== src/Listen/Tests.antt =====
-- Witnesses and tests of `Listen`.
use gsconferencing.Base.{ℕ, ◌≡◌, ◌+◌, ◌<◌, refl, List, [], ◌∷◌, Bool, true, map, arith, ◌==◌}
use gsconferencing.Cfifo
use gsconferencing.Listen.{
  AudioPack, Intake, packet_audio, packet_seq_outdate, recved_all, recved, queue_wait, proceed,
  queue_audio_pack, forward, order_pack, get_wait_seq, get_wait_pack, put_wait_pack, advance,
  enque_pack, req_repeat_seq,
}
use gsconferencing.Listen.Rounds.{proceed-queue_wait}
use gsconferencing.Listen.Stream.{Episode}

abbrev audio : ℕ → AudioPack
audio s = record { id = 9; seq = s; kind = packet_audio; tag = 1; body = s ∷ [] }

abbrev outdate : ℕ → AudioPack
outdate s = record { id = 0; seq = s; kind = packet_seq_outdate; tag = 1; body = [] }

-- It expects packet 5.
abbrev listener : Intake
listener = record {
  expect_seq = 5;
  enable_retransmit = true;
  wait_packs = Cfifo.init (λ _. audio 0) 2 11;
  played = [];
  requests = [];
}

abbrev is_six : AudioPack → Bool
is_six p = p.seq == 6

-- 6 and 7 wait, though 6 is expected now.
abbrev two_wait : Intake
two_wait = record listener {
  expect_seq = 6;
  wait_packs = record { inp = 2; out = 0; mask = 3; eord = 11; slots = λ i. audio (6 + i) };
}

proceed-queue_wait_example : queue_wait 1 9 two_wait ≡ proceed 1 two_wait
proceed-queue_wait_example =
    proceed-queue_wait 1 9 two_wait
      (record { small = omega arith; ones = refl; inp_in = omega arith; out_in = omega arith }) few
  where
    few : Cfifo.len two_wait.wait_packs < 9
    few = unfold Cfifo.len in omega arith

-- 5 comes in time, 6 is repaired after 7 and 8, and 9 is outdated after 10.
abbrev episodes : List Episode
episodes =
    record { behind = []; last = audio 5 }
    ∷ record { behind = map audio (7 ∷ 8 ∷ []); last = audio 6 }
    ∷ record { behind = audio 10 ∷ []; last = outdate 9 }
    ∷ []

abbrev seqs : List AudioPack → List ℕ
seqs ps = map (λ p. p.seq) ps

-- 5, 6 and 7 come in the reverse order: 7 holds up 6 though 6 is there, and is played before it.
abbrev reversed : List AudioPack
reversed = map audio (7 ∷ 6 ∷ 5 ∷ 8 ∷ 9 ∷ [])

abbrev reversed_played : List ℕ
reversed_played = seqs (recved_all listener reversed).played

reversed_played_lem : reversed_played ≡ 5 ∷ 7 ∷ 6 ∷ []
unfolding recved_all recved queue_audio_pack forward order_pack proceed queue_wait get_wait_seq
    get_wait_pack put_wait_pack advance enque_pack req_repeat_seq Cfifo.init Cfifo.empty Cfifo.full
    Cfifo.len Cfifo.put_in Cfifo.advance_in Cfifo.write_in Cfifo.get_in Cfifo.get_out Cfifo.take_out
    Cfifo.advance_out
reversed_played_lem = refl
