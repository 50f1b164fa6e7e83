-- ===== src/ClientMix/Tests.antt =====
-- Two senders, 101 and 102, after `mix_audio_init`.
use gsconferencing.Base.{ℕ, refl, [], ◌∷◌, false, arith, pos}
use gsconferencing.Cfifo
use gsconferencing.Cfifo.Index.{init-IsValid}
use gsconferencing.ClientMix.{
  Pack, Mixing, mix_audio_init, open_dev, close_dev, put_pack, get_packs,
}
use gsconferencing.ClientMix.Queues.{IsMixing, used}
use gsconferencing.ClientMix.Steps.{run, run-IsMixing}

abbrev sound : ℕ → ℕ → Pack
sound id seq = record { id = id; seq = seq; samples = pos 5 ∷ [] }

abbrev started : Mixing
started =
    mix_audio_init (λ _. sound 0 0)
      (record {
        queues = λ _. record {
          dev_id = 0;
          recent = record { seqs = λ _. 0; size = 4; pos = 0 };
          fifo = Cfifo.init (λ _. sound 0 0) 0 0;
        };
        dev_count = pos 0;
        auto_close_max = pos 12;
        fast_fwd = false;
      })

started-IsMixing : IsMixing started
unfolding mix_audio_init used
started-IsMixing = record {
  one_each = λ i j lti ltj ne e. absurd (ne refl);
  counted = refl;
  fifos = λ i. init-IsValid (λ _. sound 0 0) 5 11 (omega arith);
  rings = λ i. record { sized = refl; inside = omega arith };
}

run-IsMixing_example :
    IsMixing (run started (open_dev 101 ∷ put_pack (sound 102 7) ∷ get_packs ∷ close_dev 101 ∷ []))
run-IsMixing_example =
    run-IsMixing (open_dev 101 ∷ put_pack (sound 102 7) ∷ get_packs ∷ close_dev 101 ∷ [])
      started-IsMixing

abbrev two : Mixing
two = run started (open_dev 101 ∷ put_pack (sound 102 7) ∷ put_pack (sound 101 9) ∷ [])
