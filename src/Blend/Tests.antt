-- ===== src/Blend/Tests.antt =====
-- Devices 5 and 2 are outstanding and have queued the packets 70 and 20.
use gsconferencing.Base.{ℕ, ◌*◌, ◌≡◌, refl, Option, some, [], ◌∷◌, ◌++◌, map, true, false, pos}
use gsconferencing.Cfifo
use gsconferencing.Device.{Channel, put_dev, max_mix, mix_open_dev}
use gsconferencing.Tag.{add_outstanding, in_dev_packet, dev_in_packet, take_entry, find_free}
use gsconferencing.Tag.Outstanding.{Mixes, add_outstanding-Mixes}
use gsconferencing.Tag.Sync.{in_dev_packet-Mixes}
use gsconferencing.Blend.{Blend, blend_packs}
use gsconferencing.Blend.Step.{fronts, front, kept, spilt}
use gsconferencing.Blend.Account.{Outcome, blend_packs_lem}
use gsconferencing.Fixtures.{silent, silent-Mixes}

abbrev ready : Channel
ready = (in_dev_packet (in_dev_packet (add_outstanding (add_outstanding silent 5) 2) 5 70).0 2 20).0

abbrev sounds : Blend
sounds = record {
  chan = ready;
  packs = λ p. record { is_zero = false; datalen = 4; packet_len = 16; pcm = 100 * p };
  mem = λ a. pos 7;
}

ready-Mixes : Mixes ready
ready-Mixes =
    in_dev_packet-Mixes 2 20
      (in_dev_packet-Mixes 5 70 (add_outstanding-Mixes 2 (add_outstanding-Mixes 5 silent-Mixes)))

ready-fronts : fronts ready max_mix 0 ≡ map some (70 ∷ 20 ∷ [])
unfolding fronts front add_outstanding take_entry put_dev mix_open_dev find_free in_dev_packet
    dev_in_packet Cfifo.advance_in Cfifo.write_in Cfifo.full Cfifo.empty Cfifo.get_out Cfifo.init
ready-fronts = refl

blend_packs_example :
    (result : Option ℕ) × (b' : Blend) × (blend_packs true sounds ≡ some (result, b'))
    × Outcome true
        (kept sounds.packs (70 ∷ 20 ∷ []))
        (ready.freed ++ spilt sounds.packs (70 ∷ 20 ∷ []))
        result
        b'.chan.freed
blend_packs_example = blend_packs_lem true sounds (70 ∷ 20 ∷ []) ready-Mixes ready-fronts
