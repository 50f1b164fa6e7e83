-- ===== src/Tag/Tests.antt =====
-- Two devices join the mix of a tag, send packets and leave.
use gsconferencing.Base.{◌≡◌, refl, true, arith}
use gsconferencing.Cfifo
use gsconferencing.Device.{Channel, put_dev, mix_open_dev}
use gsconferencing.Tag.{
  add_outstanding, rm_outstanding, in_dev_packet, wait_all_queues, find_free, take_entry,
  dev_in_packet, wait_all_loop, all_queues_bell, bells, queue_bell,
}
use gsconferencing.Tag.Outstanding.{Mixes, add_outstanding-Mixes, rm_outstanding-Mixes}
use gsconferencing.Tag.Flush.{QueueIsValid}
use gsconferencing.Tag.Sync.{wait_all_queues_data}
use gsconferencing.Fixtures.{silent, silent-Mixes}

-- Devices 5 and 2 speak.
abbrev two : Channel
two = add_outstanding (add_outstanding silent 5) 2

two-Mixes : Mixes two
two-Mixes = add_outstanding-Mixes 2 (add_outstanding-Mixes 5 silent-Mixes)

add_outstanding-Mixes_example : Mixes (add_outstanding two 7)
add_outstanding-Mixes_example = add_outstanding-Mixes 7 two-Mixes

rm_outstanding-Mixes_example : Mixes (rm_outstanding two 5)
rm_outstanding-Mixes_example = rm_outstanding-Mixes 5 two-Mixes

-- Device 5 has queued packets 70, 71 and 72.
abbrev loaded : Channel
loaded =
    (in_dev_packet (in_dev_packet (in_dev_packet (add_outstanding silent 5) 5 70).0 5 71).0 5 72).0

loaded-QueueIsValid : QueueIsValid loaded 5
unfolding in_dev_packet dev_in_packet add_outstanding take_entry put_dev mix_open_dev find_free
    Cfifo.advance_in Cfifo.write_in Cfifo.full Cfifo.init
loaded-QueueIsValid = record {
  small = omega arith;
  ones = refl;
  inp_in = omega arith;
  out_in = omega arith;
}

wait_all_queues_example : queue_bell (wait_all_queues (λ _ c. c) loaded).0 5 ≡ true
unfolding wait_all_queues wait_all_loop all_queues_bell bells queue_bell in_dev_packet dev_in_packet
    add_outstanding take_entry put_dev mix_open_dev find_free Cfifo.empty Cfifo.advance_in
    Cfifo.write_in Cfifo.full Cfifo.len Cfifo.init
wait_all_queues_example = wait_all_queues_data (λ _ c. c) 0 5 loaded refl (omega arith) refl
