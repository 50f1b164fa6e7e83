-- ===== src/Listen.antt =====
-- client/client.c: the audio packets that a client receives, put in the order of their numbers for
-- the thread that plays them. `played` are the packets that `enque_pack` has put into
-- `udp_rcv_fifo`, latest last, which another thread reads; `requests` are the tag and the number of
-- every PACKET_REPEAT_REQ sent. `uint32_t` numbers wrap at 2 ^ 32.
pub mod Keeping
pub mod Taking
pub mod Rounds
pub mod Asking
pub mod Gap
pub mod Stream
mod Tests
use gsconferencing.Base.{
  ℕ, zero, suc, ◌+◌, ◌-◌, List, [], ◌∷◌, ◌++◌, Bool, true, false, not, ◌&&◌, ◌||◌, ◌==◌,
  if◌then◌else◌, ltb, leb, u32_add, u32_sub,
}
use gsconferencing.Cfifo
use gsconferencing.Cfifo.{Cfifo}

-- Packet types of include/pack.h.
abbrev pub packet_audio : ℕ
packet_audio = 1

abbrev pub packet_seq_outdate : ℕ
packet_seq_outdate = 4

-- `struct pack`; `datalen` is the length of `body`.
pub record AudioPack : Type 0 where
  pub id : ℕ
  pub seq : ℕ
  pub kind : ℕ
  pub tag : ℕ
  pub body : List ℕ

abbrev pub max_lost : ℕ
max_lost = 4

pub record Intake : Type 0 where
  pub expect_seq : ℕ
  pub enable_retransmit : Bool
  pub wait_packs : Cfifo AudioPack
  pub played : List AudioPack
  pub requests : List (ℕ × ℕ)

-- `wait_packs` of `memory`, with 4 slots of 2 KB.
unfoldable pub start_listening : (ℕ → AudioPack) → Bool → Intake
start_listening memory retransmit = record {
  expect_seq = 0;
  enable_retransmit = retransmit;
  wait_packs = Cfifo.init memory 2 11;
  played = [];
  requests = [];
}

unfoldable pub put_wait_pack : Intake → AudioPack → Intake
put_wait_pack r p = record r { wait_packs = (Cfifo.put_in (Cfifo.write_in r.wait_packs p)).0 }

-- The packet is read at once: no `put_wait_pack` writes to its slot before it is put into `udp_rcv_fifo`.
unfoldable pub get_wait_pack : Intake → AudioPack × Intake
get_wait_pack r =
    (Cfifo.get_out r.wait_packs, record r { wait_packs = (Cfifo.take_out r.wait_packs).0 })

unfoldable pub get_wait_seq : Intake → ℕ
get_wait_seq r = if Cfifo.empty r.wait_packs then 0 else (Cfifo.get_out r.wait_packs).seq

unfoldable pub req_repeat_seq : Intake → ℕ → ℕ → Intake
req_repeat_seq r tag s = record r { requests = r.requests ++ ((tag, s) ∷ []) }

unfoldable pub enque_pack : Intake → AudioPack → Intake
enque_pack r p = record r { played = r.played ++ (p ∷ []) }

-- The start_listening of the loop: `enque_pack(next); expect_seq = next->seq+1;`
unfoldable pub advance : Intake → AudioPack → Intake
advance r p = record (enque_pack r p) { expect_seq = u32_add p.seq 1 }

-- The loop from `queue_wait` on, `n` rounds at most; `tag` is that of the packet that came.
unfoldable pub queue_wait : ℕ → ℕ → Intake → Intake
queue_wait tag zero r = r
queue_wait tag (suc n) r =
    let s = get_wait_seq r in
    let rest = queue_wait tag n (advance (get_wait_pack r).1 (get_wait_pack r).0) in
    if s == 0
    then r
    else if s == r.expect_seq
    then rest
    else if leb (u32_sub s r.expect_seq) max_lost
    then req_repeat_seq r tag r.expect_seq
    else rest

-- As many rounds as packets wait, and the one that finds none.
unfoldable pub proceed : ℕ → Intake → Intake
proceed tag r = queue_wait tag (suc (Cfifo.len r.wait_packs)) r

-- The tests from `pack->seq == expect_seq` on.
unfoldable pub order_pack : Intake → AudioPack → Intake
order_pack r p =
    if p.seq == r.expect_seq || r.expect_seq == 0
    then proceed p.tag (advance r p)
    else if Cfifo.full r.wait_packs
    then proceed p.tag (advance (put_wait_pack (get_wait_pack r).1 p) (get_wait_pack r).0)
    else put_wait_pack (req_repeat_seq r p.tag r.expect_seq) p

-- From the test of `opts.enable_retransmit` on.
unfoldable pub forward : Intake → AudioPack → Intake
forward r p = if r.enable_retransmit then order_pack r p else enque_pack r p

-- The packet is behind, by less than 100: it may have been outdated just before.
abbrev pub is_late : Intake → AudioPack → Bool
is_late r p = ltb p.seq r.expect_seq && ltb (r.expect_seq - p.seq) 100

unfoldable pub queue_audio_pack : Intake → AudioPack → Intake
queue_audio_pack r p =
    if p.kind == packet_seq_outdate
    then proceed p.tag (record r { expect_seq = u32_add r.expect_seq 1 })
    else if ltb p.seq r.expect_seq
    then (if ltb (r.expect_seq - p.seq) 100 then r else forward (record r { expect_seq = 0 }) p)
    else forward r p

-- `outdate_seq`, for a packet PACKET_SEQ_OUTDATE.
unfoldable pub outdate_seq : Intake → AudioPack → Intake
outdate_seq r p = if r.expect_seq == p.seq then queue_audio_pack r p else r

-- What `udp_recved` does with an audio packet that has passed `audio_recved`, and with a notice.
unfoldable pub recved : Intake → AudioPack → Intake
recved r p = if p.kind == packet_seq_outdate then outdate_seq r p else queue_audio_pack r p

unfoldable pub recved_all : Intake → List AudioPack → Intake
recved_all r [] = r
recved_all r (p ∷ ps) = recved_all (recved r p) ps
