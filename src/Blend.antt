-- ===== src/Blend.antt =====
-- serv/tag.c, `tag_mix_audio`: one packet of each outstanding device is taken and mixed, over the
-- queues of Tag and the samples of Pcm. `MIX_DEBUG` is off. What the other threads do while this one
-- sleeps is an argument.
pub mod Step
pub mod Gather
pub mod Account
mod Tests
use gsconferencing.Base.{
  ℕ, zero, suc, ◌+◌, ◌-◌, ◌*◌, ◌/◌, ◌^◌, Option, none, some, List, [], ◌∷◌, ◌++◌, map, Bool, true,
  false, ◌&&◌, if◌then◌else◌, ltb, leb, ◌==◌, not, ℤ, pos, length, update,
}
use gsconferencing.Cfifo
use gsconferencing.Device.{Channel, max_mix, put_dev}
use gsconferencing.Tag.{out_dev_packet, pack_free, flush_queues, all_queues_bell, wait_all_queues}
use gsconferencing.Pcm.{pcm_mix, pcm_silent}

-- What the mix reads and writes of `struct packet` and the `pack_data` in it. The samples are in the
-- memory, from `pcm` on.
pub record PackData : Type 0 where
  pub is_zero : Bool  -- `type == PACKET_AUDIO_ZERO`
  pub datalen : ℕ  -- in the host's order
  pub packet_len : ℕ  -- `len`
  pub pcm : ℕ

pub record Blend : Type 0 where
  pub chan : Channel
  pub packs : ℕ → PackData
  pub mem : ℕ → ℤ

abbrev pub maxpack : ℕ
maxpack = 1800

-- `offsetof(pack_data, data)`
abbrev pub pack_head : ℕ
pack_head = 12

abbrev pub touch_dev : Channel → ℕ → Channel
touch_dev c d = put_dev c d (record (c.devs d) { timeouts = 0 })

-- The local variables of the second pass: `c` is the length of `pp`, and `au` the samples of each.
pub record Gathered : Type 0 where
  pub blend : Blend
  pub pp : List ℕ
  pub mixlen : ℕ

-- `memset(aupack->data, 0, l)` and the two assignments after it.
unfoldable pub fill_zero : Blend → ℕ → Blend
fill_zero b p =
    let k = b.packs p in
    record b {
      packs = update b.packs p (record k { is_zero = false; packet_len = pack_head + k.datalen });
      mem = λ a. if leb k.pcm a && ltb a (k.pcm + k.datalen / 2) then pos 0 else b.mem a;
    }

-- `add_mix_pack`
unfoldable pub add_mix_pack : Gathered → ℕ → Gathered
add_mix_pack g p =
    let k = g.blend.packs p in
    if ltb (maxpack - 100) k.datalen
    then record g { blend = record (g.blend) { chan = pack_free g.blend.chan (some p) } }
    else record g {
      blend = if k.is_zero then fill_zero g.blend p else g.blend;
      pp = g.pp ++ (p ∷ []);
      mixlen = if ltb k.datalen g.mixlen then k.datalen else g.mixlen;
    }

abbrev pub with_chan : Gathered → Channel → Gathered
with_chan g c = record g { blend = record (g.blend) { chan = c } }

-- A queue that gives NULL would be read through: `none`.
unfoldable pub take_pack : Gathered → Option ℕ × Channel → Option Gathered
take_pack g (none, c) = none
take_pack g (some p, c) = some (add_mix_pack (with_chan g c) p)

-- The body of the loop for a device.
unfoldable pub gather_dev : Gathered → ℕ → Option Gathered
gather_dev g d =
    let c = g.blend.chan in
    if Cfifo.empty (c.devs d).fifo then some g else take_pack g (out_dev_packet (touch_dev c d) d)

unfoldable pub gather_entry : Gathered → Option ℕ → Option Gathered
gather_entry g none = some g
gather_entry g (some d) = gather_dev g d

-- The loop over `mix_devs` from entry `i`, `n` entries left.
unfoldable pub gather : ℕ → ℕ → Gathered → Option Gathered
gather zero i g = some g
gather (suc n) i g = elim (gather_entry g (g.blend.chan.tag.mix_devs i)) [
  | none ↦ none
  | some g1 ↦ gather n (i + 1) g1
]

unfoldable pub free_all : Channel → List ℕ → Channel
free_all c [] = c
free_all c (p ∷ ps) = free_all (pack_free c (some p)) ps

abbrev pub set_silence : Blend → ℕ → Blend
set_silence b n = record b {
  chan = record (b.chan) { tag = record (b.chan.tag) { mix_silence = n } };
}

abbrev pub set_chan : Blend → Channel → Blend
set_chan b c = record b { chan = c }

-- The test for silence: the packet to return, if any.
unfoldable pub drop_silence : Bool → Blend → ℕ → ℕ → ℕ → Option ℕ × Blend
drop_silence opt b p count mixlen =
    let n = b.chan.tag.mix_silence + 1 in
    if opt
    then (if pcm_silent b.mem (b.packs p).pcm mixlen (51200 * count)
        then (if ltb 50 n
            then (none, set_silence (set_chan b (pack_free b.chan (some p))) n)
            else (some p, set_silence b n))
        else (some p, set_silence b 0))
    else (some p, b)

-- From `switch (c)` on.
unfoldable pub finish : Bool → Gathered → List ℕ → Option ℕ × Blend
finish opt g [] = (none, g.blend)
finish opt g (p ∷ []) = drop_silence opt g.blend p 1 g.mixlen
finish opt g (p ∷ q ∷ ps) =
    let b = g.blend in
    let mixed =
      pcm_mix b.mem (b.packs p).pcm (map (λ (r : ℕ). (b.packs r).pcm) (q ∷ ps)) (g.mixlen / 2) in
    drop_silence opt (record b { mem = mixed; chan = free_all b.chan (q ∷ ps) }) p
      (length (p ∷ q ∷ ps)) g.mixlen

-- `tag_mix_audio` after the wait.
unfoldable pub blend_packs : Bool → Blend → Option (Option ℕ × Blend)
blend_packs opt b = elim (gather max_mix 0 (record { blend = b; pp = []; mixlen = 2 ^ 18 })) [
  | none ↦ none
  | some g ↦ some (finish opt g g.pp)
]

-- `wait_any_queue`: 12 rounds use up the 11610 microseconds.
unfoldable pub wait_any_loop : (ℕ → Channel → Channel) → ℕ → Channel → Channel
wait_any_loop others zero c = c
wait_any_loop others (suc left) c =
    let rest = wait_any_loop others left (others left c) in if all_queues_bell c then c else rest

unfoldable pub wait_any_queue : (ℕ → Channel → Channel) → Channel → Channel × Bool
wait_any_queue others c = (wait_any_loop others 12 c, true)

-- The policies with an end to the wait.
pub data Sync : Type 0 where
  sync_wait : Sync
  sync_fixed : Sync

unfoldable pub wait_for : (ℕ → Channel → Channel) → Sync → Channel → Channel × Bool
wait_for others sync_wait c = wait_all_queues others c
wait_for others sync_fixed c = wait_any_queue others c

unfoldable pub tag_mix_audio :
    (ℕ → Channel → Channel) → Bool → Sync → Bool → Blend → Option (Option ℕ × Blend)
tag_mix_audio others opt_flush sync opt_silence b =
    let c1 =
      if opt_flush && not (b.chan.tag.mix_count == 1) then (flush_queues b.chan).0 else b.chan in
    let (c2, ready) = wait_for others sync c1 in
    if ready then blend_packs opt_silence (set_chan b c2) else some (none, set_chan b c2)
