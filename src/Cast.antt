-- ===== src/Cast.antt =====
-- serv/cast.c: the packets that a tag casts are numbered, kept in a ring of the latest 16 and cast
-- once more on request. A packet's header is kept in host byte order (`htonl` and `ntohl` are the
-- machine's); a listener is a device in the list `subscribe_head[0]`.
pub mod Ring
pub mod Repeat
mod Tests
use Prim.Native.Nat.{bit_and}
use gsconferencing.Base.{
  ℕ, zero, suc, ◌+◌, ◌%◌, Option, none, some, List, [], ◌∷◌, ◌++◌, Bool, true, false, not, ◌&&◌,
  ◌==◌, if◌then◌else◌, ltb, u32_add, update,
}
use gsconferencing.Cfifo
use gsconferencing.Cfifo.{Cfifo}
use gsconferencing.Device.{Device}

abbrev pub rep_cast_size : ℕ
rep_cast_size = 16

abbrev pub rep_cast_mask : ℕ
rep_cast_mask = 15

-- `struct packet` with the fields of its header that casting touches.
pub record Packet : Type 0 where
  pub seq : ℕ
  pub tag : ℕ
  pub rep_count : ℕ
  pub body : List ℕ

-- What is sent on the sockets: a packet or the notice PACKET_SEQ_OUTDATE, and to whom.
pub data Message : Type 0 where
  broadcast_pack : Packet → Message
  broadcast_outdate : ℕ → ℕ → Message
  send_udp : ℕ → Packet → Message
  send_audio : ℕ → Packet → Message

-- The command line options that casting reads.
pub record Options : Type 0 where
  pub broadcast : Bool
  pub tcp_audio : Bool

-- The casting part of `struct tag`, with the packets by their handles.
pub record Casting : Type 0 where
  pub id : ℕ
  pub packs : ℕ → Packet
  pub rep_pack : ℕ → Option ℕ
  pub rep_pos : ℕ
  pub rep_reqs : Cfifo (ℕ × ℕ)  -- the device and the sequence number it asks for
  pub seq : ℕ
  pub sent : List Message
  pub freed : List ℕ

abbrev pub send : Casting → Message → Casting
send c m = record c { sent = c.sent ++ (m ∷ []) }

-- The search of `__repeat_cast` from `i - 1` down to 0.
unfoldable pub find_repeat : Casting → ℕ → ℕ → Option ℕ
find_repeat c s zero = none
find_repeat c s (suc i) =
    let rest = find_repeat c s i in
    elim (c.rep_pack (bit_and (c.rep_pos + i) rep_cast_mask)) [
      | none ↦ rest
      | some r ↦ if (c.packs r).seq == s then some r else rest
    ]

-- The packet `r` has the sequence number asked for.
unfoldable pub repeat_pack : Casting → ℕ → Casting
repeat_pack c r =
    let p = c.packs r in
    if ltb p.rep_count 8
    then send (record c { packs = update c.packs r (record p { rep_count = p.rep_count + 1 }) })
        (broadcast_pack p)
    else c

-- After the search. The tag of the notice has 8 bits, as that of a packet.
unfoldable pub respond : Casting → ℕ → Option ℕ → Casting
respond c s none = send c (broadcast_outdate s (c.id % 256))
respond c s (some r) = repeat_pack c r

unfoldable pub repeat_cast : Casting → ℕ → Casting
repeat_cast c s = respond c s (find_repeat c s rep_cast_size)

-- `pack_free(out)`, if there is one.
abbrev pub free_out : List ℕ → Option ℕ → List ℕ
free_out freed none = freed
free_out freed (some r) = freed ++ (r ∷ [])

unfoldable pub outdate_pack : Casting → ℕ → Casting
outdate_pack c p = record c {
  packs = update c.packs p (record (c.packs p) { rep_count = 0 });
  rep_pack = update c.rep_pack c.rep_pos (some p);
  rep_pos = bit_and (c.rep_pos + 1) rep_cast_mask;
  freed = free_out c.freed (c.rep_pack c.rep_pos);
}

module _ (opt : Options) where
  -- Over TCP nothing is lost, and requests are ignored.
  abbrev pub reliable : Bool
  reliable = not opt.broadcast && opt.tcp_audio

  unfoldable pub req_repeat : Casting → ℕ → ℕ → Casting
  req_repeat c d s =
      if reliable
      then c
      else if Cfifo.full c.rep_reqs
      then c
      else record c { rep_reqs = (Cfifo.put_in (Cfifo.write_in c.rep_reqs (d, s))).0 }

  -- The loop of `tag_repeats`, `n` rounds at most: no request is put in meanwhile.
  unfoldable pub repeats_loop : ℕ → Casting → Casting
  repeats_loop zero c = c
  repeats_loop (suc n) c =
      let c1 = repeat_cast c (Cfifo.get_out c.rep_reqs).1 in
      let rest = repeats_loop n (record c1 { rep_reqs = (Cfifo.take_out c1.rep_reqs).0 }) in
      if Cfifo.empty c.rep_reqs then c else rest

  -- The requests that are waiting are as many as `cfifo_len` says.
  unfoldable pub repeats : Casting → Casting
  repeats c = if reliable then c else repeats_loop (Cfifo.len c.rep_reqs) c

  module _ (devs : ℕ → Device) where
    -- One listener: not the device with id 0.
    unfoldable pub cast_to : Packet → Casting → ℕ → Casting
    cast_to p c d =
        if (devs d).id == 0
        then c
        else if opt.tcp_audio
        then (if (devs d).has_sock then send c (send_audio d p) else c)
        else if (devs d).active
        then send c (send_udp d p)
        else c

    unfoldable pub cast_all : Packet → Casting → List ℕ → Casting
    cast_all p c [] = c
    cast_all p c (d ∷ ds) = cast_all p (cast_to p c d) ds

    -- `tag_cast_pack`: number the packet, and send it.
    unfoldable pub cast_pack : List ℕ → Casting → ℕ → Casting
    cast_pack listeners c r =
        let s = u32_add c.seq 1 in
        let p = record (c.packs r) { seq = s; tag = c.id % 256 } in
        let c1 = record c { seq = s; packs = update c.packs r p } in
        if opt.broadcast then send c1 (broadcast_pack p) else cast_all p c1 listeners

    -- One round of `tag_run_casting`; `pack` is what `MIX_GET` returns.
    unfoldable pub cast_round : List ℕ → Casting → Option ℕ → Casting
    cast_round listeners c none = repeats c
    cast_round listeners c (some r) = outdate_pack (cast_pack listeners (repeats c) r) r
