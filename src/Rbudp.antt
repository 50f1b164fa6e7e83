-- ===== src/Rbudp.antt =====
-- client/rbudp.c: broadcasts over UDP that a receiver may ask for again. `sendto` and `recvfrom` are
-- the machine's: what is sent is a result or a list in the state, and a packet that arrives is an
-- argument. `uint16_t` sequence numbers wrap at 2 ^ 16 and never are 0.
pub mod Receive
pub mod Gap
pub mod Stream
pub mod Repair
mod Tests
use Prim.Native.Nat.{bit_and}
use gsconferencing.Base.{
  ℕ, zero, suc, ◌+◌, ◌-◌, ◌%◌, Option, none, some, List, [], ◌∷◌, ◌++◌, Bool, true, false, not,
  ◌&&◌, ◌||◌, ◌==◌, if◌then◌else◌, ltb, update,
}
use gsconferencing.Cfifo
use gsconferencing.Cfifo.{Cfifo}

-- The three types of packets.
pub data Kind : Type 0 where
  fresh : Kind
  retran : Kind
  repair : Kind

-- `struct rbudp_packet`; `len` is the length of `body`.
pub record RbudpPacket : Type 0 where
  pub tag : ℕ
  pub kind : Kind
  pub seq : ℕ
  pub extra : ℕ
  pub body : List ℕ

abbrev pub u16_mod : ℕ
u16_mod = 65536

abbrev pub rep_mask : ℕ
rep_mask = 31

pub record Sender : Type 0 where
  pub seq : ℕ
  pub rep_bufs : ℕ → RbudpPacket
  pub rep_seq : ℕ → ℕ
  pub rep_count : ℕ → ℕ

-- `if( ++seq==0 ) seq=1;`
abbrev pub next_seq : ℕ → ℕ
next_seq s = let s1 = (s + 1) % u16_mod in if s1 == 0 then 1 else s1

-- `rbudp_broadcast`: the packet sent, and the state with the packet cached, which is marked for
-- retransmission only if `sendto` succeeds.
unfoldable pub broadcast : Sender → ℕ → ℕ → List ℕ → Bool → RbudpPacket × Sender
broadcast s tag extra body success =
    let q = next_seq s.seq in
    let p : RbudpPacket = record {
      tag = tag % 256;
      kind = fresh;
      seq = q;
      extra = extra % u16_mod;
      body = body;
    } in
    let cached = if success then record p { kind = repair } else p in
    (p, record s { seq = q; rep_bufs = update s.rep_bufs (bit_and q rep_mask) cached })

-- What `run_retransmit` sends for a request.
pub data Reply : Type 0 where
  silent : Reply
  to_requester : RbudpPacket → Reply
  to_all : RbudpPacket → Reply

abbrev pub reply : ℕ → RbudpPacket → Reply
reply count p = if ltb count 8 then to_requester p else if ltb count 20 then to_all p else silent

-- The request is for the packet that the slot holds.
unfoldable pub repeat_slot : Sender → ℕ → ℕ → Reply × Sender
repeat_slot s i q =
    let count = if s.rep_seq i == q then s.rep_count i else 0 in
    (
      reply count (s.rep_bufs i),
      record s { rep_seq = update s.rep_seq i q; rep_count = update s.rep_count i (count + 1) },
    )

abbrev pub is_retran : Kind → Bool
is_retran fresh = false
is_retran retran = true
is_retran repair = false

unfoldable pub retransmit : Sender → RbudpPacket → Reply × Sender
retransmit s req =
    let i = bit_and req.seq rep_mask in
    if is_retran req.kind && (s.rep_bufs i).seq == req.seq
    then repeat_slot s i req.seq
    else (silent, s)

-- The receiver: `committed` are the packets given to `recv_cb`, and `requests` the sequence numbers
-- sent by `req_repeat`, both latest last.
pub record Receiver : Type 0 where
  pub tag : ℕ
  pub expect : ℕ
  pub wait : Cfifo RbudpPacket
  pub committed : List RbudpPacket
  pub requests : List ℕ

unfoldable pub set_tag : Receiver → ℕ → Receiver
set_tag r tag = record r { tag = tag; expect = 0 }

unfoldable pub put_wait : Receiver → RbudpPacket → Receiver
put_wait r p = record r { wait = (Cfifo.put_in (Cfifo.write_in r.wait p)).0 }

-- `get_wait` of a queue that is not empty. The packet is read at once: no `put_wait` writes to its
-- slot before it is committed.
unfoldable pub get_wait : Receiver → RbudpPacket × Receiver
get_wait r = (Cfifo.get_out r.wait, record r { wait = (Cfifo.take_out r.wait).0 })

unfoldable pub commit : Receiver → RbudpPacket → Receiver
commit r p = record r { expect = (p.seq + 1) % u16_mod; committed = r.committed ++ (p ∷ []) }

-- `while( (next = get_wait()) ) commit`, with `n` rounds at most.
unfoldable pub drain : ℕ → Receiver → Receiver
drain zero r = r
drain (suc n) r =
    let rest = drain n (commit (get_wait r).1 (get_wait r).0) in
    if Cfifo.empty r.wait then r else rest

-- The loop that commits a packet and all that wait.
unfoldable pub deliver : Receiver → RbudpPacket → Receiver
deliver r p = drain (Cfifo.len r.wait) (commit r p)

-- The tests on `p->seq` against `expect_seq`: `none` to drop the packet.
unfoldable pub adjust : Receiver → RbudpPacket → Option Receiver
adjust r p =
    if ltb p.seq r.expect
    then (if ltb (r.expect - p.seq) 100
        then none
        else some (record r { wait = Cfifo.clear r.wait; expect = 0 }))
    else if ltb r.expect p.seq && Cfifo.empty r.wait && ltb 1 (p.seq - r.expect)
    then some (record r { expect = p.seq })
    else some r

-- The packet is not the one expected.
unfoldable pub hold : Receiver → RbudpPacket → Receiver
hold r p =
    if Cfifo.full r.wait
    then deliver (put_wait (get_wait r).1 p) (get_wait r).0
    else put_wait
        (if Cfifo.empty r.wait then record r { requests = r.requests ++ (r.expect ∷ []) } else r) p

unfoldable pub accept : Receiver → RbudpPacket → Receiver
accept r p = if p.seq == r.expect || r.expect == 0 then deliver r p else hold r p

unfoldable pub accept_adjusted : Receiver → RbudpPacket → Option Receiver → Receiver
accept_adjusted r p none = r
accept_adjusted r p (some r1) = accept r1 p

-- One round of `rbudp_run_recv`.
unfoldable pub receive : Receiver → RbudpPacket → Receiver
receive r p = if p.tag == r.tag then accept_adjusted r p (adjust r p) else r

unfoldable pub receive_all : Receiver → List RbudpPacket → Receiver
receive_all r [] = r
receive_all r (p ∷ ps) = receive_all (receive r p) ps
