-- ===== src/Video.antt =====
-- client/client.c and serv/cmd_video.c: a frame of video is cut into fragments of at most 1400 bytes,
-- which the server passes on from the one device that may send them, and put together again.
-- Headers are kept in host byte order (`htonl` and its kin are the machine's), and the offset that
-- the first four bytes of `data` hold is a field of its own.
pub mod Memory
pub mod Reassembly
pub mod Order
pub mod RoundTrip
pub mod Casting
mod Tests
use gsconferencing.Base.{
  ℕ, zero, suc, ◌+◌, ◌-◌, ◌*◌, ◌/◌, ◌%◌, Option, none, some, List, [], ◌∷◌, ◌++◌, Bool, true, false,
  not, ◌==◌, if◌then◌else◌, ltb, length, take, drop, update, ℤ, pos, int_eq,
}
use gsconferencing.Ptc.{member, unlink}

unfoldable pub frag_size : ℕ
frag_size = 1400

abbrev pub pack_head_len : ℕ
pack_head_len = 12

-- `struct pack` of the type PACKET_VIDEO: `tag` is the frame's number and `seq` its size.
pub record Fragment : Type 0 where
  pub id : ℕ
  pub tag : ℕ
  pub seq : ℕ
  pub datalen : ℕ
  pub off : ℕ
  pub body : List ℕ

-- A datagram: the packet and the length that is sent or received.
abbrev pub Datagram : Type 0
Datagram = Fragment × ℕ

module _ (id : ℕ) where
  abbrev pub fragment : ℕ → List ℕ → ℕ → ℕ → Datagram
  fragment fseq buf off n = (
    record {
      id = id;
      tag = fseq;
      seq = length buf;
      datalen = 4 + n;
      off = off;
      body = take n (drop off buf);
    },
    pack_head_len + 4 + n,
  )

  -- The loop over the whole fragments, `n` of them left, and the rest of `m` bytes.
  unfoldable pub send_frags : ℕ → List ℕ → ℕ → ℕ → ℕ → List Datagram
  send_frags fseq buf m zero off = if m == 0 then [] else fragment fseq buf off m ∷ []
  send_frags fseq buf m (suc n) off =
      fragment fseq buf off frag_size ∷ send_frags fseq buf m n (off + frag_size)

  -- `send_video` with its static `fseq`, which is counted up.
  unfoldable pub send_video : ℕ → List ℕ → ℕ × List Datagram
  unfolding frag_size
  send_video fseq buf =
      let fseq' = (fseq + 1) % 256 in
      (fseq', send_frags fseq' buf (length buf % 1400) (length buf / 1400) 0)

-- The devices that have started to cast, latest first, and the one whose packets are passed on.
pub record Casters : Type 0 where
  pub video_head : List ℕ
  pub bcast_dev : Option ℕ

-- What the command `video` does: it goes through, is refused, or its behaviour is undefined.
pub data Outcome : Type 0 where
  done : Casters → Outcome
  refused : Outcome
  undefined : Outcome

-- `video start <tid>`: `list_add` of a device that is in the list is undefined.
unfoldable pub video_start : Casters → ℕ → ℤ → Outcome
video_start c d tid =
    if int_eq tid (pos 0)
    then (if member d c.video_head
        then undefined
        else done (record c { video_head = d ∷ c.video_head; bcast_dev = some d }))
    else refused

abbrev pub first_caster : List ℕ → Option ℕ
first_caster [] = none
first_caster (d ∷ ds) = some d

-- `video stop` by the device `d` after `list_del`, which leaves `rest`, when `b` was broadcast.
unfoldable pub next_caster : ℕ → ℕ → List ℕ → Casters
next_caster b d [] = record { video_head = []; bcast_dev = none }
next_caster b d (first ∷ ds) = record {
  video_head = first ∷ ds;
  bcast_dev = if b == d then some first else some b;
}

-- `video stop`: `list_del` of a device that is in no list is undefined.
unfoldable pub video_stop : Casters → ℕ → Outcome
video_stop c d = elim c.bcast_dev [
  | none ↦ refused
  | some b ↦
      if member d c.video_head then done (next_caster b d (unlink d c.video_head)) else undefined
]

-- `cast_video`: what is broadcast.
unfoldable pub cast_video : Casters → ℕ → Datagram → List Datagram
cast_video c d p = elim c.bcast_dev [ none ↦ [] | some b ↦ if d == b then p ∷ [] else [] ]

-- The statics of `video_recved`: `fseq` is `none` for -1; `frame` is the memory that `realloc` keeps;
-- `events` are the frames given to `event_handler`, latest last.
pub record Viewer : Type 0 where
  pub frame : ℕ → ℕ
  pub fsize : ℕ
  pub flen : ℕ
  pub fseq : Option ℕ
  pub events : List (List ℕ)

-- `memcpy` to `frame + off`.
unfoldable pub write_frame : (ℕ → ℕ) → ℕ → List ℕ → ℕ → ℕ
write_frame frame off [] = frame
write_frame frame off (b ∷ bs) = write_frame (update frame off b) (off + 1) bs

-- The `n` bytes from `frame + off` on.
unfoldable pub read_frame : (ℕ → ℕ) → ℕ → ℕ → List ℕ
read_frame frame off zero = []
read_frame frame off (suc n) = frame off ∷ read_frame frame (off + 1) n

abbrev pub is_frame : Option ℕ → ℕ → Bool
is_frame none tag = false
is_frame (some f) tag = f == tag

-- The first packet of another frame.
unfoldable pub start_frame : Viewer → ℕ → Viewer
start_frame v tag = if is_frame v.fseq tag then v else record v { fseq = some tag; flen = 0 }

unfoldable pub add_fragment : Viewer → Fragment → Viewer
add_fragment v p = record v {
  fsize = if ltb v.fsize p.seq then p.seq else v.fsize;
  frame = write_frame v.frame p.off p.body;
  flen = v.flen + (p.datalen - 4);
}

-- `if( flen==size )`
unfoldable pub finish_frame : Viewer → ℕ → Viewer
finish_frame v size =
    if v.flen == size
    then record v { events = v.events ++ (read_frame v.frame 0 v.flen ∷ []); fseq = none; flen = 0 }
    else v

unfoldable pub video_recved : Viewer → Datagram → Viewer
video_recved v (p, len) =
    if pack_head_len + p.datalen == len
    then finish_frame (add_fragment (start_frame v p.tag) p) p.seq
    else v

unfoldable pub video_recved_all : Viewer → List Datagram → Viewer
video_recved_all v [] = v
video_recved_all v (p ∷ ps) = video_recved_all (video_recved v p) ps
