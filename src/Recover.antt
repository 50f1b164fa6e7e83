-- ===== src/Recover.antt =====
-- serv/recover.c, and tag_create of serv/tag.c for tag 1: how a server that starts anew restores the
-- discussion from the database, whose fields `discuss_open` and `online` are part of the device.
-- Left out are the addresses, subscriptions, registrations and votes that are restored meanwhile.
pub mod Speakers
mod Tests
use gsconferencing.Base.{
  ℕ, Option, none, List, [], ◌∷◌, Bool, true, false, if◌then◌else◌, ℤ, pos, int_eq,
}
use gsconferencing.Cfifo.{Cfifo}
use gsconferencing.Device.{Device, Mixer, max_mix}
use gsconferencing.Ptc.{Directory, Ptc, add_ptc, ptc_put, is_ptc, ptc_go_current}
use gsconferencing.Interp.{Interp}
use gsconferencing.Discuss.{Room, dev, add_open}

-- `dev_create`, with the fields that the database has, and a packet queue.
unfoldable pub dev_create : Cfifo (Option ℕ) → Device → Device
dev_create queue d = record {
  id = d.id;
  kind = d.kind;
  active = false;
  hbeat = 0;
  fifo = queue;
  mixbit = 0;
  timeouts = 0;
  highload = 0;
  flushed = 0;
  res = 0;
  info = none;
  sub = none;
  is_open = false;
  forbidden = false;
  db_open = d.db_open;
  db_online = false;
  has_sock = false;
}

-- `tag_create` of tag 1, with `discuss_mode` and `discuss_maxuser` of the group in the database.
unfoldable pub tag_create : Mixer → (ℕ → Bool) → (ℕ → Device) → ℤ → ℤ → Room
tag_create mixer avail devs mode maxuser = record {
  chan = record {
    tag = record {
      id = 1;
      mixer = mixer;
      mix_devs = λ _. none;
      mix_count = 0;
      mix_ref = 0;
      mix_silence = 0;
    };
    devs = devs;
    avail = avail;
    freed = [];
  };
  ptc = record { known = []; stack = []; curr = none; sent = [] };
  interp = record { mode = pos 0; rep = none; notices = [] };
  open_list = [];
  openuser = pos 0;
  maxuser = if int_eq maxuser (pos 0) then pos max_mix else maxuser;
  mode = mode;
  kicks = [];
}

module _ (dir : Directory) where
  -- Of a device that was just created, which is in no list.
  unfoldable pub restore_discuss : Room → ℕ → Room
  restore_discuss r d =
      let r1 = if is_ptc dir d then record r { ptc = add_ptc r.ptc d } else r in
      let r2 = add_open r1 d in
      if (dev r1 d).db_open then record r2 { ptc = ptc_put r2.ptc d } else r1

  -- The loop of `recover_devs` over the enabled devices of the database.
  unfoldable pub restore_all : Room → List ℕ → Room
  restore_all r [] = r
  restore_all r (d ∷ ds) = restore_all (restore_discuss r d) ds

  unfoldable pub recover_devs : Room → List ℕ → Room
  recover_devs r ds = let r1 = restore_all r ds in record r1 { ptc = ptc_go_current dir r1.ptc }

  -- A start of the server with one group: its tag 1 is created for the first of its devices.
  abbrev pub restart : Mixer → (ℕ → Bool) → Cfifo (Option ℕ) → ℤ → ℤ → (ℕ → Device) → List ℕ → Room
  restart mixer avail queue mode maxuser devs ds =
      recover_devs (tag_create mixer avail (λ d. dev_create queue (devs d)) mode maxuser) ds
