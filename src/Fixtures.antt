-- ===== src/Fixtures.antt =====
-- Test data that the tests of several modules share: devices 1 to 12, of which 2 is a chairman and
-- 3 an interpreter, in a tag of the soft mixer where nobody speaks.
use gsconferencing.Base.{
  ℕ, ◌≡◌, refl, none, some, Option, [], true, false, arith, ◌==◌, if◌then◌else◌, pos, ◌∷◌,
}
use gsconferencing.Cfifo
use gsconferencing.Cfifo.{Cfifo}
use gsconferencing.Cfifo.Index.{IsValid, init-IsValid}
use gsconferencing.Device.{Device, Channel, soft_mixer}
use gsconferencing.Tag.Outstanding.{Mixes}
use gsconferencing.Tag.Search.{taken}
use gsconferencing.Ptc.{Ptc, Directory}
use gsconferencing.Interp.{Interp}
use gsconferencing.Discuss.{Room}
use gsconferencing.Discuss.Open
use gsconferencing.Ptc.{member}

abbrev pub queue : Cfifo (Option ℕ)
queue = Cfifo.init (λ _. none) 5 2

abbrev pub device : ℕ → Device
device d = record {
  id = d;
  kind = if d == 2 then 2 else if d == 3 then 3 else 1;
  active = true;
  hbeat = 0;
  fifo = queue;
  mixbit = 0;
  timeouts = 0;
  highload = 0;
  flushed = 0;
  res = 0;
  info = none;
  sub = some 1;
  is_open = false;
  forbidden = false;
  db_open = false;
  db_online = true;
  has_sock = true;
}

abbrev pub silent : Channel
silent = record {
  tag = record {
    id = 1;
    mixer = soft_mixer;
    mix_devs = λ _. none;
    mix_count = 0;
    mix_ref = 0;
    mix_silence = 0;
  };
  devs = device;
  avail = λ _. true;
  freed = [];
}

pub silent-Mixes : Mixes silent
unfolding taken
silent-Mixes = record {
  counted = refl;
  marked = λ i d lt e. absurd (none_ne_some e);
  listed = λ d ne. absurd (ne refl);
  ref_in = omega arith;
  ref_taken = λ h. absurd (omega arith);
}
  where
    none_ne_some : {d : ℕ} → none ≡ some d → ⊥
    none_ne_some e = cc

pub queue-IsValid : IsValid 5 queue
queue-IsValid = init-IsValid (λ _. none) 5 2 (omega arith)

-- Camera 10 serves every device; a device's handle is its id.
abbrev pub directory : Directory
directory = record {
  get_device = λ i. some i;
  id = λ d. d;
  ptc_id = λ _. 10;
  ptc_cmd = λ d. d ∷ [];
}

abbrev pub idle_ptc : Ptc
idle_ptc = record { known = []; stack = []; curr = none; sent = [] }

abbrev pub idle_interp : Interp
idle_interp = record { mode = pos 0; rep = none; notices = [] }

-- Two may speak, in fifo mode.
abbrev pub hall : Room
hall = record {
  chan = silent;
  ptc = idle_ptc;
  interp = idle_interp;
  open_list = [];
  openuser = pos 0;
  maxuser = pos 2;
  mode = pos 1;
  kicks = [];
}

pub hall-IsValid : Open.IsValid hall
unfolding member
hall-IsValid = record {
  counted = refl;
  once = tt;
  flagged = λ d. refl;
  saved = λ d. refl;
  mixes = silent-Mixes;
}
