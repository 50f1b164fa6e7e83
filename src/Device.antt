-- ===== src/Device.antt =====
-- serv/dev.h, serv/tag.h and serv/net_mixer.c: a device as the mixing, casting and discussion code
-- sees it, the state of the tag it belongs to, and the resources of the net mixer.
-- A pointer is a handle: a number that names a device or a packet, with `none` for NULL. A device's
-- handle is where `Channel` keeps its record, whatever its `id` is.
use gsconferencing.Base.{
  ℕ, zero, suc, ◌+◌, ◌-◌, Option, none, some, List, Bool, true, false, ◌&&◌, if◌then◌else◌, leb,
  update,
}
use gsconferencing.Cfifo.{Cfifo}

-- `struct device`: an int that only serves as a flag is a `Bool`.
pub record Device : Type 0 where
  pub id : ℕ
  pub kind : ℕ  -- `type`
  pub active : Bool
  pub hbeat : ℕ
  pub fifo : Cfifo (Option ℕ)  -- `pack_fifo`, of `struct packet *`
  pub mixbit : ℕ
  pub timeouts : ℕ
  pub highload : ℕ
  pub flushed : ℕ  -- `stats.flushed`
  pub res : ℕ  -- `mixer.res`
  pub info : Option ℕ  -- `mixer.info`: the entry of `resources` whose address it is
  pub sub : Option ℕ  -- `subscription[0]`, by the tag's id
  pub is_open : Bool  -- `discuss.open`
  pub forbidden : Bool  -- `discuss.forbidden`
  pub db_open : Bool  -- `db_data->discuss_open`
  pub db_online : Bool  -- `db_data->online`
  pub has_sock : Bool  -- `audio_sock > 0`

pub data Mixer : Type 0 where
  soft_mixer : Mixer
  net_mixer : Mixer

abbrev pub max_mix : ℕ
max_mix = 8

-- The mixing part of `struct tag`. `mix_devs i` is the entry `i < max_mix`.
pub record Tag : Type 0 where
  pub id : ℕ
  pub mixer : Mixer
  pub mix_devs : ℕ → Option ℕ
  pub mix_count : ℕ
  pub mix_ref : ℕ
  pub mix_silence : ℕ

-- One tag and the devices of the conference, with `resources` of serv/net_mixer.c (`avail`), and
-- the packets given to `pack_free`, latest last.
pub record Channel : Type 0 where
  pub tag : Tag
  pub devs : ℕ → Device
  pub avail : ℕ → Bool
  pub freed : List ℕ

-- Store one device's record.
unfoldable pub put_dev : Channel → ℕ → Device → Channel
put_dev c d r = record c { devs = update c.devs d r }

abbrev pub resources_size : ℕ
resources_size = 8

-- The loop of `netmx_open_dev` from entry `i`, `n` entries left.
unfoldable pub find_avail : (ℕ → Bool) → ℕ → ℕ → Option ℕ
find_avail avail zero i = none
find_avail avail (suc n) i = if avail i then some i else find_avail avail n (i + 1)

-- `netmx_open_dev`, which returns -1 (here: no change) when all are taken.
unfoldable pub netmx_open_dev : Channel → ℕ → Channel
unfolding put_dev
netmx_open_dev c d = elim (find_avail c.avail resources_size 0) [
  | none ↦ c
  | some i ↦
      put_dev (record c { avail = update c.avail i false }) d
        (record (c.devs d) { res = i + 1; info = some i })
]

unfoldable pub netmx_close_dev : Channel → ℕ → Channel
unfolding put_dev
netmx_close_dev c d =
    if leb 1 (c.devs d).res && leb (c.devs d).res resources_size
    then put_dev (record c { avail = update c.avail ((c.devs d).res - 1) true }) d
        (record (c.devs d) { res = 0; info = none })
    else c

-- `MIX_OPEN_DEV` and `MIX_CLOSE_DEV`: the soft mixer has neither operation.
unfoldable pub mix_open_dev : Channel → ℕ → Channel
mix_open_dev c d = elim c.tag.mixer [ soft_mixer ↦ c | net_mixer ↦ netmx_open_dev c d ]

unfoldable pub mix_close_dev : Channel → ℕ → Channel
mix_close_dev c d = elim c.tag.mixer [ soft_mixer ↦ c | net_mixer ↦ netmx_close_dev c d ]
