-- ===== src/Heartbeat.antt =====
-- serv/hbeat.c and the activation of serv/devctl.c: which devices are alive. The group is group 1 and
-- all of its devices belong to the tag of `Room`. `ping_dev` of serv/network.c is an argument. The
-- locks are left out. Group 1 is there, and every device of it has its record of the database.
pub mod Counts
pub mod Events
pub mod Rounds
mod Tests
use gsconferencing.Base.{
  ℕ, ◌+◌, Option, none, some, List, [], ◌∷◌, ◌++◌, Bool, true, false, not, ◌&&◌, ◌||◌,
  if◌then◌else◌, ltb, ℤ, int_inc, int_dec, update,
}
use gsconferencing.Device.{Device, put_dev}
use gsconferencing.Discuss.{Room, dev, del_open}

pub record Group : Type 0 where
  pub room : Room
  pub members : List ℕ  -- `device_head`
  pub active_count : ℕ → ℤ  -- `stats.active_count`, 8 entries
  pub ents_dirty : Bool  -- the cache that `dirty_dev_ents_cache` marks
  pub cyctl : Option ℕ
  pub rescues : List (ℕ × ℕ)  -- the lines "0 cyc_ctl <id>" sent to `cyctl`

abbrev pub set_dev : Group → ℕ → Device → Group
set_dev g d r = record g { room = record (g.room) { chan = put_dev g.room.chan d r } }

abbrev pub same_flag : Bool → Bool → Bool
same_flag a b = a && b || not a && not b

-- `do_dev_activate`
unfoldable pub do_activate : Group → ℕ → Bool → Group
unfolding put_dev
do_activate g d a =
    let r = dev g.room d in
    if same_flag r.active a
    then g
    else record (set_dev g d (record r { active = a; db_online = a })) {
      active_count =
          if ltb r.kind 8
          then update g.active_count r.kind
              (if a then int_inc (g.active_count r.kind) else int_dec (g.active_count r.kind))
          else g.active_count;
      ents_dirty = true;
    }

unfoldable pub dev_heartbeat : Group → ℕ → Group
unfolding put_dev
dev_heartbeat g d =
    let g1 = set_dev g d (record (dev g.room d) { hbeat = 0 }) in
    if (dev g.room d).active then g1 else do_activate g1 d true

unfoldable pub check_net : Group → ℕ → Bool → Group
check_net g d answers = if answers then g else elim g.cyctl [
  | none ↦ g
  | some c ↦ record g { rescues = g.rescues ++ ((c, (dev g.room d).id) ∷ []) }
]

-- The device does not answer any more. In a room in order one that is open is in the list.
unfoldable pub bury : Group → ℕ → Group
bury g d =
    let g1 = do_activate g d false in
    if (dev g1.room d).is_open then record g1 { room = del_open g1.room d } else g1

-- The body of the loop of `run_heartbeat_god`.
unfoldable pub god_one : (ℕ → Bool) → Group → ℕ → Group
unfolding put_dev
god_one ping g d =
    let h = (dev g.room d).hbeat + 1 in
    let g1 = set_dev g d (record (dev g.room d) { hbeat = h }) in
    if ltb 3 h && (dev g.room d).active then check_net (bury g1 d) d (ping d) else g1

unfoldable pub god_loop : (ℕ → Bool) → Group → List ℕ → Group
god_loop ping g [] = g
god_loop ping g (d ∷ ds) = god_loop ping (god_one ping g d) ds

-- What `run_heartbeat_god` does every 10 seconds.
unfoldable pub god_round : (ℕ → Bool) → Group → Group
god_round ping g = god_loop ping g g.members
