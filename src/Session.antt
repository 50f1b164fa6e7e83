-- ===== src/Session.antt =====
-- serv/cmd_discctrl.c: the subcommands beside the request for the microphone, for a group whose one
-- tag is tag 1, `room`. What is saved for the group in the database is part of the state. The
-- replies are left out, but for the ids that status prints; `told` are the broadcasts and commands
-- that go to other devices, latest last.
pub mod Kept
mod Tests
use gsconferencing.Base.{
  ℕ, ◌<◌, Option, none, some, List, [], ◌∷◌, ◌++◌, Bool, true, false, if◌then◌else◌, ltb, length,
  get_elem?, map, update, ℤ, pos, negsuc, ◌==◌,
}
use gsconferencing.Device.{Device, put_dev}
use gsconferencing.Discuss.{Room, dev}
use gsconferencing.Text.{Bytes, atoi, foreach_id, list_to_numlist}

-- `struct db_discuss`
pub record Discussion : Type 0 where
  pub id : ℕ
  pub name : Bytes
  pub members : Bytes

-- Where a command goes.
pub data Notice : Type 0 where
  to_tag : Notice
  to_all : Notice
  to_members : List ℕ → Notice
  to_dev : ℕ → Notice

-- The columns of the group in the database.
pub record Saved : Type 0 where
  pub discuss_mode : ℤ
  pub discuss_maxuser : ℤ
  pub discuss_id : ℕ

pub record Session : Type 0 where
  pub room : Room
  pub current : Option Discussion
  pub curr_num : ℕ
  pub memberids : List ℕ
  pub chairman : Option ℕ
  pub disabled : ℤ
  pub db : List Discussion
  pub saved : Saved
  pub chairs : ℕ → Bool  -- `db_data->discuss_chair`
  pub told : List Notice

abbrev pub err_failed : ℕ
err_failed = 6

-- What a subcommand returns: 0, with the state, or an error; or its behaviour is undefined.
pub data Result : Type 0 where
  done : Session → Result
  failed : ℕ → Result
  undefined : Result

abbrev pub tell : Session → Notice → Session
tell s n = record s { told = s.told ++ (n ∷ []) }

unfoldable pub set_mode : Session → ℤ → Session
set_mode s i = record (tell s to_tag) {
  room = record s.room { mode = i };
  saved = record s.saved { discuss_mode = i };
}

unfoldable pub set_maxuser : Session → ℤ → Session
set_maxuser s max = record s {
  room = record s.room { maxuser = max };
  saved = record s.saved { discuss_maxuser = max };
}

-- `md_get_array_discuss` fills `db`.
unfoldable pub query : Session → List Discussion → Session
query s found = record s { db = found }

unfoldable pub group_setup_discuss : Session → Discussion → Session
group_setup_discuss s c = record s { memberids = map atoi (foreach_id c.members); current = some c }

-- `m->discuss.forbidden = 0` for the members that are there: `get_device` finds the device of an id.
unfoldable pub allow_all : (ℕ → Option ℕ) → Room → List ℕ → Room
allow_all get_device r [] = r
allow_all get_device r (i ∷ is) =
    allow_all get_device
      (elim (get_device i) [
        | none ↦ r
        | some m ↦ record r { chan = put_dev r.chan m (record (dev r m) { forbidden = false }) }
      ])
      is

-- `INIT_LIST_HEAD(&tag->discuss.open_list); tag->discuss.openuser = 0;`
abbrev pub clear_open : Room → Room
clear_open r = record r { open_list = []; openuser = pos 0 }

module _ (get_device : ℕ → Option ℕ) where
  -- After the tests, for entry `num` of `db`.
  unfoldable pub select_discuss : Session → ℕ → ℕ → Discussion → Session
  select_discuss s d num c =
      let s1 = group_setup_discuss s c in
      record s1 {
        curr_num = num;
        room = allow_all get_device (clear_open s.room) s1.memberids;
        told = s.told ++ (to_members s1.memberids ∷ to_dev 1 ∷ []);
        chairs = update s.chairs d true;
        chairman = some d;
        saved = record s.saved { discuss_id = c.id };
      }

  unfoldable pub select_entry : Session → ℕ → ℕ → Result
  select_entry s d num = elim (get_elem? s.db num) [
    | none ↦ failed err_failed
    | some c ↦ done (select_discuss s d num c)
  ]

  -- Only one discussion at a time; a negative number reads before `db`.
  unfoldable pub select : Session → ℕ → ℤ → Result
  select s d num = elim s.current [
    | some c ↦ failed err_failed
    | none ↦ elim num [ pos n ↦ select_entry s d n | negsuc n ↦ undefined ]
  ]

  unfoldable pub forbid_device : Session → ℕ → Session
  forbid_device s i = elim (get_device i) [
    | none ↦ s
    | some m ↦ record (tell s (to_dev i)) {
      room = record s.room {
        chan = put_dev s.room.chan m (record (dev s.room m) { forbidden = true });
      };
    }
  ]

-- The ids that `status` prints, for devices whose id is `id_of`.
unfoldable pub status : Session → Option Bytes
status s = elim s.current [
  | none ↦ none
  | some c ↦ some (list_to_numlist (map (λ (d : ℕ). (dev s.room d).id) s.room.open_list))
]

unfoldable pub close : Session → ℕ → Result
close s d = elim s.current [
  | none ↦ failed err_failed
  | some c ↦ done (record (tell s to_all) {
    current = none;
    room = clear_open s.room;
    chairs = update s.chairs d false;
    chairman = none;
    saved = record s.saved { discuss_id = 0 };
  })
]

-- `stop`: the array of discussions is cleared.
unfoldable pub stop_discuss : Session → Session
stop_discuss s = record (tell s to_all) { db = [] }

unfoldable pub disable_all : Session → ℕ → ℤ → Session
disable_all s d flag = record (tell s to_all) { chairman = some d; disabled = flag }

-- Only the manager, with the id 0, may demand.
unfoldable pub demand : Session → ℕ → ℕ → Result
demand s d did = if (dev s.room d).id == 0 then done (tell s (to_dev did)) else failed err_failed

-- The subcommands, with the sender and the arguments.
pub data Subcommand : Type 0 where
  setmode : ℤ → Subcommand
  setmax : ℤ → Subcommand
  ask_names : List Discussion → Subcommand
  choose : ℤ → Subcommand
  shut : Subcommand
  forbid_user : ℕ → Subcommand
  stop_all : Subcommand
  disable : ℤ → Subcommand
  demand_user : ℕ → Subcommand

unfoldable pub handle : (ℕ → Option ℕ) → Session → ℕ → Subcommand → Result
handle get_device s d (setmode i) = done (set_mode s i)
handle get_device s d (setmax max) = done (set_maxuser s max)
handle get_device s d (ask_names found) = done (query s found)
handle get_device s d (choose num) = select get_device s d num
handle get_device s d shut = close s d
handle get_device s d (forbid_user i) = done (forbid_device get_device s i)
handle get_device s d stop_all = done (stop_discuss s)
handle get_device s d (disable flag) = done (disable_all s d flag)
handle get_device s d (demand_user did) = demand s d did

-- A refused subcommand changes nothing; `none` where the behaviour is undefined.
abbrev pub after : Session → Result → Option Session
after s (done s1) = some s1
after s (failed e) = some s
after s undefined = none

-- Subcommands one after the other, each with its sender.
unfoldable pub run : (ℕ → Option ℕ) → Session → List (ℕ × Subcommand) → Option Session
run get_device s [] = some s
run get_device s ((d, c) ∷ cs) = elim (after s (handle get_device s d c)) [
  | none ↦ none
  | some s1 ↦ run get_device s1 cs
]

-- `group_create` after a restart, with `md_find_discuss`, for a group with the tag `room`.
unfoldable pub group_create : (ℕ → Option Discussion) → Room → (ℕ → Bool) → Saved → Session
group_create md_find_discuss room chairs saved =
    let s : Session = record {
      room = room;
      current = none;
      curr_num = 0;
      memberids = [];
      chairman = none;
      disabled = pos 0;
      db = [];
      saved = saved;
      chairs = chairs;
      told = [];
    } in
    if saved.discuss_id == 0
    then s
    else elim (md_find_discuss saved.discuss_id) [ none ↦ s | some c ↦ group_setup_discuss s c ]
