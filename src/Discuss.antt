-- ===== src/Discuss.antt =====
-- serv/cmd_discctrl.c: who may speak. `Room` is what `discctrl request` works on: the device's tag
-- with its mixing and discussion parts, the devices, the cameras and the interpreter's tag.
-- `device_save`, which writes the record of the database, is left out: the record itself, with
-- `discuss_open`, is part of the device.
pub mod Users
pub mod Seats
pub mod Open
pub mod Capacity
pub mod Request
pub mod Outcomes
mod Tests
use gsconferencing.Base.{
  ℕ, Option, none, some, List, [], ◌∷◌, ◌++◌, Bool, true, false, not, ◌&&◌, ◌||◌, ◌==◌,
  if◌then◌else◌, ℤ, pos, int_lt, int_eq, int_inc, int_dec,
}
use gsconferencing.Device.{Channel, Device, max_mix, put_dev}
use gsconferencing.Tag.{add_outstanding, rm_outstanding}
use gsconferencing.Ptc.{Directory, Ptc, ptc_push, ptc_remove, member, unlink}
use gsconferencing.Interp.{Interp, del_rep, apply_interp_mode}

-- Device types and modes of include/types.h.
abbrev pub devtype_chair : ℕ
devtype_chair = 2

abbrev pub devtype_interp : ℕ
devtype_interp = 3

abbrev pub discmode_fifo : ℤ
discmode_fifo = pos 1

pub record Room : Type 0 where
  pub chan : Channel
  pub ptc : Ptc
  pub interp : Interp
  pub open_list : List ℕ  -- `tag->discuss.open_list`
  pub openuser : ℤ
  pub maxuser : ℤ
  pub mode : ℤ
  pub kicks : List (ℕ × ℕ)  -- the lines "<id> discctrl kick <kicked>" sent by `kick_user`

abbrev pub dev : Room → ℕ → Device
dev r d = r.chan.devs d

abbrev pub is_chair : Room → ℕ → Bool
is_chair r d = (dev r d).kind == devtype_chair

-- Of a device that is not in the list: `list_add_tail` of one that is corrupts it, and `request` is
-- undefined.
unfoldable pub add_open : Room → ℕ → Room
add_open r d =
    let c1 = put_dev r.chan d (record (r.chan.devs d) { is_open = true }) in
    let c2 = add_outstanding c1 d in
    record r {
      open_list = r.open_list ++ (d ∷ []);
      openuser = int_inc r.openuser;
      chan = put_dev c2 d (record (c2.devs d) { db_open = true });
    }

-- Of a device that is in the list: `list_del` of another one corrupts it, or reads a null pointer,
-- and `request` is undefined.
unfoldable pub del_open : Room → ℕ → Room
del_open r d =
    let c1 = put_dev r.chan d (record (r.chan.devs d) { is_open = false }) in
    let c2 = rm_outstanding c1 d in
    record r {
      open_list = unlink d r.open_list;
      openuser = int_dec r.openuser;
      chan = put_dev c2 d (record (c2.devs d) { db_open = false });
    }

-- How the search over `open_list` ends: with `goto openit`, or with the candidate to kick.
pub data Choice : Type 0 where
  open_it : Choice
  kick_out : Option ℕ → Choice

abbrev pub first_of_two : Option ℕ → ℕ → Option ℕ
first_of_two none k = some k
first_of_two (some j) k = some j

-- The loop with `opened` and `kick`.
unfoldable pub find_kick : Room → List ℕ → ℤ → Option ℕ → Choice
find_kick r [] opened kick = kick_out kick
find_kick r (k ∷ ks) opened kick =
    let rest =
      find_kick r ks (if is_chair r k then int_dec opened else opened)
        (if is_chair r k then kick else first_of_two kick k) in
    if is_chair r k
    then (if int_lt (int_dec opened) r.maxuser then open_it else rest)
    else if (dev r k).active
    then rest
    else kick_out (some k)

-- What a handler does: it returns with a state (`done` for 0), with an error and the old state,
-- or its behaviour is undefined.
pub data Outcome : Type 0 where
  done : Room → Outcome
  rejected : Outcome
  undefined : Outcome

-- From `post` on: `tag` is the device's tag, `main` the group's tag 1.
unfoldable pub post : ℕ → Option ℕ → Room → ℕ → Bool → Outcome
post tag main r d open_ =
    if (dev r d).kind == devtype_interp && int_lt (pos 0) r.interp.mode
    then (if open_
        then done (record r { interp = del_rep tag r.interp })
        else elim (apply_interp_mode tag r.interp main (dev r d).sub) [
          | none ↦ undefined
          | some i ↦ done (record r { interp = i })
        ])
    else done r

-- After `add_open` the device is in the list twice if it was in it before.
abbrev pub linked_twice : Room → ℕ → Bool
linked_twice r d = member d (unlink d r.open_list)

module _ (dir : Directory) where
  -- `openit`
  unfoldable pub put_through : Room → ℕ → Room
  put_through r d = let r1 = add_open r d in record r1 { ptc = ptc_push dir r1.ptc d }

  unfoldable pub kick_one : Room → ℕ → ℕ → Room
  kick_one r d k =
      let r1 = del_open r k in
      record r1 { ptc = ptc_remove dir r1.ptc k; kicks = r1.kicks ++ ((dir.id d, dir.id k) ∷ []) }

  -- After the search.
  unfoldable pub settle : Room → ℕ → Choice → Option Room
  settle r d open_it = some (put_through r d)
  settle r d (kick_out none) = none
  settle r d (kick_out (some k)) =
      if not (dev r k).active || int_eq r.mode discmode_fifo
      then some (put_through (kick_one r d k) d)
      else none

  -- Opening from `if( open )` on; `none` is ERR_REJECTED.
  unfoldable pub admit : Room → ℕ → Option Room
  admit r d =
      if is_chair r d && int_lt r.openuser (pos max_mix)
      then some (put_through r d)
      else if int_lt r.openuser r.maxuser
      then some (put_through r d)
      else settle r d (find_kick r r.open_list r.openuser none)

  unfoldable pub close_mic : Room → ℕ → Room
  close_mic r d = let r1 = del_open r d in record r1 { ptc = ptc_remove dir r1.ptc d }

  -- The branch for a device that is already as requested.
  unfoldable pub restore : Room → ℕ → Bool → Room
  restore r d true = record r { chan = add_outstanding r.chan d; ptc = ptc_push dir r.ptc d }
  restore r d false = r

  unfoldable pub request : ℕ → Option ℕ → Room → ℕ → ℤ → Outcome
  request tag main r d open_ =
      let truthy = not (int_eq open_ (pos 0)) in
      if int_eq (pos (if (dev r d).is_open then 1 else 0)) open_
      then post tag main (restore r d truthy) d truthy
      else if truthy
      then elim (admit r d) [
        | none ↦ rejected
        | some r1 ↦ if linked_twice r1 d then undefined else post tag main r1 d true
      ]
      else if member d r.open_list
      then post tag main (close_mic r d) d false
      else undefined
