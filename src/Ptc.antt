-- ===== src/Ptc.antt =====
-- serv/ptc.c: the pan-tilt cameras follow the device that opened its microphone last. `ptc_head` is
-- a stack, latest first, that `d->ptc.l` links at most once; `ptcs` is filled from its front, so it
-- is the list of its entries that are not NULL.
pub mod Stack
mod Tests
use gsconferencing.Base.{
  ℕ, zero, suc, ◌+◌, Option, none, some, List, [], ◌∷◌, ◌++◌, Bool, true, false, ◌==◌,
  if◌then◌else◌, ltb, length, get_elem?, ◌||◌,
}

-- What the code reads of the devices: the hash table of ids (`get_device`), a device's id, and the
-- `ptc_id` and `ptc_cmd` of its database record (the bytes up to the final 0).
pub record Directory : Type 0 where
  pub get_device : ℕ → Option ℕ
  pub id : ℕ → ℕ
  pub ptc_id : ℕ → ℕ
  pub ptc_cmd : ℕ → List ℕ

-- A line "<from> ptc <to> <cmd>\n" sent to the device `dest`.
pub record Order : Type 0 where
  pub dest : ℕ
  pub from_id : ℕ
  pub to_id : ℕ
  pub cmd : List ℕ

pub record Ptc : Type 0 where
  pub known : List ℕ  -- `ptcs`
  pub stack : List ℕ  -- `ptc_head`
  pub curr : Option ℕ
  pub sent : List Order

abbrev pub max_ptcs : ℕ
max_ptcs = 32

unfoldable pub member : ℕ → List ℕ → Bool
member d [] = false
member d (e ∷ es) = d == e || member d es

-- `list_del` of a device that is linked.
unfoldable pub unlink : ℕ → List ℕ → List ℕ
unlink d [] = []
unlink d (e ∷ es) = if d == e then es else e ∷ unlink d es

unfoldable pub add_ptc : Ptc → ℕ → Ptc
add_ptc s p =
    if member p s.known
    then s
    else if ltb (length s.known) max_ptcs
    then record s { known = s.known ++ (p ∷ []) }
    else s

unfoldable pub ptc_put : Ptc → ℕ → Ptc
ptc_put s d = record s {
  stack = d ∷ (if member d s.stack then unlink d s.stack else s.stack);
  curr = some d;
}

unfoldable pub is_curr : Option ℕ → ℕ → Bool
is_curr none d = false
is_curr (some e) d = d == e

module _ (dir : Directory) where
  -- `device_cmd(ptc, buf, l)`, if the device has a command.
  unfoldable pub order : Ptc → ℕ → ℕ → List ℕ → Ptc
  order s d p [] = s
  order s d p (b ∷ bs) = record s {
    sent = s.sent ++ (record { dest = p; from_id = dir.id d; to_id = dir.id p; cmd = b ∷ bs } ∷ []);
  }

  unfoldable pub ptc_send : Ptc → ℕ → Ptc
  ptc_send s d = elim (dir.get_device (dir.ptc_id d)) [
    | none ↦ s
    | some p ↦ add_ptc (order s d p (dir.ptc_cmd d)) p
  ]

  -- The loop of `ptc_default` from entry `i`, `n` entries left: `ptc_send` may add entries.
  unfoldable pub default_loop : ℕ → ℕ → Ptc → Ptc
  default_loop zero i s = s
  default_loop (suc n) i s = elim (get_elem? s.known i) [
    | none ↦ s
    | some p ↦ default_loop n (i + 1) (ptc_send s p)
  ]

  unfoldable pub ptc_default : Ptc → Ptc
  ptc_default = default_loop max_ptcs 0

  unfoldable pub ptc_push : Ptc → ℕ → Ptc
  ptc_push s d = ptc_send (ptc_put s d) d

  -- What `ptc_remove` does once the device is off the stack.
  unfoldable pub after_remove : Ptc → List ℕ → ℕ → Ptc
  after_remove s [] d = record (ptc_default s) { curr = none }
  after_remove s (e ∷ es) d =
      if is_curr s.curr d then ptc_send (record s { curr = some e }) e else s

  unfoldable pub ptc_remove : Ptc → ℕ → Ptc
  ptc_remove s d =
      let rest = unlink d s.stack in
      if member d s.stack then after_remove (record s { stack = rest }) rest d else s

  unfoldable pub go_to : Option ℕ → Ptc → Ptc
  go_to none s = ptc_default s
  go_to (some d) s = ptc_send s d

  unfoldable pub ptc_go_current : Ptc → Ptc
  ptc_go_current s = go_to s.curr s

  unfoldable pub is_ptc : ℕ → Bool
  is_ptc d = dir.ptc_id d == dir.id d
