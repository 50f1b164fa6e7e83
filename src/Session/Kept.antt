-- ===== src/Session/Kept.antt =====
-- What the database keeps of a session is enough to go on after a restart.
use mathlib.Core.Path.{subst}
use gsconferencing.Base.{
  ℕ, ◌≡◌, ◌≢◌, refl, sym, ap, ◌∙◌, Option, none, some, List, [], ◌∷◌, Bool, true, false,
  if◌then◌else◌, if-true, if-false, Bool-cases, Option-cases, inl, inr, arith, map, get_elem?, ◌==◌,
  ℤ, pos, negsuc, int_eq,
}
use gsconferencing.Device.{Device, Mixer, max_mix, put_dev}
use gsconferencing.Discuss.{Room, dev}
use gsconferencing.Text.{atoi, foreach_id}
use gsconferencing.Recover.{tag_create}
use gsconferencing.Session.{
  Discussion, Session, Result, done, failed, undefined, set_mode, set_maxuser, query,
  group_setup_discuss, allow_all, clear_open, select_discuss, select_entry, select, forbid_device,
  close, stop_discuss, disable_all, demand, Subcommand, setmode, setmax, ask_names, choose, shut,
  forbid_user, stop_all, disable, demand_user, handle, after, run, group_create,
}

abbrev pub id_of : Option Discussion → ℕ
id_of none = 0
id_of (some c) = c.id

-- The database has the mode, the number of users and the discussion of the session, whose members
-- are those of the discussion.
pub record IsKept (s : Session) : Type 0 where
  pub modes : s.saved.discuss_mode ≡ s.room.mode
  pub maxusers : s.saved.discuss_maxuser ≡ s.room.maxuser
  pub ids : s.saved.discuss_id ≡ id_of s.current
  pub members :
      (c : Discussion) → s.current ≡ some c → s.memberids ≡ map atoi (foreach_id c.members)

abbrev pub Then : (Session → Type 0) → Result → Type 0
Then P (done s) = P s
Then P (failed e) = Unit
Then P undefined = Unit

-- Forbidding and allowing changes devices only.
allow_all_same :
    (get_device : ℕ → Option ℕ) (r : Room) (is : List ℕ)
    → ((allow_all get_device r is).mode ≡ r.mode)
      × ((allow_all get_device r is).maxuser ≡ r.maxuser)
unfolding allow_all
allow_all_same get_device r [] = (refl, refl)
allow_all_same get_device r (i ∷ is) = elim (Option-cases (get_device i)) [
  | inl absent ↦ rw (absent, allow_all) (allow_all_same get_device r is)
  | inr (m, there) ↦
      rw (there, allow_all)
        (allow_all_same get_device
          (record r { chan = put_dev r.chan m (record (dev r m) { forbidden = false }) }) is)
]

select_discuss-IsKept :
    (get_device : ℕ → Option ℕ) (s : Session) (d num : ℕ) (c : Discussion)
    → IsKept s
    → IsKept (select_discuss get_device s d num c)
unfolding select_discuss group_setup_discuss
select_discuss-IsKept get_device s d num c v =
    let (mode, max) =
      allow_all_same get_device (clear_open s.room) (map atoi (foreach_id c.members)) in
    record {
      modes = v.modes ∙ sym mode;
      maxusers = v.maxusers ∙ sym max;
      ids = refl;
      members = λ c' e.
          let same : c ≡ c' = cc in ap (λ (x : Discussion). map atoi (foreach_id x.members)) same;
    }

select-IsKept :
    (get_device : ℕ → Option ℕ) (s : Session) (d : ℕ) (num : ℤ)
    → IsKept s
    → Then IsKept (select get_device s d num)
unfolding select select_entry select_discuss group_setup_discuss
select-IsKept get_device s d num v = elim (Option-cases s.current) [
  | inr (c, busy) ↦ rw busy tt
  | inl free ↦ rw free (at_num num)
]
  where
    at_num :
        (n : ℤ)
        → Then IsKept (elim n [ pos n ↦ select_entry get_device s d n | negsuc n ↦ undefined ])
    at_num (negsuc n) = tt
    at_num (pos n) = elim (Option-cases (get_elem? s.db n)) [
      | inl beyond ↦ unfold select_entry in rw (beyond, Then) tt
      | inr (c, there) ↦
          unfold select_entry in rw (there, Then) (select_discuss-IsKept get_device s d n c v)
    ]

close-IsKept : (s : Session) (d : ℕ) → IsKept s → Then IsKept (close s d)
unfolding close
close-IsKept s d v = elim (Option-cases s.current) [
  | inl idle ↦ rw idle tt
  | inr (c, busy) ↦ rw busy (record {
    modes = v.modes;
    maxusers = v.maxusers;
    ids = refl;
    members = λ c' e. absurd (none_ne_some e);
  })
]
  where
    none_ne_some : {c : Discussion} → none ≡ some c → ⊥
    none_ne_some e = cc

forbid_device-IsKept :
    (get_device : ℕ → Option ℕ) (s : Session) (i : ℕ)
    → IsKept s
    → IsKept (forbid_device get_device s i)
unfolding forbid_device
forbid_device-IsKept get_device s i v = elim (Option-cases (get_device i)) [
  | inl absent ↦ rw (absent, forbid_device) v
  | inr (m, there) ↦
      rw (there, forbid_device)
        (record { modes = v.modes; maxusers = v.maxusers; ids = v.ids; members = v.members })
]

pub handle-IsKept :
    (get_device : ℕ → Option ℕ) (s : Session) (d : ℕ) (c : Subcommand)
    → IsKept s
    → Then IsKept (handle get_device s d c)
unfolding handle set_mode set_maxuser query stop_discuss disable_all demand
handle-IsKept get_device s d (setmode i) v = record {
  modes = refl;
  maxusers = v.maxusers;
  ids = v.ids;
  members = v.members;
}
handle-IsKept get_device s d (setmax max) v = record {
  modes = v.modes;
  maxusers = refl;
  ids = v.ids;
  members = v.members;
}
handle-IsKept get_device s d (ask_names found) v = record {
  modes = v.modes;
  maxusers = v.maxusers;
  ids = v.ids;
  members = v.members;
}
handle-IsKept get_device s d (choose num) v = select-IsKept get_device s d num v
handle-IsKept get_device s d shut v = close-IsKept s d v
handle-IsKept get_device s d (forbid_user i) v = forbid_device-IsKept get_device s i v
handle-IsKept get_device s d stop_all v = record {
  modes = v.modes;
  maxusers = v.maxusers;
  ids = v.ids;
  members = v.members;
}
handle-IsKept get_device s d (disable flag) v = record {
  modes = v.modes;
  maxusers = v.maxusers;
  ids = v.ids;
  members = v.members;
}
handle-IsKept get_device s d (demand_user did) v = elim (Bool-cases ((dev s.room d).id == 0)) [
  | inl manager ↦
      rw manager
        (record { modes = v.modes; maxusers = v.maxusers; ids = v.ids; members = v.members })
  | inr other ↦ rw other tt
]

-- What holds of the session, where the behaviour was defined.
abbrev pub Holds : (Session → Type 0) → Option Session → Type 0
Holds P none = Unit
Holds P (some s) = P s

after-IsKept : (s : Session) (r : Result) → IsKept s → Then IsKept r → Holds IsKept (after s r)
after-IsKept s (done s1) v w = w
after-IsKept s (failed e) v w = v
after-IsKept s undefined v w = tt

go_on :
    (get_device : ℕ → Option ℕ) (cs : List (ℕ × Subcommand)) (o : Option Session)
    → ((s : Session) → IsKept s → Holds IsKept (run get_device s cs))
    → Holds IsKept o
    → Holds IsKept (elim o [ none ↦ none | some s ↦ run get_device s cs ])
go_on get_device cs none later w = tt
go_on get_device cs (some s) later w = later s w

run-IsKept :
    (get_device : ℕ → Option ℕ) (cs : List (ℕ × Subcommand)) (s : Session)
    → IsKept s
    → Holds IsKept (run get_device s cs)
unfolding run
run-IsKept get_device [] s v = v
run-IsKept get_device ((d, c) ∷ cs) s v =
    go_on get_device cs (after s (handle get_device s d c)) (run-IsKept get_device cs)
      (after-IsKept s (handle get_device s d c) v (handle-IsKept get_device s d c v))

-- What a restarted server makes of the database is the session `s`, but for the microphones.
pub record Restarted (s s' : Session) : Type 0 where
  pub modes : s'.room.mode ≡ s.room.mode
  pub maxusers :
      s'.room.maxuser ≡ (if int_eq s.room.maxuser (pos 0) then pos max_mix else s.room.maxuser)
  pub currents : s'.current ≡ s.current
  pub members : (c : Discussion) → s.current ≡ some c → s'.memberids ≡ s.memberids

-- The database finds the discussion that is on, and ids are not 0.
abbrev pub Finds : (ℕ → Option Discussion) → Session → Type 0
Finds md_find_discuss s =
    (c : Discussion) → s.current ≡ some c → (c.id ≢ 0) × (md_find_discuss c.id ≡ some c)

group_create-Restarted :
    (md_find_discuss : ℕ → Option Discussion) (mixer : Mixer) (avail : ℕ → Bool) (devs : ℕ → Device)
    (s : Session)
    → IsKept s
    → Finds md_find_discuss s
    → Restarted s (
        group_create md_find_discuss
          (tag_create mixer avail devs s.saved.discuss_mode s.saved.discuss_maxuser)
          s.chairs
          s.saved)
unfolding group_create group_setup_discuss tag_create
group_create-Restarted find mixer avail devs s v finds = elim (Option-cases s.current) [
  | inl idle ↦
      let no_id : (s.saved.discuss_id == 0) ≡ true = ground (arith, v.ids, ap id_of idle) in
      subst (Restarted s) (sym (if-true _ no_id)) (record {
        modes = v.modes;
        maxusers = ap (λ (m : ℤ). if int_eq m (pos 0) then pos max_mix else m) v.maxusers;
        currents = sym idle;
        members = λ c e. absurd (let none_is : none ≡ some c = sym idle ∙ e in cc);
      })
  | inr (c, busy) ↦
      let (ne, found) = finds c busy in
      let same : s.saved.discuss_id ≡ c.id = v.ids ∙ ap id_of busy in
      let some_id : (s.saved.discuss_id == 0) ≡ false = ground (arith, same, ne) in
      subst (Restarted s) (sym (if-false _ some_id)) (
        rw (ap find same ∙ found) (record {
          modes = v.modes;
          maxusers = ap (λ (m : ℤ). if int_eq m (pos 0) then pos max_mix else m) v.maxusers;
          currents = sym busy;
          members = λ c' e. sym (v.members c busy);
        }))
]

-- From a session that agrees with the database, after any of the other subcommands, by anyone and in
-- any order, a server that starts anew has the same mode and discussion, the members that it had if
-- one is on, and the same `maxuser`, but for 0, which comes back as 8; if the database finds the
-- discussion by its id, which is not 0.
pub run-Restarted :
    (get_device : ℕ → Option ℕ) (cs : List (ℕ × Subcommand)) (s s' : Session)
    (md_find_discuss : ℕ → Option Discussion) (mixer : Mixer) (avail : ℕ → Bool) (devs : ℕ → Device)
    → IsKept s
    → run get_device s cs ≡ some s'
    → Finds md_find_discuss s'
    → Restarted s' (
        group_create md_find_discuss
          (tag_create mixer avail devs s'.saved.discuss_mode s'.saved.discuss_maxuser)
          s'.chairs
          s'.saved)
run-Restarted get_device cs s s' find mixer avail devs v e finds =
    group_create-Restarted find mixer avail devs s'
      (subst (Holds IsKept) e (run-IsKept get_device cs s v)) finds
