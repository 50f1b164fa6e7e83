-- ===== src/Regist.antt =====
-- serv/cmd_regist.c: who is present. A device is named by its id; the arguments of a command are
-- read by `atoi`, and a missing one is `none`. What is sent and printed is left out, but for the
-- string `arrive_idstr`, which is kept as the list of the ids printed in it.
pub mod Attendance
mod Tests
use gsconferencing.Base.{
  ℕ, zero, suc, ◌+◌, Option, none, some, List, [], ◌∷◌, ◌++◌, Bool, true, false, not, ◌&&◌, ◌||◌,
  if◌then◌else◌, update, ℤ, pos, int_eq,
}

-- What the commands read and write of a device and its database record.
pub record Attendee : Type 0 where
  pub reg : Bool
  pub db_reg : Bool
  pub master : Bool
  pub user_card : ℕ

-- A row of the table of the database: the ids that `FOREACH_ID` finds, and `expect`.
pub record DbRegist : Type 0 where
  pub members : List ℕ
  pub expect : ℕ

-- `group.regist` and the columns of the group's record that belong to it.
pub record Regist : Type 0 where
  pub mode : ℤ
  pub memberids : List ℕ
  pub expect : ℕ
  pub arrive : ℕ
  pub arrive_ids : ℕ → ℕ
  pub idstr : List ℕ
  pub idstr_len : ℕ  -- in ids
  pub db_start : Bool
  pub db_mode : ℤ
  pub db_expect : ℕ
  pub db_arrive : ℕ
  pub people : ℕ → Attendee

-- What a handler returns: 0, 1 for a missing argument, ERR_OTHER.
pub data Code : Type 0 where
  ok : Code
  no_argument : Code
  err_other : Code

-- REGIST_CARD_ID of include/types.h.
abbrev pub regist_card_id : ℤ
regist_card_id = pos 2

unfoldable pub setup : Regist → DbRegist → Regist
setup s dr = record s { memberids = dr.members }

-- The body of the loop of `regist_reset_all`; `known` tells the ids that `get_device` finds.
module _ (known : ℕ → Bool) where
  unfoldable pub reset : (ℕ → Attendee) → List ℕ → ℕ → Attendee
  reset people [] = people
  reset people (d ∷ ds) =
      reset
        (if known d
          then update people d (record (people d) { reg = false; db_reg = false })
          else people)
        ds

  unfoldable pub reset_all : Regist → Regist
  reset_all s = record s { people = reset s.people s.memberids }

  -- From `NEXT_ARG` of `start` on.
  unfoldable pub begin_mode : Regist → ℕ → ℕ → ℤ → Regist
  begin_mode s d expected m = record s {
    mode = m;
    expect = expected;
    arrive = 0;
    idstr = [];
    idstr_len = 0;
    db_expect = expected;
    db_arrive = 0;
    db_start = true;
    db_mode = m;
    people = update s.people d (record (s.people d) { master = true });
  }

  -- `start` when it has not been started; `none` for a row: the table is empty.
  unfoldable pub start_with : Option DbRegist → Option ℤ → Regist → ℕ → Regist × Code
  start_with none arg s d = (s, err_other)
  start_with (some dr) none s d = (reset_all (setup s dr), no_argument)
  start_with (some dr) (some m) s d = (begin_mode (reset_all (setup s dr)) d dr.expect m, ok)

  -- `dr` is what `md_iterate_regist_next` finds first.
  unfoldable pub start : Option DbRegist → Regist → ℕ → Option ℤ → Regist × Code
  start dr s d arg = if s.db_start then (s, err_other) else start_with dr arg s d

  unfoldable pub stop : Regist → ℕ → Regist × Code
  stop s d =
      let s1 = reset_all s in
      let people = update s1.people d (record (s1.people d) { master = false }) in
      let s2 = record s1 {
        memberids = [];
        expect = 0;
        arrive = 0;
        idstr_len = 0;
        db_expect = 0;
        db_arrive = 0;
        db_start = false;
        people = people;
      } in
      if s.db_start then (s2, ok) else (s, err_other)

-- `LIST_ADD_NUM(arrive_idstr, arrive_idstr_len, d->id)`: at length 0 the string begins anew.
unfoldable pub add_idstr : List ℕ → ℕ → ℕ → List ℕ
add_idstr ids zero d = d ∷ []
add_idstr ids (suc n) d = ids ++ (d ∷ [])

-- A device that is not registered yet arrives.
unfoldable pub arrives : Regist → ℕ → Regist
arrives s d = record s {
  arrive_ids = update s.arrive_ids s.arrive d;
  arrive = s.arrive + 1;
  idstr = add_idstr s.idstr s.idstr_len d;
  idstr_len = s.idstr_len + 1;
  db_arrive = s.arrive + 1;
  people = update s.people d (record (s.people d) { reg = true; db_reg = true });
}

-- `reg`: the mode and the card.
unfoldable pub register : Regist → ℕ → Option ℤ → Option ℤ → Regist × Code
register s d none card = (s, no_argument)
register s d (some m) none = (s, no_argument)
register s d (some m) (some cid) =
    if not s.db_start || not (int_eq s.db_mode m)
    then (s, err_other)
    else if int_eq regist_card_id m && not (int_eq cid (pos (s.people d).user_card))
    then (s, err_other)
    else if (s.people d).reg
    then (s, ok)
    else (arrives s d, ok)
