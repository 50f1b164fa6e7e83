-- ===== src/Regist/Tests.antt =====
-- A session that two devices attend, of which one registers twice.
use gsconferencing.Base.{◌+◌, refl, some, [], ◌∷◌, List, true, false, pos}
use gsconferencing.Regist.{Regist}
use gsconferencing.Regist.Attendance.{
  IsValid, Command, start_by, reg_by, run, empty-IsValid, run-IsValid,
}

abbrev nobody_yet : Regist
nobody_yet = record {
  mode = pos 0;
  memberids = [];
  expect = 0;
  arrive = 0;
  arrive_ids = λ _. 0;
  idstr = [];
  idstr_len = 0;
  db_start = false;
  db_mode = pos 0;
  db_expect = 0;
  db_arrive = 0;
  people = λ d. record { reg = false; db_reg = false; master = false; user_card = 100 + d };
}

abbrev session : List Command
session =
    start_by (some (record { members = 1 ∷ 2 ∷ 3 ∷ []; expect = 3 })) 1 (some (pos 2))
    ∷ reg_by 2 (some (pos 2)) (some (pos 102))
    ∷ reg_by 3 (some (pos 2)) (some (pos 103))
    ∷ reg_by 2 (some (pos 2)) (some (pos 102))
    ∷ []

run-IsValid_example : IsValid (run (λ d. true) nobody_yet session)
run-IsValid_example =
    run-IsValid (λ d. true) session (empty-IsValid {s = nobody_yet} refl refl refl)

abbrev attended : Regist
attended = run (λ d. true) nobody_yet session
