-- ===== src/Vote/Tests.antt =====
-- A vote with three options, of two devices; a third is not in it.
use gsconferencing.Ptc.{member}
use gsconferencing.Vote.{vote_members, DbVote}
use gsconferencing.Vote.Session.{Started, only, start_lem}
use gsconferencing.Base.{refl, none, some, [], ◌∷◌, List, true, false, pos}
use gsconferencing.Vote.{Voting, blank, start}
use gsconferencing.Vote.Count.{Given, give_all, Counted, give_all_lem}

abbrev before : Voting
before = record {
  current = none;
  curr_num = 0;
  expect = 0;
  nvoted = 0;
  memberids = [];
  v = none;
  db_id = 0;
  db_results = 0 ∷ [];
  voters = λ _. record {
    v = none;
    choice = pos 0;
    forbidden = pos 0;
    db_choice = pos 0;
    master = false;
  };
  ballots = λ _. blank;
  made = 7;
  freed = [];
  torn = λ _. false;
  rows =
      record { id = 11; kind = 3; options_count = 3; expect = 2; members = some (1 ∷ 2 ∷ []) } ∷ [];
}

abbrev row : DbVote
row = record { id = 11; kind = 3; options_count = 3; expect = 2; members = some (1 ∷ 2 ∷ []) }

abbrev opened : Voting
opened = (start (λ _. true) [] before 1 (some (pos 0))).0

abbrev given : List Given
given =
    record { d = 1; whole = pos 0; choices = pos 0 ∷ pos 2 ∷ [] }
    ∷ record { d = 2; whole = pos 2; choices = pos 2 ∷ [] }
    ∷ record { d = 3; whole = pos 2; choices = pos 2 ∷ [] }
    ∷ []

give_all_example : Counted opened 7 2 given (give_all opened given)
give_all_example = give_all_lem opened 7 2 given

start_example :
    Started (λ _. true) (1 ∷ 2 ∷ []) before 1 row (start (λ _. true) [] before 1 (some (pos 0)))
unfolding only member vote_members
start_example = start_lem (λ _. true) [] before 1 0 row refl refl (refl, (refl, tt))
