-- ===== src/Vote.antt =====
-- serv/cmd_votectrl.c: votes. A device is named by its id, a `struct vote` by a number: `ballots`
-- keeps it, and `made` is the number that the next one gets. The arguments of a command are read by
-- `atoi`, and a missing one is `none`. Replies are left out, but for the score.
pub mod Choices
pub mod Count
pub mod Session
mod Tests
use gsconferencing.Base.{
  ℕ, zero, suc, ◌+◌, ◌/◌, Option, none, some, List, [], ◌∷◌, ◌++◌, Bool, true, false, not, ◌&&◌,
  ◌||◌, ◌==◌, if◌then◌else◌, ltb, is_some, get_elem?, update, ℤ, pos, negsuc,
}
use gsconferencing.Ptc.{member}

-- VOTE_SCORE of include/types.h, and the size of `vote.results`.
abbrev pub vote_score : ℕ
vote_score = 2

abbrev pub results_size : ℕ
results_size = 40

pub record Ballot : Type 0 where
  pub kind : ℕ  -- `type`
  pub cn_options : ℕ
  pub n_members : ℕ
  pub results : ℕ → ℕ
  pub device_head : List ℕ

-- The voting part of a device and its database record.
pub record Voter : Type 0 where
  pub v : Option ℕ
  pub choice : ℤ
  pub forbidden : ℤ
  pub db_choice : ℤ
  pub master : Bool

-- A row of the snapshot `db`. `members` are the ids that `FOREACH_ID` finds, `none` for "all".
pub record DbVote : Type 0 where
  pub id : ℕ
  pub kind : ℕ
  pub options_count : ℕ
  pub expect : ℕ
  pub members : Option (List ℕ)

-- `group.vote`, its database columns, the devices and the snapshot.
pub record Voting : Type 0 where
  pub current : Option ℕ  -- the id of the row
  pub curr_num : ℕ
  pub expect : ℕ
  pub nvoted : ℕ
  pub memberids : List ℕ
  pub v : Option ℕ
  pub db_id : ℕ
  pub db_results : List ℕ
  pub voters : ℕ → Voter
  pub ballots : ℕ → Ballot
  pub made : ℕ
  pub freed : List ℕ
  pub torn : ℕ → Bool  -- the votes whose `device_head` is corrupt
  pub rows : List DbVote

-- What a handler returns: 0, 1, ERR_REJECTED, ERR_OTHER; or its behaviour is undefined.
pub data Code : Type 0 where
  ok : Code
  bad_argument : Code
  err_rejected : Code
  err_other : Code
  undefined : Code

abbrev pub blank : Ballot
blank = record { kind = 0; cn_options = 0; n_members = 0; results = λ _. 0; device_head = [] }

-- `group` lists the devices of the sender's group.
unfoldable pub vote_members : List ℕ → Option (List ℕ) → List ℕ
vote_members group none = group
vote_members group (some ids) = ids

unfoldable pub prepare_vote : List ℕ → Voting → DbVote → Voting
prepare_vote group s dv = record s { memberids = vote_members group dv.members; nvoted = 0 }

-- The new vote, held by the group and the sender.
unfoldable pub new_vote : Voting → ℕ → ℕ → DbVote → Voting
new_vote s d num dv = record s {
  current = some dv.id;
  curr_num = num;
  expect = dv.expect;
  made = s.made + 1;
  ballots =
      update s.ballots s.made (record blank { kind = dv.kind; cn_options = dv.options_count });
  v = some s.made;
  voters = update s.voters d (record (s.voters d) { v = some s.made });
}

abbrev pub opened_from : Voting → Option Voting → Voting × Code
opened_from s none = (s, undefined)
opened_from s (some s1) = (s1, ok)

module _ (known : ℕ → Bool) where
  -- The loop that looks for the sender `d` among the members: the last `m`.
  unfoldable pub seek : ℕ → Option ℕ → List ℕ → Option ℕ
  seek d m [] = m
  seek d m (i ∷ is) =
      let rest = seek d (if known i then some i else none) is in
      if known i && i == d then some i else rest

  unfoldable pub may_start : Voting → ℕ → Bool
  may_start s d = elim (seek d none s.memberids) [ none ↦ false | some m ↦ m == d ]

  -- `device_vote_start` for the device `m`, which has one link for the lists of all votes: it tears
  -- the list of any older vote that it is still in.
  abbrev pub enlisted : ℕ → Voting → ℕ → Voting
  enlisted b s m =
      let ballot = s.ballots b in
      record s {
        ballots =
            update s.ballots b (record ballot { device_head = ballot.device_head ++ (m ∷ []) });
        voters =
            update s.voters m
              (record (s.voters m) { v = some b; choice = negsuc 0; db_choice = negsuc 0 });
        torn = λ c. s.torn c || (not (c == b) && member m (s.ballots c).device_head);
      }

  -- `none` is undefined: `list_add_tail` of a device that is in this very list.
  unfoldable pub enlist : ℕ → Voting → ℕ → Option Voting
  enlist b s m = if member m (s.ballots b).device_head then none else some (enlisted b s m)

  unfoldable pub count_member : ℕ → Voting → Voting
  count_member b s = record s {
    ballots = update s.ballots b (record (s.ballots b) { n_members = (s.ballots b).n_members + 1 });
  }

  unfoldable pub enroll : ℕ → Voting → List ℕ → Option Voting
  enroll b s [] = some s
  enroll b s (i ∷ is) = elim (if known i then enlist b s i else some s) [
    | none ↦ none
    | some s1 ↦ enroll b (count_member b s1) is
  ]

  -- `start` once it is allowed; `none` is undefined.
  unfoldable pub open_vote : Voting → ℕ → ℕ → DbVote → Option Voting
  open_vote s d num dv =
      let s1 = new_vote s d num dv in
      elim (enroll s.made s1 s1.memberids) [
        | none ↦ none
        | some s2 ↦ some (record s2 {
          voters = update s2.voters d (record (s2.voters d) { master = true });
          db_id = dv.id;
        })
      ]

  -- `start` of the row `dv`; the device 0 is the manager's.
  unfoldable pub start_row : List ℕ → Voting → ℕ → ℕ → DbVote → Voting × Code
  start_row group s d num dv =
      let s1 = prepare_vote group s dv in
      if d == 0
      then opened_from s1 (open_vote s1 d num dv)
      else if may_start s1 d
      then opened_from s1 (open_vote s1 d num dv)
      else (s1, err_rejected)

  -- A negative number is not refused: `db[num]` lies before the array.
  unfoldable pub start : List ℕ → Voting → ℕ → Option ℤ → Voting × Code
  start group s d none = (s, if is_some s.current then err_other else bad_argument)
  start group s d (some (negsuc n)) = (s, if is_some s.current then err_other else undefined)
  start group s d (some (pos num)) =
      if is_some s.current then (s, err_other) else elim (get_elem? s.rows num) [
        | none ↦ (s, bad_argument)
        | some dv ↦ start_row group s d num dv
      ]

-- `array_size` is an `int`, so the comparison is signed: `none` for a negative choice, which writes
-- before the array.
unfoldable pub add_choice : Ballot → ℤ → Option Ballot
add_choice b (negsuc n) = if b.kind == vote_score then some b else none
add_choice b (pos i) = some (
    if not (b.kind == vote_score) && ltb i results_size
    then record b { results = update b.results i (b.results i + 1) }
    else b)

unfoldable pub add_choices : Ballot → List ℤ → Option Ballot
add_choices b [] = some b
add_choices b (t ∷ ts) = elim (add_choice b t) [ none ↦ none | some b1 ↦ add_choices b1 ts ]

-- The last choice, or `i` without one.
unfoldable pub last_choice : ℤ → List ℤ → ℤ
last_choice i [] = i
last_choice i (t ∷ ts) = last_choice t ts

-- `vote_results_to_str`: the numbers printed, and "0" for none.
unfoldable pub print_results : (ℕ → ℕ) → ℕ → ℕ → List ℕ
print_results results zero i = []
print_results results (suc n) i = results i ∷ print_results results n (i + 1)

unfoldable pub results_str : Ballot → List ℕ
results_str b = if b.cn_options == 0 then 0 ∷ [] else print_results b.results b.cn_options 0

-- The results are printed from behind the array if the vote has more options than fit.
unfoldable pub overruns : Ballot → Bool
overruns b = not (b.kind == vote_score) && ltb results_size b.cn_options

-- `result` of a device that takes part in the vote `b`, after the choices were counted in `ballot`:
-- `whole` is `atoi` of the argument, `ts` those of its parts between the commas.
unfoldable pub save_result : Voting → ℕ → ℕ → ℤ → List ℤ → Ballot → Voting
save_result s d b whole ts ballot = record s {
  ballots = update s.ballots b ballot;
  nvoted = s.nvoted + 1;
  voters = update s.voters d (record (s.voters d) {
    choice = last_choice (s.voters d).choice ts;
    db_choice = last_choice whole ts;
  });
  db_results = if ballot.kind == vote_score then s.db_results else results_str ballot;
}

-- `none` is undefined.
unfoldable pub give_result : Voting → ℕ → ℕ → ℤ → List ℤ → Option Voting
give_result s d b whole ts = elim (add_choices (s.ballots b) ts) [
  | none ↦ none
  | some ballot ↦ if overruns ballot then none else some (save_result s d b whole ts ballot)
]

-- What `d->vote.v` lets a handler do with the vote. A `struct vote` that was freed must not be used.
unfoldable pub with_vote : Voting → Option ℕ → (ℕ → Option Voting) → Voting × Code
with_vote s none act = (s, bad_argument)
with_vote s (some b) act =
    if member b s.freed
    then (s, undefined)
    else elim (act b) [ none ↦ (s, undefined) | some s1 ↦ (s1, ok) ]

unfoldable pub result : Voting → ℕ → Option ℤ → Option (ℤ × List ℤ) → Voting × Code
result s d none r = (s, if is_some s.current then bad_argument else err_other)
result s d (some num) none = (s, if is_some s.current then bad_argument else err_other)
result s d (some num) (some (whole, ts)) =
    if is_some s.current
    then with_vote s (s.voters d).v (λ b. give_result s d b whole ts)
    else (s, err_other)

-- The sum and the number of the choices that are not negative.
unfoldable pub scores : (ℕ → Voter) → List ℕ → ℕ × ℕ
scores voters [] = (0, 0)
scores voters (m ∷ ms) =
    let (score, count) = scores voters ms in
    elim (voters m).choice [ pos c ↦ (score + c, count + 1) | negsuc n ↦ (score, count) ]

unfoldable pub average : (ℕ → Voter) → List ℕ → ℕ
average voters ms =
    let (score, count) = scores voters ms in if count == 0 then score else score / count

unfoldable pub leave : (ℕ → Voter) → List ℕ → ℕ → Voter
leave voters [] = voters
leave voters (m ∷ ms) = leave (update voters m (record (voters m) { v = none })) ms

-- The end of a vote, as `showresult` and `stop` do it.
abbrev pub close_vote : Voting → Voting
close_vote s = record s { current = none; memberids = []; db_id = 0; db_results = 0 ∷ [] }

-- `showresult` by `d` of the vote `b`.
unfoldable pub end_vote : Voting → ℕ → ℕ → Voting
end_vote s d b =
    let voters = leave s.voters (s.ballots b).device_head in
    close_vote (record s {
      voters = update voters d (record (voters d) { v = none; master = false });
      v = none;
      freed = s.freed ++ (b ∷ []);
    })

unfoldable pub showresult : Voting → ℕ → Option ℤ → Voting × Code
showresult s d none = (s, if is_some s.current then bad_argument else err_other)
showresult s d (some num) =
    if is_some s.current
    then with_vote s (s.voters d).v
        (λ b. if s.torn b || overruns (s.ballots b) then none else some (end_vote s d b))
    else (s, err_other)

unfoldable pub stop : Voting → Voting × Code
stop s = (record (close_vote s) { rows = [] }, ok)

unfoldable pub forbid : (ℕ → Bool) → Voting → Option ℕ → Option ℤ → Voting × Code
forbid known s none f = (s, bad_argument)
forbid known s (some m) none = (s, bad_argument)
forbid known s (some m) (some f) =
    if known m
    then (record s { voters = update s.voters m (record (s.voters m) { forbidden = f }) }, ok)
    else (s, bad_argument)
