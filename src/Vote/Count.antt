-- ===== src/Vote/Count.antt =====
-- What the results of a vote count.
use gsconferencing.Base.{
  ℕ, ◌+◌, ◌≡◌, refl, ◌∙◌, ap, ap₂, sym, Option, none, some, List, [], ◌∷◌, Bool, true, false, not,
  ◌&&◌, ◌||◌, arith, if◌then◌else◌, Bool-cases, inl, inr, is_some, ℤ, pos,
}
use gsconferencing.Ptc.{member}
use gsconferencing.Tag.{holds}
use gsconferencing.Vote.{
  ok, bad_argument, err_rejected, err_other, undefined, overruns, save_result, Voting, Ballot, Code,
  result, give_result, with_vote,
}
use gsconferencing.Vote.Choices.{occurs, places, ok_choices, Added, add_choices-Added}

-- A `result` command: the sender, `atoi` of the argument and of its parts.
pub record Given : Type 0 where
  pub d : ℕ
  pub whole : ℤ
  pub choices : List ℤ

-- The state after a command, if its behaviour is defined.
abbrev pub unless_undefined : Voting × Code → Option Voting
unless_undefined (s, c) = elim c [
  | undefined ↦ none
  | ok ↦ some s
  | bad_argument ↦ some s
  | err_rejected ↦ some s
  | err_other ↦ some s
]

unfoldable pub give : Voting → Given → Option Voting
give s g = unless_undefined (result s g.d (some (pos 0)) (some (g.whole, g.choices)))

unfoldable pub give_all : Voting → List Given → Option Voting
give_all s [] = some s
give_all s (g ∷ gs) = elim (give s g) [ none ↦ none | some s1 ↦ give_all s1 gs ]

-- A device with this vote may send these choices: the vote is not freed, its options fit into the
-- results, and the choices are in order.
unfoldable pub may_give : Voting → Option ℕ → List ℤ → Bool
may_give s none ts = true
may_give s (some b) ts =
    not (member b s.freed) && (ok_choices (s.ballots b) ts && not (overruns (s.ballots b)))

-- No vote is open, or all of the senders may send their choices.
unfoldable pub all_safe : Voting → List Given → Bool
all_safe s [] = true
all_safe s (g ∷ gs) =
    (not (is_some s.current) || may_give s (s.voters g.d).v g.choices) && all_safe s gs

-- The sender's results are counted in the vote `b`: some vote is open, and `b` is the one that the
-- sender has, which after `stop` may be an older one.
unfoldable pub counts : Voting → ℕ → ℕ → Bool
counts s b d = is_some s.current && holds (s.voters d).v b

-- How often the commands choose `o` in the vote `b`.
unfoldable pub tally : Voting → ℕ → ℕ → List Given → ℕ
tally s b o [] = 0
tally s b o (g ∷ gs) =
    (if counts s b g.d then (if places (s.ballots b) o then occurs o g.choices else 0) else 0)
    + tally s b o gs

-- What `result` leaves alone.
record Same (s s' : Voting) : Type 0 where
  currents : s'.current ≡ s.current
  frees : s'.freed ≡ s.freed
  votes : (d : ℕ) → (s'.voters d).v ≡ (s.voters d).v
  kinds : (b : ℕ) → (s'.ballots b).kind ≡ (s.ballots b).kind
  options : (b : ℕ) → (s'.ballots b).cn_options ≡ (s.ballots b).cn_options

Same-refl : (s : Voting) → Same s s
Same-refl s = record {
  currents = refl;
  frees = refl;
  votes = λ d. refl;
  kinds = λ b. refl;
  options = λ b. refl;
}

tally-Same :
    {s s' : Voting} (b o : ℕ) (gs : List Given) → Same s s' → tally s' b o gs ≡ tally s b o gs
unfolding tally places counts
tally-Same b o [] same = refl
tally-Same b o (g ∷ gs) same =
    rw (same.currents, same.votes g.d, same.kinds b, tally-Same b o gs same) refl

may_give-Same :
    {s s' : Voting} (w : Option ℕ) (ts : List ℤ) → Same s s' → may_give s' w ts ≡ may_give s w ts
unfolding may_give ok_choices overruns
may_give-Same none ts same = refl
may_give-Same (some b) ts same = rw (same.frees, same.kinds b, same.options b) refl

all_safe-Same : {s s' : Voting} (gs : List Given) → Same s s' → all_safe s' gs ≡ all_safe s gs
unfolding all_safe
all_safe-Same [] same = refl
all_safe-Same {s} {s'} (g ∷ gs) same =
    ap₂ ◌&&◌
      (ap₂ ◌||◌ (ap (λ (c : Option ℕ). not (is_some c)) same.currents) (
        ap (λ (w : Option ℕ). may_give s' w g.choices) (same.votes g.d)
        ∙ may_give-Same (s.voters g.d).v g.choices same))
      (all_safe-Same gs same)

-- What a command of the device `d` with the vote `w` and the choices `ts` comes to: `r` is whether
-- it is in order.
GivenOne : Voting → Bool → Option ℕ → List ℤ → Option Voting → Type 0
GivenOne s r w ts none = r ≡ false
GivenOne s r w ts (some s') =
    (r ≡ true)
    × Same s s'
    × ((b o : ℕ)
        → (s'.ballots b).results o
          ≡ (s.ballots b).results o
            + (if holds w b then (if places (s.ballots b) o then occurs o ts else 0) else 0))

module _ (s : Voting) (d : ℕ) (whole : ℤ) (ts : List ℤ) where
  save_result-Same :
      (b : ℕ) (ballot : Ballot)
      → ballot.kind ≡ (s.ballots b).kind
      → ballot.cn_options ≡ (s.ballots b).cn_options
      → Same s (save_result s d b whole ts ballot)
  unfolding save_result
  save_result-Same b ballot kind cn = record {
    currents = refl;
    frees = refl;
    votes = λ e. ground arith;
    kinds = λ e. ground (arith, kind);
    options = λ e. ground (arith, cn);
  }

  add_result :
      (b : ℕ) (o : Option Ballot)
      → Added (s.ballots b) ts o
      → GivenOne s
          (ok_choices (s.ballots b) ts && not (overruns (s.ballots b)))
          (some b)
          ts
          (elim o [
            | none ↦ none
            | some ballot ↦
                if overruns ballot then none else some (save_result s d b whole ts ballot)
          ])
  unfolding GivenOne Added
  add_result b none e = rw e refl
  add_result b (some ballot) (fine, kind, cn, grown) = elim (Bool-cases (overruns (s.ballots b))) [
    | inl over ↦ rw (same_overruns ∙ over, fine, over) refl
    | inr fits ↦
        rw (same_overruns ∙ fits, fine, fits)
          (refl, save_result-Same b ballot kind cn, λ c o. result_at c o)
  ]
    where
      same_overruns : overruns ballot ≡ overruns (s.ballots b)
      same_overruns = unfold overruns in rw (kind, cn) refl

      result_at :
          (c o : ℕ)
          → ((save_result s d b whole ts ballot).ballots c).results o
            ≡ (s.ballots c).results o
              + (if holds (some b) c
                  then (if places (s.ballots c) o then occurs o ts else 0)
                  else 0)
      result_at c o = unfold save_result in ground (arith, grown o)

  passed :
      (r : Bool) (w : Option ℕ) (o : Option Voting)
      → GivenOne s r w ts o
      → GivenOne s r w ts (unless_undefined (elim o [ none ↦ (s, undefined) | some s1 ↦ (s1, ok) ]))
  passed r w none h = h
  passed r w (some s1) h = h

  with_vote-GivenOne :
      (w : Option ℕ)
      → GivenOne s
          (may_give s w ts)
          w
          ts
          (unless_undefined (with_vote s w (λ b. give_result s d b whole ts)))
  unfolding with_vote give_result GivenOne may_give
  with_vote-GivenOne none = (refl, Same-refl s, λ b o. omega arith)
  with_vote-GivenOne (some b) = elim (Bool-cases (member b s.freed)) [
    | inl gone ↦ rw (gone, with_vote) refl
    | inr here ↦
        rw (here, with_vote)
          (passed _ (some b) _ (add_result b _ (add_choices-Added ts (s.ballots b))))
  ]

-- The vote that a command of `d` is for.
abbrev voting : Voting → ℕ → Option ℕ
voting s d = if is_some s.current then (s.voters d).v else none

give-GivenOne :
    (s : Voting) (g : Given)
    → GivenOne s (may_give s (voting s g.d) g.choices) (voting s g.d) g.choices (give s g)
unfolding give result GivenOne may_give
give-GivenOne s g = elim (Bool-cases (is_some s.current)) [
  | inl on ↦ rw (on, give, result) (with_vote-GivenOne s g.d g.whole g.choices (s.voters g.d).v)
  | inr off ↦ rw (off, give, result) (refl, Same-refl s, λ b o. omega arith)
]

-- What commands make of the vote `b` and its option `o`.
unfoldable pub Counted : Voting → ℕ → ℕ → List Given → Option Voting → Type 0
Counted s b o gs none = all_safe s gs ≡ false
Counted s b o gs (some s') =
    (all_safe s gs ≡ true) × ((s'.ballots b).results o ≡ (s.ballots b).results o + tally s b o gs)

module _ (s : Voting) (g : Given) where
  voting_safe :
      (not (is_some s.current) || may_give s (s.voters g.d).v g.choices)
      ≡ may_give s (voting s g.d) g.choices
  unfolding may_give
  voting_safe = elim (Bool-cases (is_some s.current)) [
    | inl on ↦ rw on refl
    | inr off ↦ rw off refl
  ]

  counts-voting : (b : ℕ) → counts s b g.d ≡ holds (voting s g.d) b
  unfolding counts
  counts-voting b = elim (Bool-cases (is_some s.current)) [
    | inl on ↦ rw on refl
    | inr off ↦ rw off refl
  ]

  module _ (b o : ℕ) (gs : List Given) where
    Counted-next :
        (s1 : Voting) (end : Option Voting)
        → GivenOne s (may_give s (voting s g.d) g.choices) (voting s g.d) g.choices (some s1)
        → Counted s1 b o gs end
        → Counted s b o (g ∷ gs) end
    unfolding Counted GivenOne all_safe tally
    Counted-next s1 none (fine, same, grown) bad =
        rw (voting_safe, fine) (sym (all_safe-Same gs same) ∙ bad)
    Counted-next s1 (some s') (fine, same, grown) (safe, counted) = (
      rw (voting_safe, fine) (sym (all_safe-Same gs same) ∙ safe),
      rw (counts-voting b) (omega (arith, counted, grown b o, tally-Same b o gs same)),
    )

    Counted-cons :
        (mid : Option Voting)
        → GivenOne s (may_give s (voting s g.d) g.choices) (voting s g.d) g.choices mid
        → ((s1 : Voting) → Counted s1 b o gs (give_all s1 gs))
        → Counted s b o (g ∷ gs) (elim mid [ none ↦ none | some s1 ↦ give_all s1 gs ])
    unfolding Counted GivenOne all_safe
    Counted-cons none bad after = rw (voting_safe, bad) refl
    Counted-cons (some s1) h after = Counted-next s1 _ h (after s1)

-- After any `result` commands each entry of the results of any vote has grown by the number of times
-- that senders who have this vote chose it while some vote was open, in votes that are no score. The
-- behaviour is undefined just when, with a vote open, some sender's vote was freed, or is no score
-- and has more than 40 options or gets a negative choice.
pub give_all_lem : (s : Voting) (b o : ℕ) (gs : List Given) → Counted s b o gs (give_all s gs)
unfolding give_all Counted tally all_safe
give_all_lem s b o [] = (refl, omega arith)
give_all_lem s b o (g ∷ gs) =
    Counted-cons s g b o gs _ (give-GivenOne s g) (λ s1. give_all_lem s1 b o gs)
