-- ===== src/Vote/Session.antt =====
-- The start and the end of a vote: who takes part.
use mathlib.Core.List.{append_assoc, append-nil}
use mathlib.Core.Path.{subst}
use gsconferencing.Base.{
  ℕ, ◌+◌, ◌≡◌, refl, sym, ap, ◌∙◌, none, some, get_elem?, is_some, if-false, pos, List, [], ◌∷◌,
  ◌++◌, Bool, true, false, Option, Bool-cases, ◌&&◌, ◌||◌, arith, ◌==◌, ==_refl, if◌then◌else◌, inl,
  inr, length,
}
use gsconferencing.Ptc.{member}
use gsconferencing.Ptc.Stack.{Distinct}
use gsconferencing.Vote.{
  ok, err_rejected, err_other, bad_argument, opened_from, Voting, DbVote, enlist, enlisted, Code,
  start, start_row, vote_members, may_start, seek, prepare_vote, count_member, enroll, new_vote,
  open_vote,
}

-- The ids that are those of a device.
unfoldable pub only : (ℕ → Bool) → List ℕ → List ℕ
only known [] = []
only known (i ∷ is) = if known i then i ∷ only known is else only known is

Distinct-middle : (xs ys : List ℕ) (i : ℕ) → Distinct (xs ++ (i ∷ ys)) → member i xs ≡ false
unfolding member
Distinct-middle [] ys i h = refl
Distinct-middle (x ∷ xs) ys i (out, h) =
    ground (arith, member-middle x xs ys i out, Distinct-middle xs ys i h)
  where
    member-middle :
        (x' : ℕ) (es fs : List ℕ) (j : ℕ) → member x' (es ++ (j ∷ fs)) ≡ false → (x' == j) ≡ false
    member-middle x' [] fs j e = ground arith
    member-middle x' (e' ∷ es) fs j e = member-middle x' es fs j (ground arith)

-- What the loop of `start` makes of the vote `b` for the ids `is`, all of which count.
record Enrolled (known : ℕ → Bool) (b : ℕ) (is : List ℕ) (s s' : Voting) : Type 0 where
  heads : (s'.ballots b).device_head ≡ (s.ballots b).device_head ++ only known is
  members : (s'.ballots b).n_members ≡ (s.ballots b).n_members + length is
  zeros : (s'.ballots b).results ≡ (s.ballots b).results
  votes : (e : ℕ) → (s'.voters e).v ≡ (if known e && member e is then some b else (s.voters e).v)
  kept : (s'.current ≡ s.current) × (s'.v ≡ s.v) × (s'.memberids ≡ s.memberids)

module _ (known : ℕ → Bool) (b : ℕ) where
  head_counted :
      (s : Voting) → ((count_member known b s).ballots b).device_head ≡ (s.ballots b).device_head
  unfolding count_member
  head_counted s = rw (==_refl b) refl

  head_enlisted :
      (i : ℕ) (s : Voting)
      → ((enlisted known b s i).ballots b).device_head ≡ (s.ballots b).device_head ++ (i ∷ [])
  head_enlisted i s = rw (==_refl b) refl

  Enrolled-known :
      (i : ℕ) (is : List ℕ) (s s' : Voting)
      → known i ≡ true
      → Enrolled known b is (count_member known b (enlisted known b s i)) s'
      → Enrolled known b (i ∷ is) s s'
  unfolding count_member only member
  Enrolled-known i is s s' here h = record {
    heads =
        rw here (
          h.heads ∙ ground arith ∙ append_assoc (s.ballots b).device_head (i ∷ []) (only known is));
    members = ground (arith, h.members);
    zeros = h.zeros ∙ ground arith;
    votes = λ e. ground (arith, h.votes e, here);
    kept = h.kept;
  }

  Enrolled-unknown :
      (i : ℕ) (is : List ℕ) (s s' : Voting)
      → known i ≡ false
      → Enrolled known b is (count_member known b s) s'
      → Enrolled known b (i ∷ is) s s'
  unfolding count_member only member
  Enrolled-unknown i is s s' away h = record {
    heads = rw away (h.heads ∙ ap (λ (l : List ℕ). l ++ only known is) (head_counted s));
    members = ground (arith, h.members);
    zeros = h.zeros ∙ ground arith;
    votes = λ e. ground (arith, h.votes e, away);
    kept = h.kept;
  }

  moved :
      (i : ℕ) (is : List ℕ) (s : Voting)
      → ((count_member known b (enlisted known b s i)).ballots b).device_head ++ only known is
        ≡ (s.ballots b).device_head ++ (i ∷ only known is)
  moved i is s =
      ap (λ (l : List ℕ). l ++ only known is)
        (head_counted (enlisted known b s i) ∙ head_enlisted i s)
      ∙ append_assoc (s.ballots b).device_head (i ∷ []) (only known is)

  passed :
      (i : ℕ) (s : Voting) (is : List ℕ)
      → known i ≡ true
      → member i (s.ballots b).device_head ≡ false
      → enroll known b s (i ∷ is) ≡ enroll known b (count_member known b (enlisted known b s i)) is
  unfolding enroll enlist
  passed i s is here out = rw (here, out, enroll, enlist) refl

  enroll_lem :
      (is : List ℕ) (s : Voting)
      → Distinct ((s.ballots b).device_head ++ only known is)
      → (s' : Voting) × (enroll known b s is ≡ some s') × Enrolled known b is s s'
  unfolding enroll only member
  enroll_lem [] s h = (
    s,
    refl,
    record {
      heads = sym (append-nil _);
      members = omega arith;
      zeros = refl;
      votes = λ e. ground arith;
      kept = (refl, refl, refl);
    },
  )
  enroll_lem (i ∷ is) s h = elim (Bool-cases (known i)) [
    | inl here ↦
        let h' : Distinct ((s.ballots b).device_head ++ (i ∷ only known is)) = rw here at h in
        let (s', e, end) =
          enroll_lem is (count_member known b (enlisted known b s i))
            (subst Distinct (sym (moved i is s)) h') in
        (
          s',
          passed i s is here (Distinct-middle _ (only known is) i h') ∙ e,
          Enrolled-known i is s s' here end,
        )
    | inr away ↦
        let h' : Distinct ((s.ballots b).device_head ++ only known is) = rw away at h in
        let (s', e, end) =
          enroll_lem is (count_member known b s)
            (subst (λ (l : List ℕ). Distinct (l ++ only known is)) (sym (head_counted s)) h') in
        (s', rw (away, enroll) e, Enrolled-unknown i is s s' away end)
  ]

-- Whether the device that the search ended with is the sender.
abbrev is_sender : ℕ → Option ℕ → Bool
is_sender d m = elim m [ none ↦ false | some j ↦ j == d ]

module _ (known : ℕ → Bool) where
  seek_lem :
      (d : ℕ) (is : List ℕ) (m : Option ℕ)
      → is_sender d m ≡ false
      → is_sender d (seek known d m is) ≡ (known d && member d is)
  unfolding seek member
  seek_lem d [] m out = ground (arith, out)
  seek_lem d (i ∷ is) m out = ground (arith, seek_lem d is (if known i then some i else none))

  may_start_lem : (s : Voting) (d : ℕ) → may_start known s d ≡ (known d && member d s.memberids)
  unfolding may_start
  may_start_lem s d = seek_lem d s.memberids none refl

  -- Who may start the vote of this row: the manager, and a device among its members.
  abbrev pub may_open : List ℕ → ℕ → Bool
  may_open members d = d == 0 || (known d && member d members)

  -- What `start` of the row `dv` comes to: a vote is open, or the sender was refused.
  abbrev pub Started : List ℕ → Voting → ℕ → DbVote → Voting × Code → Type 0
  Started members s d dv (s', ok) =
      (may_open members d ≡ true)
      × (s'.current ≡ some dv.id)
      × (s'.v ≡ some s.made)
      × ((s'.ballots s.made).device_head ≡ only known members)
      × ((s'.ballots s.made).n_members ≡ length members)
      × ((s'.ballots s.made).results ≡ (λ _. 0))
      × ((e : ℕ)
          → (s'.voters e).v
            ≡ (if e == d || (known e && member e members) then some s.made else (s.voters e).v))
  Started members s d dv (s', err_rejected) =
      (may_open members d ≡ false) × (s' ≡ record s { memberids = members; nvoted = 0 })
  Started members s d dv _ = ⊥

  open_vote_lem :
      (s : Voting) (d num : ℕ) (dv : DbVote) (members : List ℕ)
      → may_open members d ≡ true
      → Distinct (only known members)
      → let s1 = record s { memberids = members; nvoted = 0 } in
        Started members s d dv (opened_from s1 (open_vote known s1 d num dv))
  unfolding open_vote new_vote
  open_vote_lem s d num dv members may once =
      let s1 = new_vote (record s { memberids = members; nvoted = 0 }) d num dv in
      let (s', e, h) =
        enroll_lem known s.made members s1
          (subst (λ (l : List ℕ). Distinct (l ++ only known members)) (sym (none_yet s1)) once) in
      rw (e, open_vote)
        (
          may,
          h.kept.0,
          h.kept.1,
          h.heads ∙ ground arith,
          h.members ∙ ground arith,
          h.zeros ∙ ground arith,
          λ e'. ground (arith, h.votes e'),
        )
    where
      none_yet :
          (s1 : Voting)
          → ((new_vote (record s { memberids = members; nvoted = 0 }) d num dv).ballots
              s.made).device_head
            ≡ []
      none_yet s1 = ground arith

  start_row_lem :
      (group : List ℕ) (s : Voting) (d num : ℕ) (dv : DbVote)
      → Distinct (only known (vote_members group dv.members))
      → Started (vote_members group dv.members) s d dv (start_row known group s d num dv)
  unfolding start_row prepare_vote
  start_row_lem group s d num dv once = elim (Bool-cases (d == 0)) [
    | inl manager ↦
        rw (manager, start_row)
          (open_vote_lem s d num dv (vote_members group dv.members) (rw manager refl) once)
    | inr other ↦ elim (Bool-cases (may_start known s1 d)) [
      | inl may ↦
          rw (other, may, start_row)
            (open_vote_lem s d num dv (vote_members group dv.members)
              (rw other (sym (may_start_lem s1 d) ∙ may)) once)
      | inr not_now ↦
          rw (other, not_now, start_row) (rw other (sym (may_start_lem s1 d) ∙ not_now), refl)
    ]
  ]
    where
      s1 : Voting
      s1 = prepare_vote group s dv

  start_at :
      (group : List ℕ) (s : Voting) (d num : ℕ) (dv : DbVote)
      → s.current ≡ none
      → get_elem? s.rows num ≡ some dv
      → start known group s d (some (pos num)) ≡ start_row known group s d num dv
  unfolding start
  start_at group s d num dv idle row =
      if-false (s, err_other) (ap is_some idle)
      ∙ ap
          (λ (o : Option DbVote). elim o as (λ _. Voting × Code) [
            | none ↦ (s, bad_argument)
            | some dv' ↦ start_row known group s d num dv'
          ])
          row

  -- With no vote open and the devices among the row's members listed once each, `start` of that row
  -- is refused to a sender that is neither the manager nor one of these devices, and otherwise opens
  -- a new vote with no choice counted: its devices are those members of the row that are devices, in
  -- order, though all members count; these devices and the sender are given the vote, and nobody
  -- else is. For "all" the members are the devices of the sender's group.
  pub start_lem :
      (group : List ℕ) (s : Voting) (d num : ℕ) (dv : DbVote)
      → s.current ≡ none
      → get_elem? s.rows num ≡ some dv
      → Distinct (only known (vote_members group dv.members))
      → Started (vote_members group dv.members) s d dv (start known group s d (some (pos num)))
  start_lem group s d num dv idle row once =
      subst (Started (vote_members group dv.members) s d dv)
        (sym (start_at group s d num dv idle row)) (start_row_lem group s d num dv once)
