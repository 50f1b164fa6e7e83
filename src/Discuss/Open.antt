-- ===== src/Discuss/Open.antt =====
-- The invariant of a room, and that opening, closing and kicking keep it.
use gsconferencing.Base.{
  ℕ, ◌+◌, ◌≡◌, ◌≢◌, ◌⊎◌, refl, sym, ◌∙◌, Option, none, some, List, [], ◌∷◌, Bool, true, false, not,
  arith, ◌&&◌, ◌||◌, ◌==◌, length, Bool-cases, inl, inr, ℤ, pos, int_dec, int_eq, int_lt,
}
use gsconferencing.Device.{Channel, put_dev, max_mix}
use gsconferencing.Tag.{add_outstanding, rm_outstanding}
use gsconferencing.Tag.Outstanding.{Mixes, add_outstanding-Mixes, rm_outstanding-Mixes}
use gsconferencing.Tag.Sync.{put_dev-Mixes}
use gsconferencing.Ptc.{Directory, member, unlink}
use gsconferencing.Ptc.Stack.{Distinct}
use gsconferencing.Discuss.{
  Room, dev, is_chair, add_open, del_open, Choice, open_it, kick_out, first_of_two, find_kick,
  settle, put_through, kick_one, admit, close_mic, restore, done, post, discmode_fifo,
}
use gsconferencing.Discuss.Users.{
  SameUser, add_outstanding-SameUser, rm_outstanding-SameUser, member-unlink_ne, member-unlink_self,
  Distinct-unlink, length-unlink,
}
use gsconferencing.Discuss.Seats.{add_open-flags, add_open-IsSeated}

-- `open_list` holds every open device once, `openuser` counts them, `discuss_open` of the database
-- agrees, and the mixing part of the tag is in order.
pub record IsValid (r : Room) : Type 0 where
  pub counted : r.openuser ≡ pos (length r.open_list)
  pub once : Distinct r.open_list
  pub flagged : (d : ℕ) → (dev r d).is_open ≡ member d r.open_list
  pub saved : (d : ℕ) → (dev r d).db_open ≡ (dev r d).is_open
  pub mixes : Mixes r.chan

module _ {r : Room} (d : ℕ) (v : IsValid r) where
  pub add_open-IsValid : (dev r d).is_open ≡ false → IsValid (add_open r d)
  add_open-IsValid shut =
      let seated =
        add_open-IsSeated d
          (record { counted = v.counted; once = v.once; flagged = v.flagged; mixes = v.mixes })
          shut in
      record {
        counted = seated.counted;
        once = seated.once;
        flagged = seated.flagged;
        saved = λ e. ground (arith, add_open-flags r d e, v.saved e);
        mixes = seated.mixes;
      }

  -- A device that is open is taken off the list.
  pub del_open-IsValid : (dev r d).is_open ≡ true → IsValid (del_open r d)
  unfolding del_open put_dev
  del_open-IsValid open_ = record {
    counted =
        counted_down (length r.open_list) (length (unlink d r.open_list)) v.counted
          (length-unlink d r.open_list (sym (v.flagged d) ∙ open_));
    once = Distinct-unlink d r.open_list v.once;
    flagged = λ e. elim (Bool-cases (d == e)) [
      | inl at ↦ ground (arith, same.opens d, same.opens e, member-unlink_self d r.open_list v.once)
      | inr off ↦ ground (arith, same.opens e, v.flagged e, member-unlink_ne e d r.open_list)
    ];
    saved = λ e. ground (arith, same.opens d, same.opens e, same.saves e, v.saved e);
    mixes = put_dev-Mixes d _ refl (rm_outstanding-Mixes d (put_dev-Mixes d _ refl v.mixes));
  }
    where
      c1 : Channel
      c1 = put_dev r.chan d (record (r.chan.devs d) { is_open = false })

      same : SameUser c1 (rm_outstanding c1 d)
      same = rm_outstanding-SameUser c1 d

      counted_down : (n m : ℕ) → r.openuser ≡ pos n → m + 1 ≡ n → int_dec r.openuser ≡ pos m
      counted_down n m e k = rw (e, ← k) (ground arith)

  -- Another device is as it was.
  pub del_open_other : (e : ℕ) → e ≢ d → (dev (del_open r d) e).is_open ≡ (dev r e).is_open
  unfolding del_open put_dev
  del_open_other e ne = ground (arith, same.opens e)
    where
      c1 : Channel
      c1 = put_dev r.chan d (record (r.chan.devs d) { is_open = false })

      same : SameUser c1 (rm_outstanding c1 d)
      same = rm_outstanding-SameUser c1 d

-- The cameras, the interpreter's tag and the lines sent are no part of the invariant.
aside-IsValid :
    {r r' : Room}
    → r'.chan ≡ r.chan
    → r'.open_list ≡ r.open_list
    → r'.openuser ≡ r.openuser
    → IsValid r
    → IsValid r'
aside-IsValid {r} {r'} c l o v = record {
  counted = rw (o, l) v.counted;
  once = rw l v.once;
  flagged = λ d. rw (c, l) (v.flagged d);
  saved = λ d. rw c (v.saved d);
  mixes = rw c v.mixes;
}

-- The candidate that the search comes up with is an open user that is no chairman.
pub find_kick_chosen :
    (r : Room) (ks : List ℕ) (opened : ℤ) (kick : Option ℕ) (k : ℕ)
    → find_kick r ks opened kick ≡ kick_out (some k)
    → ((member k ks ≡ true) × (is_chair r k ≡ false)) ⊎ (kick ≡ some k)
unfolding find_kick member
find_kick_chosen r [] opened kick k e = ground arith
find_kick_chosen r (x ∷ ks) opened kick k e = elim (Bool-cases (is_chair r x)) [
  | inl chair ↦ ground (arith, chair, find_kick_chosen r ks (int_dec opened) kick k)
  | inr plain ↦ ground (arith, plain, find_kick_chosen r ks opened (first_of_two kick x) k)
]

pub some_path : {x y : Room} → some x ≡ some y → x ≡ y
some_path e = cc

pub none-some : {x : Room} → none ≡ some x → ⊥
none-some e = cc

pub post-IsValid :
    {r r' : Room} (tag : ℕ) (main : Option ℕ) (d : ℕ) (b : Bool)
    → IsValid r
    → post tag main r d b ≡ done r'
    → IsValid r'
unfolding post
post-IsValid {r} {r'} tag main d b v e =
    aside-IsValid {r = r} (ground arith) (ground arith) (ground arith) v

module _ (dir : Directory) where
  put_through-IsValid :
      {r : Room} (d : ℕ) → IsValid r → (dev r d).is_open ≡ false → IsValid (put_through dir r d)
  unfolding put_through
  put_through-IsValid {r} d v shut =
      aside-IsValid {r = add_open r d} refl refl refl (add_open-IsValid d v shut)

  kick_one-IsValid :
      {r : Room} (d k : ℕ) → IsValid r → (dev r k).is_open ≡ true → IsValid (kick_one dir r d k)
  unfolding kick_one
  kick_one-IsValid {r} d k v open_ =
      aside-IsValid {r = del_open r k} refl refl refl (del_open-IsValid k v open_)

  pub close_mic-IsValid :
      {r : Room} (d : ℕ) → IsValid r → (dev r d).is_open ≡ true → IsValid (close_mic dir r d)
  unfolding close_mic
  close_mic-IsValid {r} d v open_ =
      aside-IsValid {r = del_open r d} refl refl refl (del_open-IsValid d v open_)

  pub kicked_open :
      {r : Room} (k : ℕ)
      → IsValid r
      → find_kick r r.open_list r.openuser none ≡ kick_out (some k)
      → (dev r k).is_open ≡ true
  kicked_open {r} k v e = elim (find_kick_chosen r r.open_list r.openuser none k e) [
    | inl at ↦ v.flagged k ∙ at.0
    | inr no_kick ↦ cc
  ]

  -- The two ways in: directly, or in the place of another user, who is inactive or, in fifo mode,
  -- the one that the search chose.
  abbrev pub Admitted : Room → ℕ → Room → Type 0
  Admitted r d r' =
      (r' ≡ put_through dir r d)
      ⊎ ((k : ℕ) × (find_kick r r.open_list r.openuser none ≡ kick_out (some k))
          × ((not (dev r k).active || int_eq r.mode discmode_fifo) ≡ true)
          × (r' ≡ put_through dir (kick_one dir r d k) d))

  settle-Admitted :
      (r r' : Room) (d : ℕ) (c : Choice)
      → find_kick r r.open_list r.openuser none ≡ c
      → settle dir r d c ≡ some r'
      → Admitted r d r'
  unfolding settle
  settle-Admitted r r' d open_it f e = inl (ground arith)
  settle-Admitted r r' d (kick_out none) f e = cc
  settle-Admitted r r' d (kick_out (some k)) f e =
      elim (Bool-cases (not (dev r k).active || int_eq r.mode discmode_fifo)) [
        | inl may ↦ inr (k, f, may, some_path (sym (rw may at e)))
        | inr not_now ↦ absurd (none-some (rw not_now at e))
      ]

  pub admit-Admitted : (r r' : Room) (d : ℕ) → admit dir r d ≡ some r' → Admitted r d r'
  unfolding admit
  admit-Admitted r r' d e = elim (Bool-cases (is_chair r d && int_lt r.openuser (pos max_mix))) [
    | inl chair ↦ inl (some_path (sym (rw chair at e)))
    | inr plain ↦ elim (Bool-cases (int_lt r.openuser r.maxuser)) [
      | inl room_left ↦ inl (some_path (sym (rw (plain, room_left) at e)))
      | inr full ↦ settle-Admitted r r' d _ refl (rw (plain, full) at e)
    ]
  ]

  pub admit-IsValid :
      {r r' : Room} (d : ℕ)
      → IsValid r
      → (dev r d).is_open ≡ false
      → admit dir r d ≡ some r'
      → IsValid r'
  admit-IsValid {r} {r'} d v shut e = elim (admit-Admitted r r' d e) [
    | inl direct ↦ rw direct (put_through-IsValid d v shut)
    | inr (k, chosen, may, kicked) ↦ rw kicked (
        put_through-IsValid d (kick_one-IsValid d k v (kicked_open k v chosen)) (
          unfold kick_one in
          del_open_other k v d (λ same. ground (arith, kicked_open k v chosen)) ∙ shut))
  ]

  pub restore-IsValid : {r : Room} (d : ℕ) (b : Bool) → IsValid r → IsValid (restore dir r d b)
  unfolding restore
  restore-IsValid {r} d true v = record {
    counted = v.counted;
    once = v.once;
    flagged = λ e. same.opens e ∙ v.flagged e;
    saved = λ e. same.saves e ∙ v.saved e ∙ sym (same.opens e);
    mixes = add_outstanding-Mixes d v.mixes;
  }
    where
      same : SameUser r.chan (add_outstanding r.chan d)
      same = add_outstanding-SameUser r.chan d
  restore-IsValid {r} d false v = v
