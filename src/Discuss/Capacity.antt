-- ===== src/Discuss/Capacity.antt =====
-- The limit of speakers: users that are no chairmen never exceed `maxuser`.
use gsconferencing.Base.{
  ℕ, suc, ◌+◌, ◌≤◌, ◌<◌, ◌≡◌, refl, sym, ap, ◌∙◌, Option, none, some, List, [], ◌∷◌, ◌++◌, Bool,
  true, false, not, arith, ◌&&◌, ◌||◌, ◌==◌, if◌then◌else◌, length, Bool-cases, inl, inr, ℤ, pos,
  int_dec, int_eq, int_lt,
}
use gsconferencing.Device.{Channel, put_dev, max_mix}
use gsconferencing.Tag.{add_outstanding, rm_outstanding}
use gsconferencing.Ptc.{Directory, member, unlink}
use gsconferencing.Discuss.{
  Room, dev, is_chair, add_open, del_open, Choice, open_it, kick_out, first_of_two, find_kick,
  settle, put_through, kick_one, admit, close_mic, restore, done, post, devtype_chair,
  discmode_fifo,
}
use gsconferencing.Discuss.Users.{SameUser, add_outstanding-SameUser, rm_outstanding-SameUser}
use gsconferencing.Discuss.Open.{IsValid, find_kick_chosen, some_path, none-some}

-- How many of a list of devices are no chairmen, by their `type`.
abbrev pub speakers : (ℕ → ℕ) → List ℕ → ℕ
speakers kinds [] = 0
speakers kinds (e ∷ es) =
    if kinds e == devtype_chair then speakers kinds es else suc (speakers kinds es)

abbrev pub kinds_of : Room → ℕ → ℕ
kinds_of r e = (dev r e).kind

-- The speakers whose microphones are open.
abbrev pub open_speakers : Room → ℕ
open_speakers r = speakers (kinds_of r) r.open_list

module _ (kinds : ℕ → ℕ) where
  speakers-le-length : (es : List ℕ) → speakers kinds es ≤ length es
  speakers-le-length [] = omega arith
  speakers-le-length (e ∷ es) = ground (arith, speakers-le-length es)

  speakers-append :
      (d : ℕ) (es : List ℕ)
      → speakers kinds (es ++ (d ∷ []))
        ≡ speakers kinds es + (if kinds d == devtype_chair then 0 else 1)
  speakers-append d [] = ground arith
  speakers-append d (e ∷ es) = ground (arith, speakers-append d es)

  speakers-unlink :
      (d : ℕ) (es : List ℕ)
      → member d es ≡ true
      → speakers kinds (unlink d es) + (if kinds d == devtype_chair then 0 else 1)
        ≡ speakers kinds es
  unfolding member unlink
  speakers-unlink d [] h = ground arith
  speakers-unlink d (e ∷ es) h = ground (arith, speakers-unlink d es)

  speakers-unlink-le : (d : ℕ) (es : List ℕ) → speakers kinds (unlink d es) ≤ speakers kinds es
  unfolding unlink
  speakers-unlink-le d [] = omega arith
  speakers-unlink-le d (e ∷ es) = ground (arith, speakers-unlink-le d es)

speakers_cong : (f g : ℕ → ℕ) (es : List ℕ) → ((e : ℕ) → f e ≡ g e) → speakers f es ≡ speakers g es
speakers_cong f g [] h = refl
speakers_cong f g (e ∷ es) h = ground (arith, h e, speakers_cong f g es h)

dec_lem : (n k : ℕ) → n ≡ suc k → int_dec (pos n) ≡ pos k
dec_lem n k e = rw e

-- Where the search ends by `goto openit`, the chairmen that it has passed leave room: `p` are the
-- speakers that it has passed.
find_kick_room :
    (r : Room) (ks : List ℕ) (opened : ℤ) (p m : ℕ) (kick : Option ℕ)
    → r.maxuser ≡ pos m
    → opened ≡ pos (p + length ks)
    → find_kick r ks opened kick ≡ open_it
    → p + speakers (kinds_of r) ks < m
unfolding find_kick
find_kick_room r [] opened p m kick max at e = cc
find_kick_room r (k ∷ ks) opened p m kick max at e = elim (Bool-cases (is_chair r k)) [
  | inl chair ↦ ground (
    arith,
    chair,
    down,
    speakers-le-length (kinds_of r) ks,
    find_kick_room r ks (int_dec opened) p m kick max down,
  )
  | inr plain ↦ ground (
    arith,
    plain,
    find_kick_room r ks opened (p + 1) m (first_of_two kick k) max (at ∙ ap pos (omega arith)),
  )
]
  where
    down : int_dec opened ≡ pos (p + length ks)
    down = rw at (dec_lem (p + suc (length ks)) (p + length ks) (omega arith))

-- No operation changes a device's type or `maxuser`.
record SameKinds (r r' : Room) : Type 0 where
  kinds : (e : ℕ) → kinds_of r' e ≡ kinds_of r e
  max : r'.maxuser ≡ r.maxuser

add_open-SameKinds : (r : Room) (d : ℕ) → SameKinds r (add_open r d)
unfolding add_open put_dev
add_open-SameKinds r d = record {
  kinds = λ e. ground (arith, same.kinds d, same.kinds e);
  max = refl;
}
  where
    c1 : Channel
    c1 = put_dev r.chan d (record (r.chan.devs d) { is_open = true })

    same : SameUser c1 (add_outstanding c1 d)
    same = add_outstanding-SameUser c1 d

del_open-SameKinds : (r : Room) (d : ℕ) → SameKinds r (del_open r d)
unfolding del_open put_dev
del_open-SameKinds r d = record {
  kinds = λ e. ground (arith, same.kinds d, same.kinds e);
  max = refl;
}
  where
    c1 : Channel
    c1 = put_dev r.chan d (record (r.chan.devs d) { is_open = false })

    same : SameUser c1 (rm_outstanding c1 d)
    same = rm_outstanding-SameUser c1 d

module _ (dir : Directory) (r : Room) (d : ℕ) where
  speakers-put_through :
      open_speakers (put_through dir r d) ≡ open_speakers r + (if is_chair r d then 0 else 1)
  unfolding put_through add_open
  speakers-put_through =
      speakers_cong (kinds_of (add_open r d)) (kinds_of r) (r.open_list ++ (d ∷ []))
        (add_open-SameKinds r d).kinds
      ∙ speakers-append (kinds_of r) d r.open_list

  speakers-kick_one :
      (k : ℕ)
      → member k r.open_list ≡ true
      → is_chair r k ≡ false
      → open_speakers (kick_one dir r d k) + 1 ≡ open_speakers r
  unfolding kick_one del_open
  speakers-kick_one k at plain =
      ap (λ (n : ℕ). n + 1)
        (speakers_cong (kinds_of (del_open r k)) (kinds_of r) (unlink k r.open_list)
          (del_open-SameKinds r k).kinds)
      ∙ ground (arith, speakers-unlink (kinds_of r) k r.open_list at)

  pub speakers-close_mic : open_speakers (close_mic dir r d) ≤ open_speakers r
  unfolding close_mic del_open
  speakers-close_mic = ground (
    arith,
    speakers_cong (kinds_of (del_open r d)) (kinds_of r) (unlink d r.open_list)
        (del_open-SameKinds r d).kinds,
    speakers-unlink-le (kinds_of r) d r.open_list,
  )

  is_chair-kick_one : (k : ℕ) → is_chair (kick_one dir r d k) d ≡ is_chair r d
  unfolding kick_one
  is_chair-kick_one k = ap (λ (n : ℕ). n == devtype_chair) ((del_open-SameKinds r k).kinds d)

settle-speakers :
    {r r' : Room} (dir : Directory) (d m : ℕ) (c : Choice)
    → IsValid r
    → r.maxuser ≡ pos m
    → open_speakers r ≤ m
    → find_kick r r.open_list r.openuser none ≡ c
    → settle dir r d c ≡ some r'
    → open_speakers r' ≤ m
unfolding settle
settle-speakers {r} dir d m open_it v max le f e = rw (some_path (sym e)) (
    omega (
      arith,
      fits,
      find_kick_room r r.open_list r.openuser 0 m none max (v.counted ∙ ap pos (omega arith)) f,
    ))
  where
    fits : open_speakers (put_through dir r d) ≤ open_speakers r + 1
    fits = ground (arith, speakers-put_through dir r d)
settle-speakers dir d m (kick_out none) v max le f e = cc
settle-speakers {r} dir d m (kick_out (some k)) v max le f e =
    elim (Bool-cases (not (dev r k).active || int_eq r.mode discmode_fifo)) [
      | inl may ↦
          rw (some_path (sym (rw may at e)))
            (omega (arith, fits, speakers-kick_one dir r d k (on_list.0) (on_list.1)))
      | inr not_now ↦ absurd (none-some (rw not_now at e))
    ]
  where
    on_list : (member k r.open_list ≡ true) × (is_chair r k ≡ false)
    on_list = elim (find_kick_chosen r r.open_list r.openuser none k f) [
      | inl at ↦ at
      | inr no_kick ↦ cc
    ]

    fits :
        open_speakers (put_through dir (kick_one dir r d k) d)
        ≤ open_speakers (kick_one dir r d k) + 1
    fits = ground (arith, speakers-put_through dir (kick_one dir r d k) d)

-- Admitting a device keeps the speakers within `maxuser`, however the room is made: for a chairman
-- no speaker's place is needed, a kicked user gives up one, and otherwise one was free.
pub admit-speakers :
    {r r' : Room} (dir : Directory) (d m : ℕ)
    → IsValid r
    → r.maxuser ≡ pos m
    → open_speakers r ≤ m
    → admit dir r d ≡ some r'
    → open_speakers r' ≤ m
unfolding admit
admit-speakers {r} {r'} dir d m v max le e =
    elim (Bool-cases (is_chair r d && int_lt r.openuser (pos max_mix))) [
      | inl chair ↦
          rw (some_path (sym (rw chair at e))) (ground (arith, chair, speakers-put_through dir r d))
      | inr plain ↦ elim (Bool-cases (int_lt r.openuser r.maxuser)) [
        | inl room_left ↦ rw (some_path (sym (rw (plain, room_left) at e))) (
            ground (
              arith,
              room_left,
              max,
              v.counted,
              speakers-put_through dir r d,
              speakers-le-length (kinds_of r) r.open_list,
            ))
        | inr full ↦ settle-speakers dir d m _ v max le refl (rw (plain, full) at e)
      ]
    ]

pub restore-speakers :
    (dir : Directory) (r : Room) (d : ℕ) (b : Bool)
    → open_speakers (restore dir r d b) ≡ open_speakers r
unfolding restore
restore-speakers dir r d false = refl
restore-speakers dir r d true =
    speakers_cong (λ e. ((add_outstanding r.chan d).devs e).kind) (kinds_of r) r.open_list
      (add_outstanding-SameUser r.chan d).kinds

pub post-speakers :
    (r r' : Room) (tag : ℕ) (main : Option ℕ) (d : ℕ) (b : Bool)
    → post tag main r d b ≡ done r'
    → open_speakers r' ≡ open_speakers r
unfolding post
post-speakers r r' tag main d b e = rw (same.0, same.1)
  where
    same : (r'.chan ≡ r.chan) × (r'.open_list ≡ r.open_list)
    same = (ground arith, ground arith)
