-- ===== src/Discuss/Outcomes.antt =====
-- When the behaviour of `discctrl request` is defined.
use gsconferencing.Base.{
  Bool-cases, inl, inr, sym, ◌∙◌, ℕ, ◌≡◌, refl, Option, none, some, Bool, true, false, not, ◌&&◌,
  ◌||◌, ◌==◌, if◌then◌else◌, if-cases, ℤ, pos, int_lt, int_eq,
}
use gsconferencing.Ptc.{Directory}
use gsconferencing.Interp.{Interp, apply_interp_mode}
use gsconferencing.Device.{max_mix}
use gsconferencing.Discuss.{
  Room, dev, is_chair, admit, settle, find_kick, Choice, open_it, kick_out, put_through, kick_one,
  add_open, del_open, close_mic, restore, linked_twice, Outcome, done, rejected, undefined, post,
  request, devtype_interp, discmode_fifo,
}
use gsconferencing.Discuss.Users.{member-unlink_self}
use gsconferencing.Discuss.Open.{IsValid, admit-IsValid}
use gsconferencing.Discuss.Request.{IsFlag}

abbrev pub is_defined : Outcome → Bool
is_defined (done r) = true
is_defined rejected = true
is_defined undefined = false

-- The room that is left, if any, has the same replication.
Kept : Room → Option Room → Type 0
Kept r none = Unit
Kept r (some r1) = r1.interp ≡ r.interp

applied-is_some :
    (tag : ℕ) (i : Interp) (main sub : Option ℕ)
    → int_eq i.mode (pos 2) ≡ false
    → (P : Option Interp → Type 0) → ((i' : Interp) → P (some i'))
    → P (apply_interp_mode tag i main sub)
unfolding apply_interp_mode
applied-is_some tag i main sub other P f =
    if-cases P (int_eq i.mode (pos 0)) (λ e. f _)
      (λ e. if-cases P (int_eq i.mode (pos 1)) (λ e'. f _) (λ e'. rw other (f i)))

post-is_defined :
    (tag : ℕ) (main : Option ℕ) (r : Room) (d : ℕ) (b : Bool)
    → int_eq r.interp.mode (pos 2) ≡ false
    → is_defined (post tag main r d b) ≡ true
unfolding post
post-is_defined tag main r d b other =
    if-cases (λ o. is_defined o ≡ true)
      ((dev r d).kind == devtype_interp && int_lt (pos 0) r.interp.mode)
      (λ e.
        if-cases (λ o. is_defined o ≡ true) b (λ on. refl)
          (λ off.
            applied-is_some tag r.interp main (dev r d).sub other
              (λ o.
                is_defined (elim o [ none ↦ undefined | some i ↦ done (record r { interp = i }) ])
                ≡ true)
              (λ i. refl)))
      (λ e. refl)

module _ (dir : Directory) where
  settle-Kept : (r : Room) (d : ℕ) (c : Choice) → Kept r (settle dir r d c)
  unfolding settle put_through kick_one add_open del_open Kept
  settle-Kept r d open_it = refl
  settle-Kept r d (kick_out none) = tt
  settle-Kept r d (kick_out (some k)) =
      if-cases (Kept r) (not (dev r k).active || int_eq r.mode discmode_fifo) (λ e. refl) (λ e. tt)

  admit-Kept : (r : Room) (d : ℕ) → Kept r (admit dir r d)
  unfolding admit put_through add_open Kept
  admit-Kept r d =
      if-cases (Kept r) (is_chair r d && int_lt r.openuser (pos max_mix)) (λ e. refl)
        (λ e.
          if-cases (Kept r) (int_lt r.openuser r.maxuser) (λ e'. refl)
            (λ e'. settle-Kept r d (find_kick r r.open_list r.openuser none)))

  admitted-is_defined :
      (tag : ℕ) (main : Option ℕ) {r : Room} (d : ℕ) (o : Option Room)
      → int_eq r.interp.mode (pos 2) ≡ false
      → IsValid r
      → (dev r d).is_open ≡ false
      → admit dir r d ≡ o
      → Kept r o
      → is_defined (elim o [
        | none ↦ rejected
        | some r1 ↦ if linked_twice r1 d then undefined else post tag main r1 d true
      ])
        ≡ true
  unfolding Kept
  admitted-is_defined tag main d none other v shut e kept = refl
  admitted-is_defined tag main d (some r1) other v shut e kept =
      rw (member-unlink_self d r1.open_list (admit-IsValid dir d v shut e).once)
        (post-is_defined tag main r1 d true (rw kept other))

  restored :
      (r : Room) (d : ℕ) (b : Bool)
      → int_eq r.interp.mode (pos 2) ≡ false
      → int_eq (restore dir r d b).interp.mode (pos 2) ≡ false
  unfolding restore
  restored r d true other = other
  restored r d false other = other

  request_zero-is_defined :
      (tag : ℕ) (main : Option ℕ) {r : Room} (d : ℕ)
      → IsValid r
      → int_eq r.interp.mode (pos 2) ≡ false
      → is_defined (request dir tag main r d (pos 0)) ≡ true
  unfolding request close_mic del_open
  request_zero-is_defined tag main {r} d v other = elim (Bool-cases (dev r d).is_open) [
    | inl open_ ↦
        rw (open_, sym (v.flagged d) ∙ open_)
          (post-is_defined tag main (close_mic dir r d) d false other)
    | inr shut ↦
        rw shut
          (post-is_defined tag main (restore dir r d false) d false (restored r d false other))
  ]

  request_one-is_defined :
      (tag : ℕ) (main : Option ℕ) {r : Room} (d : ℕ)
      → IsValid r
      → int_eq r.interp.mode (pos 2) ≡ false
      → is_defined (request dir tag main r d (pos 1)) ≡ true
  unfolding request
  request_one-is_defined tag main {r} d v other = elim (Bool-cases (dev r d).is_open) [
    | inl open_ ↦
        rw open_ (post-is_defined tag main (restore dir r d true) d true (restored r d true other))
    | inr shut ↦
        rw shut (admitted-is_defined tag main d (admit dir r d) other v shut refl (admit-Kept r d))
  ]

  -- In a room in order, unless the tag's interpreter mode is INTERP_RE, a `discctrl request` of any
  -- device with 0 or 1 is defined: it succeeds or is rejected. No device is put in the list of open
  -- devices that is in it, also after another one was kicked, and none is taken from it that is not.
  pub request-is_defined :
      (tag : ℕ) (main : Option ℕ) {r : Room} (d : ℕ) (b : Bool) (a : ℤ)
      → IsFlag a b
      → IsValid r
      → int_eq r.interp.mode (pos 2) ≡ false
      → is_defined (request dir tag main r d a) ≡ true
  request-is_defined tag main d b a (inl (a0, b0)) v other =
      rw a0 (request_zero-is_defined tag main d v other)
  request-is_defined tag main d b a (inr (a1, b1)) v other =
      rw a1 (request_one-is_defined tag main d v other)
