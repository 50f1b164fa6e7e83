-- ===== src/Discuss/Request.antt =====
-- `discctrl request` as a whole: it keeps the room in order, and the speakers within their limit.
use gsconferencing.Base.{
  ℕ, ◌≤◌, ◌≡◌, ◌⊎◌, refl, Option, none, some, Bool, true, false, arith, if◌then◌else◌, Bool-cases,
  inl, inr, ℤ, pos,
}
use gsconferencing.Ptc.{Directory, member}
use gsconferencing.Discuss.{
  Room, dev, admit, close_mic, restore, Outcome, done, rejected, undefined, post, request,
  linked_twice,
}
use gsconferencing.Discuss.Open.{
  IsValid, admit-IsValid, close_mic-IsValid, restore-IsValid, post-IsValid,
}
use gsconferencing.Discuss.Capacity.{
  open_speakers, admit-speakers, restore-speakers, speakers-close_mic, post-speakers,
}

-- The argument of the command: 0 to close, 1 to open.
abbrev pub IsFlag : ℤ → Bool → Type 0
IsFlag a b = (a ≡ pos 0) × (b ≡ false) ⊎ (a ≡ pos 1) × (b ≡ true)

linked : {r' : Room} (b : Bool) (o : Outcome) → (if b then o else undefined) ≡ done r' → o ≡ done r'
linked true o e = e
linked false o e = cc

not_linked :
    {r' : Room} (b : Bool) (o : Outcome) → (if b then undefined else o) ≡ done r' → o ≡ done r'
not_linked true o e = cc
not_linked false o e = e

module _ (dir : Directory) where
  -- The three ways to the label `post`.
  pub data Served (r : Room) (d : ℕ) : Room → Bool → Type 0 where
    again : (b : Bool) → Served r d (restore dir r d b) b
    opened : (r1 : Room) → (dev r d).is_open ≡ false → admit dir r d ≡ some r1 → Served r d r1 true
    closed : (dev r d).is_open ≡ true → Served r d (close_mic dir r d) false

  module _ {r r' : Room} (tag : ℕ) (main : Option ℕ) (d : ℕ) where
    request_zero :
        request dir tag main r d (pos 0) ≡ done r'
        → (r1 : Room) × Served r d r1 false × (post tag main r1 d false ≡ done r')
    unfolding request
    request_zero e = elim (Bool-cases (dev r d).is_open) [
      | inl open_ ↦
          (close_mic dir r d, closed open_, linked (member d r.open_list) _ (rw open_ at e))
      | inr shut ↦ (restore dir r d false, again false, rw shut at e)
    ]

    admitted :
        (dev r d).is_open ≡ false
        → (o : Option Room) → admit dir r d ≡ o
        → elim o as (λ _. Outcome) [
          | none ↦ rejected
          | some r1 ↦ if linked_twice r1 d then undefined else post tag main r1 d true
        ]
          ≡ done r'
        → (r1 : Room) × Served r d r1 true × (post tag main r1 d true ≡ done r')
    admitted shut none found e = cc
    admitted shut (some r1) found e = (r1, opened r1 shut found, not_linked (linked_twice r1 d) _ e)

    request_one :
        request dir tag main r d (pos 1) ≡ done r'
        → (r1 : Room) × Served r d r1 true × (post tag main r1 d true ≡ done r')
    unfolding request
    request_one e = elim (Bool-cases (dev r d).is_open) [
      | inl open_ ↦ (restore dir r d true, again true, rw open_ at e)
      | inr shut ↦ admitted shut (admit dir r d) refl (rw shut at e)
    ]

    pub request-Served :
        (b : Bool) (a : ℤ)
        → IsFlag a b
        → request dir tag main r d a ≡ done r'
        → (r1 : Room) × Served r d r1 b × (post tag main r1 d b ≡ done r')
    request-Served b a (inl (a0, b0)) e = rw b0 (request_zero (rw a0 at e))
    request-Served b a (inr (a1, b1)) e = rw b1 (request_one (rw a1 at e))

  Served-IsValid :
      {r : Room} {d : ℕ} {r1 : Room} {b : Bool} → Served r d r1 b → IsValid r → IsValid r1
  Served-IsValid {d} (again b) v = restore-IsValid dir d b v
  Served-IsValid {d} (opened r1 shut e) v = admit-IsValid dir d v shut e
  Served-IsValid {d} (closed open_) v = close_mic-IsValid dir d v open_

  Served-speakers :
      {r : Room} {d : ℕ} {r1 : Room} {b : Bool} (m : ℕ)
      → Served r d r1 b
      → IsValid r
      → r.maxuser ≡ pos m
      → open_speakers r ≤ m
      → open_speakers r1 ≤ m
  Served-speakers {r} {d} m (again b) v max le = rw (restore-speakers dir r d b) le
  Served-speakers {d} m (opened r1 shut e) v max le = admit-speakers dir d m v max le e
  Served-speakers {r} {d} m (closed open_) v max le = omega (arith, speakers-close_mic dir r d)

  -- From a room in order, a `discctrl request` with 0 or 1 that succeeds leaves the room in order:
  -- `openuser` counts the open devices, each of which is listed once, and the mixing entries agree
  -- with them.
  pub request-IsValid :
      {r r' : Room} (tag : ℕ) (main : Option ℕ) (d : ℕ) (b : Bool) (a : ℤ)
      → IsFlag a b
      → IsValid r
      → request dir tag main r d a ≡ done r'
      → IsValid r'
  request-IsValid tag main d b a flag v e =
      let (r1, served, posted) = request-Served tag main d b a flag e in
      post-IsValid tag main d b (Served-IsValid served v) posted

  -- From a room in order where the open users that are no chairmen are at most `maxuser`, they are
  -- still so after a `discctrl request` with 0 or 1 that succeeds.
  pub request-speakers :
      {r r' : Room} (tag : ℕ) (main : Option ℕ) (d m : ℕ) (b : Bool) (a : ℤ)
      → IsFlag a b
      → IsValid r
      → r.maxuser ≡ pos m
      → open_speakers r ≤ m
      → request dir tag main r d a ≡ done r'
      → open_speakers r' ≤ m
  request-speakers {r} {r'} tag main d m b a flag v max le e =
      let (r1, served, posted) = request-Served tag main d b a flag e in
      rw (post-speakers r1 r' tag main d b posted) (Served-speakers m served v max le)
