-- ===== src/Discuss/Users.antt =====
-- What the mixing code leaves alone of a device, and the stack and list operations on speakers.
use gsconferencing.Base.{
  ℕ, ◌+◌, ◌≡◌, ◌≢◌, refl, List, [], ◌∷◌, ◌++◌, true, false, arith, ◌||◌, ◌==◌, length, Bool-cases,
  inl, inr,
}
use gsconferencing.Device.{
  Channel, put_dev, mix_open_dev, mix_close_dev, netmx_open_dev, netmx_close_dev,
}
use gsconferencing.Tag.{add_outstanding, rm_outstanding, take_entry, rm_entry, clear_entry}
use gsconferencing.Ptc.{member, unlink}
use gsconferencing.Ptc.Stack.{Distinct}

-- The fields that the discussion reads or writes.
pub record SameUser (c c' : Channel) : Type 0 where
  pub kinds : (e : ℕ) → (c'.devs e).kind ≡ (c.devs e).kind
  pub actives : (e : ℕ) → (c'.devs e).active ≡ (c.devs e).active
  pub hbeats : (e : ℕ) → (c'.devs e).hbeat ≡ (c.devs e).hbeat
  pub opens : (e : ℕ) → (c'.devs e).is_open ≡ (c.devs e).is_open
  pub saves : (e : ℕ) → (c'.devs e).db_open ≡ (c.devs e).db_open

pub add_outstanding-SameUser : (c : Channel) (d : ℕ) → SameUser c (add_outstanding c d)
unfolding add_outstanding take_entry mix_open_dev netmx_open_dev put_dev
add_outstanding-SameUser c d = record {
  kinds = λ e. ground arith;
  actives = λ e. ground arith;
  hbeats = λ e. ground arith;
  opens = λ e. ground arith;
  saves = λ e. ground arith;
}

pub rm_outstanding-SameUser : (c : Channel) (d : ℕ) → SameUser c (rm_outstanding c d)
unfolding rm_outstanding rm_entry clear_entry mix_close_dev netmx_close_dev put_dev
rm_outstanding-SameUser c d = record {
  kinds = λ e. ground arith;
  actives = λ e. ground arith;
  hbeats = λ e. ground arith;
  opens = λ e. ground arith;
  saves = λ e. ground arith;
}

-- Lists of speakers.
pub member-append : (x d : ℕ) (es : List ℕ) → member x (es ++ (d ∷ [])) ≡ (member x es || x == d)
unfolding member
member-append x d [] = ground arith
member-append x d (e ∷ es) = ground (arith, member-append x d es)

pub Distinct-append :
    (d : ℕ) (es : List ℕ) → Distinct es → member d es ≡ false → Distinct (es ++ (d ∷ []))
unfolding member
Distinct-append d [] h out = (refl, tt)
Distinct-append d (e ∷ es) h out =
    (ground (arith, member-append e d es), Distinct-append d es h.1 (ground arith))

pub member-unlink_ne : (x d : ℕ) (es : List ℕ) → x ≢ d → member x (unlink d es) ≡ member x es
unfolding member unlink
member-unlink_ne x d [] ne = refl
member-unlink_ne x d (e ∷ es) ne = ground (arith, member-unlink_ne x d es)

pub member-unlink_self : (d : ℕ) (es : List ℕ) → Distinct es → member d (unlink d es) ≡ false
unfolding member unlink
member-unlink_self d [] h = refl
member-unlink_self d (e ∷ es) h = ground (arith, member-unlink_self d es)

member-unlink_of : (x d : ℕ) (es : List ℕ) → member x es ≡ false → member x (unlink d es) ≡ false
unfolding member unlink
member-unlink_of x d [] h = refl
member-unlink_of x d (e ∷ es) h = ground (arith, member-unlink_of x d es)

pub Distinct-unlink : (d : ℕ) (es : List ℕ) → Distinct es → Distinct (unlink d es)
unfolding unlink
Distinct-unlink d [] h = tt
Distinct-unlink d (e ∷ es) h = elim (Bool-cases (d == e)) [
  | inl same ↦ rw same h.1
  | inr other ↦ rw other (member-unlink_of e d es h.0, Distinct-unlink d es h.1)
]

pub length-unlink :
    (d : ℕ) (es : List ℕ) → member d es ≡ true → length (unlink d es) + 1 ≡ length es
unfolding member unlink
length-unlink d [] h = ground arith
length-unlink d (e ∷ es) h = ground (arith, length-unlink d es)
