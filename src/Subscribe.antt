-- ===== src/Subscribe.antt =====
-- serv/cast.c: which devices listen to which tag. A tag's handle is its id, which is not 0; a device
-- has one subscription (MAX_SUB is 1), and `heads t` is the list `subscribe_head[0]` of the tag `t`,
-- to which Cast sends.
pub mod Listeners
pub mod Delivery
mod Tests
use gsconferencing.Base.{
  ℕ, Option, none, some, List, [], ◌∷◌, Bool, true, false, ◌==◌, if◌then◌else◌, update, ℤ, pos,
  int_eq,
}
use gsconferencing.Ptc.{unlink}
use gsconferencing.Interp.{Interp, set_rep_tag}

pub record Subscriptions : Type 0 where
  pub heads : ℕ → List ℕ
  pub subscription : ℕ → Option ℕ
  pub sub1 : ℕ → ℕ  -- `db_data->sub1`
  pub home : ℕ → ℕ  -- the tag that a device belongs to
  pub interps : ℕ → Interp

abbrev pub is_sub : Option ℕ → ℕ → Bool
is_sub none t = false
is_sub (some s) t = s == t

-- `list_del(&d->subscribe[0])` of a device with a subscription.
unfoldable pub leave_head : Subscriptions → ℕ → Subscriptions
leave_head s d = elim (s.subscription d) [
  | none ↦ s
  | some o ↦ record s { heads = update s.heads o (unlink d (s.heads o)) }
]

-- Once the device is in no list.
unfoldable pub join_head : Subscriptions → ℕ → ℕ → Subscriptions
join_head s d t = record s {
  heads = update s.heads t (d ∷ s.heads t);
  subscription = update s.subscription d (some t);
  sub1 = update s.sub1 d t;
}

-- INTERP_RE: the interpreters' tag replicates what the device has subscribed to.
unfoldable pub update_dup : Subscriptions → ℕ → ℕ → Subscriptions
update_dup s d t =
    let h = s.home d in
    if int_eq (s.interps h).mode (pos 2)
    then record s { interps = update s.interps h (set_rep_tag h (s.interps h) (some t)) }
    else s

unfoldable pub dev_subscribe : Subscriptions → ℕ → ℕ → Subscriptions
dev_subscribe s d t =
    if is_sub (s.subscription d) t then s else update_dup (join_head (leave_head s d) d t) d t

unfoldable pub dev_unsubscribe : Subscriptions → ℕ → ℕ → Subscriptions
dev_unsubscribe s d t =
    if is_sub (s.subscription d) t
    then record (leave_head s d) {
      subscription = update s.subscription d none;
      sub1 = update s.sub1 d 0;
    }
    else s

-- The subscriptions in `dev_unregister`.
unfoldable pub drop_device : Subscriptions → ℕ → Subscriptions
drop_device s d = record (leave_head s d) { subscription = update s.subscription d none }

-- What devices and the server do, one after the other.
pub data Change : Type 0 where
  subscribe : ℕ → ℕ → Change
  unsubscribe : ℕ → ℕ → Change
  unregister : ℕ → Change

unfoldable pub apply_change : Subscriptions → Change → Subscriptions
apply_change s (subscribe d t) = dev_subscribe s d t
apply_change s (unsubscribe d t) = dev_unsubscribe s d t
apply_change s (unregister d) = drop_device s d

unfoldable pub apply_all : Subscriptions → List Change → Subscriptions
apply_all s [] = s
apply_all s (c ∷ cs) = apply_all (apply_change s c) cs
