-- ===== src/Subscribe/Listeners.antt =====
-- A tag's list holds exactly the devices that have subscribed to it.
use gsconferencing.Base.{
  ℕ, ◌≡◌, refl, sym, ap, ◌∙◌, Option, none, some, List, [], ◌∷◌, true, false, ◌==◌, ==_refl,
  if◌then◌else◌, if-cases, if-true, if-false, arith, Bool-cases, Option-cases, inl, inr, update,
  pos, int_eq,
}
use gsconferencing.Ptc.{member, unlink}
use gsconferencing.Ptc.Stack.{Distinct}
use gsconferencing.Discuss.Users.{member-unlink_ne, member-unlink_self, Distinct-unlink}
use gsconferencing.Subscribe.{
  Subscriptions, is_sub, leave_head, join_head, update_dup, dev_subscribe, dev_unsubscribe,
  drop_device, Change, subscribe, unsubscribe, unregister, apply_change, apply_all,
}

pub record IsSubscribed (s : Subscriptions) : Type 0 where
  pub once : (t : ℕ) → Distinct (s.heads t)
  pub listens : (d t : ℕ) → member d (s.heads t) ≡ is_sub (s.subscription d) t

-- The same but for the device `d`, which is in no list.
record IsOut (d : ℕ) (s : Subscriptions) : Type 0 where
  once : (t : ℕ) → Distinct (s.heads t)
  listens :
      (e t : ℕ) → member e (s.heads t) ≡ (if d == e then false else is_sub (s.subscription e) t)

leave_head-IsOut : (s : Subscriptions) (d : ℕ) → IsSubscribed s → IsOut d (leave_head s d)
unfolding leave_head
leave_head-IsOut s d v = elim (Option-cases (s.subscription d)) [
  | inl none_is ↦
      rw (none_is, leave_head)
        (record {
          once = v.once;
          listens = λ e t. elim (Bool-cases (d == e)) [
            | inl here ↦
                let same : d ≡ e = ground (arith, here) in
                rw here (
                  v.listens e t
                  ∙ ap (λ (o : Option ℕ). is_sub o t) (ap s.subscription (sym same) ∙ none_is))
            | inr other ↦ rw other (v.listens e t)
          ];
        })
  | inr (o, sub_is) ↦
      rw (sub_is, leave_head)
        (record {
          once = λ t. elim (Bool-cases (o == t)) [
            | inl here ↦ rw here (Distinct-unlink d (s.heads o) (v.once o))
            | inr other ↦ rw other (v.once t)
          ];
          listens = unlinked o sub_is;
        })
]
  where
    unlinked :
        (o : ℕ)
        → s.subscription d ≡ some o
        → (e t : ℕ)
        → member e (update s.heads o (unlink d (s.heads o)) t)
          ≡ (if d == e then false else is_sub (s.subscription e) t)
    unlinked o sub_is e t = elim (Bool-cases (d == e)) [
      | inl here ↦
          let same : d ≡ e = ground (arith, here) in
          elim (Bool-cases (o == t)) [
            | inl at ↦
                rw (here, at)
                  (ap (λ (x : ℕ). member x (unlink d (s.heads o))) (sym same)
                    ∙ member-unlink_self d (s.heads o) (v.once o))
            | inr off ↦
                rw (here, off)
                  (v.listens e t
                    ∙ ap (λ (x : Option ℕ). is_sub x t) (ap s.subscription (sym same) ∙ sub_is)
                    ∙ off)
          ]
      | inr other ↦ elim (Bool-cases (o == t)) [
        | inl at ↦
            let same : o ≡ t = ground (arith, at) in
            rw (other, at)
              (member-unlink_ne e d (s.heads o) (λ z. absurd (ground (arith, z, other)))
                ∙ v.listens e o
                ∙ ap (is_sub (s.subscription e)) same)
        | inr off ↦ rw (other, off) (v.listens e t)
      ]
    ]

join_head-IsSubscribed : (s : Subscriptions) (d t : ℕ) → IsOut d s → IsSubscribed (join_head s d t)
unfolding join_head member
join_head-IsSubscribed s d t v = record {
  once = λ u. elim (Bool-cases (t == u)) [
    | inl here ↦
        let shut : (if d == d then false else is_sub (s.subscription d) t) ≡ false =
          if-true _ (==_refl d) in
        rw here (v.listens d t ∙ shut, v.once t)
    | inr other ↦ rw other (v.once u)
  ];
  listens = λ e u. elim (Bool-cases (t == u)) [
    | inl here ↦
        let same : t ≡ u = ground (arith, here) in
        rw here (elim (Bool-cases (d == e)) [
          | inl at ↦ let first : (e == d) ≡ true = ground (arith, at) in rw (at, first) (sym here)
          | inr off ↦
              let later : (e == d) ≡ false = ground (arith, off) in
              rw (off, later) (v.listens e t ∙ if-false _ off ∙ ap (is_sub (s.subscription e)) same)
        ])
    | inr other ↦ rw other (elim (Bool-cases (d == e)) [
      | inl at ↦ rw at (v.listens e u ∙ if-true _ at ∙ sym other)
      | inr off ↦ rw off (v.listens e u ∙ if-false _ off)
    ])
  ];
}

-- The device is in no list, and has no subscription any longer.
out_unsubscribed :
    (s : Subscriptions) (d : ℕ) (sub1 : ℕ → ℕ) {s1 : Subscriptions}
    → IsOut d s1
    → s1.subscription ≡ s.subscription
    → IsSubscribed (record s1 { subscription = update s.subscription d none; sub1 = sub1 })
out_unsubscribed s d sub1 v same = record {
  once = v.once;
  listens = λ e t. v.listens e t ∙ elim (Bool-cases (d == e)) [
    | inl at ↦ rw at refl
    | inr off ↦ rw off (ap (λ (f : ℕ → Option ℕ). is_sub (f e) t) same)
  ];
}

subscription-leave_head :
    (s : Subscriptions) (d : ℕ) → (leave_head s d).subscription ≡ s.subscription
unfolding leave_head
subscription-leave_head s d = elim (Option-cases (s.subscription d)) [
  | inl none_is ↦ rw (none_is, leave_head) refl
  | inr (o, sub_is) ↦ rw (sub_is, leave_head) refl
]

update_dup-IsSubscribed :
    (s : Subscriptions) (d t : ℕ) → IsSubscribed s → IsSubscribed (update_dup s d t)
unfolding update_dup
update_dup-IsSubscribed s d t v =
    if-cases IsSubscribed (int_eq (s.interps (s.home d)).mode (pos 2))
      (λ re. record { once = v.once; listens = v.listens }) (λ other. v)

apply_change-IsSubscribed :
    (s : Subscriptions) (c : Change) → IsSubscribed s → IsSubscribed (apply_change s c)
unfolding apply_change dev_subscribe dev_unsubscribe drop_device
apply_change-IsSubscribed s (subscribe d t) v =
    if-cases IsSubscribed (is_sub (s.subscription d) t) (λ already. v)
      (λ new.
        update_dup-IsSubscribed (join_head (leave_head s d) d t) d t
          (join_head-IsSubscribed (leave_head s d) d t (leave_head-IsOut s d v)))
apply_change-IsSubscribed s (unsubscribe d t) v =
    if-cases IsSubscribed (is_sub (s.subscription d) t)
      (λ there.
        out_unsubscribed s d (update s.sub1 d 0) (leave_head-IsOut s d v)
          (subscription-leave_head s d))
      (λ absent. v)
apply_change-IsSubscribed s (unregister d) v =
    out_unsubscribed s d (leave_head s d).sub1 (leave_head-IsOut s d v)
      (subscription-leave_head s d)

-- Whatever devices subscribe, unsubscribe and leave, in any order: the list of each tag holds exactly
-- the devices whose subscription it is, each once.
pub apply_all-IsSubscribed :
    (cs : List Change) (s : Subscriptions) → IsSubscribed s → IsSubscribed (apply_all s cs)
unfolding apply_all
apply_all-IsSubscribed [] s v = v
apply_all-IsSubscribed (c ∷ cs) s v =
    apply_all-IsSubscribed cs (apply_change s c) (apply_change-IsSubscribed s c v)
