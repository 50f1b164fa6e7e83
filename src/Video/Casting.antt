-- ===== src/Video/Casting.antt =====
-- The command `video` of serv/cmd_video.c: the device broadcast is the latest that has started.
use gsconferencing.Base.{
  ℕ, ◌≡◌, refl, ◌∙◌, some, List, [], ◌∷◌, true, false, ◌==◌, ==_refl, Bool-cases, Option-cases, ◌⊎◌,
  sym, int_eq, inl, inr, arith, ℤ, pos,
}
use gsconferencing.Ptc.{member, unlink}
use gsconferencing.Ptc.Stack.{Distinct, top, unlink-without, Distinct-without}
use gsconferencing.Video.{
  Casters, Outcome, done, refused, undefined, video_start, video_stop, next_caster,
}

pub record IsCasting (c : Casters) : Type 0 where
  pub once : Distinct c.video_head
  pub latest : c.bcast_dev ≡ top c.video_head

-- What holds of the state, if the command goes through.
abbrev pub Then : (Casters → Type 0) → Outcome → Type 0
Then P (done c) = P c
Then P refused = Unit
Then P undefined = Unit

next_caster-IsCasting :
    (b d : ℕ) (ds : List ℕ)
    → Distinct ds
    → (b ≡ d) ⊎ (some b ≡ top ds)
    → IsCasting (next_caster b d ds)
unfolding next_caster
next_caster-IsCasting b d [] once first = record { once = tt; latest = refl }
next_caster-IsCasting b d (e ∷ ds) once (inl same) =
    let here : (b == d) ≡ true = ground (arith, same) in
    record { once = once; latest = rw here refl }
next_caster-IsCasting b d (e ∷ ds) once (inr first) = record {
  once = once;
  latest = elim (Bool-cases (b == d)) [ inl here ↦ rw here refl | inr there ↦ rw there first ];
}

-- Without a device that is not the first, the first stays.
top_kept : (d b : ℕ) (ds : List ℕ) → top ds ≡ some b → (b ≡ d) ⊎ (some b ≡ top (unlink d ds))
unfolding unlink
top_kept d b [] e = absurd cc
top_kept d b (x ∷ ds) e = elim (Bool-cases (d == x)) [
  | inl here ↦
      inl (let first : some x ≡ some b = e in let is : x ≡ b = cc in ground (arith, is, here))
  | inr there ↦ inr (rw there cc)
]

pub video_start-IsCasting :
    (c : Casters) (d : ℕ) (tid : ℤ) → IsCasting c → Then IsCasting (video_start c d tid)
unfolding video_start
video_start-IsCasting c d tid v = elim (Bool-cases (int_eq tid (pos 0))) [
  | inr other ↦ rw other tt
  | inl all ↦ elim (Bool-cases (member d c.video_head)) [
    | inl there ↦ rw (all, there) tt
    | inr new ↦ rw (all, new) (record { once = (new, v.once); latest = refl })
  ]
]

pub video_stop-IsCasting : (c : Casters) (d : ℕ) → IsCasting c → Then IsCasting (video_stop c d)
unfolding video_stop
video_stop-IsCasting c d v = elim (Option-cases c.bcast_dev) [
  | inl none_casts ↦ rw none_casts tt
  | inr (b, casts) ↦ elim (Bool-cases (member d c.video_head)) [
    | inr absent ↦ rw (casts, absent) tt
    | inl there ↦
        rw (casts, there)
          (next_caster-IsCasting b d (unlink d c.video_head)
            (rw (unlink-without d c.video_head v.once) (Distinct-without d c.video_head v.once))
            (top_kept d b c.video_head (sym v.latest ∙ casts)))
  ]
]

-- A device that starts and then stops is broadcast in between, and leaves the rest as it was.
pub video_start-video_stop :
    (c : Casters) (d : ℕ)
    → IsCasting c
    → member d c.video_head ≡ false
    → (video_start c d (pos 0)
        ≡ done (record { video_head = d ∷ c.video_head; bcast_dev = some d }))
      × (video_stop (record { video_head = d ∷ c.video_head; bcast_dev = some d }) d ≡ done c)
unfolding video_start video_stop member unlink
video_start-video_stop c d v new =
    let here : (d == d) ≡ true = ==_refl d in (rw new refl, rw here (back c.video_head v.latest))
  where
    back :
        (ds : List ℕ)
        → c.bcast_dev ≡ top ds
        → done (next_caster d d ds) ≡ done (record { video_head = ds; bcast_dev = c.bcast_dev })
    back [] e = unfold next_caster in rw e refl
    back (x ∷ ds) e =
        let here : (d == d) ≡ true = ==_refl d in unfold next_caster in rw (e, here) refl
