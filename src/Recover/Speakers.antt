-- ===== src/Recover/Speakers.antt =====
-- Those who had the microphone when the server stopped have it again.
use gsconferencing.Base.{
  ℕ, ◌≡◌, refl, sym, ap, ◌∙◌, Option, none, some, List, [], ◌∷◌, Bool, true, false, ◌==◌, ==_refl,
  if◌then◌else◌, if-cases, arith, Bool-cases, inl, inr, ℤ,
}
use gsconferencing.Cfifo.{Cfifo}
use gsconferencing.Device.{Device, Mixer}
use gsconferencing.Tag.Search.{taken}
use gsconferencing.Ptc.{Directory, member, is_ptc, add_ptc}
use gsconferencing.Ptc.Stack.{Distinct}
use gsconferencing.Discuss.{Room, dev, add_open}
use gsconferencing.Discuss.Open.{IsValid}
use gsconferencing.Discuss.Seats.{IsSeated, add_open-IsSeated, add_open-flags}
use gsconferencing.Recover.{
  dev_create, tag_create, restore_discuss, restore_all, recover_devs, restart,
}

-- The devices `ds` are still to be restored; `saved` tells who is open in the database.
record IsPartly (saved : ℕ → Bool) (ds : List ℕ) (r : Room) : Type 0 where
  seated : IsSeated r
  pending : (d : ℕ) → member d ds ≡ true → (dev r d).is_open ≡ false
  settled : (d : ℕ) → member d ds ≡ false → (dev r d).is_open ≡ saved d
  kept : (d : ℕ) → (dev r d).db_open ≡ saved d

module _ (saved : ℕ → Bool) where
  -- The cameras play no part in it.
  IsPartly-ptc :
      {ds : List ℕ} {r : Room} (dir : Directory) (d : ℕ)
      → IsPartly saved ds r
      → IsPartly saved ds (if is_ptc dir d then record r { ptc = add_ptc r.ptc d } else r)
  IsPartly-ptc {ds} dir d v =
      if-cases (IsPartly saved ds) (is_ptc dir d)
        (λ camera. record {
          seated = record {
            counted = v.seated.counted;
            once = v.seated.once;
            flagged = v.seated.flagged;
            mixes = v.seated.mixes;
          };
          pending = v.pending;
          settled = v.settled;
          kept = v.kept;
        })
        (λ other. v)

  -- A device that is not open stays closed.
  IsPartly-shut :
      {ds : List ℕ} {r : Room} (d : ℕ)
      → IsPartly saved (d ∷ ds) r
      → (dev r d).db_open ≡ false
      → IsPartly saved ds r
  unfolding member
  IsPartly-shut {ds} {r} d v shut = record {
    seated = v.seated;
    pending = λ e there. v.pending e (ground (arith, there));
    settled = λ e away. elim (Bool-cases (e == d)) [
      | inl here ↦
          let same : e ≡ d = ground (arith, here) in
          ground (
            arith,
            v.pending e (ground (arith, here)),
            v.kept e,
            v.kept d,
            shut,
            same,
            ap saved same,
          )
      | inr other ↦ v.settled e (ground (arith, other, away))
    ];
    kept = v.kept;
  }

  -- A device that is open in the database is opened.
  IsPartly-open :
      {ds : List ℕ} {r : Room} (d : ℕ)
      → IsPartly saved (d ∷ ds) r
      → member d ds ≡ false
      → (dev r d).db_open ≡ true
      → IsPartly saved ds (add_open r d)
  unfolding member
  IsPartly-open {ds} {r} d v new open_ =
      let shut : (dev r d).is_open ≡ false = v.pending d (ground (arith, ==_refl d)) in
      record {
        seated = add_open-IsSeated d v.seated shut;
        pending = λ e there. elim (Bool-cases (d == e)) [
          | inl here ↦
              let same : d ≡ e = ground (arith, here) in
              absurd (ground (arith, new, there, ap (λ (x : ℕ). member x ds) same))
          | inr other ↦
              ground (arith, (add_open-flags r d e).0, other, v.pending e (ground (arith, there)))
        ];
        settled = λ e away. elim (Bool-cases (d == e)) [
          | inl here ↦
              let same : d ≡ e = ground (arith, here) in
              ground (arith, (add_open-flags r d e).0, here, v.kept d, open_, ap saved same)
          | inr other ↦
              let away' : member e (d ∷ ds) ≡ false = ground (arith, other, away) in
              ground (arith, (add_open-flags r d e).0, other, v.settled e away')
        ];
        kept = λ e. elim (Bool-cases (d == e)) [
          | inl here ↦
              let same : d ≡ e = ground (arith, here) in
              ground (arith, (add_open-flags r d e).1, here, v.kept d, open_, ap saved same)
          | inr other ↦ ground (arith, (add_open-flags r d e).1, other, v.kept e)
        ];
      }

  restore_discuss-IsPartly :
      {ds : List ℕ} {r : Room} (dir : Directory) (d : ℕ)
      → member d ds ≡ false
      → IsPartly saved (d ∷ ds) r
      → IsPartly saved ds (restore_discuss dir r d)
  unfolding restore_discuss
  restore_discuss-IsPartly {ds} {r} dir d new v =
      let r1 : Room = if is_ptc dir d then record r { ptc = add_ptc r.ptc d } else r in
      let v1 : IsPartly saved (d ∷ ds) r1 = IsPartly-ptc {r = r} dir d v in
      if-cases (IsPartly saved ds) (dev r1 d).db_open
        (λ open_.
          let w = IsPartly-open {r = r1} d v1 new open_ in
          record {
            seated = record {
              counted = w.seated.counted;
              once = w.seated.once;
              flagged = w.seated.flagged;
              mixes = w.seated.mixes;
            };
            pending = w.pending;
            settled = w.settled;
            kept = w.kept;
          })
        (λ shut. IsPartly-shut {r = r1} d v1 shut)

  restore_all-IsPartly :
      (dir : Directory) (ds : List ℕ) {r : Room}
      → Distinct ds
      → IsPartly saved ds r
      → IsPartly saved [] (restore_all dir r ds)
  unfolding restore_all
  restore_all-IsPartly dir [] once v = v
  restore_all-IsPartly dir (d ∷ ds) {r} (new, once) v =
      restore_all-IsPartly dir ds once (restore_discuss-IsPartly {r = r} dir d new v)

-- A tag that is created anew: nobody is open.
tag_create-IsPartly :
    (mixer : Mixer) (avail : ℕ → Bool) (queue : Cfifo (Option ℕ)) (devs : ℕ → Device)
    (mode maxuser : ℤ) (ds : List ℕ)
    → ((d : ℕ) → member d ds ≡ false → (devs d).db_open ≡ false)
    → IsPartly
        (λ d. (devs d).db_open)
        ds
        (tag_create mixer avail (λ d. dev_create queue (devs d)) mode maxuser)
unfolding tag_create dev_create taken
tag_create-IsPartly mixer avail queue devs mode maxuser ds listed = record {
  seated = record {
    counted = refl;
    once = tt;
    flagged = λ d. unfold member in refl;
    mixes = record {
      counted = refl;
      marked = λ i d lt e. absurd (none_ne_some e);
      listed = λ d ne. absurd (ne refl);
      ref_in = omega arith;
      ref_taken = λ h. absurd (omega arith);
    };
  };
  pending = λ d there. refl;
  settled = λ d away. sym (listed d away);
  kept = λ d. refl;
}
  where
    none_ne_some : {d : ℕ} → none ≡ some d → ⊥
    none_ne_some e = cc

-- After a server has stopped with its room in order, and starts anew with the devices of the database
-- (each once, and all that are open among them), the room is in order again, and open are exactly
-- the devices that were open.
pub restart-IsValid :
    (dir : Directory) (mixer : Mixer) (avail : ℕ → Bool) (queue : Cfifo (Option ℕ))
    (mode maxuser : ℤ) (before : Room) (ds : List ℕ)
    → IsValid before
    → Distinct ds
    → ((d : ℕ) → member d ds ≡ false → (dev before d).is_open ≡ false)
    → IsValid (restart dir mixer avail queue mode maxuser before.chan.devs ds)
      × ((d : ℕ)
          → (dev (restart dir mixer avail queue mode maxuser before.chan.devs ds) d).is_open
            ≡ (dev before d).is_open)
unfolding recover_devs
restart-IsValid dir mixer avail queue mode maxuser before ds v once listed =
    let saved : ℕ → Bool = λ d. (dev before d).db_open in
    let start =
      tag_create-IsPartly mixer avail queue before.chan.devs mode maxuser ds
        (λ d away. v.saved d ∙ listed d away) in
    let done = restore_all-IsPartly saved dir ds once start in
    (
      record {
        counted = done.seated.counted;
        once = done.seated.once;
        flagged = done.seated.flagged;
        saved = λ d. done.kept d ∙ sym (done.settled d (unfold member in refl));
        mixes = done.seated.mixes;
      },
      λ d. done.settled d (unfold member in refl) ∙ v.saved d,
    )
