-- ===== src/Regist/Attendance.antt =====
-- The attendance list: the count, the array, the string and the devices' flags agree.
use gsconferencing.Base.{
  ℕ, zero, suc, ◌+◌, ◌<◌, ◌≡◌, refl, sym, ap, ap₂, ◌∙◌, Option, none, some, List, [], ◌∷◌, ◌++◌,
  Bool, true, false, not, ◌&&◌, ◌||◌, arith, ◌==◌, if◌then◌else◌, update, if-cases, if-true,
  if-false, ℤ, int_eq, pos,
}
use gsconferencing.Ptc.{member}
use gsconferencing.Ptc.Stack.{Distinct}
use gsconferencing.Discuss.Users.{member-append, Distinct-append}
use gsconferencing.Regist.{
  Regist, DbRegist, Code, ok, reset_all, setup, start, start_with, stop, begin_mode, arrives,
  register, add_idstr, regist_card_id,
}

-- The entries of an array below `n`.
unfoldable pub entries : (ℕ → ℕ) → ℕ → List ℕ
entries f zero = []
entries f (suc n) = entries f n ++ (f n ∷ [])

-- No device arrives twice, those that arrived are flagged, the string lists them in the order of
-- their arrival and the record in the database counts them; before `start` and after `stop` nobody
-- has arrived.
pub record IsValid (s : Regist) : Type 0 where
  pub printed : s.idstr_len ≡ s.arrive
  pub listed : (if s.arrive == 0 then [] else s.idstr) ≡ entries s.arrive_ids s.arrive
  pub once : Distinct (entries s.arrive_ids s.arrive)
  pub flagged :
      (d : ℕ) → (not (member d (entries s.arrive_ids s.arrive)) || (s.people d).reg) ≡ true
  pub saved : s.db_arrive ≡ s.arrive
  pub idle : (s.db_start || s.arrive == 0) ≡ true

entries-update : (f : ℕ → ℕ) (n i d : ℕ) → n < i + 1 → entries (update f i d) n ≡ entries f n
unfolding entries
entries-update f zero i d lt = refl
entries-update f (suc n) i d lt =
    ap₂ (λ (es : List ℕ) (e : ℕ). es ++ (e ∷ [])) (entries-update f n i d (omega arith))
      (ground arith)

entries-arrives :
    (s : Regist) (d : ℕ)
    → entries (arrives s d).arrive_ids (arrives s d).arrive
      ≡ entries s.arrive_ids s.arrive ++ (d ∷ [])
unfolding arrives entries
entries-arrives s d =
    let one_more : s.arrive + 1 ≡ suc s.arrive = omega arith in
    rw one_more (
      ap₂ (λ (es : List ℕ) (e : ℕ). es ++ (e ∷ []))
        (entries-update s.arrive_ids s.arrive s.arrive d (omega arith)) (ground arith))

-- The string after an arrival.
idstr-arrives :
    (s : Regist) (d : ℕ)
    → IsValid s
    → add_idstr s.idstr s.idstr_len d ≡ entries s.arrive_ids s.arrive ++ (d ∷ [])
unfolding add_idstr entries
idstr-arrives s d v = ap (λ n. add_idstr s.idstr n d) v.printed ∙ go s.arrive s.idstr v.listed
  where
    go :
        (n : ℕ) (ids : List ℕ)
        → (if n == 0 then [] else ids) ≡ entries s.arrive_ids n
        → add_idstr ids n d ≡ entries s.arrive_ids n ++ (d ∷ [])
    go zero ids e = refl
    go (suc n) ids e = ap (λ (es : List ℕ). es ++ (d ∷ [])) (ground arith ∙ e)

-- One device arrives.
pub arrives-IsValid :
    {s : Regist} (d : ℕ)
    → s.db_start ≡ true
    → (s.people d).reg ≡ false
    → IsValid s
    → IsValid (arrives s d)
arrives-IsValid {s} d on new v =
    let out : member d (entries s.arrive_ids s.arrive) ≡ false = ground (arith, v.flagged d) in
    let some_one : ((arrives s d).arrive == 0) ≡ false = unfold arrives in ground arith in
    record {
      printed = unfold arrives in ap (λ n. n + 1) v.printed;
      listed = rw some_one (unfold arrives in idstr-arrives s d v ∙ sym (entries-arrives s d));
      once =
          rw (entries-arrives s d) (Distinct-append d (entries s.arrive_ids s.arrive) v.once out);
      flagged = λ e.
          rw (entries-arrives s d, member-append e d (entries s.arrive_ids s.arrive))
            (unfold arrives in ground (arith, v.flagged e));
      saved = unfold arrives in refl;
      idle = unfold arrives in rw on refl;
    }

-- With nobody arrived, the flags do not matter.
pub empty-IsValid : {s : Regist} → s.arrive ≡ 0 → s.idstr_len ≡ 0 → s.db_arrive ≡ 0 → IsValid s
unfolding entries member
empty-IsValid {s} a l b = record {
  printed = l ∙ sym a;
  listed = rw a refl;
  once = rw a tt;
  flagged = λ d. rw a refl;
  saved = b ∙ sym a;
  idle = ground arith;
}

nobody : {s : Regist} → IsValid s → s.db_start ≡ false → s.arrive ≡ 0
nobody {s} v off = ground (arith, v.idle)

-- The commands that change the attendance, with the device that sends them.
pub data Command : Type 0 where
  start_by : Option DbRegist → ℕ → Option ℤ → Command
  stop_by : ℕ → Command
  reg_by : ℕ → Option ℤ → Option ℤ → Command

module _ (known : ℕ → Bool) where
  unfoldable pub exec : Regist → Command → Regist × Code
  exec s (start_by dr d arg) = start known dr s d arg
  exec s (stop_by d) = stop known s d
  exec s (reg_by d m card) = register s d m card

  unfoldable pub run : Regist → List Command → Regist
  run s [] = s
  run s (c ∷ cs) = run (exec s c).0 cs

  start_with-IsValid :
      {s : Regist} (dr : Option DbRegist) (arg : Option ℤ) (d : ℕ)
      → s.db_start ≡ false
      → IsValid s
      → IsValid (start_with known dr arg s d).0
  unfolding start_with begin_mode reset_all setup
  start_with-IsValid none arg d off v = v
  start_with-IsValid (some dr) none d off v =
      let none_yet = nobody v off in
      empty-IsValid none_yet (v.printed ∙ none_yet) (v.saved ∙ none_yet)
  start_with-IsValid (some dr) (some m) d off v = empty-IsValid refl refl refl

  start-IsValid :
      {s : Regist} (dr : Option DbRegist) (d : ℕ) (arg : Option ℤ)
      → IsValid s
      → IsValid (start known dr s d arg).0
  unfolding start
  start-IsValid {s} dr d arg v =
      if-cases (λ (r : Regist × Code). IsValid r.0) s.db_start (λ on. v)
        (λ off. start_with-IsValid dr arg d off v)

  stop-IsValid : {s : Regist} (d : ℕ) → IsValid s → IsValid (stop known s d).0
  unfolding stop
  stop-IsValid {s} d v =
      if-cases (λ (r : Regist × Code). IsValid r.0) s.db_start (λ on. empty-IsValid refl refl refl)
        (λ off. v)

register-IsValid :
    {s : Regist} (d : ℕ) (m card : Option ℤ) → IsValid s → IsValid (register s d m card).0
unfolding register
register-IsValid d none card v = v
register-IsValid d (some m) none v = v
register-IsValid {s} d (some m) (some cid) v =
    if-cases (λ (r : Regist × Code). IsValid r.0) (not s.db_start || not (int_eq s.db_mode m))
      (λ other. v)
      (λ same.
        if-cases (λ (r : Regist × Code). IsValid r.0)
          (int_eq regist_card_id m && not (int_eq cid (pos (s.people d).user_card))) (λ wrong. v)
          (λ right.
            if-cases (λ (r : Regist × Code). IsValid r.0) (s.people d).reg (λ again. v)
              (λ new. arrives-IsValid d (started s.db_start _ same) new v)))
  where
    started : (a b : Bool) → (not a || b) ≡ false → a ≡ true
    started true b e = refl
    started false b e = sym e

module _ (known : ℕ → Bool) where
  -- From an attendance list in order, as `IsValid` says, any sequence of `start`, `stop` and `reg`
  -- leads to one in order: nobody is counted twice, and count, array, string and flags agree.
  pub run-IsValid : (cs : List Command) {s : Regist} → IsValid s → IsValid (run known s cs)
  unfolding run exec
  run-IsValid [] v = v
  run-IsValid (start_by dr d arg ∷ cs) v = run-IsValid cs (start-IsValid known dr d arg v)
  run-IsValid (stop_by d ∷ cs) v = run-IsValid cs (stop-IsValid known d v)
  run-IsValid (reg_by d m card ∷ cs) v = run-IsValid cs (register-IsValid d m card v)

-- A device that registers again changes nothing, and gets the same answer.
pub register_again :
    (s : Regist) (d : ℕ) (m card : Option ℤ)
    → register (register s d m card).0 d m card ≡ register s d m card
unfolding register arrives
register_again s d none card = refl
register_again s d (some m) none = refl
register_again s d (some m) (some cid) =
    if-cases Again (not s.db_start || not (int_eq s.db_mode m)) (λ other. if-true _ other)
      (λ same.
        if-cases Again (int_eq regist_card_id m && not (int_eq cid (pos (s.people d).user_card)))
          (λ wrong. if-false _ same ∙ if-true _ wrong)
          (λ right.
            if-cases Again (s.people d).reg
              (λ again. if-false _ same ∙ if-false _ right ∙ if-true _ again)
              (λ new. second same right)))
  where
    Again : Regist × Code → Type 0
    Again r = register r.0 d (some m) (some cid) ≡ r

    second :
        (not s.db_start || not (int_eq s.db_mode m)) ≡ false
        → (int_eq regist_card_id m && not (int_eq cid (pos (s.people d).user_card))) ≡ false
        → Again (arrives s d, ok)
    second same right =
        let card_kept : ((arrives s d).people d).user_card ≡ (s.people d).user_card =
          ground arith in
        let present : ((arrives s d).people d).reg ≡ true = ground arith in
        let still : (int_eq regist_card_id m
              && not (int_eq cid (pos ((arrives s d).people d).user_card)))
            ≡ false =
          rw card_kept right in
        if-false _ same ∙ if-false _ still ∙ if-true _ present
