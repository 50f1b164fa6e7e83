-- ===== src/ClientMix/Queues.antt =====
-- The queues in use: each sender has one at most, and `dev_count` counts them.
use gsconferencing.Base.{
  ℕ, zero, suc, ◌+◌, ◌≤◌, ◌<◌, ◌≡◌, ◌≢◌, ◌∙◌, sym, ap, refl, Option, none, some, Bool, true, false,
  arith, ◌==◌, if◌then◌else◌, ℤ, pos, int_inc, int_dec, update, if-cases, Bool-cases, inl, inr,
}
use mathlib.Core.Path.{subst}
use gsconferencing.Cfifo
use gsconferencing.Cfifo.{Cfifo}
use gsconferencing.Cfifo.Index.{IsValid, clear-IsValid}
use gsconferencing.Recent.Window.{IsRing}
use gsconferencing.ClientMix.{
  PackQueue, Mixing, Search, found, missing, put_queue, find_queue, assign, remove_queue,
  first_some,
}

-- How many of the first `n` queues are in use.
unfoldable pub used : (ℕ → PackQueue) → ℕ → ℕ
used queues zero = 0
used queues (suc n) = (if (queues n).dev_id == 0 then 0 else 1) + used queues n

pub record IsMixing (m : Mixing) : Type 0 where
  pub one_each :
      (i j : ℕ)
      → i < 8
      → j < 8
      → (m.queues i).dev_id ≢ 0
      → (m.queues i).dev_id ≡ (m.queues j).dev_id
      → i ≡ j
  pub counted : m.dev_count ≡ pos (used m.queues 8)
  pub fifos : (i : ℕ) → IsValid 5 (m.queues i).fifo
  pub rings : (i : ℕ) → IsRing 2 (m.queues i).recent

module _ (queues : ℕ → PackQueue) (i : ℕ) (q : PackQueue) where
  pub used-update_out : (n : ℕ) → n ≤ i → used (update queues i q) n ≡ used queues n
  unfolding used
  used-update_out zero le = refl
  used-update_out (suc n) le = ground (arith, used-update_out n (omega arith))

  -- One queue's change in the count.
  pub used-update :
      (n : ℕ)
      → i < n
      → used (update queues i q) n + (if (queues i).dev_id == 0 then 0 else 1)
        ≡ used queues n + (if q.dev_id == 0 then 0 else 1)
  unfolding used
  used-update zero lt = absurd (omega arith)
  used-update (suc n) lt = elim (Bool-cases (i == n)) [
    | inl here ↦
        rw here (omega (arith, used-update_out n (omega (arith, at here)), ap flag (at here)))
    | inr there ↦ rw there (omega (arith, used-update n (ground arith)))
  ]
    where
      at : (i == n) ≡ true → i ≡ n
      at e = ground arith

      flag : ℕ → ℕ
      flag k = if (queues k).dev_id == 0 then 0 else 1

-- Queue `i` is written: its sender, if any, has no other queue.
replace-IsMixing :
    {m : Mixing} (i : ℕ) (q : PackQueue) (c : ℤ)
    → IsValid 5 q.fifo
    → IsRing 2 q.recent
    → ((j : ℕ) → j < 8 → j ≢ i → q.dev_id ≢ 0 → (m.queues j).dev_id ≢ q.dev_id)
    → c ≡ pos (used (update m.queues i q) 8)
    → IsMixing m
    → IsMixing (record (put_queue m i q) { dev_count = c })
replace-IsMixing {m} i q c fifo ring fresh count v = record {
  one_each = λ a b lta ltb ne e. elim (Bool-cases (i == a)) [
    | inl ia ↦ elim (Bool-cases (i == b)) [
      | inl ib ↦ ground arith
      | inr ib ↦ absurd (fresh b ltb (ground arith) (rw ia at ne) (sym (rw (ia, ib) at e)))
    ]
    | inr ia ↦ elim (Bool-cases (i == b)) [
      | inl ib ↦
          let here : (m.queues a).dev_id ≢ 0 = rw ia at ne in
          let same : (m.queues a).dev_id ≡ q.dev_id = rw (ia, ib) at e in
          absurd (fresh a lta (ground arith) (λ (z : q.dev_id ≡ 0). here (same ∙ z)) same)
      | inr ib ↦ v.one_each a b lta ltb (rw ia at ne) (rw (ia, ib) at e)
    ]
  ];
  counted = count;
  fifos = λ a. if-cases (λ (x : PackQueue). IsValid 5 x.fifo) (i == a) (λ _. fifo) (λ _. v.fifos a);
  rings =
      λ a. if-cases (λ (x : PackQueue). IsRing 2 x.recent) (i == a) (λ _. ring) (λ _. v.rings a);
}

-- A queue that keeps its sender.
pub put_queue-IsMixing :
    {m : Mixing} (i : ℕ) (q : PackQueue)
    → i < 8
    → q.dev_id ≡ (m.queues i).dev_id
    → IsValid 5 q.fifo
    → IsRing 2 q.recent
    → IsMixing m
    → IsMixing (put_queue m i q)
put_queue-IsMixing {m} i q lt same fifo ring v =
    replace-IsMixing i q m.dev_count fifo ring
      (λ j ltj ne busy e. ne (v.one_each j i ltj lt (ground arith) (e ∙ same)))
      (v.counted ∙ ap pos (ground (arith, used-update m.queues i q 8 lt))) v

pub remove_queue-IsMixing :
    {m : Mixing} (i : ℕ)
    → i < 8
    → (m.queues i).dev_id ≢ 0
    → IsMixing m
    → IsMixing (remove_queue m i)
unfolding remove_queue
remove_queue-IsMixing {m} i lt busy v =
    replace-IsMixing i gone (int_dec m.dev_count) (clear-IsValid (v.fifos i)) (v.rings i)
      (λ j ltj ne busy0 e. busy0 refl) (ap int_dec (v.counted ∙ ap pos one_less)) v
  where
    gone : PackQueue
    gone = record (m.queues i) { fifo = Cfifo.clear (m.queues i).fifo; dev_id = 0 }

    one_less : used m.queues 8 ≡ suc (used (update m.queues i gone) 8)
    one_less = ground (arith, used-update m.queues i gone 8 lt)

-- What the search over the first `n` queues finds.
unfoldable pub SearchIsRight : (ℕ → PackQueue) → ℕ → ℕ → Search → Type 0
SearchIsRight queues id n (found k) = (k < n) × ((queues k).dev_id ≡ id)
SearchIsRight queues id n (missing none) = (k : ℕ) → k < n → (queues k).dev_id ≢ id
SearchIsRight queues id n (missing (some a)) =
    (a < n) × ((queues a).dev_id ≡ 0) × ((k : ℕ) → k < n → (queues k).dev_id ≢ id)

module _ (queues : ℕ → PackQueue) (id : ℕ) where
  -- One more queue that is not the sender's.
  not_it :
      (i : ℕ)
      → (queues i).dev_id ≢ id
      → ((k : ℕ) → k < i → (queues k).dev_id ≢ id)
      → (k : ℕ) → k < i + 1
      → (queues k).dev_id ≢ id
  not_it i miss seen k lt = elim (Bool-cases (i == k)) [
    | inl here ↦ λ e. miss (ap (λ (n : ℕ). (queues n).dev_id) (equal here) ∙ e)
    | inr there ↦ seen k (ground arith)
  ]
    where
      equal : (i == k) ≡ true → i ≡ k
      equal e = ground arith

  pass_one :
      (i : ℕ) (avi : Option ℕ)
      → (queues i).dev_id ≢ id
      → SearchIsRight queues id i (missing avi)
      → SearchIsRight queues id
          (i + 1)
          (missing (if (queues i).dev_id == 0 then first_some avi i else avi))
  unfolding SearchIsRight
  pass_one i none miss seen = elim (Bool-cases ((queues i).dev_id == 0)) [
    | inl idle ↦ rw idle (omega arith, ground arith, not_it i miss seen)
    | inr busy ↦ rw busy (not_it i miss seen)
  ]
  pass_one i (some a) miss (lt, zero_, seen) = elim (Bool-cases ((queues i).dev_id == 0)) [
    | inl idle ↦ rw idle (omega arith, zero_, not_it i miss seen)
    | inr busy ↦ rw busy (omega arith, zero_, not_it i miss seen)
  ]

  pub find_queue-SearchIsRight :
      (n i : ℕ) (avi : Option ℕ)
      → SearchIsRight queues id i (missing avi)
      → SearchIsRight queues id (i + n) (find_queue queues id n i avi)
  unfolding find_queue SearchIsRight
  find_queue-SearchIsRight zero i avi seen =
      subst (λ (m : ℕ). SearchIsRight queues id m (missing avi)) (omega arith) seen
  find_queue-SearchIsRight (suc n) i avi seen = elim (Bool-cases ((queues i).dev_id == id)) [
    | inl hit ↦ rw hit (hit_here (ground arith))
    | inr miss ↦ rw miss (
        subst (λ (m : ℕ). SearchIsRight queues id m (find_queue queues id n (i + 1) next))
          (omega arith)
          (find_queue-SearchIsRight n (i + 1) next (pass_one i avi (ground arith) seen)))
  ]
    where
      next : Option ℕ
      next = if (queues i).dev_id == 0 then first_some avi i else avi

      hit_here : (queues i).dev_id ≡ id → SearchIsRight queues id (i + suc n) (found i)
      hit_here e = (omega arith, e)

pub assign-IsMixing :
    {m : Mixing} (id : ℕ) (new : Bool) (s : Search)
    → id ≢ 0
    → SearchIsRight m.queues id 8 s
    → IsMixing m
    → IsMixing (assign m id new s).1
unfolding assign SearchIsRight
assign-IsMixing id new (found i) real right v = v
assign-IsMixing id new (missing none) real right v = v
assign-IsMixing id false (missing (some a)) real right v = v
assign-IsMixing {m} id true (missing (some a)) real (lt, idle, none_) v =
    replace-IsMixing a (record (m.queues a) { dev_id = id }) (int_inc m.dev_count) (v.fifos a)
      (v.rings a) (λ j ltj ne busy e. none_ j ltj e)
      (ap int_inc v.counted
        ∙ ap pos
            (ground (arith, used-update m.queues a (record (m.queues a) { dev_id = id }) 8 lt)))
      v
