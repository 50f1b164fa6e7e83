-- ===== src/Cfifo/Refine.antt =====
-- The fifo of include/cfifo.h refines the queue of `Cfifo/Queue`.
use gsconferencing.Base.{
  ℕ, zero, suc, ◌+◌, ◌-◌, ◌≤◌, ◌<◌, ◌≡◌, refl, sym, ap, ap₂, ◌∙◌, List, [], ◌∷◌, ◌++◌, Option, none,
  some, true, false, arith, ==_refl, ◌==◌, if◌then◌else◌, length, ltb, update, Bool-cases, inl, inr,
}
use gsconferencing.Cfifo.{
  Cfifo, len, full, empty, clear, write_in, put_in, get_out, take_out, advance_in, advance_out,
}
use gsconferencing.Cfifo.Index.{
  IsValid, next_lem, len_lem, full-len_iff, empty-len_iff, len-le-mask, advance_in-IsValid,
  advance_out-IsValid, clear-IsValid, write_in-IsValid, len-advance_in, len-advance_out,
}
use gsconferencing.Cfifo.Queue
use gsconferencing.Cfifo.Queue.{Op, put, get, reset, Seen, enqueue, dequeue}

-- The slot behind slot `i`, round the end of the buffer.
abbrev pub next : ℕ → ℕ → ℕ
next mask i = if i == mask then 0 else i + 1

-- The distance from slot `i` to slot `j`, going round.
abbrev pub gap : ℕ → ℕ → ℕ → ℕ
gap mask i j = if ltb j i then j + (mask + 1) - i else j - i

module _ {A : Type 0} where
  -- The `n` slots from `i` on, round the end of the buffer.
  abbrev pub span : (ℕ → A) → ℕ → ℕ → ℕ → List A
  span slots mask i zero = []
  span slots mask i (suc n) = slots i ∷ span slots mask (next mask i) n

  -- What the fifo holds, oldest first.
  abbrev pub contents : Cfifo A → List A
  contents cf = span cf.slots cf.mask cf.out (len cf)

  pub length-span : (slots : ℕ → A) (mask i n : ℕ) → length (span slots mask i n) ≡ n
  length-span slots mask i zero = refl
  length-span slots mask i (suc n) = ap suc (length-span slots mask (next mask i) n)

  pub length-contents : (cf : Cfifo A) → length (contents cf) ≡ len cf
  length-contents cf = length-span cf.slots cf.mask cf.out (len cf)

  -- A write behind the last slot of a span extends it.
  pub span-update :
      (slots : ℕ → A) (mask i j n : ℕ) (x : A)
      → i ≤ mask
      → j ≤ mask
      → n < mask + 1
      → gap mask i j ≡ n
      → span (update slots j x) mask i (suc n) ≡ span slots mask i n ++ (x ∷ [])
  span-update slots mask i j zero x hi hj hn e =
      let here : (j == i) ≡ true = ground arith in rw here
  span-update slots mask i j (suc n) x hi hj hn e =
      let elsewhere : (j == i) ≡ false = ground arith in
      ap₂ ◌∷◌ (rw elsewhere)
        (span-update slots mask (next mask i) j n x (ground arith) hj (omega arith) (ground arith))

  -- What one call does to the fifo: `cfifo_get_in`, the write and `cfifo_in` for `put`, the read
  -- through `cfifo_get_out` guarded by `cfifo_empty` for `get`.
  pub exec : Cfifo A → Op A → Option A × Cfifo A
  exec cf (put x) = (none, (put_in (write_in cf x)).0)
  exec cf get = (if empty cf then none else some (get_out cf), (take_out cf).0)
  exec cf reset = (none, clear cf)

  pub observe : Option A → Cfifo A → Seen A
  observe e cf = record { element = e; count = len cf; is_full = full cf; is_empty = empty cf }

  unfoldable pub run : Cfifo A → List (Op A) → List (Seen A)
  unfolding exec observe
  run cf [] = []
  run cf (op ∷ ops) = let (e, cf') = exec cf op in observe e cf' ∷ run cf' ops

module _ {A : Type 0} {k : ℕ} {cf : Cfifo A} (v : IsValid k cf) where
  pub distance : gap cf.mask cf.out cf.inp ≡ len cf
  distance = ground (arith, len_lem v, v.inp_in, v.out_in)

  put_span :
      (x : A) (n : ℕ)
      → n ≡ (if len cf == cf.mask then 0 else len cf + 1)
      → span (update cf.slots cf.inp x) cf.mask cf.out n ≡ enqueue cf.mask (contents cf) x
  unfolding enqueue
  put_span x n e = rw (length-contents cf) (elim (Bool-cases (len cf == cf.mask)) [
    | inl all ↦ let n0 : n ≡ 0 = e ∙ rw all in rw (all, n0)
    | inr room ↦
        let n1 : n ≡ suc (len cf) = e ∙ rw room (omega arith) in
        rw (room, n1)
          (span-update cf.slots cf.mask cf.out cf.inp (len cf) x v.out_in v.inp_in
            (omega (arith, len-le-mask v)) distance)
  ])

  pub contents-put : (x : A) → contents (put_in (write_in cf x)).0 ≡ enqueue cf.mask (contents cf) x
  unfolding put_in advance_in write_in
  contents-put x =
      put_span x (len (advance_in (write_in cf x)))
        (unfold len in len-advance_in (write_in-IsValid v x))

  pub take_span :
      (n : ℕ)
      → n ≡ len cf
      → (if empty cf then none else some (get_out cf), contents (take_out cf).0)
        ≡ dequeue (span cf.slots cf.mask cf.out n)
  unfolding take_out dequeue advance_out get_out
  take_span zero e =
      let drained : empty cf ≡ true = (empty-len_iff v).1 (sym e) in rw (drained, ← e)
  take_span (suc n) e =
      let more : empty cf ≡ false = ground (arith, empty-len_iff v) in
      let rest : len (advance_out cf) ≡ n = omega (arith, len-advance_out v) in
      rw (more, rest, next_lem v cf.out v.out_in)

  contents-clear : contents (clear cf) ≡ []
  contents-clear = ap (span (clear cf).slots (clear cf).mask (clear cf).out) none_left
    where
      none_left : len (clear cf) ≡ 0
      none_left = (empty-len_iff (clear-IsValid v)).0 (unfold empty clear in ==_refl cf.inp)

module _ {A : Type 0} {k : ℕ} where
  observe-look :
      {cf : Cfifo A} (v : IsValid k cf) (e : Option A)
      → observe e cf ≡ Queue.look cf.mask e (contents cf)
  unfolding observe
  observe-look {cf} v e = ground (arith, full-len_iff v, empty-len_iff v, length-contents cf)

  pub put-IsValid : {cf : Cfifo A} (x : A) → IsValid k cf → IsValid k (put_in (write_in cf x)).0
  unfolding put_in
  put-IsValid x v = advance_in-IsValid (write_in-IsValid v x)

  pub take-IsValid : {cf : Cfifo A} → IsValid k cf → IsValid k (take_out cf).0
  unfolding take_out
  take-IsValid {cf} v = elim (Bool-cases (empty cf)) [
    | inl e ↦ rw e v
    | inr e ↦ rw e (advance_out-IsValid v)
  ]

module _ {A : Type 0} where
  mask-put : (cf : Cfifo A) (x : A) → (put_in (write_in cf x)).0.mask ≡ cf.mask
  unfolding put_in write_in advance_in
  mask-put cf x = refl

  mask-take : (cf : Cfifo A) → (take_out cf).0.mask ≡ cf.mask
  unfolding take_out advance_out
  mask-take cf = ground arith

  mask-clear : (cf : Cfifo A) → (clear cf).mask ≡ cf.mask
  unfolding clear
  mask-clear cf = refl

-- On a valid fifo of `2 ^ k` slots, no sequence of calls can be told from the queue of its
-- contents: elements come out in the order they went in, `cfifo_len`, `cfifo_full` and
-- `cfifo_empty` tell its size, and a call of `cfifo_in` on a full fifo drops everything it held.
pub run_refines :
    {A : Type 0} {k : ℕ} (ops : List (Op A)) {cf : Cfifo A}
    → IsValid k cf
    → run cf ops ≡ Queue.run cf.mask (contents cf) ops
unfolding run Queue.run exec
run_refines [] v = refl
run_refines (put x ∷ ops) {cf} v = rw (
  observe-look (put-IsValid x v) none,
  run_refines ops (put-IsValid x v),
  contents-put v x,
  mask-put cf x,
)
run_refines (get ∷ ops) {cf} v = rw (
  observe-look (take-IsValid v) (if empty cf then none else some (get_out cf)),
  run_refines ops (take-IsValid v),
  ← take_span v (len cf) refl,
  mask-take cf,
)
run_refines (reset ∷ ops) {cf} v = rw (
  observe-look (clear-IsValid v) none,
  run_refines ops (clear-IsValid v),
  contents-clear v,
  mask-clear cf,
)
