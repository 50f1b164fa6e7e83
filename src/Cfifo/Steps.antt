-- ===== src/Cfifo/Steps.antt =====
-- The steps of a client that tests the fifo first: a put into one that is not full, and a take out
-- of one that is not empty, also where the client clears the slot that it has read.
use gsconferencing.Base.{
  ℕ, zero, suc, ◌≤◌, ◌≡◌, refl, sym, ap, ap₂, ◌∙◌, List, [], ◌∷◌, ◌++◌, Option, some, false, arith,
  ◌==◌, length, update,
}
use gsconferencing.Cfifo.{
  Cfifo, len, full, empty, write_in, put_in, get_out, take_out, advance_in, advance_out,
}
use gsconferencing.Cfifo.Index.{
  IsValid, next_lem, full-len_iff, empty-len_iff, len-le-mask, advance_out-IsValid,
}
use gsconferencing.Cfifo.Refine.{
  span, next, gap, contents, length-contents, contents-put, take_span,
}
use gsconferencing.Cfifo.Queue.{enqueue, dequeue}

module _ {A : Type 0} where
  -- A write outside a span is not seen in it.
  span-update_out :
      (slots : ℕ → A) (mask i j n : ℕ) (x : A)
      → i ≤ mask
      → j ≤ mask
      → n ≤ gap mask i j
      → span (update slots j x) mask i n ≡ span slots mask i n
  span-update_out slots mask i j zero x hi hj far = refl
  span-update_out slots mask i j (suc n) x hi hj far =
      let elsewhere : (j == i) ≡ false = ground arith in
      ap₂ ◌∷◌ (rw elsewhere)
        (span-update_out slots mask (next mask i) j n x (ground arith) hj (ground arith))

module _ {A : Type 0} {k : ℕ} {cf : Cfifo A} (v : IsValid k cf) where
  pub contents-advance_in :
      (x : A) → full cf ≡ false → contents (advance_in (write_in cf x)) ≡ contents cf ++ (x ∷ [])
  unfolding put_in enqueue
  contents-advance_in x room = contents-put v x ∙ rw roomy
    where
      roomy : (length (contents cf) == cf.mask) ≡ false
      roomy = ground (arith, full-len_iff v, length-contents cf)

  pub len_of_cons : {x : A} {r : List A} → contents cf ≡ x ∷ r → len cf ≡ suc (length r)
  len_of_cons e = sym (length-contents cf) ∙ ap length e

  pub empty-false : {x : A} {r : List A} → contents cf ≡ x ∷ r → empty cf ≡ false
  empty-false e = ground (arith, len_of_cons e, empty-len_iff v)

  pub contents-advance_out :
      {x : A} {r : List A}
      → contents cf ≡ x ∷ r
      → (get_out cf ≡ x) × (contents (advance_out cf) ≡ r)
  unfolding take_out dequeue
  contents-advance_out {x} {r} e = (
    let first : some (get_out cf) ≡ some x = ap (λ (p : Option A × List A). p.0) split in cc,
    ap (λ (p : Option A × List A). p.1) split,
  )
    where
      split : ◌≡◌ {A = Option A × List A} (some (get_out cf), contents (advance_out cf)) (some x, r)
      split = rw (empty-false e, e) at (take_span v (len cf) refl)

  skip_out :
      (y : A) (o n : ℕ)
      → o ≡ next cf.mask cf.out
      → n ≤ cf.mask
      → span (update cf.slots cf.out y) cf.mask o n ≡ span cf.slots cf.mask o n
  skip_out y o n e le =
      span-update_out cf.slots cf.mask o cf.out n y (ground (arith, v.out_in)) v.out_in
        (ground (arith, v.out_in))

  -- Clearing the slot first changes nothing that is left.
  pub contents-clear_slot :
      {x : A} {r : List A} (y : A)
      → contents cf ≡ x ∷ r
      → contents (advance_out (record cf { slots = update cf.slots cf.out y })) ≡ r
  unfolding advance_out
  contents-clear_slot y e =
      unfold len in
      skip_out y (advance_out cf).out (len (advance_out cf)) (next_lem v cf.out v.out_in) fits
      ∙ (contents-advance_out e).1
    where
      fits : len (advance_out cf) ≤ cf.mask
      fits = len-le-mask (advance_out-IsValid v)
