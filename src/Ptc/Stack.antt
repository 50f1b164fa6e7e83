-- ===== src/Ptc/Stack.antt =====
-- The stack of serv/ptc.c: every device once, and `curr` its top.
use gsconferencing.Base.{
  ℕ, zero, suc, ◌+◌, ◌≤◌, ◌≡◌, ◌⊎◌, refl, sym, ap, ◌∙◌, Option, none, some, List, [], ◌∷◌, false,
  ◌==◌, if◌then◌else◌, length, length-append, get_elem?, arith, Bool-cases, Option-cases, ==_refl,
  inl, inr,
}
use gsconferencing.Ptc.{
  Directory, Ptc, max_ptcs, member, unlink, add_ptc, order, ptc_send, default_loop, ptc_default,
  ptc_put, ptc_push, is_curr, after_remove, ptc_remove,
}

abbrev pub Distinct : List ℕ → Type 0
Distinct [] = Unit
Distinct (x ∷ xs) = (member x xs ≡ false) × Distinct xs

-- What is left of a stack without a device.
unfoldable pub without : ℕ → List ℕ → List ℕ
without d [] = []
without d (e ∷ es) = if d == e then without d es else e ∷ without d es

abbrev pub top : List ℕ → Option ℕ
top [] = none
top (x ∷ xs) = some x

pub record IsValid (s : Ptc) : Type 0 where
  pub once : Distinct s.stack
  pub current : s.curr ≡ top s.stack
  pub bounded : length s.known ≤ max_ptcs

without_self : (d : ℕ) (es : List ℕ) → member d es ≡ false → without d es ≡ es
unfolding without member
without_self d [] h = refl
without_self d (e ∷ es) h = ground (arith, without_self d es)

pub unlink-without : (d : ℕ) (es : List ℕ) → Distinct es → unlink d es ≡ without d es
unfolding unlink without
unlink-without d [] h = refl
unlink-without d (e ∷ es) h = ground (arith, without_self d es, unlink-without d es)

member-without : (x d : ℕ) (es : List ℕ) → member x es ≡ false → member x (without d es) ≡ false
unfolding without member
member-without x d [] h = refl
member-without x d (e ∷ es) h = ground (arith, member-without x d es)

member-without_self : (d : ℕ) (es : List ℕ) → member d (without d es) ≡ false
unfolding without member
member-without_self d [] = refl
member-without_self d (e ∷ es) = ground (arith, member-without_self d es)

pub Distinct-without : (d : ℕ) (es : List ℕ) → Distinct es → Distinct (without d es)
unfolding without
Distinct-without d [] h = tt
Distinct-without d (e ∷ es) h = elim (Bool-cases (d == e)) [
  | inl same ↦ rw same (Distinct-without d es h.1)
  | inr other ↦ rw other (member-without e d es h.0, Distinct-without d es h.1)
]

-- Sending a command touches neither the stack nor `curr`, and keeps `ptcs` within its bound.
pub record SameStack (s s' : Ptc) : Type 0 where
  pub stacks : s'.stack ≡ s.stack
  pub currents : s'.curr ≡ s.curr
  pub bounds : length s.known ≤ max_ptcs → length s'.known ≤ max_ptcs

add_ptc-SameStack : (s : Ptc) (p : ℕ) → SameStack s (add_ptc s p)
unfolding add_ptc
add_ptc-SameStack s p = ground (arith, length-append s.known (p ∷ []))

module _ {s t u : Ptc} where
  SameStack-trans : SameStack s t → SameStack t u → SameStack s u
  SameStack-trans h k = record {
    stacks = k.stacks ∙ h.stacks;
    currents = k.currents ∙ h.currents;
    bounds = λ b. k.bounds (h.bounds b);
  }

SameStack-refl : (s : Ptc) → SameStack s s
SameStack-refl s = record { stacks = refl; currents = refl; bounds = λ h. h }

not_was : {o : Option ℕ} {d : ℕ} → o ≡ some d → is_curr o d ≡ false → ⊥
unfolding is_curr
not_was {o} {d} e h = ground (arith, ==_refl d)

top-unlink : (d : ℕ) (es : List ℕ) → (top es ≡ some d) ⊎ (top es ≡ top (unlink d es))
unfolding unlink
top-unlink d [] = inr refl
top-unlink d (e ∷ es) = elim (Bool-cases (d == e)) [
  | inl same ↦ inl (ap some (ground arith))
  | inr other ↦ inr (rw other)
]

module _ (dir : Directory) where
  order-SameStack : (s : Ptc) (d p : ℕ) (cmd : List ℕ) → SameStack s (order dir s d p cmd)
  unfolding order
  order-SameStack s d p [] = SameStack-refl s
  order-SameStack s d p (b ∷ bs) = record { stacks = refl; currents = refl; bounds = λ h. h }

  pub ptc_send-SameStack : (s : Ptc) (d : ℕ) → SameStack s (ptc_send dir s d)
  unfolding ptc_send
  ptc_send-SameStack s d = elim (Option-cases (dir.get_device (dir.ptc_id d))) [
    | inl gone ↦ rw (gone, ptc_send) (SameStack-refl s)
    | inr (p, found) ↦
        rw (found, ptc_send)
          (SameStack-trans (order-SameStack s d p (dir.ptc_cmd d))
            (add_ptc-SameStack (order dir s d p (dir.ptc_cmd d)) p))
  ]

  default_loop-SameStack : (n i : ℕ) (s : Ptc) → SameStack s (default_loop dir n i s)
  unfolding default_loop
  default_loop-SameStack zero i s = SameStack-refl s
  default_loop-SameStack (suc n) i s = elim (Option-cases (get_elem? s.known i)) [
    | inl end ↦ rw (end, default_loop) (SameStack-refl s)
    | inr (p, at) ↦
        rw (at, default_loop)
          (SameStack-trans (ptc_send-SameStack s p)
            (default_loop-SameStack n (i + 1) (ptc_send dir s p)))
  ]

  pub ptc_default-SameStack : (s : Ptc) → SameStack s (ptc_default dir s)
  unfolding ptc_default
  ptc_default-SameStack s = default_loop-SameStack max_ptcs 0 s

  pub stack-ptc_push :
      (s : Ptc) (d : ℕ) → Distinct s.stack → (ptc_push dir s d).stack ≡ d ∷ without d s.stack
  unfolding ptc_push ptc_put
  stack-ptc_push s d h =
      (ptc_send-SameStack (ptc_put s d) d).stacks
      ∙ ap (λ (es : List ℕ). d ∷ es)
          (ground (arith, without_self d s.stack, unlink-without d s.stack))

  -- On a valid stack (each device once, the current one on top, at most 32 cameras known)
  -- `ptc_push` leaves a valid stack, with the device on top, once, and the others behind it in
  -- their order.
  pub ptc_push_lem :
      {s : Ptc} (d : ℕ)
      → IsValid s
      → IsValid (ptc_push dir s d) × ((ptc_push dir s d).stack ≡ d ∷ without d s.stack)
  unfolding ptc_push
  ptc_push_lem {s} d v = (
    record {
      once =
          rw (stack-ptc_push s d v.once)
            (member-without_self d s.stack, Distinct-without d s.stack v.once);
      current = same.currents ∙ rw (stack-ptc_push s d v.once) (unfold ptc_put in refl);
      bounded = same.bounds (unfold ptc_put in v.bounded);
    },
    stack-ptc_push s d v.once,
  )
    where
      same : SameStack (ptc_put s d) (ptc_send dir (ptc_put s d) d)
      same = ptc_send-SameStack (ptc_put s d) d

  after_remove_lem :
      (s : Ptc) (es : List ℕ) (d : ℕ)
      → s.stack ≡ es
      → Distinct es
      → length s.known ≤ max_ptcs
      → (s.curr ≡ some d) ⊎ (s.curr ≡ top es)
      → IsValid (after_remove dir s es d) × ((after_remove dir s es d).stack ≡ es)
  unfolding after_remove
  after_remove_lem s [] d same h b c =
      let kept = ptc_default-SameStack s in
      let empty = kept.stacks ∙ same in
      (record { once = rw empty tt; current = rw empty; bounded = kept.bounds b }, empty)
  after_remove_lem s (e ∷ es) d same h b c = elim (Bool-cases (is_curr s.curr d)) [
    | inl was ↦
        let kept = ptc_send-SameStack (record s { curr = some e }) e in
        rw was (
          record {
            once = rw (kept.stacks ∙ same) h;
            current = kept.currents ∙ rw (kept.stacks ∙ same);
            bounded = kept.bounds b;
          },
          kept.stacks ∙ same,
        )
    | inr other ↦ rw other (
      record {
        once = rw same h;
        current = elim c [ inl at ↦ absurd (not_was at other) | inr at ↦ at ∙ ap top (sym same) ];
        bounded = b;
      },
      same,
    )
  ]

  -- On a valid stack `ptc_remove` leaves a valid stack, whose current device is the one on top,
  -- with the device taken out wherever it stood and the others in their order.
  pub ptc_remove_lem :
      {s : Ptc} (d : ℕ)
      → IsValid s
      → IsValid (ptc_remove dir s d) × ((ptc_remove dir s d).stack ≡ without d s.stack)
  unfolding ptc_remove
  ptc_remove_lem {s} d v = elim (Bool-cases (member d s.stack)) [
    | inl on ↦
        rw (on, ← unlink-without d s.stack v.once)
          (after_remove_lem (record s { stack = unlink d s.stack }) (unlink d s.stack) d refl
            (rw (unlink-without d s.stack v.once) (Distinct-without d s.stack v.once)) v.bounded
            (rw v.current (top-unlink d s.stack)))
    | inr off ↦ rw off (v, sym (without_self d s.stack off))
  ]
