-- ===== src/Listen/Keeping.antt =====
-- No packet is lost or doubled while packets are put in order.
use gsconferencing.Base.{
  ℕ, zero, suc, ◌+◌, ◌≡◌, ◌⊎◌, inl, inr, refl, ap, ◌∙◌, List, [], ◌∷◌, ◌++◌, Bool, true, false,
  ◌==◌, if◌then◌else◌, if-cases, leb, arith, u32_sub, length,
}
use gsconferencing.Cfifo
use gsconferencing.Cfifo.{Cfifo}
use gsconferencing.Cfifo.Index.{IsValid, empty-len_iff, full-len_iff, len-le-mask}
use gsconferencing.Cfifo.Refine.{contents, length-contents, take-IsValid, put-IsValid}
use gsconferencing.Cfifo.Steps.{contents-advance_out, contents-advance_in, empty-false}
use gsconferencing.Listen.{
  AudioPack, Intake, advance, enque_pack, get_wait_pack, put_wait_pack, get_wait_seq,
  req_repeat_seq, queue_wait, proceed, max_lost,
}

-- `wait_packs` has 4 slots.
abbrev pub IsListening : Intake → Type 0
IsListening r = IsValid 2 r.wait_packs

abbrev pub waiting : Intake → List AudioPack
waiting r = contents r.wait_packs

-- How many packets pass a test.
unfoldable pub count : (AudioPack → Bool) → List AudioPack → ℕ
count t [] = 0
count t (p ∷ ps) = if t p then suc (count t ps) else count t ps

pub count-append :
    (t : AudioPack → Bool) (ps qs : List AudioPack) → count t (ps ++ qs) ≡ count t ps + count t qs
unfolding count
count-append t [] qs = omega arith
count-append t (p ∷ ps) qs = ground (arith, count-append t ps qs)

-- The packets played and those that wait.
unfoldable pub held : (AudioPack → Bool) → Intake → ℕ
held t r = count t r.played + count t (waiting r)

-- A step that neither loses nor doubles a packet.
pub record Keeps (r r' : Intake) : Type 0 where
  pub valid : IsListening r'
  pub same : (t : AudioPack → Bool) → held t r' ≡ held t r

-- The first packet that waits, or that none does.
pub first-cases :
    (r : Intake) → (waiting r ≡ []) ⊎ ((p : AudioPack) × (q : List AudioPack) × (waiting r ≡ p ∷ q))
first-cases r = list-cases (waiting r)
  where
    list-cases :
        (l : List AudioPack) → (l ≡ []) ⊎ ((p : AudioPack) × (q : List AudioPack) × (l ≡ p ∷ q))
    list-cases [] = inl refl
    list-cases (p ∷ q) = inr (p, q, refl)

pub empty-true : (r : Intake) → IsListening r → waiting r ≡ [] → Cfifo.empty r.wait_packs ≡ true
empty-true r v e = ground (arith, empty-len_iff v, length-contents r.wait_packs, ap length e)

-- `get_wait_pack` takes the first packet that waits.
pub get_wait_pack_lem :
    (r : Intake) (p : AudioPack) (q : List AudioPack)
    → IsListening r
    → waiting r ≡ p ∷ q
    → ((get_wait_pack r).0 ≡ p)
      × (waiting (get_wait_pack r).1 ≡ q)
      × IsListening (get_wait_pack r).1
      × (get_wait_seq r ≡ p.seq)
unfolding get_wait_pack get_wait_seq
get_wait_pack_lem r p q v e =
    let (first, rest) = contents-advance_out v e in
    let busy : Cfifo.empty r.wait_packs ≡ false = empty-false v e in
    let popped : (Cfifo.take_out r.wait_packs).0 ≡ Cfifo.advance_out r.wait_packs =
      unfold Cfifo.take_out in rw busy refl in
    (
      first,
      ap contents popped ∙ rest,
      take-IsValid v,
      rw busy (ap (λ (x : AudioPack). x.seq) first),
    )

-- The first packet that waits is played.
pub advance-get :
    (r : Intake) (p : AudioPack) (q : List AudioPack)
    → IsListening r
    → waiting r ≡ p ∷ q
    → Keeps r (advance (get_wait_pack r).1 (get_wait_pack r).0)
unfolding held advance enque_pack count get_wait_pack
advance-get r p q v e =
    let (first, rest, ok, seq) = get_wait_pack_lem r p q v e in
    record {
      valid = ok;
      same = λ t. rw (first, rest, e, count-append t r.played (p ∷ [])) (ground arith);
    }

pub Keeps-refl : (r : Intake) → IsListening r → Keeps r r
Keeps-refl r v = record { valid = v; same = λ t. refl }

pub Keeps-trans : {r r1 r2 : Intake} → Keeps r r1 → Keeps r1 r2 → Keeps r r2
Keeps-trans k1 k2 = record { valid = k2.valid; same = λ t. k2.same t ∙ k1.same t }

pub req_repeat_seq-Keeps :
    (r : Intake) (tag s : ℕ) → IsListening r → Keeps r (req_repeat_seq r tag s)
unfolding req_repeat_seq held
req_repeat_seq-Keeps r tag s v = record { valid = v; same = λ t. refl }

queue_wait-Keeps : (tag n : ℕ) (r : Intake) → IsListening r → Keeps r (queue_wait tag n r)
unfolding queue_wait
queue_wait-Keeps tag zero r v = Keeps-refl r v
queue_wait-Keeps tag (suc n) r v = elim (first-cases r) [
  | inl e ↦
      let none_waits : get_wait_seq r ≡ 0 = unfold get_wait_seq in rw (empty-true r v e) refl in
      rw none_waits (Keeps-refl r v)
  | inr (p, q, e) ↦
      let one = advance-get r p q v e in
      let rest =
        Keeps-trans one
          (queue_wait-Keeps tag n (advance (get_wait_pack r).1 (get_wait_pack r).0) one.valid) in
      if-cases (Keeps r) (get_wait_seq r == 0) (λ stop. Keeps-refl r v)
        (λ some_wait.
          if-cases (Keeps r) (get_wait_seq r == r.expect_seq) (λ same. rest)
            (λ other.
              if-cases (Keeps r) (leb (u32_sub (get_wait_seq r) r.expect_seq) max_lost)
                (λ near. req_repeat_seq-Keeps r tag r.expect_seq v) (λ far. rest)))
]

pub proceed-Keeps : (tag : ℕ) (r : Intake) → IsListening r → Keeps r (proceed tag r)
unfolding proceed
proceed-Keeps tag r v = queue_wait-Keeps tag (suc (Cfifo.len r.wait_packs)) r v

pub put_wait_pack_lem :
    (r : Intake) (p : AudioPack)
    → IsListening r
    → Cfifo.full r.wait_packs ≡ false
    → (waiting (put_wait_pack r p) ≡ waiting r ++ (p ∷ [])) × IsListening (put_wait_pack r p)
unfolding put_wait_pack Cfifo.put_in
put_wait_pack_lem r p v room =
    (contents-advance_in v p room, unfold Cfifo.put_in in put-IsValid p v)

-- There is room after one packet has been taken.
pub room_after_get :
    (r : Intake) (x : AudioPack) (q : List AudioPack)
    → IsListening r
    → waiting r ≡ x ∷ q
    → Cfifo.full (get_wait_pack r).1.wait_packs ≡ false
room_after_get r x q v e =
    let (first, rest, ok, seq) = get_wait_pack_lem r x q v e in
    ground (
      arith,
      full-len_iff ok,
      length-contents (get_wait_pack r).1.wait_packs,
      ap length rest,
      length-contents r.wait_packs,
      ap length e,
      len-le-mask v,
      v.ones,
      ok.ones,
    )

pub full-waiting :
    (r : Intake)
    → IsListening r
    → Cfifo.full r.wait_packs ≡ true
    → (p : AudioPack) × (q : List AudioPack) × (waiting r ≡ p ∷ q)
full-waiting r v all = elim (first-cases r) [
  | inl e ↦
      absurd
        (omega (arith, ap length e, length-contents r.wait_packs, (full-len_iff v).0 all, v.ones))
  | inr some_wait ↦ some_wait
]
