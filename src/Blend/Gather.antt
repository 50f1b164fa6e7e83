-- ===== src/Blend/Gather.antt =====
-- The loop that takes one packet from each queue.
use gsconferencing.Base.{
  ℕ, zero, suc, ◌+◌, ◌≤◌, ◌<◌, ◌≡◌, ◌≢◌, ◌∙◌, sym, ap, ap₂, refl, Option, none, some, List, [], ◌∷◌,
  ◌++◌, map, Bool, false, not, arith, if◌then◌else◌, ltb, Bool-cases, inl, inr,
}
use mathlib.Core.List.{append_assoc, append-nil}
use gsconferencing.Cfifo
use gsconferencing.Device.{Channel, Device, Tag}
use gsconferencing.Blend.{PackData, Gathered, gather_dev, gather_entry, gather}
use gsconferencing.Blend.Step.{
  front, fronts, fits, kept, spilt, OneEntry, Taken, gather_dev-Taken, gather_dev_idle,
}

front_other :
    (c c' : Channel) (d : ℕ) (x : Option ℕ)
    → ((e : ℕ) → e ≢ d → c'.devs e ≡ c.devs e)
    → x ≢ some d
    → front c' x ≡ front c x
unfolding front
front_other c c' d none o ne = refl
front_other c c' d (some e) o ne =
    ap (λ (r : Device). if Cfifo.empty r.fifo then [] else Cfifo.get_out r.fifo ∷ [])
      (o e (λ same. ne (ap some same)))

-- The fronts of the entries that do not hold `d`.
fronts_other :
    (c c' : Channel) (d n i : ℕ)
    → c'.tag ≡ c.tag
    → ((e : ℕ) → e ≢ d → c'.devs e ≡ c.devs e)
    → ((j : ℕ) → i ≤ j → j < i + n → c.tag.mix_devs j ≢ some d)
    → fronts c' n i ≡ fronts c n i
unfolding fronts
fronts_other c c' d zero i t o apart = refl
fronts_other c c' d (suc n) i t o apart =
    ap₂ ◌++◌
      (ap (λ (x : Tag). front c' (x.mix_devs i)) t
        ∙ front_other c c' d (c.tag.mix_devs i) o (apart i (omega arith) (omega arith)))
      (fronts_other c c' d n (i + 1) t o (λ j lo hi. apart j (omega arith) (omega arith)))

-- What the loop has done when the fronts were the packets `ps`.
pub record Gathers (g : Gathered) (ps : List ℕ) (g' : Gathered) : Type 0 where
  pub mixed : g'.pp ≡ g.pp ++ kept g.blend.packs ps
  pub freed : g'.blend.chan.freed ≡ g.blend.chan.freed ++ spilt g.blend.packs ps
  pub tag : g'.blend.chan.tag ≡ g.blend.chan.tag

module _ (packs packs' : ℕ → PackData)
    (same : (q : ℕ) → (packs' q).datalen ≡ (packs q).datalen) where
  fits_same : (p : ℕ) → fits packs' p ≡ fits packs p
  fits_same p = ap (λ (l : ℕ). not (ltb 1700 l)) (same p)

  kept_same : (ps : List ℕ) → kept packs' ps ≡ kept packs ps
  unfolding kept
  kept_same [] = refl
  kept_same (p ∷ ps) =
      ap₂ (λ (b : Bool) (r : List ℕ). if b then p ∷ r else r) (fits_same p) (kept_same ps)

  spilt_same : (ps : List ℕ) → spilt packs' ps ≡ spilt packs ps
  unfolding spilt
  spilt_same [] = refl
  spilt_same (p ∷ ps) =
      ap₂ (λ (b : Bool) (r : List ℕ). if b then r else p ∷ r) (fits_same p) (spilt_same ps)

kept-cons :
    (packs : ℕ → PackData) (p : ℕ) (ps : List ℕ)
    → kept packs (p ∷ []) ++ kept packs ps ≡ kept packs (p ∷ ps)
unfolding kept
kept-cons packs p ps = elim (Bool-cases (fits packs p)) [
  | inl short ↦ rw short refl
  | inr long ↦ rw long refl
]

spilt-cons :
    (packs : ℕ → PackData) (p : ℕ) (ps : List ℕ)
    → spilt packs (p ∷ []) ++ spilt packs ps ≡ spilt packs (p ∷ ps)
unfolding spilt
spilt-cons packs p ps = elim (Bool-cases (fits packs p)) [
  | inl short ↦ rw short refl
  | inr long ↦ rw long refl
]

Gathers-cons :
    {g g1 g' : Gathered} (d p : ℕ) (ps : List ℕ)
    → Taken g d p g1
    → Gathers g1 ps g'
    → Gathers g (p ∷ ps) g'
Gathers-cons {g} {g1} {g'} d p ps t r =
    let packs = g.blend.packs in
    record {
      mixed =
          r.mixed
          ∙ ap₂ (λ (a b : List ℕ). a ++ b) t.mixed (kept_same packs g1.blend.packs t.sizes ps)
          ∙ append_assoc g.pp (kept packs (p ∷ [])) (kept packs ps)
          ∙ ap (λ (a : List ℕ). g.pp ++ a) (kept-cons packs p ps);
      freed =
          r.freed
          ∙ ap₂ (λ (a b : List ℕ). a ++ b) t.freed (spilt_same packs g1.blend.packs t.sizes ps)
          ∙ append_assoc g.blend.chan.freed (spilt packs (p ∷ [])) (spilt packs ps)
          ∙ ap (λ (a : List ℕ). g.blend.chan.freed ++ a) (spilt-cons packs p ps);
      tag = r.tag ∙ t.tag;
    }

-- The loop gets from `g` to a state that has gathered `ps`.
abbrev Gets : Option Gathered → Gathered → List ℕ → Type 0
Gets o g ps = (g' : Gathered) × (o ≡ some g') × Gathers g ps g'

abbrev Continues : ℕ → ℕ → Type 0
Continues n i =
    (g : Gathered) (ps : List ℕ)
    → OneEntry g.blend.chan.tag.mix_devs
    → fronts g.blend.chan n i ≡ map some ps
    → Gets (gather n i g) g ps

abbrev go_on : ℕ → ℕ → Option Gathered → Option Gathered
go_on n i o = elim o [ none ↦ none | some g1 ↦ gather n i g1 ]

module _ (n i : ℕ) (le : i + suc n ≤ 8) (ih : Continues n (i + 1)) where
  gather_busy :
      (g : Gathered) (d : ℕ) (ps : List ℕ)
      → g.blend.chan.tag.mix_devs i ≡ some d
      → OneEntry g.blend.chan.tag.mix_devs
      → Cfifo.empty (g.blend.chan.devs d).fifo ≡ false
      → Cfifo.get_out (g.blend.chan.devs d).fifo ∷ fronts g.blend.chan n (i + 1) ≡ map some ps
      → Gets (go_on n (i + 1) (gather_dev g d)) g ps
  unfolding OneEntry
  gather_busy g d [] at one busy e = absurd cc
  gather_busy g d (p ∷ ps) at one busy e =
      let (g1, taken, t) = gather_dev-Taken g d p busy cc in
      let rest : fronts g.blend.chan n (i + 1) ≡ map some ps = cc in
      let (g', got, r) = ih g1 ps (rw t.tag one) (
        fronts_other g.blend.chan g1.blend.chan d n (i + 1) t.tag t.others (apart g d at one)
        ∙ rest) in
      (g', ap (go_on n (i + 1)) taken ∙ got, Gathers-cons d p ps t r)
    where
      apart :
          (g : Gathered) (d : ℕ)
          → g.blend.chan.tag.mix_devs i ≡ some d
          → OneEntry g.blend.chan.tag.mix_devs
          → (j : ℕ) → i + 1 ≤ j
          → j < i + 1 + n
          → g.blend.chan.tag.mix_devs j ≢ some d
      apart g d at one j lo hi e = omega (arith, one i j d (omega arith) (omega arith) at e)

  gather_visit :
      (g : Gathered) (o : Option ℕ) (ps : List ℕ)
      → g.blend.chan.tag.mix_devs i ≡ o
      → OneEntry g.blend.chan.tag.mix_devs
      → front g.blend.chan o ++ fronts g.blend.chan n (i + 1) ≡ map some ps
      → Gets (go_on n (i + 1) (gather_entry g o)) g ps
  unfolding front gather_entry
  gather_visit g none ps at one e = ih g ps one e
  gather_visit g (some d) ps at one e = elim (Bool-cases (Cfifo.empty (g.blend.chan.devs d).fifo)) [
    | inl idle ↦
        let (g', got, r) = ih g ps one (rw idle at e) in
        (g', ap (go_on n (i + 1)) (gather_dev_idle g d idle) ∙ got, r)
    | inr busy ↦ gather_busy g d ps at one busy (rw busy at e)
  ]

-- From entry `i` on, the loop takes the packet at the front of each queue that is not empty.
pub gather_lem : (n i : ℕ) → i + n ≤ 8 → Continues n i
unfolding gather fronts kept spilt
gather_lem zero i le g [] one e = (
  g,
  refl,
  record { mixed = sym (append-nil g.pp); freed = sym (append-nil g.blend.chan.freed); tag = refl },
)
gather_lem zero i le g (p ∷ ps) one e = absurd cc
gather_lem (suc n) i le g ps one e =
    gather_visit n i le (gather_lem n (i + 1) (omega arith)) g (g.blend.chan.tag.mix_devs i) ps refl
      one e
