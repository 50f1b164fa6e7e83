-- ===== src/Cast/Ring.antt =====
-- The ring `rep_pack` of serv/cast.c holds the latest 16 packets, oldest first from `rep_pos`.
use Prim.Native.Nat.{bit_and}
use mathlib.Core.List.{append_assoc, append-nil}
use gsconferencing.Base.{
  ℕ, ◌+◌, ◌≤◌, ◌≡◌, refl, sym, ap, ap₂, ◌∙◌, Option, none, some, List, [], ◌∷◌, ◌++◌, map, arith,
  length, drop, take, somes, somes-cons, bit_and_ones,
}
use gsconferencing.Cfifo.Refine.{span, span-update, length-span, next}
use gsconferencing.Cast.{Casting, rep_cast_mask, rep_cast_size, outdate_pack, free_out}

-- The 16 entries from `rep_pos` on: the oldest packet, if the ring is full, comes first.
unfoldable pub ring : Casting → List (Option ℕ)
ring c = span c.rep_pack rep_cast_mask c.rep_pos rep_cast_size

pub length-ring : (c : Casting) → length (ring c) ≡ rep_cast_size
unfolding ring
length-ring c = length-span c.rep_pack rep_cast_mask c.rep_pos rep_cast_size

-- The ring is read off `rep_pack` and `rep_pos` only.
pub ring_same :
    (c c' : Casting) → c'.rep_pack ≡ c.rep_pack → c'.rep_pos ≡ c.rep_pos → ring c' ≡ ring c
unfolding ring
ring_same c c' e f = ap₂ (λ slots pos. span slots rep_cast_mask pos rep_cast_size) e f

pub step_pos : (i : ℕ) → i ≤ rep_cast_mask → bit_and (i + 1) rep_cast_mask ≡ next rep_cast_mask i
step_pos i h = ground (arith, bit_and_ones 4 (i + 1))

-- The packets outdated one after the other.
unfoldable pub outdate_packs : Casting → List ℕ → Casting
outdate_packs c [] = c
outdate_packs c (p ∷ ps) = outdate_packs (outdate_pack c p) ps

pos-outdate_pack :
    (c : Casting) (p : ℕ) → c.rep_pos ≤ rep_cast_mask → (outdate_pack c p).rep_pos ≤ rep_cast_mask
unfolding outdate_pack
pos-outdate_pack c p h = ground (arith, step_pos c.rep_pos h)

pub ring-outdate_pack :
    (c : Casting) (p : ℕ)
    → c.rep_pos ≤ rep_cast_mask
    → ring (outdate_pack c p) ≡ drop 1 (ring c) ++ (some p ∷ [])
unfolding outdate_pack ring
ring-outdate_pack c p h = rw (step_pos c.rep_pos h) (
    span-update c.rep_pack rep_cast_mask (next rep_cast_mask c.rep_pos) c.rep_pos 15 (some p)
      (ground arith) h (omega arith) (ground arith))

cons-ring : (c : Casting) → ring c ≡ c.rep_pack c.rep_pos ∷ drop 1 (ring c)
unfolding ring
cons-ring c = refl

freed-outdate_pack :
    (c : Casting) (p : ℕ) → (outdate_pack c p).freed ≡ c.freed ++ somes (c.rep_pack c.rep_pos ∷ [])
unfolding outdate_pack
freed-outdate_pack c p = free_out_lem c.freed (c.rep_pack c.rep_pos)
  where
    free_out_lem : (l : List ℕ) (o : Option ℕ) → free_out l o ≡ l ++ somes (o ∷ [])
    free_out_lem l none = sym (append-nil l)
    free_out_lem l (some x) = refl

-- With `rep_pos` inside the ring, after any packets are outdated the ring holds the latest 16
-- entries of what it held and of those packets, in order, and exactly the packets that fell out of
-- it are freed, oldest first.
pub outdate_packs_lem :
    (c : Casting) (ps : List ℕ)
    → c.rep_pos ≤ rep_cast_mask
    → (ring (outdate_packs c ps) ≡ drop (length ps) (ring c ++ map some ps))
      × ((outdate_packs c ps).freed ≡ c.freed ++ somes (take (length ps) (ring c ++ map some ps)))
unfolding outdate_packs
outdate_packs_lem c [] h = (sym (append-nil (ring c)), sym (append-nil c.freed))
outdate_packs_lem c (p ∷ ps) h =
    let (held, gone) = outdate_packs_lem (outdate_pack c p) ps (pos-outdate_pack c p h) in
    let same : ring (outdate_pack c p) ++ map some ps ≡ drop 1 (ring c) ++ map some (p ∷ ps) =
      ap (λ l. l ++ map some ps) (ring-outdate_pack c p h)
      ∙ append_assoc (drop 1 (ring c)) (some p ∷ []) (map some ps) in
    rw (cons-ring c) (
      held ∙ ap (drop (length ps)) same,
      gone
          ∙ ap₂ ◌++◌ (freed-outdate_pack c p) (ap (λ l. somes (take (length ps) l)) same)
          ∙ append_assoc c.freed (somes (c.rep_pack c.rep_pos ∷ [])) _
          ∙ ap (λ (l : List ℕ). c.freed ++ l) (sym (somes-cons (c.rep_pack c.rep_pos) _)),
    )
