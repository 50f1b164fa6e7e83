-- ===== src/Cast/Repeat.antt =====
-- Repeat requests of serv/cast.c: the search of `__repeat_cast` and the bound on repeats.
use Prim.Native.Nat.{bit_and}
use mathlib.Core.List.{append-nil}
use gsconferencing.Base.{
  ℕ, zero, suc, ◌+◌, ◌%◌, ◌≤◌, ◌≡◌, refl, sym, ap, ◌∙◌, Option, none, some, List, [], ◌∷◌, ◌++◌,
  arith, ◌==◌, if◌then◌else◌, bit_and_ones, inl, inr, ltb, Bool-cases,
}
use gsconferencing.Cfifo.Refine.{span, next}
use gsconferencing.Cast.{
  Casting, Packet, rep_cast_mask, rep_cast_size, find_repeat, repeat_cast, respond, repeat_pack,
  Message, broadcast_pack, broadcast_outdate,
}
use gsconferencing.Cast.Ring.{ring, ring_same}

-- The last packet of a list, oldest first, with the sequence number `s`.
unfoldable pub newest : (ℕ → Packet) → ℕ → List (Option ℕ) → Option ℕ
newest packs s [] = none
newest packs s (none ∷ os) = newest packs s os
newest packs s (some r ∷ os) = elim (newest packs s os) [
  | none ↦ if (packs r).seq == s then some r else none
  | some later ↦ some later
]

-- One slot before the others.
abbrev pub prefer : (ℕ → Packet) → ℕ → Option ℕ → Option ℕ → Option ℕ
prefer packs s none rest = rest
prefer packs s (some r) rest = if (packs r).seq == s then some r else rest

-- The same from the end of the list, as `__repeat_cast` searches.
newest-snoc :
    (packs : ℕ → Packet) (s : ℕ) (os : List (Option ℕ)) (o : Option ℕ)
    → newest packs s (os ++ (o ∷ [])) ≡ prefer packs s o (newest packs s os)
unfolding newest
newest-snoc packs s [] none = refl
newest-snoc packs s [] (some r) = refl
newest-snoc packs s (none ∷ os) o = newest-snoc packs s os o
newest-snoc packs s (some q ∷ os) none = rw (newest-snoc packs s os none) refl
newest-snoc packs s (some q ∷ os) (some r) =
    rw (newest-snoc packs s os (some r))
      (elim (Bool-cases ((packs r).seq == s)) [ inl e ↦ rw e refl | inr e ↦ rw e refl ])

span-snoc :
    (slots : ℕ → Option ℕ) (pos n : ℕ)
    → pos ≤ rep_cast_mask
    → span slots rep_cast_mask pos (suc n)
      ≡ span slots rep_cast_mask pos n ++ (slots (bit_and (pos + n) rep_cast_mask) ∷ [])
span-snoc slots pos zero h = ap (λ i. slots i ∷ []) (ground (arith, bit_and_ones 4 pos))
span-snoc slots pos (suc n) h =
    let there : bit_and (next rep_cast_mask pos + n) rep_cast_mask
        ≡ bit_and (pos + suc n) rep_cast_mask =
      ground (arith, bit_and_ones 4 (next rep_cast_mask pos + n), bit_and_ones 4 (pos + suc n)) in
    rw (span-snoc slots (next rep_cast_mask pos) n (ground arith), there) refl

find_repeat-newest :
    (c : Casting) (s n : ℕ)
    → c.rep_pos ≤ rep_cast_mask
    → find_repeat c s n ≡ newest c.packs s (span c.rep_pack rep_cast_mask c.rep_pos n)
unfolding find_repeat newest
find_repeat-newest c s zero h = refl
find_repeat-newest c s (suc n) h =
    let o = c.rep_pack (bit_and (c.rep_pos + n) rep_cast_mask) in
    step o (find_repeat c s n)
    ∙ ap (prefer c.packs s o) (find_repeat-newest c s n h)
    ∙ sym (newest-snoc c.packs s (span c.rep_pack rep_cast_mask c.rep_pos n) o)
    ∙ ap (newest c.packs s) (sym (span-snoc c.rep_pack c.rep_pos n h))
  where
    step :
        (o rest : Option ℕ)
        → elim o [ none ↦ rest | some r ↦ if (c.packs r).seq == s then some r else rest ]
          ≡ prefer c.packs s o rest
    step none rest = refl
    step (some r) rest = refl

find_repeat-ring :
    (c : Casting) (s : ℕ)
    → c.rep_pos ≤ rep_cast_mask
    → find_repeat c s rep_cast_size ≡ newest c.packs s (ring c)
unfolding ring
find_repeat-ring c s h = find_repeat-newest c s rep_cast_size h

-- What a request for the sequence number `s` has to send when `found` is the packet that has it:
-- the packet if it has been repeated less than 8 times, nothing if that was 8 times, and without
-- a packet the notice that it is outdated.
abbrev pub answer : Casting → ℕ → Option ℕ → List Message
answer c s none = broadcast_outdate s (c.id % 256) ∷ []
answer c s (some r) = if ltb (c.packs r).rep_count 8 then broadcast_pack (c.packs r) ∷ [] else []

repeat_pack_lem :
    (c : Casting) (q r : ℕ)
    → (c.packs r).rep_count ≤ 8
    → ((repeat_pack c q).sent
        ≡ c.sent ++ (if ltb (c.packs q).rep_count 8 then broadcast_pack (c.packs q) ∷ [] else []))
      × (((repeat_pack c q).packs r).rep_count ≤ 8)
      × (ring (repeat_pack c q) ≡ ring c)
unfolding repeat_pack
repeat_pack_lem c q r le = (
  elim (Bool-cases (ltb (c.packs q).rep_count 8)) [
    | inl few ↦ rw (few, repeat_pack) refl
    | inr many ↦ rw (many, repeat_pack) (sym (append-nil c.sent))
  ],
  ground arith,
  elim (Bool-cases (ltb (c.packs q).rep_count 8)) [
    | inl few ↦ rw (few, repeat_pack) (ring_same c _ refl refl)
    | inr many ↦ rw (many, repeat_pack) refl
  ],
)

respond_lem :
    (c : Casting) (s r : ℕ) (o : Option ℕ)
    → (c.packs r).rep_count ≤ 8
    → ((respond c s o).sent ≡ c.sent ++ answer c s o)
      × (((respond c s o).packs r).rep_count ≤ 8)
      × (ring (respond c s o) ≡ ring c)
unfolding respond
respond_lem c s r none le = (refl, le, ring_same c _ refl refl)
respond_lem c s r (some q) le = repeat_pack_lem c q r le

-- With `rep_pos` inside the ring, `__repeat_cast` sends the answer for the latest packet of the
-- ring that has the sequence number, takes no packet's `rep_count` from at most 8 to above 8, and
-- leaves the ring as it was.
pub repeat_cast_lem :
    (c : Casting) (s r : ℕ)
    → c.rep_pos ≤ rep_cast_mask
    → (c.packs r).rep_count ≤ 8
    → ((repeat_cast c s).sent ≡ c.sent ++ answer c s (newest c.packs s (ring c)))
      × (((repeat_cast c s).packs r).rep_count ≤ 8)
      × (ring (repeat_cast c s) ≡ ring c)
unfolding repeat_cast
repeat_cast_lem c s r h le =
    rw (← find_repeat-ring c s h) (respond_lem c s r (find_repeat c s rep_cast_size) le)
