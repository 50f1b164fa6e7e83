-- ===== src/Packet/Handout.antt =====
-- No slot of the cache of serv/packet.c is handed out twice, and a free slot is always found.
use Prim.Native.Nat.{bit_and}
use mathlib.Core.Bool.{false≢true}
use gsconferencing.Base.{
  ℕ, zero, suc, ◌+◌, ◌≤◌, ◌<◌, ◌≡◌, ◌≢◌, refl, sym, ap, ◌∙◌, Option, none, some, List, [], ◌∷◌,
  ◌++◌, Bool, true, false, arith, ◌==◌, ==_refl, if◌then◌else◌, Bool-cases, inl, inr, bit_and_ones,
  is_some,
}
use gsconferencing.Cfifo.Refine.{gap, next}
use gsconferencing.Ptc.{member, unlink}
use gsconferencing.Ptc.Stack.{Distinct}
use gsconferencing.Discuss.Users.{
  member-append, Distinct-append, Distinct-unlink, member-unlink_ne, member-unlink_self,
}
use gsconferencing.Packet.{
  Cache, pack_count, count_mask, find_unused, hand_out, get_found, get_cache, free_cache,
}

step_slot : (i : ℕ) → i ≤ count_mask → bit_and (i + 1) count_mask ≡ next count_mask i
step_slot i h = ground (arith, bit_and_ones 10 (i + 1))

find_unused-some :
    (used : ℕ → Bool) (pos n i j : ℕ)
    → i ≤ count_mask
    → find_unused used pos n i ≡ some j
    → (used j ≡ false) × (j ≤ count_mask)
unfolding find_unused
find_unused-some used pos zero i j h e = ground arith
find_unused-some used pos (suc n) i j h e =
    ground (arith, step_slot i h, find_unused-some used pos n (bit_and (i + 1) count_mask) j)

find_unused-none :
    (used : ℕ → Bool) (pos n i j : ℕ)
    → i ≤ count_mask
    → j ≤ count_mask
    → pos ≤ count_mask
    → gap count_mask i j < gap count_mask i pos
    → gap count_mask i j < n
    → find_unused used pos n i ≡ none
    → used j ≡ true
unfolding find_unused
find_unused-none used pos zero i j hi hj hp lt enough e = absurd (omega arith)
find_unused-none used pos (suc n) i j hi hj hp lt enough e = elim (Bool-cases (i == pos)) [
  | inl there ↦ absurd (ground arith)
  | inr short ↦ elim (Bool-cases (used i)) [
    | inr free ↦ absurd (some_ne_none (rw (short, free) at e))
    | inl taken ↦ elim (Bool-cases (i == j)) [
      | inl here ↦ ground (arith, taken)
      | inr further ↦
          find_unused-none used pos n (bit_and (i + 1) count_mask) j
            (ground (arith, step_slot i hi)) hj hp (ground (arith, step_slot i hi))
            (ground (arith, step_slot i hi)) (rw (short, taken) at e)
    ]
  ]
]
  where
    some_ne_none : {A : Type 0} {a : A} → some a ≡ none → ⊥
    some_ne_none h = cc

-- What clients do: take a slot, or give back one that they hold.
pub data Op : Type 0 where
  take_slot : Op
  give_slot : ℕ → Op

-- The cache and the slots that are held, latest last.
pub record Use : Type 0 where
  pub cache : Cache
  pub held : List ℕ

abbrev pub hold : List ℕ → Option ℕ → List ℕ
hold held none = held
hold held (some i) = held ++ (i ∷ [])

unfoldable pub exec : Use → Op → Use
exec u take_slot =
    let (i, cache) = get_cache u.cache in record { cache = cache; held = hold u.held i }
exec u (give_slot i) =
    if member i u.held then record { cache = free_cache u.cache i; held = unlink i u.held } else u

-- The slots held are exactly those in use, each once.
pub record IsValid (u : Use) : Type 0 where
  pub once : Distinct u.held
  pub marked : (i : ℕ) → u.cache.used i ≡ member i u.held
  pub bounded : (i : ℕ) → u.cache.used i ≡ true → i ≤ count_mask
  pub pos_in : u.cache.pos ≤ count_mask

hand_out-IsValid :
    {u : Use} (i : ℕ)
    → u.cache.used i ≡ false
    → i ≤ count_mask
    → IsValid u
    → IsValid (record { cache = hand_out u.cache i; held = u.held ++ (i ∷ []) })
unfolding hand_out
hand_out-IsValid {u} i free h v = record {
  once = Distinct-append i u.held v.once (sym (v.marked i) ∙ free);
  marked = λ j. rw (member-append j i u.held) (ground (arith, v.marked j));
  bounded = λ j in_use. ground (arith, v.bounded j);
  pos_in = ground (arith, step_slot i h);
}

get_found-IsValid :
    {u : Use} (o : Option ℕ)
    → ((i : ℕ) → o ≡ some i → (u.cache.used i ≡ false) × (i ≤ count_mask))
    → IsValid u
    → IsValid
        (record { cache = (get_found u.cache o).1; held = hold u.held (get_found u.cache o).0 })
unfolding get_found
get_found-IsValid none found v = record {
  once = v.once;
  marked = v.marked;
  bounded = v.bounded;
  pos_in = v.pos_in;
}
get_found-IsValid (some i) found v = hand_out-IsValid i (found i refl).0 (found i refl).1 v

take-IsValid : {u : Use} → IsValid u → IsValid (exec u take_slot)
unfolding exec get_cache
take-IsValid {u} v = elim (Bool-cases (u.cache.used u.cache.pos)) [
  | inl busy ↦
      rw (busy, get_cache)
        (get_found-IsValid _
          (λ i e.
            find_unused-some u.cache.used u.cache.pos pack_count
              (bit_and (u.cache.pos + 1) count_mask) i
              (ground (arith, step_slot u.cache.pos v.pos_in, v.pos_in)) e)
          v)
  | inr hit ↦ rw (hit, get_cache) (hand_out-IsValid u.cache.pos hit v.pos_in v)
]

free_cache-IsValid :
    {u : Use} (i : ℕ)
    → member i u.held ≡ true
    → IsValid u
    → IsValid (record { cache = free_cache u.cache i; held = unlink i u.held })
unfolding free_cache
free_cache-IsValid {u} i on v = record {
  once = Distinct-unlink i u.held v.once;
  marked = λ j. elim (Bool-cases (i == j)) [
    | inl same ↦
        let e : i ≡ j = ground (arith, same) in
        rw (← e, ==_refl i) (sym (member-unlink_self i u.held v.once))
    | inr ne ↦ rw ne (v.marked j ∙ sym (member-unlink_ne j i u.held (ground arith)))
  ];
  bounded = λ j in_use. ground (arith, v.bounded j);
  pos_in = v.bounded i (v.marked i ∙ on);
}

give-IsValid : {u : Use} (i : ℕ) → IsValid u → IsValid (exec u (give_slot i))
unfolding exec
give-IsValid {u} i v = elim (Bool-cases (member i u.held)) [
  | inl on ↦ rw (on, exec) (free_cache-IsValid i on v)
  | inr off ↦ rw (off, exec) v
]

unfoldable pub run_slots : Use → List Op → Use
run_slots u [] = u
run_slots u (op ∷ ops) = run_slots (exec u op) ops

-- From a cache where the slots held by clients are exactly those in use, each once, and all lie in
-- the cache, this is so after any sequence of taking packets and giving held ones back.
pub run_slots-IsValid : (ops : List Op) {u : Use} → IsValid u → IsValid (run_slots u ops)
unfolding run_slots
run_slots-IsValid [] v = v
run_slots-IsValid (take_slot ∷ ops) v = run_slots-IsValid ops (take-IsValid v)
run_slots-IsValid (give_slot i ∷ ops) v = run_slots-IsValid ops (give-IsValid i v)

-- With `cache_pos` and a free slot inside the cache, `pack_get_cache` finds a slot.
pub get_cache-is_some :
    (s : Cache) (j : ℕ)
    → s.pos ≤ count_mask
    → j ≤ count_mask
    → s.used j ≡ false
    → is_some (get_cache s).0 ≡ true
unfolding get_cache get_found
get_cache-is_some s j hp hj free = elim (Bool-cases (s.used s.pos)) [
  | inr hit ↦ rw (hit, get_cache) refl
  | inl busy ↦
      rw (busy, get_cache)
        (found busy (find_unused s.used s.pos pack_count (bit_and (s.pos + 1) count_mask)) refl)
]
  where
    found :
        s.used s.pos ≡ true
        → (o : Option ℕ) → find_unused s.used s.pos pack_count (bit_and (s.pos + 1) count_mask) ≡ o
        → is_some (get_found s o).0 ≡ true
    found busy none e =
        let apart : j ≢ s.pos = λ same. false≢true (sym free ∙ ap s.used same ∙ busy) in
        absurd (
          false≢true (
            sym free
            ∙ find_unused-none s.used s.pos pack_count (bit_and (s.pos + 1) count_mask) j
                (ground (arith, step_slot s.pos hp)) hj hp
                (ground (arith, step_slot s.pos hp, apart)) (ground (arith, step_slot s.pos hp)) e))
    found busy (some i) e = refl
