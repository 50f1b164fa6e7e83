-- ===== src/Brcmd/Ints.antt =====
-- The list of ids in a packet: what the server writes, a client reads.
use gsconferencing.Base.{
  ℕ, zero, suc, ◌+◌, ◌*◌, ◌^◌, ◌<◌, ◌≡◌, ◌∙◌, ap, ap₂, refl, Option, none, some, List, [], ◌∷◌,
  ◌++◌, Bool, true, false, arith, ◌==◌, if◌then◌else◌, leb, length, drop, Bool-cases, inl, inr,
}
use gsconferencing.Recent.{recent_test}
use gsconferencing.Recent.Window.{IsRing, window, elem, recent_test-window_lem}
use gsconferencing.Brcmd.{
  Air, Listener, seq_of, int_bytes, ints_bytes, make_brcmd_multi, read_word, read_int, find_id,
  hand, handle_multi, handle_mode, handle_brcast_cmd,
}

-- All of the numbers have 32 bits.
unfoldable pub Words : List ℕ → Type 0
Words [] = Unit
Words (x ∷ xs) = (x < 4294967296) × Words xs

read_int-int_bytes :
    (n : ℕ) (rest : List ℕ) → n < 4294967296 → read_int (int_bytes n ++ rest) 0 ≡ some n
unfolding read_int read_word int_bytes
read_int-int_bytes n rest lt = ap some (omega arith)

read_int_shift :
    (i x : ℕ) (rest : List ℕ) → read_int (int_bytes x ++ rest) (i + 1) ≡ read_int rest i
unfolding read_int int_bytes
read_int_shift i x rest = ap (read_int (int_bytes x ++ rest)) next
  where
    next : i + 1 ≡ suc i
    next = omega arith

==_comm : (x y : ℕ) → (x == y) ≡ (y == x)
==_comm x y = ground arith

-- What the body of `find_id` does with the number it read.
abbrev look_at : ℕ → Option Bool → Option ℕ → Option Bool
look_at id rest o = elim o [ none ↦ none | some x ↦ if x == id then some true else rest ]

find_id_shift :
    (n i x id : ℕ) (rest : List ℕ)
    → find_id (int_bytes x ++ rest) id n (i + 1) ≡ find_id rest id n i
unfolding find_id
find_id_shift zero i x id rest = refl
find_id_shift (suc n) i x id rest =
    ap₂ (look_at id) (find_id_shift n (i + 1) x id rest) (read_int_shift i x rest)

find_id-elem :
    (ids rest : List ℕ) (id : ℕ)
    → Words ids
    → find_id (ints_bytes ids ++ rest) id (length ids) 0 ≡ some (elem id ids)
unfolding find_id ints_bytes Words
find_id-elem [] rest id ok = refl
find_id-elem (x ∷ ids) rest id (lt, ok) =
    ap₂ (look_at id)
      (find_id_shift (length ids) 0 x id (ints_bytes ids ++ rest) ∙ find_id-elem ids rest id ok)
      (read_int-int_bytes x (ints_bytes ids ++ rest) lt)
    ∙ found (x == id) refl
  where
    found :
        (b : Bool)
        → (x == id) ≡ b
        → (if b then some true else some (elem id ids)) ≡ some (elem id (x ∷ ids))
    found true e = rw (==_comm id x ∙ e) refl
    found false e = rw (==_comm id x ∙ e) refl

drop-ints_bytes : (ids rest : List ℕ) → drop (length ids * 4) (ints_bytes ids ++ rest) ≡ rest
unfolding ints_bytes int_bytes
drop-ints_bytes [] rest = refl
drop-ints_bytes (x ∷ ids) rest =
    ap (λ (n : ℕ). drop n (ints_bytes (x ∷ ids) ++ rest)) four ∙ drop-ints_bytes ids rest
  where
    four : length (x ∷ ids) * 4 ≡ suc (suc (suc (suc (length ids * 4))))
    four = omega arith

handle_multi_of :
    (l : Listener) (data_ rep : List ℕ) (n : ℕ) (b : Bool)
    → read_int data_ 0 ≡ some n
    → leb (2 ^ 31) n ≡ false
    → find_id data_ l.id n 1 ≡ some b
    → drop ((1 + n) * 4) data_ ≡ rep
    → handle_multi l data_ ≡ some (if b then hand l rep else l)
unfolding handle_multi
handle_multi_of l data_ rep n b count positive found text =
    rw (count, positive, found, text, handle_multi) refl

module _ (a : Air) (rep ids : List ℕ) (ok : Words ids) (small : length ids < 2147483648) where
  abbrev body : List ℕ
  body = (make_brcmd_multi a rep ids).data_

  body_count : read_int body 0 ≡ some (length ids)
  unfolding make_brcmd_multi
  body_count = read_int-int_bytes (length ids) (ints_bytes ids ++ rep) (omega arith)

  body_found : (id : ℕ) → find_id body id (length ids) 1 ≡ some (elem id ids)
  unfolding make_brcmd_multi
  body_found id =
      find_id_shift (length ids) 0 (length ids) id (ints_bytes ids ++ rep)
      ∙ find_id-elem ids rep id ok

  body_text : drop ((1 + length ids) * 4) body ≡ rep
  unfolding make_brcmd_multi int_bytes
  body_text =
      ap (λ (n : ℕ). drop n (int_bytes (length ids) ++ ints_bytes ids ++ rep)) four
      ∙ drop-ints_bytes ids rep
    where
      four : (1 + length ids) * 4 ≡ suc (suc (suc (suc (length ids * 4))))
      four = omega arith

  -- What a client does with a packet that it takes: the command, if its id is listed.
  pub handle_multi_lem :
      (l : Listener)
      → handle_multi l (make_brcmd_multi a rep ids).data_
        ≡ some (if elem l.id ids then hand l rep else l)
  handle_multi_lem l =
      handle_multi_of l body rep (length ids) (elem l.id ids) body_count not_negative
        (body_found l.id) body_text
    where
      not_negative : leb (2 ^ 31) (length ids) ≡ false
      not_negative = ground arith

-- A client whose ring of recent numbers does not hold the packet's number takes the packet of a
-- command for a list of ids: it puts the number in its ring, and handles the command, just as it
-- was given to the server, if its own id is in the list, and otherwise nothing; it reads nothing
-- that is not in the packet. A packet with a number in the ring it leaves alone.
pub handle_brcast_cmd-make_brcmd_multi :
    {k : ℕ} (a : Air) (rep ids : List ℕ) (l : Listener)
    → Words ids
    → length ids < 2147483648
    → IsRing k l.recent
    → let known = elem (seq_of a) (window l.recent) in
      let taken = record l { recent = (recent_test l.recent (seq_of a)).1 } in
      handle_brcast_cmd l (make_brcmd_multi a rep ids)
      ≡ some (if known then l else if elem l.id ids then hand taken rep else taken)
unfolding handle_brcast_cmd make_brcmd_multi handle_mode
handle_brcast_cmd-make_brcmd_multi a rep ids l ok small v =
    rw (recent_test-window_lem (seq_of a) v).0
      (elim (Bool-cases (elem (seq_of a) (window l.recent))) [
        | inl old ↦ rw old refl
        | inr new ↦ rw new (handle_multi_lem a rep ids ok small _)
      ])
