-- ===== src/Brcmd/Split.antt =====
-- How a long list of ids is spread over several packets.
use mathlib.Core.List.{append_assoc, append-nil}
use gsconferencing.Base.{
  ℕ, zero, suc, ◌+◌, ◌-◌, ◌*◌, ◌/◌, ◌%◌, ◌≤◌, ◌≡◌, ◌≢◌, ◌∙◌, sym, ap, ap₂, refl, List, [], ◌∷◌,
  ◌++◌, arith, ◌==◌, length, length-append, take, drop, if-false, Bool-cases, inl, inr,
}
use gsconferencing.Brcmd.{
  Ucmd, Air, int_bytes, ints_bytes, make_brcmd_multi, async_brcast, send_multi, send_chunks,
  brcast_cmd_to_multi, chunk, bump_seq,
}

-- A packet for each part of the list, the first with the number after `s`.
unfoldable pub packets : ℕ → List ℕ → List (List ℕ) → List Ucmd
packets s rep [] = []
packets s rep (c ∷ cs) =
    make_brcmd_multi (record { seq = s; sent = [] }) rep c ∷ packets (s + 1) rep cs

unfoldable pub concat : List (List ℕ) → List ℕ
concat [] = []
concat (c ∷ cs) = c ++ concat cs

-- No part is empty or longer than 256.
unfoldable pub Sized : List (List ℕ) → Type 0
Sized [] = Unit
Sized (c ∷ cs) = (1 ≤ length c) × (length c ≤ 256) × Sized cs

module _ {A : Type 0} where
  take-append-drop : (n : ℕ) (xs : List A) → take n xs ++ drop n xs ≡ xs
  take-append-drop zero xs = refl
  take-append-drop (suc n) [] = refl
  take-append-drop (suc n) (x ∷ xs) = ap (λ (r : List A). x ∷ r) (take-append-drop n xs)

  length-take : (n : ℕ) (xs : List A) → n ≤ length xs → length (take n xs) ≡ n
  length-take zero xs le = refl
  length-take (suc n) [] le = absurd (omega arith)
  length-take (suc n) (x ∷ xs) le = ap suc (length-take n xs (omega arith))

  length-drop : (n : ℕ) (xs : List A) → length (drop n xs) ≡ length xs - n
  length-drop zero xs = omega arith
  length-drop (suc n) [] = omega arith
  length-drop (suc n) (x ∷ xs) = omega (arith, length-drop n xs)

  take-all : (n : ℕ) (xs : List A) → length xs ≡ n → take n xs ≡ xs
  take-all zero [] e = refl
  take-all zero (x ∷ xs) e = absurd (omega arith)
  take-all (suc n) [] e = refl
  take-all (suc n) (x ∷ xs) e = ap (λ (r : List A). x ∷ r) (take-all n xs (omega arith))

length-ints_bytes : (ids : List ℕ) → length (ints_bytes ids) ≡ 4 * length ids
unfolding ints_bytes int_bytes
length-ints_bytes [] = refl
length-ints_bytes (i ∷ ids) = omega (arith, length-ints_bytes ids)

module _ (rep : List ℕ) (short : length rep ≤ 9000) where
  send_multi_lem :
      (a : Air) (ids : List ℕ)
      → length ids ≤ 256
      → send_multi a rep ids
        ≡ record { seq = a.seq + 1; sent = a.sent ++ (make_brcmd_multi a rep ids ∷ []) }
  unfolding send_multi async_brcast make_brcmd_multi int_bytes
  send_multi_lem a ids le =
      if-false (bump_seq a)
        (ground (arith, length-append (ints_bytes ids) rep, length-ints_bytes ids))

  -- The whole parts that the loop has sent, and the ids it has left.
  record Sent (a : Air) (ids : List ℕ) (m : ℕ) (after : Air) (rest : List ℕ) : Type 0 where
    parts : List (List ℕ)
    joined : concat parts ++ rest ≡ ids
    sized : Sized parts
    counted : length parts ≡ m
    left : length rest ≡ length ids - m * 256
    numbered : after.seq ≡ a.seq + m
    listed : after.sent ≡ a.sent ++ packets a.seq rep parts

  sent_one : Air → List ℕ → Air
  sent_one a c = record { seq = a.seq + 1; sent = a.sent ++ (make_brcmd_multi a rep c ∷ []) }

  Sent-one :
      {a : Air} {ids : List ℕ} {m : ℕ} {after : Air} {rest : List ℕ}
      → 256 ≤ length ids
      → Sent (sent_one a (take chunk ids)) (drop chunk ids) m after rest
      → Sent a ids (suc m) after rest
  unfolding concat Sized packets sent_one make_brcmd_multi
  Sent-one {a} {ids} le v =
      let c = take chunk ids in
      record {
        parts = c ∷ v.parts;
        joined =
            append_assoc c (concat v.parts) _
            ∙ ap (λ (r : List ℕ). c ++ r) v.joined
            ∙ take-append-drop chunk ids;
        sized = (
          omega (arith, length-take chunk ids le),
          omega (arith, length-take chunk ids le),
          v.sized,
        );
        counted = ap suc v.counted;
        left = omega (arith, v.left, length-drop chunk ids);
        numbered = omega (arith, v.numbered);
        listed = v.listed ∙ append_assoc a.sent (make_brcmd_multi a rep c ∷ []) _;
      }

  send_chunks_lem :
      (m : ℕ) (a : Air) (ids : List ℕ)
      → m * 256 ≤ length ids
      → Sent a ids m (send_chunks a rep ids m).0 (send_chunks a rep ids m).1
  unfolding send_chunks sent_one concat Sized packets
  send_chunks_lem zero a ids le = record {
    parts = [];
    joined = refl;
    sized = tt;
    counted = refl;
    left = omega arith;
    numbered = omega arith;
    listed = sym (append-nil a.sent);
  }
  send_chunks_lem (suc m) a ids le =
      rw
        (
          send_multi_lem a (take chunk ids) (omega (arith, length-take chunk ids (omega arith))),
          send_chunks,
        )
        (Sent-one (omega arith)
          (send_chunks_lem m _ (drop chunk ids) (omega (arith, length-drop chunk ids))))

module _ (c : List ℕ) where
  concat-snoc : (cs : List (List ℕ)) → concat (cs ++ (c ∷ [])) ≡ concat cs ++ c
  unfolding concat
  concat-snoc [] = append-nil c
  concat-snoc (d ∷ cs) =
      ap (λ (r : List ℕ). d ++ r) (concat-snoc cs) ∙ sym (append_assoc d (concat cs) c)

  Sized-snoc :
      (cs : List (List ℕ)) → Sized cs → 1 ≤ length c → length c ≤ 256 → Sized (cs ++ (c ∷ []))
  unfolding Sized
  Sized-snoc [] ok lo hi = (lo, hi, tt)
  Sized-snoc (d ∷ cs) (one, most, ok) lo hi = (one, most, Sized-snoc cs ok lo hi)

  packets-snoc :
      (s : ℕ) (rep : List ℕ) (cs : List (List ℕ))
      → packets s rep (cs ++ (c ∷ []))
        ≡ packets s rep cs
          ++ (make_brcmd_multi (record { seq = s + length cs; sent = [] }) rep c ∷ [])
  unfolding packets make_brcmd_multi
  packets-snoc s rep [] =
      ap (λ (t : ℕ). make_brcmd_multi (record { seq = t; sent = [] }) rep c ∷ []) (omega arith)
  packets-snoc s rep (d ∷ cs) =
      ap (λ (r : List Ucmd). make_brcmd_multi (record { seq = s; sent = [] }) rep d ∷ r)
        (packets-snoc (s + 1) rep cs
          ∙ ap
              (λ (t : ℕ).
                packets (s + 1) rep cs
                ++ (make_brcmd_multi (record { seq = t; sent = [] }) rep c ∷ []))
              (omega arith))

-- The parts of the ids of a call, and the state it leaves.
Parted : Air → List ℕ → List ℕ → Air → Type 0
Parted a rep ids after =
    (parts : List (List ℕ)) × (concat parts ≡ ids)
    × Sized parts
    × (length parts * 256 ≤ length ids + 255)
    × (after.sent ≡ a.sent ++ packets a.seq rep parts)
    × (after.seq ≡ a.seq + length parts)

module _ {a : Air} {rep ids : List ℕ} {short : length rep ≤ 9000} {after : Air} {rest : List ℕ}
    (v : Sent rep short a ids (length ids / chunk) after rest) where
  no_rest : length ids % chunk ≡ 0 → Parted a rep ids after
  unfolding Parted
  no_rest even =
      let parts = v.parts in
      (
        parts,
        sym (append-nil (concat parts))
            ∙ ap (λ (r : List ℕ). concat parts ++ r) (sym (empty rest (omega (arith, v.left))))
            ∙ v.joined,
        v.sized,
        omega (arith, v.counted),
        v.listed,
        omega (arith, v.numbered, v.counted),
      )
    where
      empty : (r : List ℕ) → length r ≡ 0 → r ≡ []
      empty [] e = refl
      empty (x ∷ r) e = absurd (omega arith)

  a_rest :
      length ids % chunk ≢ 0
      → Parted a rep ids (send_multi after rep (take (length ids % chunk) rest))
  unfolding Parted make_brcmd_multi
  a_rest odd =
      rw
        (
          take-all (length ids % chunk) rest (omega (arith, v.left)),
          send_multi_lem rep short after rest (omega (arith, v.left)),
        )
        (
          v.parts ++ (rest ∷ []),
          concat-snoc rest v.parts ∙ v.joined,
          Sized-snoc rest v.parts v.sized (omega (arith, v.left)) (omega (arith, v.left)),
          omega (arith, v.counted, length-append v.parts (rest ∷ [])),
          ap₂
                (λ (l : List Ucmd) (n : ℕ).
                  l ++ (make_brcmd_multi (record { seq = n; sent = [] }) rep rest ∷ []))
                v.listed (omega (arith, v.numbered, v.counted))
              ∙ append_assoc a.sent (packets a.seq rep v.parts) _
              ∙ ap (λ (l : List Ucmd). a.sent ++ l) (sym (packets-snoc rest a.seq rep v.parts)),
          omega (arith, v.numbered, v.counted, length-append v.parts (rest ∷ [])),
        )

-- A command of at most 9000 bytes for a list of ids goes out in packets with consecutive numbers,
-- each for between 1 and 256 ids, which together are the list, in its order; they are no more than
-- packets of 256 ids each need.
pub brcast_cmd_to_multi_lem :
    (a : Air) (rep ids : List ℕ)
    → length rep ≤ 9000
    → (parts : List (List ℕ)) × (concat parts ≡ ids)
      × Sized parts
      × (length parts * 256 ≤ length ids + 255)
      × ((brcast_cmd_to_multi a rep ids).sent ≡ a.sent ++ packets a.seq rep parts)
      × ((brcast_cmd_to_multi a rep ids).seq ≡ a.seq + length parts)
unfolding brcast_cmd_to_multi Parted
brcast_cmd_to_multi_lem a rep ids short =
    let v = send_chunks_lem rep short (length ids / chunk) a ids (omega arith) in
    elim (Bool-cases (length ids % chunk == 0)) [
      | inl even ↦ rw even (no_rest v (ground arith))
      | inr odd ↦ rw odd (a_rest v (ground arith))
    ]
