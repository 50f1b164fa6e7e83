-- ===== src/Brcmd/Reach.antt =====
-- From `brcast_cmd_to_multi` to the clients: each packet is heard several times.
use gsconferencing.Base.{
  ℕ, ◌+◌, ◌≤◌, ◌<◌, ◌≡◌, ◌∙◌, sym, ap, refl, Option, none, some, List, [], ◌∷◌, ◌++◌, Bool, true,
  false, arith, if◌then◌else◌, length, replicate, inr, inl, Bool-cases, get_elem?, ◌^◌, ◌*◌, ◌||◌,
}
use mathlib.Core.List.{append_assoc, append-nil}
use mathlib.Core.Path.{subst}
use gsconferencing.Recent.{recent_test}
use gsconferencing.Recent.Window.{IsRing, window, elem, recent_test-window_lem}
use gsconferencing.Brcmd.{
  Ucmd, Listener, make_brcmd_multi, brcast_cmd_to_multi, handle_brcast_cmd, hand,
}
use gsconferencing.Brcmd.Ints.{Words, handle_brcast_cmd-make_brcmd_multi}
use gsconferencing.Brcmd.Fresh.{
  AreFresh, Holds, Holds-known, Holds-cons, left, left-cons, left-all, left-ones, number,
}
use gsconferencing.Brcmd.Split.{packets, concat, Sized, brcast_cmd_to_multi_lem}
use gsconferencing.Brcmd.Places.{
  listen, heard, occurrences, replicate-snoc, past_end, packet_at, packets_at, part_at,
  length-packets, parts-le-ids, listed_in, listed, listed-occurrences,
}

-- A client that has heard the packets at the places `js` of the call, each once or more.
record Hearing (k s : ℕ) (rep : List ℕ) (cs : List (List ℕ)) (l0 : Listener) (js : List ℕ)
    (l : Listener) : Type 0 where
  ring : IsRing k l.recent
  holds : Holds s (length cs) l.recent js
  same_id : l.id ≡ l0.id
  times : ℕ
  text : l.handled ≡ l0.handled ++ replicate times rep
  counted : times + left (listed l0.id cs) (length cs) js ≡ left (listed l0.id cs) (length cs) []

module _ (k s : ℕ) (rep : List ℕ) (cs : List (List ℕ)) (l0 : Listener) (sized : Sized cs)
    (ok : Words (concat cs)) (few : length cs ≤ 65536) (room : length cs ≤ 2 ^ k) where
  module _ {js : List ℕ} {l : Listener} (h : Hearing k s rep cs l0 js l) (j : ℕ) (c : List ℕ)
      (at_j : get_elem? cs j ≡ some c) where
    packet : Ucmd
    packet = make_brcmd_multi (record { seq = s + j; sent = [] }) rep c

    taken : Listener
    taken = record l { recent = (recent_test l.recent (number s j)).1 }

    -- What the client does with the packet.
    handled_as :
        (b : Bool)
        → elem j js ≡ b
        → handle_brcast_cmd l packet
          ≡ some (if b then l else if elem l.id c then hand taken rep else taken)
    unfolding packet taken
    handled_as b e =
        let (lt, words, small) = part_at cs j c at_j sized ok in
        handle_brcast_cmd-make_brcmd_multi (record { seq = s + j; sent = [] }) rep c l words small
          h.ring
        ∙ ap
            (λ (known : Bool).
              some (if known then l else if elem l.id c then hand taken rep else taken))
            (Holds-known s (length cs) few h.ring h.holds j lt ∙ e)

    listed_here : (b : Bool) → elem l.id c ≡ b → listed l0.id cs j ≡ (if b then 1 else 0)
    listed_here b e =
        ap (listed_in l0.id) at_j
        ∙ ap (λ (i : ℕ). if elem i c then 1 else 0) (sym h.same_id)
        ∙ ap (λ (b' : Bool). if b' then 1 else 0) e

    module _ (out : elem j js ≡ false) where
      inside : j < length cs
      inside = (part_at cs j c at_j sized ok).0

      fewer :
          listed l0.id cs j + left (listed l0.id cs) (length cs) (j ∷ js)
          ≡ left (listed l0.id cs) (length cs) js
      fewer = left-cons (listed l0.id cs) (length cs) j js inside out

      taken-Hearing :
          (b : Bool)
          → elem l.id c ≡ b
          → Hearing k s rep cs l0 (j ∷ js) (if b then hand taken rep else taken)
      unfolding taken
      taken-Hearing true e = record {
        ring = (recent_test-window_lem (number s j) h.ring).2;
        holds = Holds-cons s (length cs) few h.ring h.holds j inside out room;
        same_id = h.same_id;
        times = h.times + 1;
        text =
            ap (λ (t : List (List ℕ)). t ++ (rep ∷ [])) h.text
            ∙ append_assoc l0.handled (replicate h.times rep) (rep ∷ [])
            ∙ ap (λ (t : List (List ℕ)). l0.handled ++ t) (replicate-snoc h.times rep);
        counted = omega (arith, h.counted, fewer, listed_here true e);
      }
      taken-Hearing false e = record {
        ring = (recent_test-window_lem (number s j) h.ring).2;
        holds = Holds-cons s (length cs) few h.ring h.holds j inside out room;
        same_id = h.same_id;
        times = h.times;
        text = h.text;
        counted = omega (arith, h.counted, fewer, listed_here false e);
      }

    -- The packet is known, or it is handled once.
    hear_one :
        (l1 : Listener) × (done : List ℕ) × (handle_brcast_cmd l packet ≡ some l1)
        × Hearing k s rep cs l0 done l1
        × ((m : ℕ) → elem m (j ∷ js) ≡ elem m done)
    unfolding taken packet
    hear_one = elim (Bool-cases (elem j js)) [
      | inl old ↦ (l, js, handled_as true old, h, λ m. ground arith)
      | inr new ↦ (_, j ∷ js, handled_as false new, taken-Hearing new (elem l.id c) refl, λ m. refl)
    ]

  -- All that is heard.
  Heard : List ℕ → List ℕ → Listener → Type 0
  Heard js done l =
      (l' : Listener) × (done' : List ℕ) × (listen l (heard (packets s rep cs) js) ≡ some l')
      × Hearing k s rep cs l0 done' l'
      × ((m : ℕ) → m < length cs → (elem m done || elem m js) ≡ true → elem m done' ≡ true)

  Heard-cons :
      (j : ℕ) (js done : List ℕ) (l : Listener) (part : Option (List ℕ))
      → get_elem? cs j ≡ part
      → Hearing k s rep cs l0 done l
      → ((done1 : List ℕ) (l1 : Listener) → Hearing k s rep cs l0 done1 l1 → Heard js done1 l1)
      → Heard (j ∷ js) done l
  unfolding Heard heard listen packet
  Heard-cons j js done l none at_j h rest =
      let (l', done', e, h', all) = rest done l h in
      (
        l',
        done',
        ap (λ (us : List Ucmd). listen l us) (skipped) ∙ e,
        h',
        λ m lt at. all m lt (ground (arith, at, lt, past_end cs j at_j)),
      )
    where
      skipped : heard (packets s rep cs) (j ∷ js) ≡ heard (packets s rep cs) js
      skipped = rw (packets_at s rep cs j ∙ ap (packet_at s rep j) at_j, heard) refl
  Heard-cons j js done l (some c) at_j h rest =
      let (l1, done1, e1, h1, same) = hear_one h j c at_j in
      let (l', done', e, h', all) = rest done1 l1 h1 in
      (
        l',
        done',
        rw (packets_at s rep cs j ∙ ap (packet_at s rep j) at_j, heard) (rw (e1, listen) e),
        h',
        λ m lt at. all m lt (ground (arith, same m)),
      )

  hear_all : (js done : List ℕ) (l : Listener) → Hearing k s rep cs l0 done l → Heard js done l
  unfolding Heard heard listen
  hear_all [] done l h = (l, done, refl, h, λ m lt at. ground (arith, at))
  hear_all (j ∷ js) done l h =
      Heard-cons j js done l (get_elem? cs j) refl h (λ done1 l1. hear_all js done1 l1)

  -- Nothing of the call has been heard.
  silence : IsRing k l0.recent → AreFresh l0.recent s (length cs) → Hearing k s rep cs l0 [] l0
  unfolding AreFresh
  silence v fresh = record {
    ring = v;
    holds = record {
      rest = window l0.recent;
      shape = refl;
      old = fresh;
      below = λ m at. ground (arith, at);
      counted = omega (arith, left-ones (length cs));
    };
    same_id = refl;
    times = 0;
    text = sym (append-nil l0.handled);
    counted = omega arith;
  }

  hear_call :
      (js : List ℕ)
      → ((m : ℕ) → m < length cs → elem m js ≡ true)
      → IsRing k l0.recent
      → AreFresh l0.recent s (length cs)
      → (l' : Listener) × (listen l0 (heard (packets s rep cs) js) ≡ some l')
        × (l'.handled ≡ l0.handled ++ replicate (left (listed l0.id cs) (length cs) []) rep)
  unfolding Heard
  hear_call js every v fresh =
      let (l', done, e, h, all) = hear_all js [] l0 (silence v fresh) in
      let none_left = left-all (listed l0.id cs) (length cs) done (λ m lt. all m lt (every m lt)) in
      let count : h.times ≡ left (listed l0.id cs) (length cs) [] =
        omega (arith, h.counted, none_left) in
      (l', e, h.text ∙ ap (λ (n : ℕ). l0.handled ++ replicate n rep) count)

-- A command of at most 9000 bytes is broadcast for at most 65536 ids of 32 bits, and for no more than
-- 256 for each of the `2 ^ k` entries of a client's ring (2048 for the 8 entries that it has). The
-- client hears every packet of the call at least once, in any order and with any repetitions, and no
-- other broadcast meanwhile. If the next `2 ^ k` numbers of packets are not in its ring before, it
-- handles the command once if its id is listed once and never if its id is not listed, and if its id
-- is listed several times at least once and at most as often.
pub brcast_cmd_to_multi-handle_brcast_cmd :
    {k : ℕ} (js : List ℕ) (s : ℕ) (rep ids : List ℕ) (l : Listener)
    → length rep ≤ 9000
    → length ids ≤ 65536
    → length ids ≤ 256 * 2 ^ k
    → Words ids
    → IsRing k l.recent
    → AreFresh l.recent s (2 ^ k)
    → ((m : ℕ)
        → m < length (brcast_cmd_to_multi (record { seq = s; sent = [] }) rep ids).sent
        → elem m js ≡ true)
    → let us = (brcast_cmd_to_multi (record { seq = s; sent = [] }) rep ids).sent in
      (l' : Listener) × (n : ℕ) × (listen l (heard us js) ≡ some l')
      × (l'.handled ≡ l.handled ++ replicate n rep)
      × (n ≤ occurrences l.id ids)
      × (1 ≤ occurrences l.id ids → 1 ≤ n)
unfolding AreFresh
brcast_cmd_to_multi-handle_brcast_cmd {k} js s rep ids l short few room ok v fresh every =
    let (cs, joined, sized, count, sent, _) =
      brcast_cmd_to_multi_lem (record { seq = s; sent = [] }) rep ids short in
    let us = ap (λ (us : List Ucmd). length us) sent in
    let parts = parts-le-ids cs sized in
    let total = ap (λ (xs : List ℕ). length xs) joined in
    let (l', e, text) =
      hear_call k s rep cs l sized (subst Words (sym joined) ok) (omega (arith, parts, total, few))
        (omega (arith, count, room)) js
        (λ m lt. every m (omega (arith, lt, us, length-packets s rep cs))) v
        (λ j lt. fresh j (omega (arith, lt, count, room))) in
    let (most, least) = listed-occurrences l.id cs in
    let same = ap (λ (xs : List ℕ). occurrences l.id xs) joined in
    (
      l',
      left (listed l.id cs) (length cs) [],
      ap (λ (us : List Ucmd). listen l (heard us js)) sent ∙ e,
      text,
      omega (arith, same, most),
      λ some_. least (omega (arith, same, some_)),
    )
