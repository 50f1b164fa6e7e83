-- ===== src/Video/RoundTrip.antt =====
-- From the frame that one client sends, by way of the server, to the frame that another one sees.
use mathlib.Core.List.{Permᴰ}
use mathlib.Core.Path.{subst}
use native.Mathlib.Decide.{dec_lt}
use gsconferencing.Base.{
  ℕ, zero, suc, ◌+◌, ◌*◌, ◌/◌, ◌%◌, ◌≤◌, ◌<◌, ◌≡◌, inl, inr, refl, sym, ◌∙◌, some, List, [], ◌∷◌,
  ◌++◌, true, false, ◌==◌, ==_refl, Bool-cases, arith, length, take, drop,
}
use gsconferencing.Video.{
  Datagram, Viewer, Casters, frag_size, fragment, send_frags, send_video, cast_video,
  video_recved_all, is_frame,
}
use gsconferencing.Video.Memory.{length-take, length-drop, get_elem?-take, get_elem?-drop}
use gsconferencing.Video.Reassembly.{
  IsPart, AreParts, IsWhole, Covers, total, Complete, video_recved_all-whole,
}
use gsconferencing.Video.Order.{IsWhole-Permᴰ}

frag_size_some : 0 < frag_size
unfolding frag_size
frag_size_some = omega arith

-- How many bytes `n` whole fragments and a rest of `m` carry.
abbrev carried : ℕ → ℕ → ℕ
carried m zero = m
carried m (suc n) = frag_size + carried m n

carried_lem : (m n : ℕ) → carried m n ≡ n * 1400 + m
unfolding frag_size
carried_lem m zero = omega arith
carried_lem m (suc n) = omega (arith, carried_lem m n)

module _ (id : ℕ) (fseq : ℕ) (buf : List ℕ) where
  length-body : (off n : ℕ) → off + n ≤ length buf → length (take n (drop off buf)) ≡ n
  length-body off n le = length-take n (drop off buf) (omega (arith, length-drop off buf))

  fragment-IsPart :
      (off n : ℕ) → 0 < n → off + n ≤ length buf → IsPart fseq buf (fragment id fseq buf off n)
  fragment-IsPart off n pos le = record {
    whole = omega arith;
    numbered = refl;
    sized = refl;
    counted = omega (arith, length-body off n le);
    some_bytes = omega (arith, length-body off n le);
    inside = omega (arith, length-body off n le);
    bytes = λ j lt.
        get_elem?-take n (drop off buf) j (omega (arith, length-body off n le))
        ∙ get_elem?-drop off buf j;
  }

  -- What the loop sends from `off` on.
  record Sends (off size : ℕ) (ds : List Datagram) : Type 0 where
    parts : AreParts fseq buf ds
    fills : total ds ≡ size
    covers : (i : ℕ) → off ≤ i → i < off + size → Covers i ds

  send_frags-Sends :
      (m n off : ℕ)
      → off + carried m n ≡ length buf
      → Sends off (carried m n) (send_frags id fseq buf m n off)
  unfolding send_frags AreParts total Covers
  send_frags-Sends m zero off e = elim (Bool-cases (m == 0)) [
    | inl none_left ↦ rw none_left (record {
      parts = tt;
      fills = ground (arith, none_left);
      covers = λ i le lt. absurd (ground (arith, none_left));
    })
    | inr rest ↦
        let le : off + m ≤ length buf = omega (arith, e) in
        rw rest (record {
          parts = (fragment-IsPart off m (ground (arith, rest)) le, tt);
          fills = omega (arith, length-body off m le);
          covers = λ i le' lt. inl (le', omega (arith, length-body off m le));
        })
  ]
  send_frags-Sends m (suc n) off e =
      let le : off + frag_size ≤ length buf = omega (arith, e) in
      let rest = send_frags-Sends m n (off + frag_size) (omega (arith, e)) in
      record {
        parts = (fragment-IsPart off frag_size frag_size_some le, rest.parts);
        fills = omega (arith, length-body off frag_size le, rest.fills);
        covers = λ i le' lt. elim (dec_lt i (off + frag_size)) [
          | yes here ↦ inl (le', omega (arith, length-body off frag_size le))
          | no later ↦ inr (rest.covers i (omega arith) (omega arith))
        ];
      }

pub send_video-IsWhole :
    (id fseq : ℕ) (buf : List ℕ) → IsWhole (send_video id fseq buf).0 buf (send_video id fseq buf).1
unfolding send_video
send_video-IsWhole id fseq buf =
    let all : 0 + carried (length buf % 1400) (length buf / 1400) ≡ length buf =
      omega (arith, carried_lem (length buf % 1400) (length buf / 1400)) in
    let sends =
      send_frags-Sends id ((fseq + 1) % 256) buf (length buf % 1400) (length buf / 1400) 0 all in
    record {
      parts = sends.parts;
      fills = sends.fills ∙ omega (arith, all);
      covers = λ i lt. sends.covers i (omega arith) (omega (arith, all));
    }

-- What the server broadcasts of the packets that come from the device `d`.
unfoldable pub relay : Casters → ℕ → List Datagram → List Datagram
relay c d [] = []
relay c d (p ∷ ps) = cast_video c d p ++ relay c d ps

relay_all : (c : Casters) (d : ℕ) (ps : List Datagram) → c.bcast_dev ≡ some d → relay c d ps ≡ ps
unfolding relay cast_video
relay_all c d [] e = refl
relay_all c d (p ∷ ps) e =
    let same : (d == d) ≡ true = ==_refl d in rw (e, same, relay_all c d ps e) refl

-- A frame with some bytes that `send_video` cuts up, sent by the device that the server broadcasts,
-- is given to the event handler of a receiver once and byte by byte, in whatever order the packets
-- come, if each comes once and the receiver is not in the midst of a frame of the same number;
-- after that it waits for a new frame.
pub send_video-video_recved :
    (id fseq : ℕ) (buf : List ℕ) (c : Casters) (d : ℕ) (arrived : List Datagram) (v : Viewer)
    → c.bcast_dev ≡ some d
    → Permᴰ (relay c d (send_video id fseq buf).1) arrived
    → 0 < length buf
    → is_frame v.fseq (send_video id fseq buf).0 ≡ false
    → Complete v buf (video_recved_all v arrived)
send_video-video_recved id fseq buf c d arrived v caster order some_bytes other =
    let whole = send_video-IsWhole id fseq buf in
    let sent = relay_all c d (send_video id fseq buf).1 caster in
    video_recved_all-whole (send_video id fseq buf).0 buf arrived v
      (IsWhole-Permᴰ order (subst (IsWhole (send_video id fseq buf).0 buf) (sym sent) whole))
      some_bytes other
