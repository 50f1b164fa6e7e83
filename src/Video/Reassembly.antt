-- ===== src/Video/Reassembly.antt =====
-- The receiver puts the fragments of one frame together, in whatever order they come.
use mathlib.Core.Path.{subst}
use native.Mathlib.Decide.{dec_lt, dec_le}
use gsconferencing.Base.{
  ℕ, ◌+◌, ◌-◌, ◌≤◌, ◌<◌, ◌≡◌, ◌⊎◌, inl, inr, refl, sym, ap, ap₂, ◌∙◌, none, some, List, [], ◌∷◌,
  ◌++◌, true, false, ◌==◌, ==_refl, if-cases, if-true, if-false, arith, length, get_elem?,
}
use gsconferencing.Video.{
  Datagram, Viewer, pack_head_len, write_frame, read_frame, start_frame, add_fragment, finish_frame,
  video_recved, video_recved_all, is_frame,
}
use gsconferencing.Video.Memory.{write_frame_out, write_frame_in, read_frame_lem}

-- A datagram that is a part of the frame `buf` with the number `tag`.
pub record IsPart (tag : ℕ) (buf : List ℕ) (d : Datagram) : Type 0 where
  pub whole : pack_head_len + d.0.datalen ≡ d.1
  pub numbered : d.0.tag ≡ tag
  pub sized : d.0.seq ≡ length buf
  pub counted : d.0.datalen ≡ 4 + length d.0.body
  pub some_bytes : 0 < length d.0.body
  pub inside : d.0.off + length d.0.body ≤ length buf
  pub bytes : (j : ℕ) → j < length d.0.body → get_elem? d.0.body j ≡ get_elem? buf (d.0.off + j)

unfoldable pub AreParts : ℕ → List ℕ → List Datagram → Type 0
AreParts tag buf [] = Unit
AreParts tag buf (d ∷ ds) = IsPart tag buf d × AreParts tag buf ds

-- The bytes that fragments carry.
unfoldable pub total : List Datagram → ℕ
total [] = 0
total (d ∷ ds) = length d.0.body + total ds

-- One of the fragments carries byte `i`.
unfoldable pub Covers : ℕ → List Datagram → Type 0
Covers i [] = ⊥
Covers i (d ∷ ds) = ((d.0.off ≤ i) × (i < d.0.off + length d.0.body)) ⊎ Covers i ds

-- The fragments make up the frame.
pub record IsWhole (tag : ℕ) (buf : List ℕ) (ds : List Datagram) : Type 0 where
  pub parts : AreParts tag buf ds
  pub fills : total ds ≡ length buf
  pub covers : (i : ℕ) → i < length buf → Covers i ds

-- The frame is begun, and what `ds` does not carry is there.
record Awaits (tag : ℕ) (buf : List ℕ) (ds : List Datagram) (v : Viewer) : Type 0 where
  begun : is_frame v.fseq tag ≡ true
  left : v.flen + total ds ≡ length buf
  there : (i : ℕ) → i < length buf → (get_elem? buf i ≡ some (v.frame i)) ⊎ Covers i ds

-- The frame is given to the event handler, and the receiver waits for another one.
pub record Complete (v : Viewer) (buf : List ℕ) (v' : Viewer) : Type 0 where
  pub seen : v'.events ≡ v.events ++ (buf ∷ [])
  pub idle : v'.fseq ≡ none
  pub nothing : v'.flen ≡ 0

-- A byte after one fragment has been written.
there_after :
    (tag : ℕ) (buf : List ℕ) (d : Datagram) (ds : List Datagram) (frame : ℕ → ℕ) (i : ℕ)
    → IsPart tag buf d
    → (get_elem? buf i ≡ some (frame i)) ⊎ Covers i (d ∷ ds)
    → (get_elem? buf i ≡ some (write_frame frame d.0.off d.0.body i)) ⊎ Covers i ds
unfolding Covers
there_after tag buf d ds frame i part state = elim (dec_le d.0.off i) [
  | no before ↦ elim state [
    | inl here ↦
        inl (here ∙ ap some (sym (write_frame_out frame d.0.off d.0.body i (inl (omega arith)))))
    | inr (inl (le, lt)) ↦ absurd (omega arith)
    | inr (inr later) ↦ inr later
  ]
  | yes le ↦ elim (dec_lt i (d.0.off + length d.0.body)) [
    | no behind ↦ elim state [
      | inl here ↦
          inl (here ∙ ap some (sym (write_frame_out frame d.0.off d.0.body i (inr (omega arith)))))
      | inr (inl (le', lt)) ↦ absurd (omega arith)
      | inr (inr later) ↦ inr later
    ]
    | yes lt ↦
        let at : d.0.off + (i - d.0.off) ≡ i = omega arith in
        let byte : get_elem? d.0.body (i - d.0.off) ≡ get_elem? buf (d.0.off + (i - d.0.off)) =
          part.bytes (i - d.0.off) (omega arith) in
        let written = write_frame_in frame d.0.off d.0.body (i - d.0.off) (omega arith) in
        inl (
          subst (λ (k : ℕ). get_elem? buf k ≡ some (write_frame frame d.0.off d.0.body k)) at
            (sym byte ∙ written))
  ]
]

-- One fragment of a frame that is begun, or not yet.
pub one_part :
    (tag : ℕ) (buf : List ℕ) (d : Datagram) (v : Viewer)
    → IsPart tag buf d
    → video_recved v d ≡ finish_frame (add_fragment (start_frame v tag) d.0) (length buf)
unfolding video_recved
one_part tag buf d v part =
    let ok : (pack_head_len + d.0.datalen == d.1) ≡ true = ground (arith, part.whole) in
    if-true v ok
    ∙ ap₂ (λ (t n : ℕ). finish_frame (add_fragment (start_frame v t) d.0) n) part.numbered
        part.sized

Awaits-step :
    (tag : ℕ) (buf : List ℕ) (d e : Datagram) (ds : List Datagram) (v : Viewer)
    → IsPart tag buf d
    → IsPart tag buf e
    → Awaits tag buf (d ∷ e ∷ ds) (start_frame v tag)
    → Awaits tag buf (e ∷ ds) (video_recved v d)
unfolding total finish_frame add_fragment
Awaits-step tag buf d e ds v part next a =
    let v1 : Viewer = add_fragment (start_frame v tag) d.0 in
    let grown : v1.flen ≡ (start_frame v tag).flen + length d.0.body =
      unfold add_fragment in omega (arith, part.counted) in
    let more : (v1.flen == length buf) ≡ false = ground (arith, grown, a.left, next.some_bytes) in
    subst (Awaits tag buf (e ∷ ds)) (sym (one_part tag buf d v part ∙ if-false _ more)) (record {
      begun = a.begun;
      left = omega (arith, grown, a.left);
      there =
          λ i lt. there_after tag buf d (e ∷ ds) (start_frame v tag).frame i part (a.there i lt);
    })

events-start_frame : (v : Viewer) (tag : ℕ) → (start_frame v tag).events ≡ v.events
unfolding start_frame
events-start_frame v tag =
    if-cases (λ (w : Viewer). w.events ≡ v.events) (is_frame v.fseq tag) (λ same. refl)
      (λ other. refl)

start_begun : (v : Viewer) (tag : ℕ) → is_frame v.fseq tag ≡ true → start_frame v tag ≡ v
unfolding start_frame
start_begun v tag begun = if-true _ begun

events-step :
    (tag : ℕ) (buf : List ℕ) (d e : Datagram) (ds : List Datagram) (v : Viewer)
    → IsPart tag buf d
    → IsPart tag buf e
    → Awaits tag buf (d ∷ e ∷ ds) (start_frame v tag)
    → (video_recved v d).events ≡ v.events
unfolding total finish_frame add_fragment
events-step tag buf d e ds v part next a =
    let v1 : Viewer = add_fragment (start_frame v tag) d.0 in
    let grown : v1.flen ≡ (start_frame v tag).flen + length d.0.body =
      unfold add_fragment in omega (arith, part.counted) in
    let more : (v1.flen == length buf) ≡ false = ground (arith, grown, a.left, next.some_bytes) in
    ap (λ (w : Viewer). w.events) (one_part tag buf d v part ∙ if-false _ more)
    ∙ (unfold add_fragment in events-start_frame v tag)

-- The last fragment.
last_part :
    (tag : ℕ) (buf : List ℕ) (d : Datagram) (v : Viewer)
    → IsPart tag buf d
    → Awaits tag buf (d ∷ []) (start_frame v tag)
    → Complete v buf (video_recved v d)
unfolding total finish_frame add_fragment Covers
last_part tag buf d v part a =
    let v0 : Viewer = start_frame v tag in
    let v1 : Viewer = add_fragment v0 d.0 in
    let grown : v1.flen ≡ length buf = unfold add_fragment in omega (arith, part.counted, a.left) in
    let full : (v1.flen == length buf) ≡ true = ground (arith, grown) in
    let there : (i : ℕ) → i < length buf → get_elem? buf i ≡ some (v1.frame i) = λ i lt.
      elim (there_after tag buf d [] v0.frame i part (a.there i lt)) [
        | inl here ↦ unfold add_fragment in here
        | inr none_left ↦ elim none_left [ ]
      ] in
    let read : read_frame v1.frame 0 v1.flen ≡ buf =
      ap (read_frame v1.frame 0) grown
      ∙ read_frame_lem v1.frame 0 buf
          (λ j lt. there j lt ∙ ap (λ (i : ℕ). some (v1.frame i)) (omega arith)) in
    subst (Complete v buf) (sym (one_part tag buf d v part ∙ if-true _ full)) (record {
      seen =
          ap₂ (λ (l : List (List ℕ)) (b : List ℕ). l ++ (b ∷ []))
            (unfold add_fragment in events-start_frame v tag) read;
      idle = refl;
      nothing = refl;
    })

Complete-loop :
    (tag : ℕ) (buf : List ℕ) (d : Datagram) (ds : List Datagram) (v : Viewer)
    → AreParts tag buf (d ∷ ds)
    → Awaits tag buf (d ∷ ds) (start_frame v tag)
    → Complete v buf (video_recved_all v (d ∷ ds))
unfolding video_recved_all AreParts
Complete-loop tag buf d [] v (part, none_left) a = last_part tag buf d v part a
Complete-loop tag buf d (e ∷ ds) v (part, (next, parts)) a =
    let one = Awaits-step tag buf d e ds v part next a in
    let v' : Viewer = video_recved v d in
    let later =
      Complete-loop tag buf e ds v' (next, parts)
        (subst (Awaits tag buf (e ∷ ds)) (sym (start_begun v' tag one.begun)) one) in
    record {
      seen =
          later.seen
          ∙ ap (λ (l : List (List ℕ)). l ++ (buf ∷ [])) (events-step tag buf d e ds v part next a);
      idle = later.idle;
      nothing = later.nothing;
    }

fresh-Awaits :
    (tag : ℕ) (buf : List ℕ) (ds : List Datagram) (v : Viewer)
    → is_frame v.fseq tag ≡ false
    → IsWhole tag buf ds
    → Awaits tag buf ds (start_frame v tag)
unfolding start_frame
fresh-Awaits tag buf ds v other whole = rw other (record {
  begun = ==_refl tag;
  left = omega (arith, whole.fills);
  there = λ i lt. inr (whole.covers i lt);
})

-- A receiver that is not in the midst of a frame of that number gives the frame to the event handler
-- after the fragments have come, and once only.
pub video_recved_all-whole :
    (tag : ℕ) (buf : List ℕ) (ds : List Datagram) (v : Viewer)
    → IsWhole tag buf ds
    → 0 < length buf
    → is_frame v.fseq tag ≡ false
    → Complete v buf (video_recved_all v ds)
video_recved_all-whole tag buf [] v whole pos other =
    absurd (let e : 0 ≡ length buf = unfold total in whole.fills in omega arith)
video_recved_all-whole tag buf (d ∷ ds) v whole pos other =
    Complete-loop tag buf d ds v whole.parts (fresh-Awaits tag buf (d ∷ ds) v other whole)
