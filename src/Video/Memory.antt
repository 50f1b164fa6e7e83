-- ===== src/Video/Memory.antt =====
-- The memory of a frame: what `memcpy` writes is what is read.
use gsconferencing.Base.{
  ℕ, zero, suc, ◌+◌, ◌-◌, ◌≤◌, ◌<◌, ◌≡◌, ◌⊎◌, inl, inr, refl, sym, ap, ap₂, ◌∙◌, some, List, [],
  ◌∷◌, ◌==◌, arith, length, get_elem?, take, drop, update, true, false,
}
use gsconferencing.Video.{write_frame, read_frame}

-- A write leaves what is before and behind it.
pub write_frame_out :
    (frame : ℕ → ℕ) (off : ℕ) (bs : List ℕ) (i : ℕ)
    → (i < off) ⊎ (off + length bs ≤ i)
    → write_frame frame off bs i ≡ frame i
unfolding write_frame
write_frame_out frame off [] i out = refl
write_frame_out frame off (b ∷ bs) i (inl before) =
    let other : (off == i) ≡ false = ground arith in
    write_frame_out (update frame off b) (off + 1) bs i (inl (omega arith)) ∙ rw other refl
write_frame_out frame off (b ∷ bs) i (inr behind) =
    let other : (off == i) ≡ false = ground arith in
    write_frame_out (update frame off b) (off + 1) bs i (inr (omega arith)) ∙ rw other refl

pub write_frame_in :
    (frame : ℕ → ℕ) (off : ℕ) (bs : List ℕ) (j : ℕ)
    → j < length bs
    → get_elem? bs j ≡ some (write_frame frame off bs (off + j))
unfolding write_frame
write_frame_in frame off [] j lt = absurd (omega arith)
write_frame_in frame off (b ∷ bs) zero lt =
    let same : (off == off + 0) ≡ true = ground arith in
    ap some (
      sym (
        write_frame_out (update frame off b) (off + 1) bs (off + 0) (inl (omega arith))
        ∙ rw same refl))
write_frame_in frame off (b ∷ bs) (suc j) lt =
    let there : off + suc j ≡ off + 1 + j = omega arith in
    rw there (write_frame_in (update frame off b) (off + 1) bs j (omega arith))

-- Memory that agrees with a list is read as that list.
pub read_frame_lem :
    (frame : ℕ → ℕ) (off : ℕ) (bs : List ℕ)
    → ((j : ℕ) → j < length bs → get_elem? bs j ≡ some (frame (off + j)))
    → read_frame frame off (length bs) ≡ bs
unfolding read_frame
read_frame_lem frame off [] same = refl
read_frame_lem frame off (b ∷ bs) same = ap₂ ◌∷◌ (first (same 0 (omega arith))) (
    read_frame_lem frame (off + 1) bs
      (λ j lt. same (suc j) (omega arith) ∙ ap (λ (i : ℕ). some (frame i)) (omega arith)))
  where
    first : get_elem? (b ∷ bs) 0 ≡ some (frame (off + 0)) → frame off ≡ b
    first e = let there : off + 0 ≡ off = omega arith in let e' = rw there at e in cc

pub length-take : {A : Type 0} (n : ℕ) (l : List A) → n ≤ length l → length (take n l) ≡ n
length-take zero l le = refl
length-take (suc n) [] le = absurd (omega arith)
length-take (suc n) (x ∷ l) le = ap suc (length-take n l (omega arith))

pub length-drop : {A : Type 0} (n : ℕ) (l : List A) → length (drop n l) ≡ length l - n
length-drop zero l = omega arith
length-drop (suc n) [] = omega arith
length-drop (suc n) (x ∷ l) = omega (arith, length-drop n l)

pub get_elem?-take :
    {A : Type 0} (n : ℕ) (l : List A) (j : ℕ) → j < n → get_elem? (take n l) j ≡ get_elem? l j
get_elem?-take zero l j lt = absurd (omega arith)
get_elem?-take (suc n) [] j lt = refl
get_elem?-take (suc n) (x ∷ l) zero lt = refl
get_elem?-take (suc n) (x ∷ l) (suc j) lt = get_elem?-take n l j (omega arith)

pub get_elem?-drop :
    {A : Type 0} (n : ℕ) (l : List A) (j : ℕ) → get_elem? (drop n l) j ≡ get_elem? l (n + j)
get_elem?-drop zero l j = ap (get_elem? l) (omega arith)
get_elem?-drop (suc n) [] j = refl
get_elem?-drop (suc n) (x ∷ l) j =
    let there : suc n + j ≡ suc (n + j) = omega arith in rw there (get_elem?-drop n l j)
