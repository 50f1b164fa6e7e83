-- ===== src/Text/Tokens.antt =====
-- Words that are joined by delimiters come out of `strtok` as they are.
use mathlib.Core.List.{append_assoc, append-nil}
use gsconferencing.Base.{ℕ, ◌≡◌, refl, sym, ap, ◌∙◌, [], ◌∷◌, ◌++◌, Bool, true, ◌<◌, length, arith}
use gsconferencing.Text.{Bytes, flush, strtok_from, strtok}
use gsconferencing.Text.Numbers.{Avoids}

module _ (delim : ℕ → Bool) where
  -- A word without delimiters is added to the token.
  strtok_from-word :
      (token w s : Bytes)
      → Avoids delim w
      → strtok_from delim token (w ++ s) ≡ strtok_from delim (token ++ w) s
  unfolding strtok_from
  strtok_from-word token [] s clean =
      ap (λ (t : Bytes). strtok_from delim t s) (sym (append-nil token))
  strtok_from-word token (c ∷ cs) s (other, clean) = rw other (
      strtok_from-word (token ++ (c ∷ [])) cs s clean
      ∙ ap (λ (t : Bytes). strtok_from delim t s) (append_assoc token (c ∷ []) cs))

  -- A token: some bytes, and no delimiter among them.
  pub record IsWord (w : Bytes) : Type 0 where
    pub clean : Avoids delim w
    pub some_bytes : 0 < length w

  flush-word : (w : Bytes) → 0 < length w → flush w ≡ w ∷ []
  flush-word [] lt = absurd (omega arith)
  flush-word (c ∷ cs) lt = refl

  -- A word, a delimiter and the rest.
  pub strtok-word :
      (w : Bytes) (sep : ℕ) (s : Bytes)
      → IsWord w
      → delim sep ≡ true
      → strtok delim (w ++ (sep ∷ s)) ≡ w ∷ strtok delim s
  strtok-word w sep s word ends =
      strtok_from-word [] w (sep ∷ s) word.clean
      ∙ (unfold strtok_from in rw ends (rw (flush-word w word.some_bytes) refl))

  -- The last word.
  pub strtok-last : (w : Bytes) → IsWord w → strtok delim w ≡ w ∷ []
  strtok-last w word =
      ap (strtok delim) (sym (append-nil w))
      ∙ strtok_from-word [] w [] word.clean
      ∙ (unfold strtok_from in flush-word w word.some_bytes)

  -- Delimiters in front are skipped.
  pub strtok-skip :
      (sep : ℕ) (s : Bytes) → delim sep ≡ true → strtok delim (sep ∷ s) ≡ strtok delim s
  unfolding strtok_from
  strtok-skip sep s ends = rw ends refl
