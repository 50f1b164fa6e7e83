-- ===== src/Interp.antt =====
-- serv/interp.c and `apply_interp_mode` of serv/cmd_interp.c: an interpreter's tag replicates
-- another tag while nobody interprets.
use gsconferencing.Base.{ℕ, Option, none, some, List, [], ◌∷◌, ◌++◌, if◌then◌else◌, ℤ, pos, int_eq}

pub record Interp : Type 0 where
  pub mode : ℤ
  pub rep : Option ℕ  -- the tag replicated, by its id
  pub notices : List (ℕ × ℕ)  -- what `notify_interp_rep` broadcast: the tag, and `rep` or 0

abbrev pub rep_id : Option ℕ → ℕ
rep_id none = 0
rep_id (some t) = t

module _ (tag : ℕ) where
  unfoldable pub notify : Interp → Interp
  notify s = record s { notices = s.notices ++ ((tag, rep_id s.rep) ∷ []) }

  unfoldable pub set_rep_tag : Interp → Option ℕ → Interp
  set_rep_tag s rep = notify (record s { rep = rep })

  unfoldable pub del_rep : Interp → Interp
  del_rep s = notify (record s { rep = none })

  -- `main` is the group's tag 1 (`get_tag`), `sub` the device's `subscription[0]`. `none`: with no
  -- subscription the code goes on to read `subscription[1]`, behind the end of the array.
  unfoldable pub apply_interp_mode : Interp → Option ℕ → Option ℕ → Option Interp
  apply_interp_mode s main sub =
      if int_eq s.mode (pos 0)
      then some (del_rep s)
      else if int_eq s.mode (pos 1)
      then some (set_rep_tag s main)
      else if int_eq s.mode (pos 2)
      then elim sub [ none ↦ none | some t ↦ some (set_rep_tag s (some t)) ]
      else some s
