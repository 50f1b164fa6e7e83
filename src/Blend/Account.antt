-- ===== src/Blend/Account.antt =====
-- Where the packets go that `tag_mix_audio` takes.
use gsconferencing.Base.{
  ℕ, ◌+◌, ◌*◌, ◌≡◌, ◌⊎◌, ◌∙◌, sym, ap, refl, Option, none, some, List, [], ◌∷◌, ◌++◌, map, Bool,
  true, false, arith, ◌^◌, ltb, Bool-cases, inl, inr,
}
use mathlib.Core.List.{append_assoc, append-nil}
use gsconferencing.Device.{Channel, max_mix}
use gsconferencing.Tag.{pack_free}
use gsconferencing.Tag.Outstanding.{Mixes, two_pow_injective}
use gsconferencing.Pcm.{pcm_silent}
use gsconferencing.Blend.{Blend, Gathered, free_all, drop_silence, finish, blend_packs}
use gsconferencing.Blend.Step.{fronts, kept, spilt, OneEntry}
use gsconferencing.Blend.Gather.{gather_lem}

freed-free_all : (c : Channel) (ps : List ℕ) → (free_all c ps).freed ≡ c.freed ++ ps
unfolding free_all pack_free
freed-free_all c [] = sym (append-nil c.freed)
freed-free_all c (p ∷ ps) =
    freed-free_all (pack_free c (some p)) ps ∙ append_assoc c.freed (p ∷ []) ps

-- The result, and the packets freed after those of `before`, for the packets that were mixed.
unfoldable pub Outcome : Bool → List ℕ → List ℕ → Option ℕ → List ℕ → Type 0
Outcome opt [] before result after = (result ≡ none) × (after ≡ before)
Outcome opt (p ∷ ps) before result after =
    ((result ≡ some p) × (after ≡ before ++ ps))
    ⊎ ((opt ≡ true) × (result ≡ none) × (after ≡ (before ++ ps) ++ (p ∷ [])))

drop_silence_lem :
    (opt : Bool) (b : Blend) (p count mixlen : ℕ) (ps before : List ℕ)
    → b.chan.freed ≡ before ++ ps
    → let (result, b') = drop_silence opt b p count mixlen in
      Outcome opt (p ∷ ps) before result b'.chan.freed
unfolding drop_silence Outcome pack_free
drop_silence_lem false b p count mixlen ps before e = inl (refl, e)
drop_silence_lem true b p count mixlen ps before e =
    elim (Bool-cases (pcm_silent b.mem (b.packs p).pcm mixlen (51200 * count))) [
      | inl quiet ↦ elim (Bool-cases (ltb 50 (b.chan.tag.mix_silence + 1))) [
        | inl long ↦ rw (quiet, long) (inr (refl, refl, ap (λ (l : List ℕ). l ++ (p ∷ [])) e))
        | inr short ↦ rw (quiet, short) (inl (refl, e))
      ]
      | inr loud ↦ rw loud (inl (refl, e))
    ]

finish_lem :
    (opt : Bool) (g : Gathered) (ps : List ℕ)
    → let (result, b') = finish opt g ps in Outcome opt ps g.blend.chan.freed result b'.chan.freed
unfolding finish Outcome
finish_lem opt g [] = (refl, refl)
finish_lem opt g (p ∷ []) =
    drop_silence_lem opt g.blend p _ _ [] g.blend.chan.freed (sym (append-nil g.blend.chan.freed))
finish_lem opt g (p ∷ q ∷ ps) =
    drop_silence_lem opt _ p _ _ (q ∷ ps) g.blend.chan.freed (freed-free_all g.blend.chan (q ∷ ps))

Mixes-OneEntry : {c : Channel} → Mixes c → OneEntry c.tag.mix_devs
unfolding OneEntry
Mixes-OneEntry v i j d lti ltj ei ej =
    two_pow_injective i j (sym (v.marked i d lti ei) ∙ v.marked j d ltj ej)

-- Let the packets at the fronts of the queues that are not empty be `ps`, in the order of the
-- entries, and let the entries of the mix be consistent (`Mixes`). Then `tag_mix_audio`, once it has waited, reads no slot
-- without a packet; it frees first the packets that are longer than 1700 bytes and then all others
-- but the first, which it returns, unless it drops that as silence: then it is freed last, and
-- nothing is returned. With no packet that is short enough it returns nothing. So each packet taken
-- is freed once or returned, never both.
pub blend_packs_lem :
    (opt : Bool) (b : Blend) (ps : List ℕ)
    → Mixes b.chan
    → fronts b.chan max_mix 0 ≡ map some ps
    → (result : Option ℕ) × (b' : Blend) × (blend_packs opt b ≡ some (result, b'))
      × Outcome opt (kept b.packs ps) (b.chan.freed ++ spilt b.packs ps) result b'.chan.freed
unfolding blend_packs
blend_packs_lem opt b ps v e =
    let (g, got, r) =
      gather_lem 8 0 (omega arith) (record { blend = b; pp = []; mixlen = 2 ^ 18 }) ps
        (Mixes-OneEntry v) e in
    (
      (finish opt g g.pp).0,
      (finish opt g g.pp).1,
      rw (got, blend_packs) refl,
      rw (← r.mixed, ← r.freed) (finish_lem opt g g.pp),
    )
