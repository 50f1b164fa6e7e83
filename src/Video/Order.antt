-- ===== src/Video/Order.antt =====
-- The order of the fragments of a frame does not matter.
use mathlib.Core.List.{Permᴰ}
use mathlib.Core.Path.{subst}
use gsconferencing.Base.{
  ℕ, ◌+◌, ◌≤◌, ◌<◌, ◌≡◌, inl, inr, refl, sym, ap, ap₂, ◌∙◌, List, arith, length,
}
use gsconferencing.Video.{Datagram}
use gsconferencing.Video.Reassembly.{IsPart, AreParts, IsWhole, Covers, total}

AreParts-Permᴰ :
    (tag : ℕ) (buf : List ℕ) {ds es : List Datagram}
    → Permᴰ ds es
    → AreParts tag buf ds
    → AreParts tag buf es
unfolding AreParts
AreParts-Permᴰ tag buf Permᴰ.nil all = all
AreParts-Permᴰ tag buf (Permᴰ.cons e p) (part, all) =
    (subst (IsPart tag buf) e part, AreParts-Permᴰ tag buf p all)
AreParts-Permᴰ tag buf (Permᴰ.swap e f) (part, (part', all)) =
    (subst (IsPart tag buf) f part', (subst (IsPart tag buf) e part, all))
AreParts-Permᴰ tag buf (Permᴰ.trans p q) all =
    AreParts-Permᴰ tag buf q (AreParts-Permᴰ tag buf p all)

total-Permᴰ : {ds es : List Datagram} → Permᴰ ds es → total ds ≡ total es
unfolding total
total-Permᴰ Permᴰ.nil = refl
total-Permᴰ (Permᴰ.cons e p) = ap₂ (λ (d : Datagram) (n : ℕ). length d.0.body + n) e (total-Permᴰ p)
total-Permᴰ (Permᴰ.swap e f) =
    omega
      (arith, ap (λ (d : Datagram). length d.0.body) e, ap (λ (d : Datagram). length d.0.body) f)
total-Permᴰ (Permᴰ.trans p q) = total-Permᴰ p ∙ total-Permᴰ q

Covers-Permᴰ : (i : ℕ) {ds es : List Datagram} → Permᴰ ds es → Covers i ds → Covers i es
unfolding Covers
Covers-Permᴰ i Permᴰ.nil c = c
Covers-Permᴰ i (Permᴰ.cons e p) (inl here) =
    inl (subst (λ (d : Datagram). (d.0.off ≤ i) × (i < d.0.off + length d.0.body)) e here)
Covers-Permᴰ i (Permᴰ.cons e p) (inr later) = inr (Covers-Permᴰ i p later)
Covers-Permᴰ i (Permᴰ.swap e f) (inl here) =
    inr (inl (subst (λ (d : Datagram). (d.0.off ≤ i) × (i < d.0.off + length d.0.body)) e here))
Covers-Permᴰ i (Permᴰ.swap e f) (inr (inl here)) =
    inl (subst (λ (d : Datagram). (d.0.off ≤ i) × (i < d.0.off + length d.0.body)) f here)
Covers-Permᴰ i (Permᴰ.swap e f) (inr (inr later)) = inr (inr later)
Covers-Permᴰ i (Permᴰ.trans p q) c = Covers-Permᴰ i q (Covers-Permᴰ i p c)

pub IsWhole-Permᴰ :
    {tag : ℕ} {buf : List ℕ} {ds es : List Datagram}
    → Permᴰ ds es
    → IsWhole tag buf ds
    → IsWhole tag buf es
IsWhole-Permᴰ {tag} {buf} p whole = record {
  parts = AreParts-Permᴰ tag buf p whole.parts;
  fills = sym (total-Permᴰ p) ∙ whole.fills;
  covers = λ i lt. Covers-Permᴰ i p (whole.covers i lt);
}
