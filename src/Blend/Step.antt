-- ===== src/Blend/Step.antt =====
-- One turn of the loop that takes one packet from each queue.
use gsconferencing.Base.{
  ℕ, zero, suc, ◌+◌, ◌<◌, ◌≡◌, ◌≢◌, ◌∙◌, sym, ap, refl, Option, none, some, List, [], ◌∷◌, ◌++◌,
  Bool, true, false, not, arith, ◌==◌, if◌then◌else◌, ltb, if-true, Bool-cases, inl, inr, ==_refl,
}
use mathlib.Core.List.{append-nil}
use gsconferencing.Cfifo
use gsconferencing.Device.{Channel, put_dev}
use gsconferencing.Tag.{out_dev_packet, dev_out_packet, pack_free}
use gsconferencing.Blend.{
  PackData, Blend, Gathered, touch_dev, with_chan, fill_zero, add_mix_pack, take_pack, gather_dev,
}

-- The packet at the front of a device's queue, if it has one.
unfoldable pub front : Channel → Option ℕ → List (Option ℕ)
front c none = []
front c (some d) = if Cfifo.empty (c.devs d).fifo then [] else Cfifo.get_out (c.devs d).fifo ∷ []

-- The fronts of the queues of `n` entries from `i` on.
unfoldable pub fronts : Channel → ℕ → ℕ → List (Option ℕ)
fronts c zero i = []
fronts c (suc n) i = front c (c.tag.mix_devs i) ++ fronts c n (i + 1)

abbrev pub fits : (ℕ → PackData) → ℕ → Bool
fits packs p = not (ltb 1700 (packs p).datalen)

-- The packets that are mixed, and those too long for it.
unfoldable pub kept : (ℕ → PackData) → List ℕ → List ℕ
kept packs [] = []
kept packs (p ∷ ps) = if fits packs p then p ∷ kept packs ps else kept packs ps

unfoldable pub spilt : (ℕ → PackData) → List ℕ → List ℕ
spilt packs [] = []
spilt packs (p ∷ ps) = if fits packs p then spilt packs ps else p ∷ spilt packs ps

-- No device has two entries.
unfoldable pub OneEntry : (ℕ → Option ℕ) → Type 0
OneEntry devs = (i j d : ℕ) → i < 8 → j < 8 → devs i ≡ some d → devs j ≡ some d → i ≡ j

-- What the loop does with one packet `p` of the device `d`.
pub record Taken (g : Gathered) (d p : ℕ) (g' : Gathered) : Type 0 where
  pub tag : g'.blend.chan.tag ≡ g.blend.chan.tag
  pub others : (e : ℕ) → e ≢ d → g'.blend.chan.devs e ≡ g.blend.chan.devs e
  pub sizes : (q : ℕ) → (g'.blend.packs q).datalen ≡ (g.blend.packs q).datalen
  pub mixed : g'.pp ≡ g.pp ++ kept g.blend.packs (p ∷ [])
  pub freed : g'.blend.chan.freed ≡ g.blend.chan.freed ++ spilt g.blend.packs (p ∷ [])

fill_zero_chan : (b : Blend) (p : ℕ) (z : Bool) → (if z then fill_zero b p else b).chan ≡ b.chan
unfolding fill_zero
fill_zero_chan b p true = refl
fill_zero_chan b p false = refl

fill_zero_size :
    (b : Blend) (p : ℕ) (z : Bool) (q : ℕ)
    → ((if z then fill_zero b p else b).packs q).datalen ≡ (b.packs q).datalen
unfolding fill_zero
fill_zero_size b p true q = elim (Bool-cases (p == q)) [
  | inl here ↦ rw here (ap (λ (r : ℕ). (b.packs r).datalen) (equal here))
  | inr there ↦ rw there refl
]
  where
    equal : (p == q) ≡ true → p ≡ q
    equal e = ground arith
fill_zero_size b p false q = refl

-- A packet is added to a state in which the channel has changed at `d` only.
add_mix_pack-Taken :
    (g : Gathered) (d p : ℕ) (c : Channel)
    → c.tag ≡ g.blend.chan.tag
    → ((e : ℕ) → e ≢ d → c.devs e ≡ g.blend.chan.devs e)
    → c.freed ≡ g.blend.chan.freed
    → Taken g d p (add_mix_pack (with_chan g c) p)
unfolding add_mix_pack pack_free kept spilt
add_mix_pack-Taken g d p c t o f = elim (Bool-cases (ltb 1700 (g.blend.packs p).datalen)) [
  | inl long ↦ rw long (record {
    tag = t;
    others = o;
    sizes = λ q. refl;
    mixed = rw long (sym (append-nil g.pp));
    freed = rw long (ap (λ (l : List ℕ). l ++ (p ∷ [])) f);
  })
  | inr short ↦ rw short (record {
    tag = ap (λ (x : Channel). x.tag) same ∙ t;
    others = λ e ne. ap (λ (x : Channel). x.devs e) same ∙ o e ne;
    sizes = fill_zero_size b p (g.blend.packs p).is_zero;
    mixed = rw short refl;
    freed = ap (λ (x : Channel). x.freed) same ∙ f ∙ rw short (sym (append-nil g.blend.chan.freed));
  })
]
  where
    b : Blend
    b = record (g.blend) { chan = c }

    same : (if (g.blend.packs p).is_zero then fill_zero b p else b).chan ≡ c
    same = fill_zero_chan b p (g.blend.packs p).is_zero

-- The queue of a device is not empty: its front is taken.
pub gather_dev-Taken :
    (g : Gathered) (d p : ℕ)
    → Cfifo.empty (g.blend.chan.devs d).fifo ≡ false
    → Cfifo.get_out (g.blend.chan.devs d).fifo ≡ some p
    → (g' : Gathered) × (gather_dev g d ≡ some g') × Taken g d p g'
unfolding gather_dev out_dev_packet dev_out_packet put_dev take_pack
gather_dev-Taken g d p busy at =
    let c : Channel = (out_dev_packet (touch_dev g.blend.chan d) d).1 in
    (
      add_mix_pack (with_chan g c) p,
      rw (busy, ==_refl d, at, gather_dev) refl,
      add_mix_pack-Taken g d p c refl (λ e ne. ground arith) refl,
    )

pub gather_dev_idle :
    (g : Gathered) (d : ℕ) → Cfifo.empty (g.blend.chan.devs d).fifo ≡ true → gather_dev g d ≡ some g
unfolding gather_dev
gather_dev_idle g d idle = if-true _ idle
