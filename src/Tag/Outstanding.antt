-- ===== src/Tag/Outstanding.antt =====
-- The invariant of `mix_devs`, `mix_count`, `mix_ref` and the devices' `mixbit`, and what
-- `tag_add_outstanding` and `tag_rm_outstanding` do to it.
use native.Mathlib.Nat.{one-le-pow, pow-suc}
use gsconferencing.Base.{
  ℕ, zero, suc, ◌-◌, ◌^◌, ◌<◌, ◌≡◌, ◌≢◌, refl, none, some, true, false, arith, ◌==◌, is_some,
  Bool-cases, Option-cases, inl, inr, update,
}
use gsconferencing.Device.{Channel, max_mix, put_dev, mix_open_dev, mix_close_dev}
use gsconferencing.Device.{netmx_open_dev, netmx_close_dev}
use gsconferencing.Tag.{
  find_free, find_dev, find_other, take_entry, clear_entry, rm_entry, add_outstanding,
  rm_outstanding,
}
use gsconferencing.Tag.Search.{
  taken, taken-update-some, taken-update-none, taken_pos, taken_none, find_free-some, find_dev-some,
  find_dev-none, find_other-some, find_other-none,
}

-- The outstanding devices are listed once each, counted, and marked by the bit of their entry;
-- a device with no entry has no bit; and the reference is an entry that is taken, if any is.
pub record Mixes (c : Channel) : Type 0 where
  pub counted : c.tag.mix_count ≡ taken c.tag.mix_devs max_mix
  pub marked : (i d : ℕ) → i < max_mix → c.tag.mix_devs i ≡ some d → (c.devs d).mixbit ≡ 2 ^ i
  pub listed :
      (d : ℕ) → (c.devs d).mixbit ≢ 0 → (i : ℕ) × (i < max_mix) × (c.tag.mix_devs i ≡ some d)
  pub ref_in : c.tag.mix_ref < max_mix
  pub ref_taken : 0 < c.tag.mix_count → is_some (c.tag.mix_devs c.tag.mix_ref) ≡ true

-- The mixer's `open_dev` and `close_dev` leave the tag and every `mixbit` alone.
module _ (c : Channel) (d : ℕ) where
  pub tag-mix_open_dev : (mix_open_dev c d).tag ≡ c.tag
  unfolding mix_open_dev netmx_open_dev
  tag-mix_open_dev = ground arith

  pub mixbit-mix_open_dev : (e : ℕ) → ((mix_open_dev c d).devs e).mixbit ≡ (c.devs e).mixbit
  unfolding mix_open_dev netmx_open_dev
  mixbit-mix_open_dev e = ground arith

  pub tag-mix_close_dev : (mix_close_dev c d).tag ≡ c.tag
  unfolding mix_close_dev netmx_close_dev
  tag-mix_close_dev = ground arith

  pub mixbit-mix_close_dev : (e : ℕ) → ((mix_close_dev c d).devs e).mixbit ≡ (c.devs e).mixbit
  unfolding mix_close_dev netmx_close_dev
  mixbit-mix_close_dev e = ground arith

-- The invariant reads the tag and the marks only.
pub transfer-Mixes :
    {c c' : Channel}
    → c'.tag ≡ c.tag
    → ((e : ℕ) → (c'.devs e).mixbit ≡ (c.devs e).mixbit)
    → Mixes c
    → Mixes c'
transfer-Mixes {c} {c'} t m v = record {
  counted = rw t v.counted;
  marked = λ i d lt e. rw m (v.marked i d lt (rw t at e));
  listed = λ d ne. rw t (v.listed d (rw m at ne));
  ref_in = rw t v.ref_in;
  ref_taken = λ h. rw t (v.ref_taken (rw t at h));
}

pub two_pow_pos : (i : ℕ) → 0 < 2 ^ i
two_pow_pos i = one-le-pow i 2 (omega arith)

pub two_pow_injective : (i j : ℕ) → 2 ^ i ≡ 2 ^ j → i ≡ j
two_pow_injective zero zero e = refl
two_pow_injective zero (suc j) e = omega (arith, pow-suc 2 j, two_pow_pos j)
two_pow_injective (suc i) zero e = omega (arith, pow-suc 2 i, two_pow_pos i)
two_pow_injective (suc i) (suc j) e = omega (arith, pow-suc 2 i, pow-suc 2 j, two_pow_injective i j)

take_entry-Mixes :
    (c : Channel) (d i : ℕ)
    → i < max_mix
    → c.tag.mix_devs i ≡ none
    → (c.devs d).mixbit ≡ 0
    → Mixes c
    → Mixes (take_entry c d i)
unfolding take_entry
take_entry-Mixes c d i lt free idle v = record {
  counted = ground (arith, v.counted, taken-update-some c.tag.mix_devs max_mix i d);
  marked = λ j e hj at. ground (arith, v.marked j e hj, two_pow_pos j);
  listed = λ e ne. elim (Bool-cases (d == e)) [
    | inl same ↦ (i, lt, ground arith)
    | inr other ↦
        let (j, hj, at) = v.listed e (λ none_set. ne (ground arith)) in (j, hj, ground arith)
  ];
  ref_in = ground (arith, v.ref_in);
  ref_taken = λ h. ground arith;
}

-- In a tag where `mix_devs`, `mix_count`, `mix_ref` and the devices' `mixbit` agree, as `Mixes`
-- says, they agree after `tag_add_outstanding` of any device.
pub add_outstanding-Mixes : {c : Channel} (d : ℕ) → Mixes c → Mixes (add_outstanding c d)
unfolding add_outstanding
add_outstanding-Mixes {c} d v = elim (Bool-cases ((c.devs d).mixbit == 0)) [
  | inr busy ↦ rw busy v
  | inl idle ↦ rw idle (elim (Option-cases (find_free c.tag.mix_devs max_mix 0)) [
    | inl all_taken ↦ rw all_taken v
    | inr (i, found) ↦ rw found (
        let (lo, hi, free) = find_free-some c.tag.mix_devs max_mix 0 i found in
        transfer-Mixes (tag-mix_open_dev (take_entry c d i) d)
          (mixbit-mix_open_dev (take_entry c d i) d)
          (take_entry-Mixes c d i (omega arith) free (ground arith) v))
  ])
]

-- Off its entry and with its bit cleared, a device is out of the mix.
abbrev pub unmark : ℕ → Channel → Channel
unfolding put_dev
unmark d c = put_dev c d (record (c.devs d) { mixbit = 0 })

module _ (c : Channel) (d : ℕ) where
  clear_entry-Mixes :
      (i : ℕ)
      → i < max_mix
      → c.tag.mix_devs i ≡ some d
      → Mixes c
      → Mixes (unmark d (clear_entry c i))
  unfolding clear_entry put_dev
  clear_entry-Mixes i lt at v = record {
    counted = ground (
      arith,
      v.counted,
      taken-update-none c.tag.mix_devs max_mix i d,
      taken_pos c.tag.mix_devs max_mix i d,
    );
    marked = λ j e hj here. ground (arith, v.marked j e hj, v.marked i d lt, two_pow_injective i j);
    listed = λ e ne.
        let (j, hj, there) = v.listed e (λ zero_set. ne (ground arith)) in (j, hj, ground arith);
    ref_in = elim (Option-cases (find_other c.tag.mix_devs i max_mix 0)) [
      | inl alone ↦ ground (arith, alone, v.ref_in)
      | inr (j, found) ↦
          ground (arith, found, v.ref_in, find_other-some c.tag.mix_devs i max_mix 0 j)
    ];
    ref_taken = λ h. elim (Option-cases (find_other c.tag.mix_devs i max_mix 0)) [
      | inl alone ↦ absurd (no_other alone (omega (arith, h)))
      | inr (j, found) ↦
          ground (arith, found, v.ref_taken, find_other-some c.tag.mix_devs i max_mix 0 j)
    ];
  }
    where
      no_other : find_other c.tag.mix_devs i max_mix 0 ≡ none → ¬ (0 < c.tag.mix_count - 1)
      no_other alone more = omega (
        arith,
        v.counted,
        taken-update-none c.tag.mix_devs max_mix i d lt at,
        taken_none (update c.tag.mix_devs i none) max_mix others,
      )
        where
          others : (j : ℕ) → j < max_mix → is_some (update c.tag.mix_devs i none j) ≡ false
          others j hj = ground (arith, find_other-none c.tag.mix_devs i max_mix 0 j)

  unmark-Mixes : ((i : ℕ) → i < max_mix → c.tag.mix_devs i ≢ some d) → Mixes c → Mixes (unmark d c)
  unfolding put_dev
  unmark-Mixes out v = record {
    counted = v.counted;
    marked = λ j e hj here. ground (arith, out j hj, v.marked j e hj);
    listed = λ e ne.
        let (j, hj, there) = v.listed e (λ zero_set. ne (ground arith)) in (j, hj, ground arith);
    ref_in = v.ref_in;
    ref_taken = v.ref_taken;
  }

rm_entry-Mixes : {c : Channel} (d : ℕ) → Mixes c → Mixes (unmark d (rm_entry c d))
unfolding rm_entry
rm_entry-Mixes {c} d v = elim (Option-cases (find_dev c.tag.mix_devs d max_mix 0)) [
  | inl out ↦
      rw (out, rm_entry)
        (unmark-Mixes c d
          (λ i lt. find_dev-none c.tag.mix_devs d max_mix 0 i out (omega arith) (omega arith)) v)
  | inr (i, found) ↦
      rw (found, rm_entry)
        (let (lo, hi, at) = find_dev-some c.tag.mix_devs d max_mix 0 i found in
          clear_entry-Mixes c d i (omega arith) at v)
]

-- In a tag where `mix_devs`, `mix_count`, `mix_ref` and the devices' `mixbit` agree, as `Mixes`
-- says, they agree after `tag_rm_outstanding` of any device, outstanding or not.
pub rm_outstanding-Mixes : {c : Channel} (d : ℕ) → Mixes c → Mixes (rm_outstanding c d)
unfolding rm_outstanding put_dev
rm_outstanding-Mixes {c} d v =
    transfer-Mixes (tag-mix_close_dev (unmark d (rm_entry c d)) d)
      (mixbit-mix_close_dev (unmark d (rm_entry c d)) d) (rm_entry-Mixes d v)
