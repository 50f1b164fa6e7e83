-- ===== src/Tag/Effect.antt =====
-- What `tag_add_outstanding` and `tag_rm_outstanding` do to the entries, the count and the marks.
use gsconferencing.Base.{
  ℕ, ◌+◌, ◌-◌, ◌<◌, ◌≡◌, ◌≢◌, refl, ap, ◌∙◌, some, true, false, arith, ◌==◌, if◌then◌else◌,
  Bool-cases, Option-cases, inl, inr,
}
use gsconferencing.Device.{Channel, Tag, max_mix, put_dev}
use gsconferencing.Tag.{
  find_free, find_dev, take_entry, clear_entry, rm_entry, add_outstanding, rm_outstanding,
}
use gsconferencing.Tag.Search.{
  find_free-some, find_free-none, find_dev-some, find_dev-none, taken_all, taken_free-lt,
}
use gsconferencing.Tag.Outstanding.{
  Mixes, tag-mix_open_dev, mixbit-mix_open_dev, tag-mix_close_dev, mixbit-mix_close_dev, unmark,
  rm_outstanding-Mixes, two_pow_pos,
}

==_of : {a b : ℕ} → a ≡ b → (a == b) ≡ true
==_of e = ground arith

module _ (c : Channel) (d i : ℕ) where
  counts : (take_entry c d i).tag.mix_count ≡ c.tag.mix_count + 1
  unfolding take_entry
  counts = refl

  marks : ((take_entry c d i).devs d).mixbit ≢ 0
  unfolding take_entry
  marks = ground (arith, two_pow_pos i)

  leaves : (e : ℕ) → e ≢ d → ((take_entry c d i).devs e).mixbit ≡ (c.devs e).mixbit
  unfolding take_entry
  leaves e ne = ground arith

  devs-clear_entry : (clear_entry c i).devs ≡ c.devs
  unfolding clear_entry
  devs-clear_entry = refl

  count-clear_entry : (clear_entry c i).tag.mix_count ≡ c.tag.mix_count - 1
  unfolding clear_entry
  count-clear_entry = refl

devs-rm_entry : (c : Channel) (d : ℕ) → (rm_entry c d).devs ≡ c.devs
unfolding rm_entry
devs-rm_entry c d = elim (Option-cases (find_dev c.tag.mix_devs d max_mix 0)) [
  | inl out ↦ rw (out, rm_entry)
  | inr (i, found) ↦ rw (found, rm_entry) (devs-clear_entry c d i)
]

count-rm_entry :
    {c : Channel} (d : ℕ)
    → Mixes c
    → (rm_entry c d).tag.mix_count
      ≡ (if (c.devs d).mixbit == 0 then c.tag.mix_count else c.tag.mix_count - 1)
unfolding rm_entry
count-rm_entry {c} d v = elim (Option-cases (find_dev c.tag.mix_devs d max_mix 0)) [
  | inl out ↦ elim (Bool-cases ((c.devs d).mixbit == 0)) [
    | inl idle ↦ rw (out, idle, rm_entry)
    | inr busy ↦
        let (i, lt, at) = v.listed d (ground arith) in
        absurd (find_dev-none c.tag.mix_devs d max_mix 0 i out (omega arith) lt at)
  ]
  | inr (i, found) ↦
      let (lo, lt, at) = find_dev-some c.tag.mix_devs d max_mix 0 i found in
      let busy : ((c.devs d).mixbit == 0) ≡ false =
        ground (arith, v.marked i d lt at, two_pow_pos i) in
      rw (found, busy, rm_entry) (count-clear_entry c d i)
]

-- `tag_add_outstanding`, in a tag that satisfies `Mixes`, of a device that is not outstanding:
-- with all entries taken nothing is counted or marked; otherwise the device is marked and counted;
-- and any other device keeps its mark.
pub add_outstanding_lem :
    {c : Channel} (d e : ℕ)
    → Mixes c
    → (c.devs d).mixbit ≡ 0
    → e ≢ d
    → ((add_outstanding c d).tag.mix_count
        ≡ (if c.tag.mix_count == max_mix then max_mix else c.tag.mix_count + 1))
      × ((((add_outstanding c d).devs d).mixbit == 0) ≡ (c.tag.mix_count == max_mix))
      × (((add_outstanding c d).devs e).mixbit ≡ (c.devs e).mixbit)
unfolding add_outstanding
add_outstanding_lem {c} d e v idle ne = elim (Option-cases (find_free c.tag.mix_devs max_mix 0)) [
  | inl all_taken ↦
      let full : c.tag.mix_count ≡ max_mix =
        v.counted
        ∙ taken_all c.tag.mix_devs max_mix
            (λ i lt. find_free-none c.tag.mix_devs max_mix 0 i all_taken (omega arith) lt) in
      rw (==_of idle, all_taken) (ground (arith, full), ground (arith, full, idle), refl)
  | inr (i, found) ↦
      let (lo, lt, free) = find_free-some c.tag.mix_devs max_mix 0 i found in
      let room : c.tag.mix_count < max_mix =
        omega (arith, v.counted, taken_free-lt c.tag.mix_devs max_mix i lt free) in
      rw
        (
          ==_of idle,
          found,
          mixbit-mix_open_dev (take_entry c d i) d d,
          mixbit-mix_open_dev (take_entry c d i) d e,
        )
        (
          ap (λ (t : Tag). t.mix_count) (tag-mix_open_dev (take_entry c d i) d)
              ∙ counts c d i
              ∙ ground arith,
          ground (arith, marks c d i),
          leaves c d i e ne,
        )
]

-- `tag_rm_outstanding`, in a tag that satisfies `Mixes`: the device's mark is cleared, it is in no
-- entry, the count goes down by one exactly if it was outstanding, and any other device keeps its
-- mark.
pub rm_outstanding_lem :
    {c : Channel} (d e i : ℕ)
    → Mixes c
    → e ≢ d
    → i < max_mix
    → (((rm_outstanding c d).devs d).mixbit ≡ 0)
      × ((rm_outstanding c d).tag.mix_devs i ≢ some d)
      × ((rm_outstanding c d).tag.mix_count
          ≡ (if (c.devs d).mixbit == 0 then c.tag.mix_count else c.tag.mix_count - 1))
      × (((rm_outstanding c d).devs e).mixbit ≡ (c.devs e).mixbit)
unfolding rm_outstanding put_dev
rm_outstanding_lem {c} d e i v ne lt = (
  cleared,
  λ at. ground (arith, cleared, after.marked i d lt at, two_pow_pos i),
  ap (λ (t : Tag). t.mix_count) (tag-mix_close_dev (unmark d (rm_entry c d)) d) ∙ count,
  mixbit-mix_close_dev (unmark d (rm_entry c d)) d e ∙ kept,
)
  where
    after : Mixes (rm_outstanding c d)
    after = rm_outstanding-Mixes d v

    cleared : ((rm_outstanding c d).devs d).mixbit ≡ 0
    cleared = mixbit-mix_close_dev (unmark d (rm_entry c d)) d d ∙ ground arith

    count :
        (rm_entry c d).tag.mix_count
        ≡ (if (c.devs d).mixbit == 0 then c.tag.mix_count else c.tag.mix_count - 1)
    count = count-rm_entry d v

    kept : ((unmark d (rm_entry c d)).devs e).mixbit ≡ (c.devs e).mixbit
    kept = rw (devs-rm_entry c d) (ground arith)
