-- ===== src/Discuss/Seats.antt =====
-- A device that is opened takes its place in `open_list`.
use gsconferencing.Base.{
  ℕ, ◌≡◌, refl, sym, ◌∙◌, [], ◌∷◌, true, false, arith, if◌then◌else◌, ◌==◌, length, length-append,
  pos,
}
use gsconferencing.Device.{Channel, put_dev}
use gsconferencing.Tag.{add_outstanding}
use gsconferencing.Tag.Outstanding.{Mixes, add_outstanding-Mixes}
use gsconferencing.Tag.Sync.{put_dev-Mixes}
use gsconferencing.Ptc.{member}
use gsconferencing.Ptc.Stack.{Distinct}
use gsconferencing.Discuss.{Room, dev, add_open}
use gsconferencing.Discuss.Users.{
  SameUser, add_outstanding-SameUser, member-append, Distinct-append,
}

-- `open_list` holds every open device once, `openuser` counts them, and the mixing part of the tag is
-- in order, whatever the database has.
pub record IsSeated (r : Room) : Type 0 where
  pub counted : r.openuser ≡ pos (length r.open_list)
  pub once : Distinct r.open_list
  pub flagged : (d : ℕ) → (dev r d).is_open ≡ member d r.open_list
  pub mixes : Mixes r.chan

-- What opening a device does to the flags of all devices.
pub add_open-flags :
    (r : Room) (d e : ℕ)
    → ((dev (add_open r d) e).is_open ≡ (if d == e then true else (dev r e).is_open))
      × ((dev (add_open r d) e).db_open ≡ (if d == e then true else (dev r e).db_open))
unfolding add_open put_dev
add_open-flags r d e =
    let c1 : Channel = put_dev r.chan d (record (r.chan.devs d) { is_open = true }) in
    let same : SameUser c1 (add_outstanding c1 d) = add_outstanding-SameUser c1 d in
    unfold put_dev in
    (ground (arith, same.opens d, same.opens e), ground (arith, same.saves d, same.saves e))

-- A device that is not open yet is put at the end of the list.
pub add_open-IsSeated :
    {r : Room} (d : ℕ) → IsSeated r → (dev r d).is_open ≡ false → IsSeated (add_open r d)
unfolding add_open put_dev
add_open-IsSeated {r} d v shut = record {
  counted = ground (arith, v.counted, length-append r.open_list (d ∷ []));
  once = Distinct-append d r.open_list v.once (sym (v.flagged d) ∙ shut);
  flagged =
      λ e. ground (arith, (add_open-flags r d e).0, v.flagged e, member-append e d r.open_list);
  mixes = put_dev-Mixes d _ refl (add_outstanding-Mixes d (put_dev-Mixes d _ refl v.mixes));
}
