-- ===== src/Subscribe/Delivery.antt =====
-- A packet that a tag casts reaches the devices that have subscribed to the tag.
use gsconferencing.Base.{
  ℕ, suc, ◌+◌, ◌≡◌, sym, ap, ◌∙◌, List, [], ◌∷◌, ◌++◌, Bool, false, not, ◌&&◌, ◌==◌, if◌then◌else◌,
  arith, Bool-cases, inl, inr,
}
use gsconferencing.Device.{Device}
use gsconferencing.Ptc.{member}
use gsconferencing.Ptc.Stack.{Distinct}
use gsconferencing.Cast.{
  Casting, Packet, Options, Message, broadcast_pack, broadcast_outdate, send_udp, send_audio,
  cast_to, cast_all,
}
use gsconferencing.Subscribe.{Subscriptions, is_sub, Change, apply_all}
use gsconferencing.Subscribe.Listeners.{IsSubscribed, apply_all-IsSubscribed}

-- The message goes to the device `d` and has the number `s`.
abbrev pub is_copy : ℕ → ℕ → Message → Bool
is_copy d s (broadcast_pack p) = false
is_copy d s (broadcast_outdate q t) = false
is_copy d s (send_udp e p) = d == e && p.seq == s
is_copy d s (send_audio e p) = d == e && p.seq == s

-- How many such messages were sent.
unfoldable pub copies : ℕ → ℕ → List Message → ℕ
copies d s [] = 0
copies d s (m ∷ ms) = if is_copy d s m then suc (copies d s ms) else copies d s ms

copies-append :
    (d s : ℕ) (ms ns : List Message) → copies d s (ms ++ ns) ≡ copies d s ms + copies d s ns
unfolding copies
copies-append d s [] ns = omega arith
copies-append d s (m ∷ ms) ns = ground (arith, copies-append d s ms ns)

module _ (opt : Options) (devs : ℕ → Device) where
  -- The device has an id, and a connection over TCP, or else is active.
  abbrev pub is_reachable : ℕ → Bool
  is_reachable d =
      not ((devs d).id == 0) && (if opt.tcp_audio then (devs d).has_sock else (devs d).active)

  -- One listener.
  copies-cast_to :
      (p : Packet) (c : Casting) (d e : ℕ)
      → copies d p.seq (cast_to opt devs p c e).sent
        ≡ copies d p.seq c.sent + (if d == e && is_reachable e then 1 else 0)
  unfolding cast_to copies
  copies-cast_to p c d e = ground (
    arith,
    copies-append d p.seq c.sent (send_udp e p ∷ []),
    copies-append d p.seq c.sent (send_audio e p ∷ []),
  )

  -- Each listener gets one copy, if it can be reached.
  copies-cast_all :
      (p : Packet) (c : Casting) (d : ℕ) (ds : List ℕ)
      → Distinct ds
      → copies d p.seq (cast_all opt devs p c ds).sent
        ≡ copies d p.seq c.sent + (if member d ds && is_reachable d then 1 else 0)
  unfolding cast_all member
  copies-cast_all p c d [] once = omega arith
  copies-cast_all p c d (e ∷ ds) (new, once) =
      let rest = copies-cast_all p (cast_to opt devs p c e) d ds once in
      let one = copies-cast_to p c d e in
      elim (Bool-cases (d == e)) [
        | inr other ↦
            let none_more : copies d p.seq (cast_to opt devs p c e).sent ≡ copies d p.seq c.sent =
              (rw other at one) ∙ omega arith in
            rw other (
              rest ∙ ap (λ (n : ℕ). n + (if member d ds && is_reachable d then 1 else 0)) none_more)
        | inl here ↦
            let same : d ≡ e = ground (arith, here) in
            let new' : member d ds ≡ false = ap (λ (x : ℕ). member x ds) same ∙ new in
            let reach : is_reachable e ≡ is_reachable d = ap is_reachable (sym same) in
            rw here (
              rest
              ∙ (rw new' (omega arith))
              ∙ (rw here at one)
              ∙ ap (λ (b : Bool). copies d p.seq c.sent + (if b then 1 else 0)) reach)
      ]

-- After any subscriptions, a packet that the tag `t` casts to its list goes once to every device that
-- has subscribed to the tag and can be reached, and to no other.
pub cast_all-apply_all :
    (opt : Options) (devs : ℕ → Device) (cs : List Change) (s : Subscriptions) (p : Packet)
    (c : Casting) (d t : ℕ)
    → IsSubscribed s
    → copies d p.seq (cast_all opt devs p c ((apply_all s cs).heads t)).sent
      ≡ copies d p.seq c.sent
        + (if is_sub ((apply_all s cs).subscription d) t && is_reachable opt devs d then 1 else 0)
cast_all-apply_all opt devs cs s p c d t v =
    let after = apply_all-IsSubscribed cs s v in
    copies-cast_all opt devs p c d ((apply_all s cs).heads t) (after.once t)
    ∙ ap (λ (b : Bool). copies d p.seq c.sent + (if b && is_reachable opt devs d then 1 else 0))
        (after.listens d t)
