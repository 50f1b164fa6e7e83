-- ===== src/Subscribe/Tests.antt =====
-- Witness of `Subscribe`: device 4 changes from tag 1 to tag 2, and 5 leaves.
use gsconferencing.Base.{◌+◌, ◌≡◌, refl, none, List, [], ◌∷◌, true, false, ◌&&◌, if◌then◌else◌}
use gsconferencing.Cfifo
use gsconferencing.Cast.{Casting, Packet, Options, cast_all}
use gsconferencing.Ptc.{member}
use gsconferencing.Subscribe.{
  Subscriptions, is_sub, Change, subscribe, unsubscribe, unregister, apply_all,
}
use gsconferencing.Subscribe.Listeners.{IsSubscribed}
use gsconferencing.Subscribe.Delivery.{copies, is_reachable, cast_all-apply_all}
use gsconferencing.Fixtures.{device, idle_interp}

abbrev nobody : Subscriptions
nobody = record {
  heads = λ t. [];
  subscription = λ d. none;
  sub1 = λ d. 0;
  home = λ d. 1;
  interps = λ t. idle_interp;
}

nobody-IsSubscribed : IsSubscribed nobody
unfolding member
nobody-IsSubscribed = record { once = λ t. tt; listens = λ d t. refl }

abbrev packet : Packet
packet = record { seq = 8; tag = 2; rep_count = 0; body = 1 ∷ [] }

abbrev casting : Casting
casting = record {
  id = 2;
  packs = λ _. packet;
  rep_pack = λ _. none;
  rep_pos = 0;
  rep_reqs = Cfifo.init (λ _. (0, 0)) 4 6;
  seq = 8;
  sent = [];
  freed = [];
}

abbrev unicast : Options
unicast = record { broadcast = false; tcp_audio = true }

abbrev changes : List Change
changes =
    subscribe 4 1
    ∷ subscribe 5 2
    ∷ subscribe 4 2
    ∷ subscribe 6 2
    ∷ unregister 5
    ∷ unsubscribe 6 2
    ∷ []

cast_all-apply_all_example :
    copies 4 8 (cast_all unicast device packet casting ((apply_all nobody changes).heads 2)).sent
    ≡ copies 4 8 casting.sent
      + (if is_sub ((apply_all nobody changes).subscription 4) 2 && is_reachable unicast device 4
          then 1
          else 0)
cast_all-apply_all_example =
    cast_all-apply_all unicast device changes nobody packet casting 4 2 nobody-IsSubscribed
