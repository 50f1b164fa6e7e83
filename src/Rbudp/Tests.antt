-- ===== src/Rbudp/Tests.antt =====
-- A sender of three messages, a receiver that gets them, and one that gets the first last.
use gsconferencing.Base.{ℕ, ◌-◌, ◌≤◌, ◌≡◌, refl, [], ◌∷◌, List, map, true, arith}
use gsconferencing.Cfifo
use gsconferencing.Cfifo.Index.{init-IsValid}
use gsconferencing.Cfifo.Refine.{contents}
use gsconferencing.Rbudp.{
  RbudpPacket, fresh, repair, Sender, Receiver, to_requester, broadcast, receive_all, retransmit,
}
use gsconferencing.Rbudp.Gap.{ask, gap_repaired}
use gsconferencing.Rbudp.Stream.{broadcast_all, stream_lem}
use gsconferencing.Rbudp.Repair.{request_for, after_all, first_repair, answered, asked, answered-le}

abbrev unfilled : RbudpPacket
unfilled = record { tag = 0; kind = fresh; seq = 0; extra = 0; body = [] }

abbrev numbered : ℕ → RbudpPacket
numbered q = record { tag = 3; kind = fresh; seq = q; extra = 0; body = q ∷ [] }

abbrev wrapping : Sender
wrapping = record { seq = 65534; rep_bufs = λ _. unfilled; rep_seq = λ _. 0; rep_count = λ _. 0 }

abbrev listener : ℕ → Receiver
listener e = record {
  tag = 3;
  expect = e;
  wait = Cfifo.init (λ _. unfilled) 3 11;
  committed = [];
  requests = [];
}

abbrev messages : List (List ℕ)
messages = (10 ∷ []) ∷ (20 ∷ []) ∷ (30 ∷ []) ∷ []

-- The sequence numbers are 65535, 1 and 2.
stream_example :
    map
      (λ (p : RbudpPacket). p.body)
      (receive_all (listener 65535) (broadcast_all wrapping 3 messages)).committed
    ≡ messages
unfolding Cfifo.init Cfifo.len
stream_example =
    stream_lem messages wrapping (listener 65535) 3
      (record {
        in_range = omega arith;
        nothing_waits = refl;
        expected = refl;
        valid = init-IsValid (λ _. unfilled) 3 11 (omega arith);
      })
      refl

gap_repaired_example :
    ((receive_all (listener 5) (numbered 6 ∷ numbered 7 ∷ numbered 5 ∷ [])).committed
      ≡ numbered 5 ∷ numbered 6 ∷ numbered 7 ∷ [])
    × ((receive_all (listener 5) (numbered 6 ∷ numbered 7 ∷ numbered 5 ∷ [])).requests ≡ 5 ∷ [])
    × (contents (receive_all (listener 5) (numbered 6 ∷ numbered 7 ∷ numbered 5 ∷ [])).wait ≡ [])
unfolding Cfifo.init Cfifo.len ask
gap_repaired_example =
    gap_repaired (listener 5) (numbered 5) (numbered 6 ∷ numbered 7 ∷ [])
      (init-IsValid (λ _. unfilled) 3 11 (omega arith)) refl (omega arith) refl refl
      (refl, refl, (refl, refl, tt)) (omega arith)

abbrev started : Sender
started = record wrapping { seq = 40 }

first_repair_example :
    (retransmit (after_all (broadcast started 3 0 (9 ∷ []) true).1 3 messages) (request_for 3 41)).0
    ≡ to_requester (record (broadcast started 3 0 (9 ∷ []) true).0 { kind = repair })
unfolding after_all broadcast
first_repair_example =
    first_repair started 3 0 (9 ∷ []) messages (omega arith) (omega arith) (omega arith)

answered-le_example : answered 50 started (request_for 3 0) ≤ 20 - asked started 0
answered-le_example = answered-le 50 started (request_for 3 0)
