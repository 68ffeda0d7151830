-- ===== src/Tests/UdpReassemblyTests.antt =====
-- A message of two fragments that come in the other order, one of them twice.
use zcm.Prelude.{
  ℕ, ◌^◌, ◌≡◌, refl, arith, true, List, [], ◌∷◌, map, some, replicate, length, length-replicate,
}
use zcm.Transport.{Msg}
use zcm.Udp.Pool.{Sockaddr, Sizes}
use zcm.Udp.Recv.{Udp, nothing, complete}
use zcm.Udp.Send.{all_sent, zero_status, fragment_count, sendmsg}
use zcm.Udp.Reassembly.Delivery.{Arrival, receive, came, fragments_of, receive-sendmsg}

abbrev sizes : Sizes
sizes = record { of_frag_buf = 104; of_fragment = 12 }

abbrev sender : Sockaddr
sender = record { addr = 1; port = 2; family = 3 }

abbrev nothing_yet : Udp
nothing_yet = record {
  pool = record { fragbufs = []; max_size = 2 ^ 24; max_buffers = 1000; total_size = 0 };
  udp_discarded_bad = 0;
}

many : List ℕ
many = replicate 70000 7

length-many : length many ≡ 70000
unfolding many
length-many = length-replicate {A = ℕ} 70000 7

abbrev large : Msg
large = record { utime = 0; channel = 65 ∷ []; buf = many }

large_fragments : fragments_of large ≡ 2
unfolding fragment_count
large_fragments = rw length-many refl

abbrev arrival : ℕ → ℕ → Arrival
arrival time number = record { now = time; utime = time; number = number }

second : (k : ℕ) → k ≡ 1 → came (arrival 10 1 ∷ arrival 20 1 ∷ []) k ≡ true
second k e = rw e refl

receive-sendmsg_example :
    let (status, next, datagrams) = sendmsg (λ k. all_sent) 3 large in
    (status ≡ zero_status)
    × (receive sizes sender datagrams nothing_yet (arrival 10 1 ∷ arrival 20 1 ∷ arrival 30 0 ∷ [])
        ≡ nothing
          ∷ nothing
          ∷ complete (record { utime = 30; channel = some 65 ∷ []; payload = map some many })
          ∷ [])
receive-sendmsg_example =
    receive-sendmsg sizes sender (λ k. all_sent) 3 large nothing_yet
      (arrival 10 1 ∷ arrival 20 1 ∷ []) (arrival 30 0) (λ k. refl) (omega arith)
      ((λ e. absurd (omega arith)), tt) (omega arith) (omega (arith, length-many))
      (omega (arith, length-many)) tt
      (omega (arith, large_fragments), (omega (arith, large_fragments), tt))
      (omega (arith, large_fragments)) refl (λ k h ne. second k (omega (arith, large_fragments)))
