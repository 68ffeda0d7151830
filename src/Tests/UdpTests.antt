-- ===== src/Tests/UdpTests.antt =====
-- The theorems on zcm/transport/udp at a small pool.
use zcm.Prelude.{
  ℕ, length, ◌+◌, ◌<◌, ◌^◌, ◌≡◌, ◌≢◌, refl, arith, List, some, replicate, length-replicate, inl, [],
  ◌∷◌, All,
}
use zcm.Udp.Pool.{FragBuf, MessagePool, Sizes, blank, add_frag_buf, expire_frag_bufs}
use zcm.Udp.Recv.{Packet, Udp, Outcome, complete, recv_fragment}
use zcm.Transport.{Msg}
use zcm.Udp.Send.{all_sent, too_much_status, other_sent, zero_status, sendmsg}
use zcm.Udp.Send.Limit.{sendmsg-never_too_much}
use zcm.Udp.Send.Whole.{carried, sendmsg_hides_failure}
use zcm.Udp.Recv.NoFault.{Clean, recv_fragment-Clean}
use zcm.Udp.Pool.Budget.{Budget, add_frag_buf-Budget}
use zcm.Udp.Pool.Expire.{Active, expire_frag_bufs_lem}

abbrev sizes : Sizes
sizes = record { of_frag_buf = 104; of_fragment = 12 }

abbrev waiting_since : ℕ → FragBuf
waiting_since t = record blank { last_packet_utime = t; last_progress = t; allocated_size = 500 }

-- Two messages of 500 bytes in a pool of 1200.
abbrev two_waiting : MessagePool
two_waiting = record {
  fragbufs = waiting_since 8000000 ∷ waiting_since 1000000 ∷ [];
  max_size = 1200;
  max_buffers = 3;
  total_size = 1000;
}

two_waiting-Budget : Budget two_waiting
two_waiting-Budget = record { counted = refl; few = omega arith; small = inl (omega arith) }

add_frag_buf-Budget_example : Budget (add_frag_buf sizes two_waiting 9000000 200 2).1
add_frag_buf-Budget_example =
    add_frag_buf-Budget sizes two_waiting 9000000 200 2 (omega arith) two_waiting-Budget

expire_frag_bufs_lem_example :
    let p' = expire_frag_bufs 9000000 two_waiting in Budget p' × All (Active 9000000) p'.fragbufs
expire_frag_bufs_lem_example = expire_frag_bufs_lem 9000000 two_waiting two_waiting-Budget

-- The message without progress for eight seconds is removed, the other one stays.
expire_test : (expire_frag_bufs 9000000 two_waiting).fragbufs ≡ (waiting_since 8000000 ∷ [])
unfolding expire_frag_bufs zcm.Udp.Pool.expire_from zcm.Udp.Pool.remove_at
expire_test = refl

-- The new message of 328 bytes takes the place of the one that waits longest.
add_test : (add_frag_buf sizes two_waiting 9000000 200 2).1.total_size ≡ 828
unfolding add_frag_buf zcm.Udp.Pool.make_room zcm.Udp.Pool.remove_at zcm.Udp.Pool.eldest_index
    zcm.Udp.Pool.eldest_from
add_test = refl

-- A message of channel "A" with the two bytes 7 and 8, in two fragments.
abbrev datagram : List ℕ → Packet
datagram bytes = record {
  utime = 5;
  from = record { addr = 1; port = 2; family = 3 };
  bytes = bytes;
}

abbrev first_half : Packet
first_half = datagram (
    76 ∷ 67 ∷ 48 ∷ 51 ∷ 0 ∷ 0 ∷ 0 ∷ 9 ∷ 0 ∷ 0 ∷ 0 ∷ 2 ∷ 0 ∷ 0 ∷ 0 ∷ 0 ∷ 0 ∷ 0 ∷ 0 ∷ 2 ∷ 65 ∷ 0 ∷ 7
    ∷ [])

abbrev second_half : Packet
second_half =
    datagram
      (76 ∷ 67 ∷ 48 ∷ 51 ∷ 0 ∷ 0 ∷ 0 ∷ 9 ∷ 0 ∷ 0 ∷ 0 ∷ 2 ∷ 0 ∷ 0 ∷ 0 ∷ 1 ∷ 0 ∷ 1 ∷ 0 ∷ 2 ∷ 8 ∷ [])

abbrev nothing_yet : Udp
nothing_yet = record {
  pool = record { fragbufs = []; max_size = 2 ^ 24; max_buffers = 1000; total_size = 0 };
  udp_discarded_bad = 0;
}

recv_fragment-Clean_example : Clean (recv_fragment sizes 0 nothing_yet first_half)
recv_fragment-Clean_example = recv_fragment-Clean sizes 0 nothing_yet first_half tt

-- The fragments complete the message in either order.
recv_test :
    (recv_fragment sizes 0 (recv_fragment sizes 0 nothing_yet second_half).1 first_half).0
    ≡ complete (record { utime = 5; channel = some 65 ∷ []; payload = some 7 ∷ some 8 ∷ [] })
unfolding recv_fragment zcm.Udp.Recv.parse_part zcm.Udp.Recv.take_channel zcm.Udp.Recv.before_zero
    zcm.Udp.Recv.payload_offset zcm.Udp.Recv.check_part zcm.Udp.Recv.recv_part
    zcm.Udp.Pool.lookup_frag_buf zcm.Udp.Pool.sockaddr_equal zcm.Udp.Recv.store_in
    zcm.Udp.Recv.discard zcm.Udp.Recv.store zcm.Udp.Recv.same_part zcm.Udp.Recv.same_bytes
    zcm.Udp.Recv.add_for add_frag_buf zcm.Udp.Recv.adjacent zcm.Udp.Recv.store_channel
    zcm.Udp.Recv.store_payload zcm.Udp.Recv.write_at zcm.Udp.Pool.make_room zcm.Udp.Pool.remove_at
    zcm.Udp.Pool.eldest_index zcm.Udp.Pool.eldest_from
recv_test = refl

-- A message of two fragments.
many : List ℕ
many = replicate 70000 7

length-many : length many ≡ 70000
unfolding many
length-many = length-replicate {A = ℕ} 70000 7

abbrev large : Msg
large = record { utime = 0; channel = 65 ∷ []; buf = many }

sendmsg_hides_failure_example :
    let (status, next, datagrams) = sendmsg (λ k. other_sent) 3 large in
    (status ≡ zero_status) × (length datagrams ≡ 1) × (length (carried datagrams) < 2 + length many)
sendmsg_hides_failure_example =
    sendmsg_hides_failure 3 large (omega arith) (omega (arith, length-many))
      (omega (arith, length-many))

-- A message whose size is negative as an `int`.
immense : List ℕ
immense = replicate (2 ^ 31) 7

sendmsg-never_too_much_example :
    (sendmsg (λ k. all_sent) 3 (record { utime = 0; channel = 65 ∷ []; buf = immense })).0
    ≢ too_much_status
sendmsg-never_too_much_example =
    sendmsg-never_too_much (λ k. all_sent) 3
      (record { utime = 0; channel = 65 ∷ []; buf = immense })
