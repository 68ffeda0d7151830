-- ===== src/Tests/UdpReadTests.antt =====
-- A short message, and a datagram that has no NUL, at a small receiver.
use zcm.Prelude.{
  inl, ℕ, ◌+◌, ◌-◌, ◌%◌, ◌<◌, ◌^◌, ◌≡◌, refl, arith, List, [], ◌∷◌, ◌++◌, map, some, replicate,
  length, length-replicate,
}
use zcm.Transport.{Msg, eok}
use zcm.Udp.Pool.{Sockaddr, Sizes}
use zcm.Udp.Recv.{Packet, before_zero}
use zcm.Udp.Send.{all_sent, zero_status, sendmsg}
use zcm.Udp.Read.{
  Receiver, Received, message, Event, timed_out, failed, arrived, take_packet, expire, recvmsg,
}
use zcm.Udp.Read.Noise.{past_noise}
use zcm.Udp.Read.Short.{recvmsg-sendmsg_short}
use zcm.Udp.Read.Overrun.{take_packet_overruns}
use zcm.Udp.Reassembly.Wire.{datagram_bytes}
use zcm.Udp.Reassembly.Lookup.{packet_of}

abbrev sizes : Sizes
sizes = record { of_frag_buf = 104; of_fragment = 12 }

abbrev sender : Sockaddr
sender = record { addr = 1; port = 2; family = 3 }

abbrev receiver : Receiver
receiver = record {
  udp = record {
    pool = record { fragbufs = []; max_size = 2 ^ 24; max_buffers = 1000; total_size = 0 };
    udp_discarded_bad = 0;
  };
  udp_rx = 0;
}

abbrev small : Msg
small = record { utime = 0; channel = 65 ∷ []; buf = 7 ∷ 8 ∷ [] }

-- The socket fails once, and then gives a packet of three bytes.
abbrev noise : List Event
noise = failed ∷ arrived 15 (packet_of sender 29 (1 ∷ 2 ∷ 3 ∷ [])) [] ∷ []

recvmsg-sendmsg_short_example :
    let (status, next, datagrams) = sendmsg (λ k. all_sent) 3 small in
    let r' = expire 20 (past_noise (expire 10 receiver) noise) in
    (status ≡ zero_status)
    × (recvmsg sizes 10 receiver (
          noise
          ++ (map (λ d. arrived 20 (packet_of sender 30 (datagram_bytes d)) (9 ∷ [])) datagrams
              ++ (timed_out ∷ [])))
        ≡ (
          some (
            eok,
            some (record {
              utime = 30;
              channel = some 65 ∷ [];
              len = 2;
              content = some 7 ∷ some 8 ∷ [];
            }),
          ),
          record r' { udp_rx = (0 + 1) % 2 ^ 32 },
          timed_out ∷ [],
        ))
    × (r'.udp.udp_discarded_bad ≡ (0 + 2) % 2 ^ 32)
recvmsg-sendmsg_short_example =
    recvmsg-sendmsg_short sizes sender (λ k. all_sent) 3 10 20 30 small receiver (9 ∷ []) noise
      (timed_out ∷ []) refl (omega arith) (tt, (inl (omega arith), tt))
      ((λ e. absurd (omega arith)), tt) (omega arith) (omega arith)

-- The magic number, a sequence number, and "A" without a NUL.
abbrev open_ended : Packet
open_ended = packet_of sender 30 (76 ∷ 67 ∷ 48 ∷ 50 ∷ 0 ∷ 0 ∷ 0 ∷ 9 ∷ 65 ∷ [])

stale : List ℕ
stale = replicate 65526 7

length-stale : length stale ≡ 65526
unfolding stale
length-stale = length-replicate {A = ℕ} 65526 7

stale_nul : before_zero (0 ∷ stale) ≡ some 0
unfolding before_zero
stale_nul = refl

take_packet_overruns_example :
    (m : Received) × (take_packet sizes 20 receiver open_ended (0 ∷ stale)
      ≡ (message m, record receiver { udp_rx = (0 + 1) % 2 ^ 32 }))
    × (m.len ≡ 2 ^ 64 - 1)
    × (length m.content < m.len)
take_packet_overruns_example =
    take_packet_overruns sizes 20 receiver open_ended (0 ∷ stale) 0 (omega arith) refl
      ((λ e. absurd (omega arith)), tt) stale_nul (omega arith) (omega (arith, length-stale))
