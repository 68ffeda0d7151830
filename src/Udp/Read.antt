-- ===== src/Udp/Read.antt =====
-- `recvShort`, `readMessage` and `recvmsg` of zcm/transport/udp/udp.cpp: packets are read until one
-- completes a message.
pub mod Noise
pub mod Short
pub mod Overrun
use zcm.Prelude.{
  ℕ, ◌+◌, ◌-◌, ◌%◌, ◌^◌, List, [], ◌∷◌, ◌++◌, map, Option, none, some, if◌then◌else◌, ltb, ◌==◌,
  length, take, drop,
}
use zcm.Transport.{Retcode, eok, eagain, channel_maxlen}
use zcm.Udp.Pool.{Sizes, expire_frag_bufs}
use zcm.Udp.Recv.{
  Packet, get_u32, before_zero, Message, Udp, Outcome, nothing, fault, complete, recv_fragment,
}
use zcm.Udp.Reassembly.Wire.{magic_short, magic_long}

-- `sizeof(MsgHeaderShort)`
abbrev pub short_header_bytes : ℕ
short_header_bytes = 8

-- The fields of `UDP` that reading changes; both counters, `udp_rx` and `udp_discarded_bad`, are of
-- 32 bits and wrap round.
pub record Receiver : Type 0 where
  pub udp : Udp
  pub udp_rx : ℕ

-- A message that was read. `len` is what it says of its length, `content` the bytes of the buffer that
-- it takes in with it.
pub record Received : Type 0 where
  pub utime : ℕ
  pub channel : List (Option ℕ)
  pub len : ℕ
  pub content : List (Option ℕ)

-- How a read ends: with no message, with a message, or outside of a buffer.
pub data Reading : Type 0 where
  no_message out_of_bounds : Reading
  message : Received → Reading

unfoldable pub discard_bad : Receiver → Receiver
discard_bad r = record r {
  udp = record r.udp { udp_discarded_bad = (r.udp.udp_discarded_bad + 1) % 2 ^ 32 };
}

-- The buffer of the packet holds the datagram, and behind it what earlier packets have left. The
-- difference of sizes is computed in `size_t`.
unfoldable pub recv_short : Receiver → Packet → List ℕ → Reading × Receiver
recv_short r pkt left_over =
    let buf = pkt.bytes ++ left_over in
    let sz = length pkt.bytes in
    elim (before_zero (drop short_header_bytes buf)) [
      | none ↦ (out_of_bounds, r)
      | some clen ↦
          let offset = short_header_bytes + clen + 1 in
          let len = (sz + 2 ^ 64 - offset) % 2 ^ 64 in
          if ltb channel_maxlen clen then (no_message, discard_bad r) else (
            message (record {
              utime = pkt.utime;
              channel = map some (take clen (drop short_header_bytes buf));
              len = len;
              content = take len (map some (drop offset buf));
            }),
            record r { udp_rx = (r.udp_rx + 1) % 2 ^ 32 },
          )
    ]

unfoldable pub of_outcome : Outcome → Reading
of_outcome nothing = no_message
of_outcome fault = out_of_bounds
of_outcome (complete m) =
    message
      (record { utime = m.utime; channel = m.channel; len = length m.payload; content = m.payload })

unfoldable pub expire : ℕ → Receiver → Receiver
expire now r = record r { udp = record r.udp { pool = expire_frag_bufs now r.udp.pool } }

-- What is done with a packet.
unfoldable pub take_packet : Sizes → ℕ → Receiver → Packet → List ℕ → Reading × Receiver
take_packet sizes now r pkt left_over =
    let magic = get_u32 pkt.bytes 0 in
    let (outcome, udp) = recv_fragment sizes now r.udp pkt in
    if ltb (length pkt.bytes) short_header_bytes
    then (no_message, discard_bad r)
    else if magic == magic_short
    then recv_short r pkt left_over
    else if magic == magic_long
    then (of_outcome outcome, record r { udp = udp })
    else (no_message, discard_bad r)

-- What the socket does in a round of the loop.
pub data Event : Type 0 where
  timed_out failed : Event
  arrived : (now : ℕ) (pkt : Packet) (left_over : List ℕ) → Event

-- The loop, with the events that are left. It goes on as long as there is no message.
unfoldable pub read_loop : Sizes → Receiver → List Event → Reading × Receiver × List Event
read_loop sizes r [] = (no_message, r, [])
read_loop sizes r (timed_out ∷ rest) = (no_message, r, rest)
read_loop sizes r (failed ∷ rest) = read_loop sizes (discard_bad r) rest
read_loop sizes r (arrived now pkt left_over ∷ rest) =
    let (reading, r') = take_packet sizes now (expire now r) pkt left_over in
    let further = read_loop sizes r' rest in
    elim reading [
      | no_message ↦ further
      | out_of_bounds ↦ (out_of_bounds, r', rest)
      | message m ↦ (message m, r', rest)
    ]

unfoldable pub read_message : Sizes → ℕ → Receiver → List Event → Reading × Receiver × List Event
read_message sizes now r events = read_loop sizes (expire now r) events

-- The status and the message handed out; `none` if the read ends outside of a buffer.
unfoldable pub answer : Reading → Option (Retcode × Option Received)
answer no_message = some (eagain, none)
answer out_of_bounds = none
answer (message m) = some (eok, some m)

unfoldable pub recvmsg :
    Sizes → ℕ → Receiver → List Event → Option (Retcode × Option Received) × Receiver × List Event
recvmsg sizes now r events =
    let (reading, r', rest) = read_message sizes now r events in (answer reading, r', rest)
