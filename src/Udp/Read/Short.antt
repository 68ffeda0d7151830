-- ===== src/Udp/Read/Short.antt =====
-- A message that is sent in one datagram.
use zcm.Prelude.{
  ℕ, ◌+◌, ◌-◌, ◌%◌, ◌^◌, ◌≤◌, ◌≡◌, ◌≢◌, ◌∙◌, ap, ap₂, refl, sym, arith, List, [], ◌∷◌, ◌++◌,
  append_assoc, map, some, length, take, drop, length-append, ge→ltb, equal_other, All, le→leb,
  gt→leb, ◌<◌,
}
use zcm.Transport.{eok, channel_maxlen, Msg}
use zcm.Udp.Pool.{Sockaddr, Sizes}
use zcm.Udp.Recv.{Packet, before_zero}
use zcm.Coretypes.Numbers.{put_be32}
use zcm.Udp.Send.{Sent, all_sent, short, zero_status, short_message_max_size, sendmsg}
use zcm.Udp.Read.{
  Receiver, Received, Reading, message, short_header_bytes, recv_short, take_packet, expire, Event,
  arrived, read_loop, read_message, answer, recvmsg,
}
use zcm.Udp.Read.Noise.{Noise, past_noise, read_loop-Noise, past_noise_lem}
use zcm.Udp.Reassembly.Wire.{magic_short, datagram_bytes, take-front, drop-front}
use zcm.Udp.Reassembly.Lookup.{packet_of}

before_zero-front :
    (xs rest : List ℕ) → All (λ b. b ≢ 0) xs → before_zero (xs ++ (0 ∷ rest)) ≡ some (length xs)
unfolding before_zero
before_zero-front [] rest a = refl
before_zero-front (b ∷ xs) rest (o, a) =
    rw (equal_other b 0 o, before_zero-front xs rest a) (ap some (omega arith))

drop-length : (xs ys : List ℕ) → drop (length xs) (xs ++ ys) ≡ ys
drop-length [] ys = refl
drop-length (x ∷ xs) ys = drop-length xs ys

take-some : (xs ys : List ℕ) → take (length xs) (map some (xs ++ ys)) ≡ map some xs
take-some [] ys = refl
take-some (x ∷ xs) ys = ap (λ l. some x ∷ l) (take-some xs ys)

-- A header of eight bytes, a channel and data.
recv_short-front :
    (r : Receiver) (from : Sockaddr) (utime : ℕ) (header channel buf left_over : List ℕ)
    → length header ≡ short_header_bytes
    → All (λ b. b ≢ 0) channel
    → length channel ≤ channel_maxlen
    → length buf ≤ short_message_max_size
    → recv_short r (packet_of from utime (header ++ (channel ++ (0 ∷ buf)))) left_over ≡ (
      message (record {
        utime = utime;
        channel = map some channel;
        len = length buf;
        content = map some buf;
      }),
      record r { udp_rx = (r.udp_rx + 1) % 2 ^ 32 },
    )
unfolding recv_short
recv_short-front r from utime header channel buf left_over h a c small =
    let pkt = header ++ (channel ++ (0 ∷ buf)) in
    let whole : pkt ++ left_over ≡ header ++ (channel ++ (0 ∷ (buf ++ left_over))) =
      append_assoc header (channel ++ (0 ∷ buf)) left_over
      ∙ ap (λ l. header ++ l) (append_assoc channel (0 ∷ buf) left_over) in
    let behind_header : drop short_header_bytes (pkt ++ left_over)
        ≡ channel ++ (0 ∷ (buf ++ left_over)) =
      ap₂ drop (sym h) whole ∙ drop-length header (channel ++ (0 ∷ (buf ++ left_over))) in
    let name =
      ap (take (length channel)) behind_header ∙ take-front channel (0 ∷ (buf ++ left_over)) in
    let front = length-append header channel in
    let behind_channel : drop (short_header_bytes + length channel + 1) (pkt ++ left_over)
        ≡ buf ++ left_over =
      ap₂ drop {x = short_header_bytes + length channel + 1} {y = length (header ++ channel) + 1}
        (omega arith) (whole ∙ sym (append_assoc header channel (0 ∷ (buf ++ left_over))))
      ∙ drop-front (header ++ channel) (buf ++ left_over) 0 in
    let size = length-append header (channel ++ (0 ∷ buf)) in
    let size' = length-append channel (0 ∷ buf) in
    let len : (length pkt + 2 ^ 64 - (short_header_bytes + length channel + 1)) % 2 ^ 64
        ≡ length buf =
      omega arith in
    rw
      (
        behind_header,
        before_zero-front channel (buf ++ left_over) a,
        recv_short,
        ge→ltb channel_maxlen (length channel) c,
        len,
        behind_channel,
        name,
        take-some buf left_over,
      )
      refl

take_packet-short :
    (sizes : Sizes) (from : Sockaddr) (seqno now utime : ℕ) (msg : Msg) (r : Receiver)
    (left_over : List ℕ)
    → All (λ b. b ≢ 0) msg.channel
    → length msg.channel ≤ channel_maxlen
    → length msg.channel + 1 + length msg.buf ≤ short_message_max_size
    → take_packet sizes now r
        (packet_of from utime (datagram_bytes (short seqno (msg.channel ++ (0 ∷ msg.buf)))))
        left_over
      ≡ (
        message (record {
          utime = utime;
          channel = map some msg.channel;
          len = length msg.buf;
          content = map some msg.buf;
        }),
        record r { udp_rx = (r.udp_rx + 1) % 2 ^ 32 },
      )
unfolding take_packet
take_packet-short sizes from seqno now utime msg r left_over a c small =
    let raw = datagram_bytes (short seqno (msg.channel ++ (0 ∷ msg.buf))) in
    rw (ge→ltb (length raw) short_header_bytes (omega arith)) (
      recv_short-front r from utime (put_be32 magic_short ++ put_be32 seqno) msg.channel msg.buf
        left_over refl a c (omega arith))

sendmsg-short :
    (socket : ℕ → Sent) (seqno : ℕ) (msg : Msg)
    → socket 0 ≡ all_sent
    → length msg.channel ≤ channel_maxlen
    → length msg.channel + 1 + length msg.buf ≤ short_message_max_size
    → sendmsg socket seqno msg
      ≡ (zero_status, (seqno + 1) % 2 ^ 32, short seqno (msg.channel ++ (0 ∷ msg.buf)) ∷ [])
unfolding sendmsg
sendmsg-short socket seqno msg w c small =
    let no_wrap : (length msg.channel + 1 + length msg.buf) % 2 ^ 32
        ≡ length msg.channel + 1 + length msg.buf =
      omega arith in
    rw
      (
        ge→ltb channel_maxlen (length msg.channel) c,
        no_wrap,
        gt→leb (2 ^ 31) (length msg.channel + 1 + length msg.buf) (omega arith),
        le→leb _ _ small,
        w,
      )
      refl

recvmsg-arrived :
    (sizes : Sizes) (now now' : ℕ) (r : Receiver) (noise : List Event) (pkt : Packet)
    (left_over : List ℕ) (rest : List Event) {m : Received} {r' : Receiver}
    → All Noise noise
    → take_packet sizes now' (expire now' (past_noise (expire now r) noise)) pkt left_over
      ≡ (message m, r')
    → recvmsg sizes now r (noise ++ (arrived now' pkt left_over ∷ rest))
      ≡ (some (eok, some m), r', rest)
unfolding recvmsg read_message answer
recvmsg-arrived sizes now now' r noise pkt left_over rest {m} {r'} a e =
    ap (λ (x : Reading × Receiver × List Event). (answer x.0, x.1, x.2))
      (read_loop-Noise sizes noise (arrived now' pkt left_over ∷ rest) (expire now r) a ∙ here)
  where
    here :
        read_loop sizes (past_noise (expire now r) noise) (arrived now' pkt left_over ∷ rest)
        ≡ (message m, r', rest)
    here =
        unfold read_loop in
        rw (e, read_loop) (ap (λ (x : Reading × Receiver). (message m, x.1, rest)) e)

-- A message that is sent in one datagram is read from it as it was sent, whatever the buffer of the
-- packet holds behind the datagram, whatever else waits, and behind any failures of the socket and any
-- packets that are too short or have no magic number of zcm, all of which are counted modulo 2 ^ 32: its
-- channel without NUL is not too long, it fits in one datagram with it, and the socket takes the
-- datagram whole.
pub recvmsg-sendmsg_short :
    (sizes : Sizes) (from : Sockaddr) (socket : ℕ → Sent) (seqno now now' utime : ℕ) (msg : Msg)
    (r : Receiver) (left_over : List ℕ) (noise rest : List Event)
    → socket 0 ≡ all_sent
    → r.udp.udp_discarded_bad < 2 ^ 32
    → All Noise noise
    → All (λ b. b ≢ 0) msg.channel
    → length msg.channel ≤ channel_maxlen
    → length msg.channel + 1 + length msg.buf ≤ short_message_max_size
    → let (status, next, datagrams) = sendmsg socket seqno msg in
      let r' = expire now' (past_noise (expire now r) noise) in
      (status ≡ zero_status)
      × (recvmsg sizes now r (
            noise
            ++ (map
                  (λ d. arrived now' (packet_of from utime (datagram_bytes d)) left_over)
                  datagrams
                ++ rest))
          ≡ (
            some (
              eok,
              some (record {
                utime = utime;
                channel = map some msg.channel;
                len = length msg.buf;
                content = map some msg.buf;
              }),
            ),
            record r' { udp_rx = (r.udp_rx + 1) % 2 ^ 32 },
            rest,
          ))
      × (r'.udp.udp_discarded_bad ≡ (r.udp.udp_discarded_bad + length noise) % 2 ^ 32)
unfolding expire
recvmsg-sendmsg_short sizes from socket seqno now now' utime msg r left_over noise rest w bad q a c
      small =
    let (count, seen) = past_noise_lem noise (expire now r) q bad in
    rw (sendmsg-short socket seqno msg w c small) (
      refl,
      recvmsg-arrived sizes now now' r noise _ left_over rest q (
            take_packet-short sizes from seqno now' utime msg
              (expire now' (past_noise (expire now r) noise)) left_over a c small)
          ∙ ap (λ (k : ℕ). (some (eok, some m), counted k, rest)) seen,
      count,
    )
  where
    m : Received
    m = record {
      utime = utime;
      channel = map some msg.channel;
      len = length msg.buf;
      content = map some msg.buf;
    }

    counted : ℕ → Receiver
    counted k = record (expire now' (past_noise (expire now r) noise)) { udp_rx = (k + 1) % 2 ^ 32 }
