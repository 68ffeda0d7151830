-- ===== src/Udp/Read/Overrun.antt =====
-- A datagram without the NUL of its channel.
use zcm.Prelude.{
  ℕ, zero, suc, ◌+◌, ◌-◌, ◌%◌, ◌^◌, ◌≤◌, ◌<◌, ◌≡◌, ◌≢◌, ◌∙◌, ap, refl, arith, List, [], ◌∷◌, ◌++◌,
  map, some, length, take, drop, length-append, ge→ltb, equal_other, ==_iff, All, length-take,
  length-map, length-drop,
}
use zcm.Transport.{channel_maxlen}
use zcm.Udp.Pool.{Sizes}
use zcm.Udp.Recv.{Packet, get_u32, before_zero}
use zcm.Udp.Read.{Receiver, Received, message, short_header_bytes, recv_short, take_packet}
use zcm.Udp.Reassembly.Wire.{magic_short}

before_zero-behind :
    (xs ys : List ℕ) (k : ℕ)
    → All (λ b. b ≢ 0) xs
    → before_zero ys ≡ some k
    → before_zero (xs ++ ys) ≡ some (length xs + k)
unfolding before_zero
before_zero-behind [] ys k a e = e ∙ ap some (omega arith)
before_zero-behind (b ∷ xs) ys k (o, a) e =
    rw (equal_other b 0 o, before_zero-behind xs ys k a e) (ap some (omega arith))

drop-append : (n : ℕ) (xs ys : List ℕ) → n ≤ length xs → drop n (xs ++ ys) ≡ drop n xs ++ ys
drop-append zero xs ys h = refl
drop-append (suc n) [] ys h = absurd (omega arith)
drop-append (suc n) (x ∷ xs) ys h = drop-append n xs ys (omega arith)

-- A datagram of a short message with no NUL behind its header, where the first NUL in the packet's
-- buffer stands `k` bytes behind the datagram and gives a name that is not too long: `recvShort` takes
-- it for a message of 2 ^ 64 - (k + 1) bytes, more than the buffer of 65536 bytes has.
pub take_packet_overruns :
    (sizes : Sizes) (now : ℕ) (r : Receiver) (pkt : Packet) (left_over : List ℕ) (k : ℕ)
    → short_header_bytes ≤ length pkt.bytes
    → get_u32 pkt.bytes 0 ≡ magic_short
    → All (λ b. b ≢ 0) (drop short_header_bytes pkt.bytes)
    → before_zero left_over ≡ some k
    → length pkt.bytes - short_header_bytes + k ≤ channel_maxlen
    → length pkt.bytes + length left_over ≡ 65536
    → (m : Received) × (take_packet sizes now r pkt left_over
        ≡ (message m, record r { udp_rx = (r.udp_rx + 1) % 2 ^ 32 }))
      × (m.len ≡ 2 ^ 64 - (k + 1))
      × (length m.content < m.len)
unfolding take_packet recv_short
take_packet_overruns sizes now r pkt left_over k long_enough magic plain e fits size =
    let clen = length (drop short_header_bytes pkt.bytes) + k in
    let len = (length pkt.bytes + 2 ^ 64 - (short_header_bytes + clen + 1)) % 2 ^ 64 in
    let found =
      ap before_zero (drop-append short_header_bytes pkt.bytes left_over long_enough)
      ∙ before_zero-behind (drop short_header_bytes pkt.bytes) left_over k plain e in
    let dropped = length-drop short_header_bytes pkt.bytes in
    let content = map some (drop (short_header_bytes + clen + 1) (pkt.bytes ++ left_over)) in
    let bound : length content ≤ 65536 = omega (
      arith,
      length-map some (drop (short_header_bytes + clen + 1) (pkt.bytes ++ left_over)),
      length-drop (short_header_bytes + clen + 1) (pkt.bytes ++ left_over),
      length-append pkt.bytes left_over,
    ) in
    (
      record {
        utime = pkt.utime;
        channel = map some (take clen (drop short_header_bytes (pkt.bytes ++ left_over)));
        len = len;
        content = take len content;
      },
      rw
          (
            ge→ltb (length pkt.bytes) short_header_bytes long_enough,
            (==_iff (get_u32 pkt.bytes 0) magic_short).1 magic,
            found,
            ge→ltb channel_maxlen clen (omega arith),
            recv_short,
          )
          refl,
      omega arith,
      omega (arith, length-take len content),
    )
