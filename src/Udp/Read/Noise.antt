-- ===== src/Udp/Read/Noise.antt =====
-- What `readMessage` passes over: failures of the socket, and packets that are no datagram of zcm.
use zcm.Prelude.{
  ℕ, ◌+◌, ◌%◌, ◌^◌, ◌<◌, ◌≡◌, ◌≢◌, ◌∙◌, ◌⊎◌, inl, inr, ap, refl, arith, true, false, Bool-cases,
  List, [], ◌∷◌, ◌++◌, length, lt→ltb, equal_other, All, ltb,
}
use zcm.Udp.Pool.{Sizes}
use zcm.Udp.Recv.{Packet, get_u32}
use zcm.Udp.Read.{
  Receiver, Reading, no_message, short_header_bytes, discard_bad, take_packet, expire, Event,
  timed_out, failed, arrived, read_loop,
}
use zcm.Udp.Reassembly.Wire.{magic_short, magic_long}

abbrev pub Noise : Event → Type 0
Noise timed_out = true ≡ false
Noise failed = Unit {0}
Noise (arrived now pkt left_over) =
    (length pkt.bytes < short_header_bytes)
    ⊎ ((get_u32 pkt.bytes 0 ≢ magic_short) × (get_u32 pkt.bytes 0 ≢ magic_long))

-- Each is counted, and a packet makes old messages expire.
abbrev pub past_noise : Receiver → List Event → Receiver
past_noise r [] = r
past_noise r (timed_out ∷ rest) = r
past_noise r (failed ∷ rest) = past_noise (discard_bad r) rest
past_noise r (arrived now pkt left_over ∷ rest) = past_noise (discard_bad (expire now r)) rest

take_packet-Noise :
    (sizes : Sizes) (now : ℕ) (r : Receiver) (pkt : Packet) (left_over : List ℕ)
    → (length pkt.bytes < short_header_bytes)
      ⊎ ((get_u32 pkt.bytes 0 ≢ magic_short) × (get_u32 pkt.bytes 0 ≢ magic_long))
    → take_packet sizes now r pkt left_over ≡ (no_message, discard_bad r)
unfolding take_packet
take_packet-Noise sizes now r pkt left_over (inl h) = rw (lt→ltb _ _ h) refl
take_packet-Noise sizes now r pkt left_over (inr (a, b)) =
    elim (Bool-cases (ltb (length pkt.bytes) short_header_bytes)) [
      | inl e ↦ rw e refl
      | inr e ↦
          rw
            (
              e,
              equal_other (get_u32 pkt.bytes 0) magic_short a,
              equal_other (get_u32 pkt.bytes 0) magic_long b,
            )
            refl
    ]

pub read_loop-Noise :
    (sizes : Sizes) (noise rest : List Event) (r : Receiver)
    → All Noise noise
    → read_loop sizes r (noise ++ rest) ≡ read_loop sizes (past_noise r noise) rest
unfolding read_loop
read_loop-Noise sizes [] rest r a = refl
read_loop-Noise sizes (timed_out ∷ noise) rest r (e, a) = absurd (cc e)
read_loop-Noise sizes (failed ∷ noise) rest r (e, a) =
    read_loop-Noise sizes noise rest (discard_bad r) a
read_loop-Noise sizes (arrived now pkt left_over ∷ noise) rest r (e, a) =
    let passed = take_packet-Noise sizes now (expire now r) pkt left_over e in
    rw (passed, read_loop)
      (ap (λ (x : Reading × Receiver). read_loop sizes x.1 (noise ++ rest)) passed
        ∙ read_loop-Noise sizes noise rest (discard_bad (expire now r)) a)

pub past_noise_lem :
    (noise : List Event) (r : Receiver)
    → All Noise noise
    → r.udp.udp_discarded_bad < 2 ^ 32
    → ((past_noise r noise).udp.udp_discarded_bad
        ≡ (r.udp.udp_discarded_bad + length noise) % 2 ^ 32)
      × ((past_noise r noise).udp_rx ≡ r.udp_rx)
unfolding discard_bad expire
past_noise_lem [] r a h = (omega arith, refl)
past_noise_lem (timed_out ∷ noise) r (e, a) h = absurd (cc e)
past_noise_lem (failed ∷ noise) r (e, a) h =
    let (c, k) = past_noise_lem noise (discard_bad r) a (omega arith) in (omega (arith, c), k)
past_noise_lem (arrived now pkt left_over ∷ noise) r (e, a) h =
    let (c, k) = past_noise_lem noise (discard_bad (expire now r)) a (omega arith) in
    (omega (arith, c), k)
