-- ===== src/Udp/Reassembly/Delivery.antt =====
-- The datagrams of a message reach `recvFragment` in some order, some of them more than once.
use zcm.Prelude.{
  ℕ, ◌+◌, ◌%◌, ◌^◌, ◌≤◌, ◌<◌, ◌≡◌, ◌≢◌, ◌∙◌, ◌⊎◌, inl, inr, ap, ap₂, refl, sym, arith, Bool, true,
  false, Bool-cases, List, [], ◌∷◌, ◌++◌, map, some, if◌then◌else◌, ◌==◌, length, get_or, ge→ltb,
  gt→leb, All,
}
use zcm.Transport.{channel_maxlen, Msg}
use zcm.Udp.Pool.{Sockaddr, Sizes}
use zcm.Udp.Recv.{Udp, Outcome, nothing, complete, mtu, payload_offset, recv_part, recv_fragment}
use zcm.Udp.Send.{
  Sent, all_sent, Datagram, zero_status, short_message_max_size, fragment_count, sendmsg,
  send_fragments,
}
use zcm.Udp.Reassembly.Placing.{Cut, part_at, mark}
use zcm.Udp.Reassembly.Wire.{datagram_bytes, datagram_at, parse_part-datagram}
use zcm.Udp.Reassembly.Cutting.{
  count_bounds, nowhere, start_of, start_of-Cut, fragments_status-all, send_fragments-datagram,
}
use zcm.Udp.Reassembly.Pooled.{
  Waiting, Progress, going_on, done, recv_part-first, recv_part-Waiting,
}
use zcm.Udp.Reassembly.Lookup.{Other, packet_of}

-- The `number`-th datagram comes: the steady clock, and the time that the socket gives.
pub record Arrival : Type 0 where
  pub now : ℕ
  pub utime : ℕ
  pub number : ℕ

-- What `recvFragment` returns for each.
unfoldable pub receive : Sizes → Sockaddr → List Datagram → Udp → List Arrival → List Outcome
receive sizes from ds u [] = []
receive sizes from ds u (a ∷ rest) =
    let (outcome, u') =
      recv_fragment sizes a.now u
        (packet_of from a.utime (datagram_bytes (get_or ds a.number nowhere))) in
    outcome ∷ receive sizes from ds u' rest

-- Whether the k-th datagram is among them.
abbrev pub came : List Arrival → ℕ → Bool
came [] k = false
came (a ∷ rest) k = if k == a.number then true else came rest k

abbrev pub silence : List Arrival → List Outcome
silence [] = []
silence (a ∷ rest) = nothing ∷ silence rest

module _ (sizes : Sizes) (from : Sockaddr) (seqno : ℕ) (channel bytes : List ℕ) (n : ℕ)
    (start : ℕ → ℕ) (cut : Cut bytes n start) (ds : List Datagram)
    (sent : (k : ℕ) → k < n → get_or ds k nowhere ≡ datagram_at seqno channel bytes n start k)
    (small_seqno : seqno < 2 ^ 32) (few : n < 2 ^ 16) (small : length bytes ≤ mtu)
    (plain : All (λ b. b ≢ 0) channel)
    (fits : length channel + 1 ≤ payload_offset (length bytes)) where
  abbrev pub Waits : (ℕ → Bool) → Udp → Type 0
  Waits seen u = Waiting from seqno channel bytes n start cut seen u

  abbrev Moved : (ℕ → Bool) → ℕ → Outcome × Udp → Type 0
  Moved seen utime r = Progress from seqno channel bytes n start cut seen utime r

  -- Nothing of the message has come, or it is waiting.
  pub data Ready (seen : ℕ → Bool) (u : Udp) : Type 0 where
    unknown : seen ≡ (λ k. false) → All (Other from seqno) u.pool.fragbufs → Ready seen u
    waiting : Waits seen u → Ready seen u

  recv_fragment-Ready :
      (u : Udp) (now utime k last : ℕ) (seen : ℕ → Bool)
      → Ready seen u
      → k < n
      → last < n
      → seen last ≡ false
      → Moved
          (mark k seen)
          utime
          (recv_fragment sizes now u (packet_of from utime (datagram_bytes (get_or ds k nowhere))))
  unfolding recv_fragment
  recv_fragment-Ready u now utime k last seen r h l s =
      rw
        (
          sent k h,
          parse_part-datagram seqno channel bytes n start cut k small_seqno few small plain fits h,
          recv_fragment,
        )
        (go _ r)
    where
      go :
          (raw : List ℕ)
          → Ready seen u
          → Moved (mark k seen) utime (
              recv_part sizes now u
                (packet_of from utime raw)
                (part_at seqno channel bytes n start k))
      go raw (unknown e a) =
          rw e
            (recv_part-first from seqno channel bytes n start cut sizes now u utime raw k a h fits)
      go raw (waiting w) =
          recv_part-Waiting from seqno channel bytes n start cut sizes now u utime raw k seen last w
            l s h fits

  still_waiting :
      (seen : ℕ → Bool) (utime j : ℕ) (r : Outcome × Udp)
      → Moved seen utime r
      → j < n
      → seen j ≡ false
      → (r.0 ≡ nothing) × Waits seen r.1
  still_waiting seen utime j _ (going_on i u l e w) h s = (refl, w)
  still_waiting seen utime j _ (done u all) h s = let e = sym (all j h) ∙ s in absurd (cc e)

  now_complete :
      (seen : ℕ → Bool) (utime : ℕ) (r : Outcome × Udp)
      → Moved seen utime r
      → ((j : ℕ) → j < n → seen j ≡ true)
      → r.0
        ≡ complete (record { utime = utime; channel = map some channel; payload = map some bytes })
  now_complete seen utime _ (going_on j u l e w) all = let e' = sym (all j l) ∙ e in absurd (cc e')
  now_complete seen utime _ (done u a) all = refl

  pub receive-Ready :
      (before : List Arrival) (last : Arrival) (seen : ℕ → Bool) (u : Udp)
      → Ready seen u
      → All (λ a. a.number < n) before
      → last.number < n
      → seen last.number ≡ false
      → came before last.number ≡ false
      → ((k : ℕ) → k < n → k ≢ last.number → (seen k ≡ true) ⊎ (came before k ≡ true))
      → receive sizes from ds u (before ++ (last ∷ []))
        ≡ silence before
          ++ (complete (record {
            utime = last.utime;
            channel = map some channel;
            payload = map some bytes;
          })
              ∷ [])
  unfolding receive
  receive-Ready [] last seen u r a l s c all =
      ap (λ o. o ∷ [])
        (now_complete (mark last.number seen) last.utime _
          (recv_fragment-Ready u last.now last.utime last.number last.number seen r l l s)
          (λ j h. elim (Bool-cases (j == last.number)) [
            | inl z ↦ rw z refl
            | inr z ↦ let apart : j ≢ last.number = ground arith in rw z (only_seen (all j h apart))
          ]))
    where
      only_seen : {j : ℕ} → (seen j ≡ true) ⊎ (false ≡ true) → seen j ≡ true
      only_seen (inl e) = e
      only_seen (inr e) = absurd (cc e)
  receive-Ready (b ∷ before) last seen u r (h, a) l s c all =
      let z = different (Bool-cases (last.number == b.number)) in
      let unseen : mark b.number seen last.number ≡ false = rw z s in
      let (o, w) =
        still_waiting (mark b.number seen) b.utime last.number _
          (recv_fragment-Ready u b.now b.utime b.number last.number seen r h l s) l unseen in
      ap₂ (λ x xs. x ∷ xs) o
        (receive-Ready before last (mark b.number seen) _ (waiting w) a l unseen (rw z at c)
          (λ k i ne. also_marked k (all k i ne)))
    where
      also_marked :
          (k : ℕ)
          → (seen k ≡ true) ⊎ ((if k == b.number then true else came before k) ≡ true)
          → (mark b.number seen k ≡ true) ⊎ (came before k ≡ true)
      also_marked k e = elim (Bool-cases (k == b.number)) [
        | inl z ↦ inl (rw z refl)
        | inr z ↦ elim e [ inl q ↦ inl (rw z q) | inr q ↦ inr (rw z at q) ]
      ]

      different :
          ((last.number == b.number) ≡ true) ⊎ ((last.number == b.number) ≡ false)
          → (last.number == b.number) ≡ false
      different (inl z) = let e = rw z at c in absurd (cc e)
      different (inr z) = z

abbrev pub fragments_of : Msg → ℕ
fragments_of msg = fragment_count (length msg.channel + 1 + length msg.buf)

-- A large message for which the socket takes every datagram is cut into fragments that, in whatever
-- order they come, each at least once and the last of them for the first time, make `recvFragment`
-- return nothing before that one, and the whole message with it: its channel and its data. The
-- channel has no NUL and is not too long, and with it the data is at most `MTU` long; no message of
-- the same sender and number is in the receiver's pool before, and the number is below 2 ^ 32.
pub receive-sendmsg :
    (sizes : Sizes) (from : Sockaddr) (socket : ℕ → Sent) (seqno : ℕ) (msg : Msg) (u : Udp)
    (before : List Arrival) (last : Arrival)
    → ((k : ℕ) → socket k ≡ all_sent)
    → seqno < 2 ^ 32
    → All (λ b. b ≢ 0) msg.channel
    → length msg.channel ≤ channel_maxlen
    → short_message_max_size < length msg.channel + 1 + length msg.buf
    → length msg.channel + 1 + length msg.buf ≤ mtu
    → All (Other from seqno) u.pool.fragbufs
    → All (λ a. a.number < fragments_of msg) before
    → last.number < fragments_of msg
    → came before last.number ≡ false
    → ((k : ℕ) → k < fragments_of msg → k ≢ last.number → came before k ≡ true)
    → let (status, next, datagrams) = sendmsg socket seqno msg in
      (status ≡ zero_status)
      × (receive sizes from datagrams u (before ++ (last ∷ []))
          ≡ silence before
            ++ (complete (record {
              utime = last.utime;
              channel = map some msg.channel;
              payload = map some msg.buf;
            })
                ∷ []))
unfolding sendmsg payload_offset
receive-sendmsg sizes from socket seqno msg u before last taken hq plain short_channel large small
      others a l c all =
    let (covers, last_used, some_used) =
      count_bounds (length msg.channel + 1 + length msg.buf) (omega arith) in
    let no_wrap : (length msg.channel + 1 + length msg.buf) % 2 ^ 32
        ≡ length msg.channel + 1 + length msg.buf =
      omega arith in
    let bounded : length msg.buf < 2 ^ 32 = omega arith in
    let few : fragments_of msg < 2 ^ 16 = omega arith in
    rw
      (
        ge→ltb channel_maxlen (length msg.channel) short_channel,
        no_wrap,
        gt→leb (2 ^ 31) (length msg.channel + 1 + length msg.buf) (omega arith),
        gt→leb (length msg.channel + 1 + length msg.buf) short_message_max_size large,
        ge→ltb 65535 (fragments_of msg) (omega arith),
      )
      (
        fragments_status-all socket seqno msg short_channel large bounded taken,
        receive-Ready sizes from seqno msg.channel msg.buf (fragments_of msg)
            (start_of socket seqno msg short_channel large bounded taken)
            (start_of-Cut socket seqno msg short_channel large bounded taken)
            (send_fragments socket seqno msg (fragments_of msg))
            (send_fragments-datagram socket seqno msg short_channel large bounded taken) hq few
            (omega arith) plain (omega arith) before last (λ k. false) u (unknown refl others) a l
            refl c (λ k h ne. inr (all k h ne)),
      )
