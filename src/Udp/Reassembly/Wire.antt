-- ===== src/Udp/Reassembly/Wire.antt =====
-- The bytes of a datagram of `sendmsg`, and how `recvFragment` reads them.
use zcm.Prelude.{
  ℕ, zero, suc, ◌+◌, ◌-◌, ◌*◌, ◌/◌, ◌%◌, ◌^◌, ◌≤◌, ◌<◌, ◌≡◌, ◌≢◌, ◌∙◌, ◌⊎◌, inl, inr, ap, ap₂, refl,
  arith, true, false, not, ◌&&◌, ◌||◌, Bool-cases, List, [], ◌∷◌, ◌++◌, Option, none, some,
  if◌then◌else◌, ltb, leb, ◌==◌, min, length, take, drop, length-append, ==_iff, equal_other,
  ge→ltb, All, gt→leb,
}
use zcm.Coretypes.Numbers.{put_be16, put_be32}
use zcm.Udp.Send.{Datagram, short, fragment}
use zcm.Udp.Recv.{
  Part, header_part, header_bytes, mtu, payload_offset, before_zero, take_channel, check_part,
  parse_part,
}
use zcm.Udp.Reassembly.Placing.{Cut, slice, part_at, length-slice}

-- `ZCM_MAGIC_SHORT` and `ZCM_MAGIC_LONG`
abbrev pub magic_short : ℕ
magic_short = 1279471666

abbrev pub magic_long : ℕ
magic_long = 1279471667

-- The header in network order, and the payload.
abbrev pub datagram_bytes : Datagram → List ℕ
datagram_bytes (short msg_seqno payload) = put_be32 magic_short ++ (put_be32 msg_seqno ++ payload)
datagram_bytes (fragment msg_seqno msg_size fragment_offset fragment_no fragments_in_msg payload) =
    put_be32 magic_long
    ++ (put_be32 msg_seqno
        ++ (put_be32 msg_size
            ++ (put_be32 fragment_offset
                ++ (put_be16 fragment_no ++ (put_be16 fragments_in_msg ++ payload)))))

fragment-header :
    (msg_seqno msg_size fragment_offset fragment_no fragments_in_msg : ℕ) (payload : List ℕ)
    → msg_seqno < 2 ^ 32
    → msg_size < 2 ^ 32
    → fragment_offset < 2 ^ 32
    → fragment_no < 2 ^ 16
    → fragments_in_msg < 2 ^ 16
    → header_part (
        datagram_bytes
          (fragment msg_seqno msg_size fragment_offset fragment_no fragments_in_msg payload))
      ≡ record {
        msg_seqno = msg_seqno;
        data_size = msg_size;
        fragment_offset = fragment_offset;
        fragment_no = fragment_no;
        fragments_in_msg = fragments_in_msg;
        payload = payload;
        channel = [];
      }
fragment-header q s o k n payload hq hs ho hk hn = λ i. record {
  msg_seqno = be32 q hq i;
  data_size = be32 s hs i;
  fragment_offset = be32 o ho i;
  fragment_no = be16 k hk i;
  fragments_in_msg = be16 n hn i;
  payload = payload;
  channel = [];
}
  where
    be16 : (v : ℕ) → v < 2 ^ 16 → v / 2 ^ 8 % 256 * 2 ^ 8 + v % 256 ≡ v
    be16 v h = omega arith

    be32 :
        (v : ℕ)
        → v < 2 ^ 32
        → (v / 2 ^ 24 % 256 * 2 ^ 8 + v / 2 ^ 16 % 256) * 2 ^ 16
            + (v / 2 ^ 8 % 256 * 2 ^ 8 + v % 256)
          ≡ v
    be32 v h = omega arith

-- The first zero is the one behind the channel.
before_zero-channel :
    (channel rest : List ℕ) (room : ℕ)
    → All (λ b. b ≢ 0) channel
    → length channel < room
    → before_zero (take room (channel ++ (0 ∷ rest))) ≡ some (length channel)
unfolding before_zero
before_zero-channel [] rest zero a h = absurd (omega arith)
before_zero-channel [] rest (suc room) a h = refl
before_zero-channel (b ∷ channel) rest zero a h = absurd (omega arith)
before_zero-channel (b ∷ channel) rest (suc room) (o, a) h =
    rw (equal_other b 0 o, before_zero-channel channel rest room a (omega arith))
      (ap some (omega arith))

pub take-front : (xs ys : List ℕ) → take (length xs) (xs ++ ys) ≡ xs
take-front [] ys = refl
take-front (x ∷ xs) ys = ap (λ l. x ∷ l) (take-front xs ys)

pub drop-front : (xs ys : List ℕ) (y : ℕ) → drop (length xs + 1) (xs ++ (y ∷ ys)) ≡ ys
drop-front [] ys y = refl
drop-front (x ∷ xs) ys y =
    ap (λ k. drop k (x ∷ (xs ++ (y ∷ ys)))) {x = suc (length xs) + 1} {y = suc (length xs + 1)}
      (omega arith)
    ∙ drop-front xs ys y

-- The tests of a fragment of a message that is cut in order.
passes :
    (k n size offset len : ℕ)
    → offset + len ≤ size
    → (k ≢ 0 → 0 < len)
    → (k + 1 ≡ n → offset + len ≡ size)
    → (ltb size offset
        || ltb (size - offset) len
        || (not (k == 0) && len == 0)
        || ((k + 1) == n && not ((offset + len) == size)))
      ≡ false
passes k n size offset len h some_bytes ends =
    rw
      (
        ge→ltb size offset (omega arith),
        ge→ltb (size - offset) len (omega arith),
        not_empty (Bool-cases (k == 0)),
        last (Bool-cases ((k + 1) == n)),
      )
      refl
  where
    not_empty : ((k == 0) ≡ true) ⊎ ((k == 0) ≡ false) → (not (k == 0) && len == 0) ≡ false
    not_empty (inl z) = rw z refl
    not_empty (inr z) =
        let apart : k ≢ 0 = ground arith in
        let more = some_bytes apart in rw (z, equal_other len 0 (omega arith)) refl

    last :
        (((k + 1) == n) ≡ true) ⊎ (((k + 1) == n) ≡ false)
        → ((k + 1) == n && not ((offset + len) == size)) ≡ false
    last (inl z) = rw (z, (==_iff (offset + len) size).1 (ends ((==_iff (k + 1) n).0 z))) refl
    last (inr z) = rw z refl

-- The tests on the header are on the fields that were read.
parse-header :
    (raw : List ℕ) (p : Part)
    → header_part raw ≡ p
    → ltb (length raw) header_bytes ≡ false
    → parse_part raw ≡ (
        if ltb mtu p.data_size || p.fragments_in_msg == 0 || leb p.fragments_in_msg p.fragment_no
        then none
        else elim (take_channel p) [ none ↦ none | some q ↦ check_part q ])
unfolding parse_part
parse-header raw p e l = rw l (
    ap
      (λ (p : Part).
        if ltb mtu p.data_size || p.fragments_in_msg == 0 || leb p.fragments_in_msg p.fragment_no
        then none
        else elim (take_channel p) as (λ x. Option Part) [ none ↦ none | some q ↦ check_part q ])
      e)

-- The first fragment has the channel in front.
abbrev pub payload_at : List ℕ → List ℕ → (ℕ → ℕ) → ℕ → List ℕ
payload_at channel bytes start k =
    if k == 0 then channel ++ (0 ∷ slice bytes start k) else slice bytes start k

-- The k-th datagram of the message.
abbrev pub datagram_at : ℕ → List ℕ → List ℕ → ℕ → (ℕ → ℕ) → ℕ → Datagram
datagram_at seqno channel bytes n start k =
    fragment seqno (length bytes) (start k) k n (payload_at channel bytes start k)

module _ (seqno : ℕ) (channel bytes : List ℕ) (n : ℕ) (start : ℕ → ℕ)
    (cut : Cut bytes n start) where
  abbrev raw : ℕ → Part
  raw k = record {
    msg_seqno = seqno;
    data_size = length bytes;
    fragment_offset = start k;
    fragment_no = k;
    fragments_in_msg = n;
    payload = payload_at channel bytes start k;
    channel = [];
  }

  take_channel-raw :
      (k : ℕ)
      → All (λ b. b ≢ 0) channel
      → length channel + 1 ≤ payload_offset (length bytes)
      → take_channel (raw k) ≡ some (part_at seqno channel bytes n start k)
  unfolding take_channel
  take_channel-raw zero a fits =
      let data_start = (==_iff (start 0) 0).1 cut.first in
      let l = length-append channel (0 ∷ slice bytes start 0) in
      rw
        (
          before_zero-channel channel (slice bytes start 0)
              (min (length (payload_at channel bytes start 0)) (payload_offset (length bytes))) a
              (omega arith),
          data_start,
        )
        (ap₂ (λ c p. let r : Part = record (raw 0) { channel = c; payload = p } in some r)
          (take-front channel (0 ∷ slice bytes start 0))
          (drop-front channel (slice bytes start 0) 0))
  take_channel-raw (suc k) a fits = rw (equal_other (suc k) 0 (omega arith)) refl

  check_part-part :
      (k : ℕ)
      → k < n
      → check_part (part_at seqno channel bytes n start k)
        ≡ some (part_at seqno channel bytes n start k)
  unfolding check_part
  check_part-part k h =
      let size = length-slice seqno channel bytes n start cut k h in
      let inside = cut.inside k h in
      let grow = cut.grows k in
      rw
        (passes k n (length bytes) (start k) (length (slice bytes start k)) (omega arith)
          (some_bytes size) (ends size))
        refl
    where
      some_bytes :
          length (slice bytes start k) ≡ start (suc k) - start k
          → k ≢ 0
          → 0 < length (slice bytes start k)
      some_bytes size e = let more = cut.not_empty k (omega arith) h in omega arith

      ends :
          length (slice bytes start k) ≡ start (suc k) - start k
          → k + 1 ≡ n
          → start k + length (slice bytes start k) ≡ length bytes
      ends size e =
          let grow = cut.grows k in
          omega (arith, cut.last, ap start {x = suc k} {y = n} (omega arith))

  -- What `recvFragment` reads of the k-th datagram.
  pub parse_part-datagram :
      (k : ℕ)
      → seqno < 2 ^ 32
      → n < 2 ^ 16
      → length bytes ≤ mtu
      → All (λ b. b ≢ 0) channel
      → length channel + 1 ≤ payload_offset (length bytes)
      → k < n
      → parse_part (datagram_bytes (datagram_at seqno channel bytes n start k))
        ≡ some (part_at seqno channel bytes n start k)
  unfolding parse_part
  parse_part-datagram k hq hn hb a fits h =
      let header =
        fragment-header seqno (length bytes) (start k) k n (payload_at channel bytes start k) hq
          (omega arith) (omega (arith, cut.inside k h, cut.grows k)) (omega arith) hn in
      let long_enough =
        ge→ltb (length (datagram_bytes (datagram_at seqno channel bytes n start k))) header_bytes
          (omega arith) in
      parse-header (datagram_bytes (datagram_at seqno channel bytes n start k)) (raw k) header
        long_enough
      ∙ rw
          (
            ge→ltb mtu (length bytes) hb,
            equal_other n 0 (omega arith),
            gt→leb n k h,
            take_channel-raw k a fits,
          )
          (check_part-part k h)
