-- ===== src/Udp/Reassembly/Cutting.antt =====
-- The datagrams that `sendmsg` cuts a message into.
use zcm.Prelude.{
  ℕ, zero, suc, ◌+◌, ◌-◌, ◌*◌, ◌%◌, ◌^◌, ◌≤◌, ◌<◌, ◌≡◌, ◌≢◌, ◌∙◌, inl, inr, ap, refl, arith,
  Bool-cases, [], ◌==◌, min, length, get_or, ==_iff, equal_other,
}
use zcm.Transport.{channel_maxlen, Msg}
use zcm.Udp.Send.{
  Sent, all_sent, zero_status, end_of_rest, sanity_check, fragments_status, firstfrag_datasize,
  Datagram, fragment, fragment_max_payload, short_message_max_size, fragment_count, send_rest,
  send_fragments,
}
use zcm.Udp.Reassembly.Placing.{Cut}
use zcm.Udp.Reassembly.Wire.{datagram_at}

pub count_bounds :
    (payload_size : ℕ)
    → fragment_max_payload < payload_size
    → (payload_size ≤ fragment_count payload_size * fragment_max_payload)
      × ((fragment_count payload_size - 1) * fragment_max_payload < payload_size)
      × (1 ≤ fragment_count payload_size)
unfolding fragment_count
count_bounds n h = elim (Bool-cases ((n % fragment_max_payload) == 0)) [
  | inl e ↦ let z = (==_iff _ _).0 e in rw e (omega arith, omega arith, omega arith)
  | inr e ↦
      let z : n % fragment_max_payload ≢ 0 = ground arith in
      rw e (omega arith, omega arith, omega arith)
]

abbrev pub nowhere : Datagram
nowhere = fragment 0 0 0 0 0 []

sanity_check-all : (len : ℕ) (r : Sent × ℕ) → r.0 ≡ all_sent → sanity_check len r ≡ zero_status
unfolding sanity_check
sanity_check-all len (status, offset) e = rw e refl

module _ (socket : ℕ → Sent) (seqno : ℕ) (msg : Msg)
    (short_channel : length msg.channel ≤ channel_maxlen)
    (large : short_message_max_size < length msg.channel + 1 + length msg.buf)
    (small : length msg.buf < 2 ^ 32) (taken : (k : ℕ) → socket k ≡ all_sent) where
  abbrev pub count : ℕ
  count = fragment_count (length msg.channel + 1 + length msg.buf)

  -- Where the data of the k-th fragment starts.
  abbrev pub start_of : ℕ → ℕ
  start_of k = min (length msg.buf) (k * fragment_max_payload - (length msg.channel + 1))

  pub start_of-Cut : Cut msg.buf count start_of
  start_of-Cut =
      let (covers, last_used, some) =
        count_bounds (length msg.channel + 1 + length msg.buf) (omega arith) in
      record {
        first = omega arith;
        last = omega arith;
        grows = λ k. omega arith;
        inside = λ k h. omega arith;
        not_empty = λ k pos h. omega arith;
      }

  abbrev pub datagram : ℕ → Datagram
  datagram k = datagram_at seqno msg.channel msg.buf count start_of k

  send_rest-datagram :
      (m k i : ℕ)
      → 0 < k
      → k + m ≡ count
      → i < m
      → get_or (send_rest socket seqno msg.buf (length msg.buf) count (start_of k) k m) i nowhere
        ≡ datagram (k + i)
  unfolding send_rest
  send_rest-datagram zero k i pos e h = absurd (omega arith)
  send_rest-datagram (suc m) k zero pos e h =
      let len : min fragment_max_payload (length msg.buf - start_of k)
          ≡ start_of (suc k) - start_of k =
        omega arith in
      let same : k + 0 ≡ k = omega arith in rw (same, len, equal_other k 0 (omega arith)) refl
  send_rest-datagram (suc m) k (suc i) pos e h =
      let next : start_of k + min fragment_max_payload (length msg.buf - start_of k)
          ≡ start_of (suc k) =
        omega arith in
      let number : k + 1 ≡ suc k = omega arith in
      rw (taken k, next, number)
        (send_rest-datagram m (suc k) i (omega arith) (omega arith) (omega arith)
          ∙ ap datagram {x = suc k + i} {y = k + suc i} (omega arith))

  -- Fragment by fragment.
  pub send_fragments-datagram :
      (k : ℕ) → k < count → get_or (send_fragments socket seqno msg count) k nowhere ≡ datagram k
  unfolding send_fragments
  send_fragments-datagram zero h =
      let zero_start : start_of 0 ≡ 0 = omega arith in
      let len : start_of 1 - start_of 0 ≡ fragment_max_payload - (length msg.channel + 1) =
        omega arith in
      let no_wrap : length msg.buf % 2 ^ 32 ≡ length msg.buf = omega arith in
      rw (len, zero_start, no_wrap) refl
  send_fragments-datagram (suc k) h =
      let first : fragment_max_payload - (length msg.channel + 1) ≡ start_of 1 = omega arith in
      let no_wrap : length msg.buf % 2 ^ 32 ≡ length msg.buf = omega arith in
      rw (taken 0, first, no_wrap)
        (send_rest-datagram (count - 1) 1 k (omega arith) (omega arith) (omega arith)
          ∙ ap datagram {x = 1 + k} {y = suc k} (omega arith))

  end_of_rest-all :
      (n len offset frag_no : ℕ) → (end_of_rest socket len offset frag_no all_sent n).0 ≡ all_sent
  unfolding end_of_rest
  end_of_rest-all zero len offset frag_no = refl
  end_of_rest-all (suc n) len offset frag_no =
      rw (taken frag_no)
        (end_of_rest-all n len (offset + min fragment_max_payload (len - offset)) (frag_no + 1))

  -- The assertion is not reached with a status of 0.
  pub fragments_status-all : fragments_status socket msg count ≡ zero_status
  unfolding fragments_status
  fragments_status-all = rw (taken 0) (
      sanity_check-all (length msg.buf) _
        (end_of_rest-all (count - 1) (length msg.buf % 2 ^ 32) (firstfrag_datasize msg) 1))
