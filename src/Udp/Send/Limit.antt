-- ===== src/Udp/Send/Limit.antt =====
-- The limit on the number of fragments.
use zcm.Prelude.{
  ℕ, ◌+◌, ◌%◌, ◌^◌, ◌≤◌, ◌<◌, ◌≡◌, ◌≢◌, inl, inr, arith, false, Bool-cases, length, ltb, leb,
  leb→gt, ge→ltb, ◌==◌,
}
use zcm.Transport.{channel_maxlen, Msg}
use zcm.Udp.Send.{
  Sent, all_sent, zero_sent, other_sent, too_much_status, short_status, sanity_check,
  fragments_status, fragment_max_payload, fragment_count, is_short, sendmsg,
}

fragment_count_bound : (n : ℕ) → n < 2 ^ 31 → fragment_count n ≤ 65535
unfolding fragment_count
fragment_count_bound n h = elim (Bool-cases ((n % fragment_max_payload) == 0)) [
  | inl e ↦ rw e (omega arith)
  | inr e ↦ rw e (omega arith)
]

not_short_bound : (n : ℕ) → is_short n ≡ false → n < 2 ^ 31
not_short_bound n h = elim (Bool-cases (leb (2 ^ 31) n)) [
  | inl e ↦ let c = rw e at h in absurd (cc c)
  | inr e ↦ leb→gt (2 ^ 31) n e
]

short_status_other : (s : Sent) → short_status s ≢ too_much_status
short_status_other all_sent e = absurd (cc e)
short_status_other zero_sent e = absurd (cc e)
short_status_other other_sent e = absurd (cc e)

sanity_check_other : (len : ℕ) (r : Sent × ℕ) → sanity_check len r ≢ too_much_status
unfolding sanity_check
sanity_check_other len (all_sent, offset) e = absurd (cc e)
sanity_check_other len (other_sent, offset) e = absurd (cc e)
sanity_check_other len (zero_sent, offset) e = elim (Bool-cases (offset == len)) [
  | inl z ↦ let c = rw z at e in absurd (cc c)
  | inr z ↦ let c = rw z at e in absurd (cc c)
]

-- `sendmsg` answers no message, of any size, with the status for too much data: `payload_size` is an
-- `int`, and one that is not negative never takes more than 65535 fragments.
pub sendmsg-never_too_much :
    (socket : ℕ → Sent) (seqno : ℕ) (msg : Msg) → (sendmsg socket seqno msg).0 ≢ too_much_status
unfolding sendmsg fragments_status
sendmsg-never_too_much socket seqno msg =
    let size = (length msg.channel + 1 + length msg.buf) % 2 ^ 32 in
    elim (Bool-cases (ltb channel_maxlen (length msg.channel))) [
      | inl e ↦ rw e (λ c. absurd (cc c))
      | inr e ↦ elim (Bool-cases (is_short size)) [
        | inl s ↦ rw (e, s) (short_status_other (socket 0))
        | inr s ↦
            let few =
              ge→ltb 65535 (fragment_count size)
                (fragment_count_bound size (not_short_bound size s)) in
            rw (e, s, few) (sanity_check_other (length msg.buf) _)
      ]
    ]
