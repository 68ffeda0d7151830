-- ===== src/Udp/Send/Whole.antt =====
-- A message of which the socket fails to send every datagram.
use zcm.Prelude.{
  ℕ, ◌+◌, ◌-◌, ◌%◌, ◌^◌, ◌≤◌, ◌<◌, ◌≡◌, refl, arith, List, [], ◌∷◌, ◌++◌, length, take, ge→ltb,
  gt→leb, length-append, length-take,
}
use zcm.Transport.{channel_maxlen, Msg}
use zcm.Udp.Send.{
  Datagram, other_sent, fragments_status, sanity_check, end_of_rest, short, fragment, zero_status,
  fragment_max_payload, short_message_max_size, fragment_count, send_fragments, sendmsg,
}
use zcm.Udp.Reassembly.Cutting.{count_bounds}

-- What the datagrams carry behind their headers, one after the other.
abbrev pub carried : List Datagram → List ℕ
carried [] = []
carried (short seqno payload ∷ ds) = payload ++ carried ds
carried (fragment seqno size offset frag_no count payload ∷ ds) = payload ++ carried ds

-- A message that takes several fragments, with a payload below 2 ^ 31 bytes, at a socket that gives an
-- error, and not 0, for each: only the first is handed to it, which does not carry the whole message,
-- and `sendmsg` returns 0 all the same.
pub sendmsg_hides_failure :
    (seqno : ℕ) (msg : Msg)
    → length msg.channel ≤ channel_maxlen
    → short_message_max_size < length msg.channel + 1 + length msg.buf
    → length msg.channel + 1 + length msg.buf < 2 ^ 31
    → let (status, next, datagrams) = sendmsg (λ k. other_sent) seqno msg in
      (status ≡ zero_status)
      × (length datagrams ≡ 1)
      × (length (carried datagrams) < length msg.channel + 1 + length msg.buf)
unfolding sendmsg send_fragments fragments_status sanity_check end_of_rest
sendmsg_hides_failure seqno msg c h n =
    let payload_size = length msg.channel + 1 + length msg.buf in
    let no_wrap : payload_size % 2 ^ 32 ≡ payload_size = omega arith in
    let (covers, last_used, some_used) = count_bounds payload_size (omega arith) in
    let first = fragment_max_payload - (length msg.channel + 1) in
    let l = length-append (msg.channel ++ (0 ∷ take first msg.buf)) [] in
    let l' = length-append msg.channel (0 ∷ take first msg.buf) in
    let t = length-take first msg.buf in
    rw
      (
        ge→ltb channel_maxlen (length msg.channel) c,
        no_wrap,
        gt→leb (2 ^ 31) payload_size n,
        gt→leb payload_size short_message_max_size h,
        ge→ltb 65535 (fragment_count payload_size) (omega arith),
      )
      (refl, refl, omega arith)
