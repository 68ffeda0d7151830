-- ===== src/Udp/Send.antt =====
-- `UDP::sendmsg` of zcm/transport/udp/udp.cpp: a message is sent in one datagram, or in fragments.
pub mod Whole
pub mod Limit
use zcm.Prelude.{
  ℕ, zero, suc, ◌+◌, ◌-◌, ◌*◌, ◌/◌, ◌%◌, ◌^◌, Bool, true, false, List, [], ◌∷◌, ◌++◌, if◌then◌else◌,
  ltb, leb, ◌==◌, length, take, drop, min,
}
use zcm.Transport.{channel_maxlen, Msg}

abbrev pub fragment_max_payload : ℕ
fragment_max_payload = 65487

abbrev pub short_message_max_size : ℕ
short_message_max_size = 65499

-- What is handed to the socket: a short message, or a fragment with the fields of its header.
pub data Datagram : Type 0 where
  short : (msg_seqno : ℕ) (payload : List ℕ) → Datagram
  fragment :
      (msg_seqno msg_size fragment_offset fragment_no fragments_in_msg : ℕ) (payload : List ℕ)
      → Datagram

-- The value of `sendmsg`: 0, `ZCM_EINVALID`, -1, or the status of the socket; or its assertion fails.
pub data SendStatus : Type 0 where
  zero_status invalid_status too_much_status socket_status assert_failed : SendStatus

-- The status that the socket gives for a datagram: `packet_size`, 0 or another, as an error.
pub data Sent : Type 0 where
  all_sent zero_sent other_sent : Sent

abbrev pub is_all_sent : Sent → Bool
is_all_sent all_sent = true
is_all_sent zero_sent = false
is_all_sent other_sent = false

-- How many fragments the payload takes.
unfoldable pub fragment_count : ℕ → ℕ
fragment_count payload_size =
    payload_size / fragment_max_payload
    + (if (payload_size % fragment_max_payload) == 0 then 0 else 1)

-- The loop over the fragments behind the first, `n` of which are left. `len` is what 32 bits keep of
-- the length of the data, and `socket k` the status of the k-th datagram of the message, if it is
-- given to the socket; the loop stops at one that is not taken whole.
unfoldable pub send_rest : (ℕ → Sent) → ℕ → List ℕ → ℕ → ℕ → ℕ → ℕ → ℕ → List Datagram
send_rest socket seqno buf len count offset frag_no zero = []
send_rest socket seqno buf len count offset frag_no (suc n) =
    let fraglen = min fragment_max_payload (len - offset) in
    let d = fragment seqno len offset frag_no count (take fraglen (drop offset buf)) in
    let rest = send_rest socket seqno buf len count (offset + fraglen) (frag_no + 1) n in
    d ∷ (if is_all_sent (socket frag_no) then rest else [])

-- `status` and `fragment_offset` when that loop ends.
unfoldable pub end_of_rest : (ℕ → Sent) → ℕ → ℕ → ℕ → Sent → ℕ → Sent × ℕ
end_of_rest socket len offset frag_no zero_sent n = (zero_sent, offset)
end_of_rest socket len offset frag_no other_sent n = (other_sent, offset)
end_of_rest socket len offset frag_no all_sent zero = (all_sent, offset)
end_of_rest socket len offset frag_no all_sent (suc n) =
    let fraglen = min fragment_max_payload (len - offset) in
    end_of_rest socket len (offset + fraglen) (frag_no + 1) (socket frag_no) n

-- The assertion behind the loop: with a status of 0, `fragment_offset` is the length of the data.
unfoldable pub sanity_check : ℕ → Sent × ℕ → SendStatus
sanity_check len (all_sent, offset) = zero_status
sanity_check len (other_sent, offset) = zero_status
sanity_check len (zero_sent, offset) = if offset == len then zero_status else assert_failed

-- The data in the first fragment, behind the channel. The payload is larger than a short message, so the
-- message has as much, as `sendmsg` asserts.
abbrev pub firstfrag_datasize : Msg → ℕ
firstfrag_datasize msg = fragment_max_payload - (length msg.channel + 1)

-- All fragments.
unfoldable pub send_fragments : (ℕ → Sent) → ℕ → Msg → ℕ → List Datagram
send_fragments socket seqno msg count =
    let first = firstfrag_datasize msg in
    let len = length msg.buf % 2 ^ 32 in
    let d = fragment seqno len 0 0 count (msg.channel ++ (0 ∷ take first msg.buf)) in
    let rest = send_rest socket seqno msg.buf len count first 1 (count - 1) in
    d ∷ (if is_all_sent (socket 0) then rest else [])

-- What is returned for fragments.
unfoldable pub fragments_status : (ℕ → Sent) → Msg → ℕ → SendStatus
fragments_status socket msg count =
    sanity_check (length msg.buf) (
      end_of_rest socket (length msg.buf % 2 ^ 32) (firstfrag_datasize msg) 1 (socket 0)
        (count - 1))

-- `(status == packet_size) ? 0 : status`
abbrev pub short_status : Sent → SendStatus
short_status all_sent = zero_status
short_status zero_sent = zero_status
short_status other_sent = socket_status

-- `payload_size` is an `int`: from 2 ^ 31 on it is negative, and so below the size of a short message.
abbrev pub is_short : ℕ → Bool
is_short payload_size =
    if leb (2 ^ 31) payload_size then true else leb payload_size short_message_max_size

-- With `msg_seqno`: the value returned, the next `msg_seqno` and what the socket was given. The channel
-- is shorter than 2 ^ 31.
unfoldable pub sendmsg : (ℕ → Sent) → ℕ → Msg → SendStatus × ℕ × List Datagram
sendmsg socket seqno msg =
    let channel_size = length msg.channel in
    let payload_size = (channel_size + 1 + length msg.buf) % 2 ^ 32 in
    let count = fragment_count payload_size in
    let next = (seqno + 1) % 2 ^ 32 in
    if ltb channel_maxlen channel_size
    then (invalid_status, seqno, [])
    else if is_short payload_size
    then (short_status (socket 0), next, short seqno (msg.channel ++ (0 ∷ msg.buf)) ∷ [])
    else if ltb 65535 count
    then (too_much_status, seqno, [])
    else (fragments_status socket msg count, next, send_fragments socket seqno msg count)
