-- ===== src/Udp/Recv.antt =====
-- `UDP::recvFragment` of zcm/transport/udp/udp.cpp: a fragment is checked, stored in its place and, if
-- it is the last to come, completes its message.
pub mod InBounds
pub mod NoFault
use zcm.Prelude.{
  ℕ, zero, suc, ◌+◌, ◌%◌, ◌^◌, ◌-◌, ◌*◌, ◌^◌, Bool, true, false, not, ◌&&◌, ◌||◌, List, [], ◌∷◌,
  ◌++◌, Option, none, some, if◌then◌else◌, ltb, leb, ◌==◌, length, get_or, set, take, drop, min,
}
use zcm.Transport.{channel_maxlen}
use zcm.Udp.Pool.{
  Sockaddr, Fragment, FragBuf, MessagePool, Sizes, blank, remove_at, add_frag_buf, lookup_frag_buf,
}

abbrev pub mtu : ℕ
mtu = 2 ^ 28

-- `sizeof(MsgHeaderLong)`
abbrev pub header_bytes : ℕ
header_bytes = 20

-- A datagram: its bytes are `sz` in number.
pub record Packet : Type 0 where
  pub utime : ℕ
  pub from : Sockaddr
  pub bytes : List ℕ

-- Integers in network order, at a position of the datagram.
abbrev pub get_u16 : List ℕ → ℕ → ℕ
get_u16 bs i = get_or bs i 0 * 2 ^ 8 + get_or bs (i + 1) 0

abbrev pub get_u32 : List ℕ → ℕ → ℕ
get_u32 bs i = get_u16 bs i * 2 ^ 16 + get_u16 bs (i + 2)

-- A fragment that has passed the checks of its own fields.
pub record Part : Type 0 where
  pub msg_seqno : ℕ
  pub data_size : ℕ
  pub fragment_offset : ℕ
  pub fragment_no : ℕ
  pub fragments_in_msg : ℕ
  pub payload : List ℕ
  -- Of the first fragment.
  pub channel : List ℕ

-- Where the payload starts in the buffer of a message.
unfoldable pub payload_offset : ℕ → ℕ
payload_offset data_size = min (channel_maxlen + 1) (mtu - data_size)

-- `memchr(…, '\0', …)`: how many bytes stand before the first zero.
unfoldable pub before_zero : List ℕ → Option ℕ
before_zero [] = none
before_zero (b ∷ bs) =
    let rest = before_zero bs in
    if b == 0 then some 0 else elim rest [ none ↦ none | some n ↦ some (n + 1) ]

-- The tests of offset and size.
unfoldable pub check_part : Part → Option Part
check_part p =
    let frag_size = length p.payload in
    if ltb p.data_size p.fragment_offset
      || ltb (p.data_size - p.fragment_offset) frag_size
      || (not (p.fragment_no == 0) && frag_size == 0)
      || ((p.fragment_no + 1) == p.fragments_in_msg
          && not ((p.fragment_offset + frag_size) == p.data_size))
    then none
    else some p

-- The channel in front of the payload of the first fragment.
unfoldable pub take_channel : Part → Option Part
take_channel p =
    if p.fragment_no == 0
    then elim (before_zero (take (min (length p.payload) (payload_offset p.data_size)) p.payload)) [
      | none ↦ none
      | some channel_sz ↦
          if p.fragment_offset == 0
          then some (record p {
            channel = take channel_sz p.payload;
            payload = drop (channel_sz + 1) p.payload;
          })
          else none
    ]
    else some p

-- The fields of the datagram.
abbrev pub header_part : List ℕ → Part
header_part bytes = record {
  msg_seqno = get_u32 bytes 4;
  data_size = get_u32 bytes 8;
  fragment_offset = get_u32 bytes 12;
  fragment_no = get_u16 bytes 16;
  fragments_in_msg = get_u16 bytes 18;
  payload = drop header_bytes bytes;
  channel = [];
}

-- Every check that needs nothing but the datagram; `none` is discarded as bad.
unfoldable pub parse_part : List ℕ → Option Part
parse_part bytes =
    let p = header_part bytes in
    if ltb (length bytes) header_bytes
    then none
    else if ltb mtu p.data_size || p.fragments_in_msg == 0 || leb p.fragments_in_msg p.fragment_no
    then none
    else elim (take_channel p) [ none ↦ none | some q ↦ check_part q ]

-- `memcpy` into a buffer; `none` if it writes outside.
unfoldable pub write_at : List (Option ℕ) → ℕ → List ℕ → Option (List (Option ℕ))
write_at buf i [] = some buf
write_at buf i (b ∷ bs) =
    if ltb i (length buf) then write_at (set buf i (some b)) (i + 1) bs else none

-- `memcmp(…) == 0`
unfoldable pub same_bytes : List (Option ℕ) → ℕ → List ℕ → Bool
same_bytes buf i [] = true
same_bytes buf i (b ∷ bs) =
    let rest = same_bytes buf (i + 1) bs in
    elim (get_or buf i none) [ none ↦ false | some c ↦ if c == b then rest else false ]

-- What a fragment does: nothing more is to be done, it is bad and its message is dropped, a write
-- outside of the buffer, or the message with this fragment stored.
pub data Placed : Type 0 where
  duplicate conflict overrun : Placed
  placed : FragBuf → Placed

abbrev pub no_fragment : Fragment
no_fragment = record { offset = 0; size = 0; received = false }

-- The test of a fragment that is there already.
unfoldable pub same_part : FragBuf → Part → Bool
same_part f p =
    let fragment = get_or f.fragments p.fragment_no no_fragment in
    fragment.offset == p.fragment_offset
    && fragment.size == length p.payload
    && same_bytes f.buf (payload_offset p.data_size + p.fragment_offset) p.payload
    && (not (p.fragment_no == 0)
        || (f.channellen == length p.channel && same_bytes f.buf 0 (p.channel ++ (0 ∷ []))))

-- The tests against the fragment before and the one behind.
unfoldable pub adjacent : FragBuf → Part → Bool
adjacent f p =
    let prev = get_or f.fragments (p.fragment_no - 1) no_fragment in
    let next = get_or f.fragments (p.fragment_no + 1) no_fragment in
    (p.fragment_no == 0 || not prev.received || (prev.offset + prev.size) == p.fragment_offset)
    && (leb p.fragments_in_msg (p.fragment_no + 1)
        || not next.received
        || (p.fragment_offset + length p.payload) == next.offset)

-- The channel goes to the front of the buffer.
unfoldable pub store_channel : FragBuf → Part → Option FragBuf
store_channel f p =
    if p.fragment_no == 0
    then elim (write_at f.buf 0 (p.channel ++ (0 ∷ []))) [
      | none ↦ none
      | some buf ↦ some (record f { buf = buf; channellen = length p.channel })
    ]
    else some f

abbrev pub with_payload : ℕ → ℕ → FragBuf → Part → List (Option ℕ) → FragBuf
with_payload now utime f p buf = record f {
  buf = buf;
  fragments =
      set f.fragments p.fragment_no
        (record { offset = p.fragment_offset; size = length p.payload; received = true });
  last_packet_utime = utime;
  last_progress = now;
  fragments_remaining = f.fragments_remaining - 1;
}

unfoldable pub store_payload : ℕ → ℕ → FragBuf → Part → Option FragBuf
store_payload now utime f p =
    elim (write_at f.buf (payload_offset p.data_size + p.fragment_offset) p.payload) [
      | none ↦ none
      | some buf ↦ some (with_payload now utime f p buf)
    ]

unfoldable pub store : ℕ → ℕ → FragBuf → Part → Placed
store now utime f p =
    if (get_or f.fragments p.fragment_no no_fragment).received
    then (if same_part f p then duplicate else conflict)
    else if not (adjacent f p)
    then conflict
    else elim (store_channel f p) [
      | none ↦ overrun
      | some g ↦ elim (store_payload now utime g p) [ none ↦ overrun | some h ↦ placed h ]
    ]

-- A complete message.
pub record Message : Type 0 where
  pub utime : ℕ
  pub channel : List (Option ℕ)
  pub payload : List (Option ℕ)

pub record Udp : Type 0 where
  pub pool : MessagePool
  pub udp_discarded_bad : ℕ

-- How `recvFragment` ends: null, a message, or a write outside of a buffer.
pub data Outcome : Type 0 where
  nothing fault : Outcome
  complete : Message → Outcome

unfoldable pub discard : MessagePool → Udp → Outcome × Udp
discard pool u =
    (nothing, record { pool = pool; udp_discarded_bad = (u.udp_discarded_bad + 1) % 2 ^ 32 })

abbrev pub message_of : FragBuf → Part → Message
message_of f p = record {
  utime = f.last_packet_utime;
  channel = take f.channellen f.buf;
  payload = take p.data_size (drop (payload_offset p.data_size) f.buf);
}

-- The fragment is stored in the i-th message of the pool.
-- `fragments_remaining` starts at `fragments_in_msg`, which is positive, and the message leaves the pool
-- when it is 0, so it does not wrap round.
unfoldable pub store_in : Udp → MessagePool → ℕ → Part → Placed → Outcome × Udp
store_in u pool i p duplicate = (nothing, record u { pool = pool })
store_in u pool i p conflict = discard (remove_at pool i) u
store_in u pool i p overrun = (fault, u)
store_in u pool i p (placed f) =
    let pool' = record pool { fragbufs = set pool.fragbufs i f } in
    if ltb 0 f.fragments_remaining
    then (nothing, record u { pool = pool' })
    else (complete (message_of f p), record u { pool = remove_at pool' i })

-- The message that `recvFragment` adds to the pool.
unfoldable pub add_for : Sizes → MessagePool → ℕ → Sockaddr → Part → FragBuf × MessagePool
add_for sizes pool now from p =
    let (f, pool') =
      add_frag_buf sizes pool now (payload_offset p.data_size + p.data_size) p.fragments_in_msg in
    let i = length pool'.fragbufs - 1 in
    let g = record f {
      msg_seqno = p.msg_seqno;
      data_size = p.data_size;
      fragments_remaining = p.fragments_in_msg;
      from = from;
    } in
    (g, record pool' { fragbufs = set pool'.fragbufs i g })

-- From the look-up on.
unfoldable pub recv_part : Sizes → ℕ → Udp → Packet → Part → Outcome × Udp
recv_part sizes now u pkt p = elim (lookup_frag_buf pkt.from p.msg_seqno u.pool.fragbufs) [
  | none ↦
      let (f, pool) = add_for sizes u.pool now pkt.from p in
      store_in u pool (length pool.fragbufs - 1) p (store now pkt.utime f p)
  | some r ↦
      let (i, f) = r in
      if not (f.data_size == p.data_size) || not (length f.fragments == p.fragments_in_msg)
      then discard (remove_at u.pool i) u
      else store_in u u.pool i p (store now pkt.utime f p)
]

unfoldable pub recv_fragment : Sizes → ℕ → Udp → Packet → Outcome × Udp
recv_fragment sizes now u pkt = elim (parse_part pkt.bytes) [
  | none ↦ discard u.pool u
  | some p ↦ recv_part sizes now u pkt p
]
