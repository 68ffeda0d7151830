-- ===== src/Udp/Pool.antt =====
-- `MessagePool` of zcm/transport/udp/buffers.cpp: the messages of which some fragments have come.
pub mod Budget
pub mod Expire
use zcm.Prelude.{
  ℕ, zero, suc, ◌+◌, ◌-◌, ◌*◌, Bool, true, false, ◌&&◌, ◌||◌, not, List, [], ◌∷◌, ◌++◌, Option,
  none, some, if◌then◌else◌, ltb, leb, ◌==◌, length, get_or, set, take, replicate,
}

-- The three fields of `sockaddr_in` that `sockaddrEqual` compares.
pub record Sockaddr : Type 0 where
  pub addr : ℕ
  pub port : ℕ
  pub family : ℕ

pub record Fragment : Type 0 where
  pub offset : ℕ
  pub size : ℕ
  pub received : Bool

-- A byte of `buf` is `none` while nothing has been written to it. `last_progress` is in microseconds.
pub record FragBuf : Type 0 where
  pub last_packet_utime : ℕ
  pub msg_seqno : ℕ
  pub data_size : ℕ
  pub fragments_remaining : ℕ
  pub channellen : ℕ
  pub from : Sockaddr
  pub fragments : List Fragment
  pub allocated_size : ℕ
  pub last_progress : ℕ
  pub buf : List (Option ℕ)

pub record MessagePool : Type 0 where
  pub fragbufs : List FragBuf
  pub max_size : ℕ
  pub max_buffers : ℕ
  pub total_size : ℕ

-- The platform's sizes of the two structs.
pub record Sizes : Type 0 where
  pub of_frag_buf : ℕ
  pub of_fragment : ℕ

unfoldable pub sockaddr_equal : Sockaddr → Sockaddr → Bool
sockaddr_equal a b = a.addr == b.addr && a.port == b.port && a.family == b.family

unfoldable pub new_pool : ℕ → ℕ → MessagePool
new_pool max_size max_buffers = record {
  fragbufs = [];
  max_size = max_size;
  max_buffers = max_buffers;
  total_size = 0;
}

-- A `FragBuf{}` with none of its fields set.
abbrev pub blank : FragBuf
blank = record {
  last_packet_utime = 0;
  msg_seqno = 0;
  data_size = 0;
  fragments_remaining = 0;
  channellen = 0;
  from = record { addr = 0; port = 0; family = 0 };
  fragments = [];
  allocated_size = 0;
  last_progress = 0;
  buf = [];
}

-- `_removeFragBuf`: the last element takes the place of the one removed.
unfoldable pub remove_at : MessagePool → ℕ → MessagePool
remove_at p index =
    let last_idx = length p.fragbufs - 1 in
    record p {
      fragbufs = take last_idx (set p.fragbufs index (get_or p.fragbufs last_idx blank));
      total_size = p.total_size - (get_or p.fragbufs index blank).allocated_size;
    }

-- The loop of `addFragBuf` that looks for the eldest, from the i-th element on.
unfoldable pub eldest_from : ℕ → List FragBuf → ℕ → FragBuf → ℕ
eldest_from i [] idx eldest = idx
eldest_from i (f ∷ fs) idx eldest =
    let older = ltb f.last_packet_utime eldest.last_packet_utime in
    eldest_from (i + 1) fs (if older then i else idx) (if older then f else eldest)

-- The first element is always taken.
unfoldable pub eldest_index : List FragBuf → ℕ
eldest_index [] = 0
eldest_index (f ∷ fs) = eldest_from 1 fs 0 f

-- The loop of `addFragBuf` that makes room; a round removes an element, so as many rounds as there
-- are elements are enough.
unfoldable pub make_room : ℕ → ℕ → MessagePool → MessagePool
make_room zero allocated p = p
make_room (suc fuel) allocated p =
    let rest = make_room fuel allocated (remove_at p (eldest_index p.fragbufs)) in
    if not (length p.fragbufs == 0)
      && (ltb p.max_size (p.total_size + allocated) || leb p.max_buffers (length p.fragbufs))
    then rest
    else p

-- `addFragBuf`, with the time: the new element and the pool that it is the last of.
unfoldable pub add_frag_buf : Sizes → MessagePool → ℕ → ℕ → ℕ → FragBuf × MessagePool
add_frag_buf sizes p now data_size fragments_in_msg =
    let allocated = data_size + sizes.of_frag_buf + fragments_in_msg * sizes.of_fragment in
    let p' = make_room (length p.fragbufs) allocated p in
    let fbuf = record blank {
      buf = replicate data_size none;
      fragments = replicate fragments_in_msg (record { offset = 0; size = 0; received = false });
      allocated_size = allocated;
      last_progress = now;
    } in
    (
      fbuf,
      record p' { fragbufs = p'.fragbufs ++ (fbuf ∷ []); total_size = p'.total_size + allocated },
    )

-- `lookupFragBuf`, with the position in the pool.
unfoldable pub lookup_frag_buf : Sockaddr → ℕ → List FragBuf → Option (ℕ × FragBuf)
lookup_frag_buf key seqno [] = none
lookup_frag_buf key seqno (f ∷ fs) =
    if sockaddr_equal f.from key && f.msg_seqno == seqno
    then some (0, f)
    else elim (lookup_frag_buf key seqno fs) [ none ↦ none | some r ↦ some (r.0 + 1, r.1) ]

-- The loop of `expireFragBufs` from the i-th element on; a round removes an element or passes one.
unfoldable pub expire_from : ℕ → ℕ → ℕ → MessagePool → MessagePool
expire_from zero now i p = p
expire_from (suc fuel) now i p =
    let removed = expire_from fuel now i (remove_at p i) in
    let passed = expire_from fuel now (i + 1) p in
    if leb (length p.fragbufs) i
    then p
    else if leb 5000000 (now - (get_or p.fragbufs i blank).last_progress)
    then removed
    else passed

unfoldable pub expire_frag_bufs : ℕ → MessagePool → MessagePool
expire_frag_bufs now p = expire_from (length p.fragbufs) now 0 p
