-- ===== src/Udp/Recv/NoFault.antt =====
-- `recvFragment` and the pool: whatever arrives, no buffer is overrun.
use zcm.Prelude.{
  ℕ, zero, suc, ◌+◌, ◌-◌, ◌*◌, ◌≡◌, refl, arith, inl, inr, Bool, true, false, not, ◌&&◌, ◌||◌, List,
  [], ◌∷◌, ◌++◌, none, ltb, leb, ◌==◌, length, get_or, set, take, All, Bool-cases, Option-cases,
  All-get_or, length-append, length-replicate,
}
use zcm.Udp.Pool.{
  FragBuf, MessagePool, Sizes, blank, remove_at, eldest_index, make_room, add_frag_buf,
  sockaddr_equal, lookup_frag_buf, Sockaddr,
}
use zcm.Udp.Recv.{
  Packet, Part, payload_offset, parse_part, Placed, Udp, Outcome, nothing, fault, complete, discard,
  store_in, add_for, recv_part, recv_fragment,
}
use zcm.Udp.Recv.InBounds.{
  Sized, Checked, OnSome, Safe, safe_duplicate, safe_conflict, safe_placed, parse_part-Checked,
  store-Safe,
}

abbrev pub is_fault : Outcome → Bool
is_fault nothing = false
is_fault fault = true
is_fault (complete m) = false

-- No buffer was overrun, and every buffer has its size.
abbrev pub Clean : Outcome × Udp → Type 0
Clean r = (is_fault r.0 ≡ false) × All Sized r.1.pool.fragbufs

module _ (P : FragBuf → Type 0) where
  All-set : (xs : List FragBuf) (i : ℕ) (f : FragBuf) → All P xs → P f → All P (set xs i f)
  All-set [] i f h p = tt
  All-set (x ∷ xs) zero f (q, h) p = (p, h)
  All-set (x ∷ xs) (suc i) f (q, h) p = (q, All-set xs i f h p)

  All-take : (n : ℕ) (xs : List FragBuf) → All P xs → All P (take n xs)
  All-take zero xs h = tt
  All-take (suc n) [] h = tt
  All-take (suc n) (x ∷ xs) (p, h) = (p, All-take n xs h)

  All-remove_at :
      (pool : MessagePool) (i : ℕ) → All P pool.fragbufs → All P (remove_at pool i).fragbufs
  unfolding remove_at
  All-remove_at pool i h =
      All-take (length pool.fragbufs - 1) _ (last_for_removed pool.fragbufs i h)
    where
      last_for_removed :
          (xs : List FragBuf) (i : ℕ)
          → All P xs
          → All P (set xs i (get_or xs (length xs - 1) blank))
      last_for_removed [] i h = tt
      last_for_removed (x ∷ xs) i h =
          All-set (x ∷ xs) i _ h (All-get_or P (x ∷ xs) (length (x ∷ xs) - 1) blank h (omega arith))

  pub All-make_room :
      (fuel allocated : ℕ) (pool : MessagePool)
      → All P pool.fragbufs
      → All P (make_room fuel allocated pool).fragbufs
  unfolding make_room
  All-make_room zero allocated pool h = h
  All-make_room (suc fuel) allocated pool h =
      let k =
        All-make_room fuel allocated (remove_at pool (eldest_index pool.fragbufs))
          (All-remove_at pool (eldest_index pool.fragbufs) h) in
      elim (Bool-cases (
        not (length pool.fragbufs == 0)
        && (ltb pool.max_size (pool.total_size + allocated)
            || leb pool.max_buffers (length pool.fragbufs)))) [ inl e ↦ rw e k | inr e ↦ rw e h ]

  All-set_last :
      (xs : List FragBuf) (f g : FragBuf) (i : ℕ)
      → i ≡ length xs
      → All P xs
      → P g
      → All P (set (xs ++ (f ∷ [])) i g)
  All-set_last [] f g zero e h p = (p, tt)
  All-set_last [] f g (suc i) e h p = absurd (omega arith)
  All-set_last (x ∷ xs) f g zero e h p = absurd (omega arith)
  All-set_last (x ∷ xs) f g (suc i) e (q, h) p = (q, All-set_last xs f g i (omega arith) h p)

  lookup_lem :
      (key : Sockaddr) (seqno : ℕ) (xs : List FragBuf)
      → All P xs
      → OnSome (λ r. P r.1) (lookup_frag_buf key seqno xs)
  unfolding lookup_frag_buf
  lookup_lem key seqno [] h = tt
  lookup_lem key seqno (x ∷ xs) (p, h) =
      let k = lookup_lem key seqno xs h in
      elim (Bool-cases (sockaddr_equal x.from key && x.msg_seqno == seqno)) [
        | inl e ↦ rw e p
        | inr e ↦ elim (Option-cases (lookup_frag_buf key seqno xs)) [
          | inl e' ↦ rw (e, e') tt
          | inr (r, e') ↦ rw (e, e') (rw e' at k)
        ]
      ]

snoc_last : (xs : List FragBuf) (f : FragBuf) → length (xs ++ (f ∷ [])) - 1 ≡ length xs
snoc_last xs f = let l = length-append xs (f ∷ []) in omega arith

add_for-Sized :
    (sizes : Sizes) (pool : MessagePool) (now : ℕ) (from : Sockaddr) (p : Part)
    → All Sized pool.fragbufs
    → let (f, pool') = add_for sizes pool now from p in
      Sized f × (f.data_size ≡ p.data_size) × All Sized pool'.fragbufs
unfolding add_for add_frag_buf
add_for-Sized sizes pool now from p h =
    let room =
      All-make_room Sized (length pool.fragbufs)
        (payload_offset p.data_size
          + p.data_size
          + sizes.of_frag_buf
          + p.fragments_in_msg * sizes.of_fragment)
        pool h in
    let s = length-replicate (payload_offset p.data_size + p.data_size) none in
    (s, refl, All-set_last Sized _ _ _ _ (snoc_last _ _) room s)

store_in-Clean :
    (u : Udp) (pool : MessagePool) (i : ℕ) (p : Part) (s : Placed)
    → Safe s
    → All Sized pool.fragbufs
    → Clean (store_in u pool i p s)
unfolding store_in discard
store_in-Clean u pool i p _ safe_duplicate h = (refl, h)
store_in-Clean u pool i p _ safe_conflict h = (refl, All-remove_at Sized pool i h)
store_in-Clean u pool i p _ (safe_placed f s) h =
    let k = All-set Sized pool.fragbufs i f h s in
    elim (Bool-cases (ltb 0 f.fragments_remaining)) [
      | inl e ↦ rw e (refl, k)
      | inr e ↦
          rw e (refl, All-remove_at Sized (record pool { fragbufs = set pool.fragbufs i f }) i k)
    ]

recv_part-Clean :
    (sizes : Sizes) (now : ℕ) (u : Udp) (pkt : Packet) (p : Part)
    → All Sized u.pool.fragbufs
    → Checked p
    → Clean (recv_part sizes now u pkt p)
unfolding recv_part discard
recv_part-Clean sizes now u pkt p h c =
    elim (Option-cases (lookup_frag_buf pkt.from p.msg_seqno u.pool.fragbufs)) [
      | inl e ↦
          let (s, d, k) = add_for-Sized sizes u.pool now pkt.from p h in
          let (f, pool) = add_for sizes u.pool now pkt.from p in
          rw (e, recv_part) (store_in-Clean u pool _ p _ (store-Safe now pkt.utime f p s d c) k)
      | inr (r, e) ↦
          let s = rw e at (lookup_lem Sized pkt.from p.msg_seqno u.pool.fragbufs h) in
          elim (Bool-cases (
            not (r.1.data_size == p.data_size)
            || not (length r.1.fragments == p.fragments_in_msg))) [
              | inl m ↦ rw (e, m, recv_part) (refl, All-remove_at Sized u.pool r.0 h)
              | inr m ↦
                  let d : r.1.data_size ≡ p.data_size = ground arith in
                  rw (e, m, recv_part)
                    (store_in-Clean u u.pool r.0 p _ (store-Safe now pkt.utime r.1 p s d c) h)
            ]
    ]

-- If every buffer of the pool has the size for its message, then `recvFragment` writes outside of no
-- buffer, whatever datagram arrives, and every buffer still has its size.
pub recv_fragment-Clean :
    (sizes : Sizes) (now : ℕ) (u : Udp) (pkt : Packet)
    → All Sized u.pool.fragbufs
    → Clean (recv_fragment sizes now u pkt)
unfolding recv_fragment discard
recv_fragment-Clean sizes now u pkt h = elim (Option-cases (parse_part pkt.bytes)) [
  | inl e ↦ rw (e, recv_fragment) (refl, h)
  | inr (p, e) ↦
      rw (e, recv_fragment)
        (recv_part-Clean sizes now u pkt p h (rw e at (parse_part-Checked pkt.bytes)))
]
