-- ===== src/Udp/Reassembly/Pooled.antt =====
-- `recv_part` on the fragments of one message: its place in the pool.
use zcm.Prelude.{
  ℕ, ◌+◌, ◌-◌, ◌*◌, ◌≤◌, ◌<◌, ◌≡◌, ◌∙◌, inl, inr, ap, refl, sym, subst, arith, Bool, true, false,
  Bool-cases, List, [], ◌∷◌, ◌++◌, map, none, some, ltb, ltb→lt, ltb→ge, length, set,
  length-replicate, length-append, ==_iff, All,
}
use zcm.Udp.Pool.{
  Sockaddr, FragBuf, MessagePool, Sizes, make_room, add_frag_buf, remove_at, lookup_frag_buf,
}
use zcm.Udp.Recv.{
  Part, no_fragment, payload_offset, placed, Udp, Outcome, nothing, complete, store_in, add_for,
  recv_part,
}
use zcm.Udp.Recv.NoFault.{All-make_room}
use zcm.Udp.Reassembly.Placing.{Cut, part_at, mark, counted, counted-lt, Holding}
use zcm.Udp.Reassembly.Storing.{store-Taken}
use zcm.Udp.Reassembly.Complete.{store-duplicate, complete-Holding}
use zcm.Udp.Reassembly.Lookup.{
  packet_of, Other, set-last, lookup-none, lookup-last, same_key, get_or-replicate, counted-none,
  missing, mark_seen,
}

module _ (from : Sockaddr) (seqno : ℕ) (channel bytes : List ℕ) (n : ℕ) (start : ℕ → ℕ)
    (cut : Cut bytes n start) where
  abbrev part : ℕ → Part
  part k = part_at seqno channel bytes n start k

  -- The message is the last of the pool, with the fragments that were seen.
  pub record Waiting (seen : ℕ → Bool) (u : Udp) : Type 0 where
    pub others : List FragBuf
    pub message : FragBuf
    pub last_of_pool : u.pool.fragbufs ≡ others ++ (message ∷ [])
    pub others_differ : All (Other from seqno) others
    pub from_same : message.from ≡ from
    pub seqno_same : message.msg_seqno ≡ seqno
    pub holding : Holding seqno channel bytes n start cut seen message

  -- What has been done with the k-th fragment, `seen` before.
  pub data Progress (seen : ℕ → Bool) (utime : ℕ) : Outcome × Udp → Type 0 where
    going_on :
        (j : ℕ) (u : Udp)
        → j < n
        → seen j ≡ false
        → Waiting seen u
        → Progress seen utime (nothing, u)
    done :
        (u : Udp)
        → ((j : ℕ) → j < n → seen j ≡ true)
        → Progress seen utime (
          complete (record { utime = utime; channel = map some channel; payload = map some bytes }),
          u,
        )

  store_in-Progress :
      (u : Udp) (pool : MessagePool) (others : List FragBuf) (x f : FragBuf) (k utime : ℕ)
      (seen : ℕ → Bool)
      → pool.fragbufs ≡ others ++ (x ∷ [])
      → All (Other from seqno) others
      → f.from ≡ from
      → f.msg_seqno ≡ seqno
      → f.last_packet_utime ≡ utime
      → Holding seqno channel bytes n start cut seen f
      → 0 < n
      → length channel + 1 ≤ payload_offset (length bytes)
      → Progress seen utime (store_in u pool (length others) (part k) (placed f))
  unfolding store_in
  store_in-Progress u pool others x f k utime seen e a ef es et v pos fits =
      elim (Bool-cases (ltb 0 f.fragments_remaining)) [
        | inl b ↦
            let (j, l, s) =
              missing seen n (omega (arith, v.remaining, ltb→lt 0 f.fragments_remaining b)) in
            rw b (
              going_on j _ l s record {
                others = others;
                message = f;
                last_of_pool = ap (λ l. set l (length others) f) e ∙ set-last others x f;
                others_differ = a;
                from_same = ef;
                seqno_same = es;
                holding = v;
              })
        | inr b ↦
            let full : counted seen n ≡ n =
              omega (arith, v.remaining, ltb→ge 0 f.fragments_remaining b) in
            let all = every full in
            rw b (
              subst (λ m. Progress seen utime (complete m, finished))
                (sym (complete-Holding seqno channel bytes n start cut seen f k v all pos fits))
                (subst
                  (λ t. Progress seen utime (
                    complete (record {
                      utime = t;
                      channel = map some channel;
                      payload = map some bytes;
                    }),
                    finished,
                  ))
                  (sym et) (done finished all)))
      ]
    where
      finished : Udp
      finished = record u {
        pool =
            remove_at (record pool { fragbufs = set pool.fragbufs (length others) f })
              (length others);
      }

      every : counted seen n ≡ n → (j : ℕ) → j < n → seen j ≡ true
      every full j l = elim (Bool-cases (seen j)) [
        | inl s ↦ s
        | inr s ↦ absurd (omega (arith, counted-lt seen j n l s))
      ]

  record Fresh (f : FragBuf) (pool : MessagePool) : Type 0 where
    others : List FragBuf
    last_of_pool : pool.fragbufs ≡ others ++ (f ∷ [])
    position : length pool.fragbufs - 1 ≡ length others
    others_differ : All (Other from seqno) others
    from_same : f.from ≡ from
    seqno_same : f.msg_seqno ≡ seqno
    holding : Holding seqno channel bytes n start cut (λ k. false) f

  add_for-Fresh :
      (sizes : Sizes) (pool : MessagePool) (now k : ℕ)
      → All (Other from seqno) pool.fragbufs
      → let (f, pool') = add_for sizes pool now from (part k) in Fresh f pool'
  unfolding add_for add_frag_buf
  add_for-Fresh sizes pool now k a =
      let size = payload_offset (length bytes) + length bytes in
      let allocated = size + sizes.of_frag_buf + n * sizes.of_fragment in
      let room = make_room (length pool.fragbufs) allocated pool in
      let (f, pool') = add_for sizes pool now from (part k) in
      let (x, pool'') = add_frag_buf sizes pool now size n in
      let l = length-append room.fragbufs (x ∷ []) in
      let placed_last =
        ap (λ i. set (room.fragbufs ++ (x ∷ [])) i f) {x = length (room.fragbufs ++ (x ∷ [])) - 1}
          {y = length room.fragbufs} (omega arith)
        ∙ set-last room.fragbufs x f in
      let l' = length-append room.fragbufs (f ∷ []) in
      record {
        others = room.fragbufs;
        last_of_pool = placed_last;
        position = omega (arith, ap (λ (xs : List FragBuf). length xs) placed_last);
        others_differ = All-make_room (Other from seqno) (length pool.fragbufs) allocated pool a;
        from_same = refl;
        seqno_same = refl;
        holding = record {
          count = length-replicate n no_fragment;
          size = length-replicate size none;
          data_size = refl;
          remaining = omega (arith, counted-none n);
          slots = λ j h. get_or-replicate n j no_fragment;
          stored = λ j h e. absurd (cc e);
          channel_length = λ e. absurd (cc e);
          channel_stored = λ e. absurd (cc e);
        };
      }

  -- The first fragment that comes.
  pub recv_part-first :
      (sizes : Sizes) (now : ℕ) (u : Udp) (utime : ℕ) (raw : List ℕ) (k : ℕ)
      → All (Other from seqno) u.pool.fragbufs
      → k < n
      → length channel + 1 ≤ payload_offset (length bytes)
      → Progress
          (mark k (λ j. false))
          utime
          (recv_part sizes now u (packet_of from utime raw) (part k))
  unfolding recv_part
  recv_part-first sizes now u utime raw k a h fits =
      let (f, pool) = add_for sizes u.pool now from (part k) in
      let r = add_for-Fresh sizes u.pool now k a in
      let (f', e, t) =
        store-Taken seqno channel bytes n start cut now utime (λ j. false) f k r.holding h refl
          fits in
      rw (lookup-none from seqno u.pool.fragbufs a, r.position, e, recv_part)
        (store_in-Progress u pool r.others f f' k utime (mark k (λ j. false)) r.last_of_pool
          r.others_differ (t.from_same ∙ r.from_same) (t.seqno_same ∙ r.seqno_same) t.packet_utime
          t.holding (omega arith) fits)

  -- A fragment while the message is waiting: it may have come before.
  pub recv_part-Waiting :
      (sizes : Sizes) (now : ℕ) (u : Udp) (utime : ℕ) (raw : List ℕ) (k : ℕ) (seen : ℕ → Bool)
      (j : ℕ)
      → Waiting seen u
      → j < n
      → seen j ≡ false
      → k < n
      → length channel + 1 ≤ payload_offset (length bytes)
      → Progress (mark k seen) utime (recv_part sizes now u (packet_of from utime raw) (part k))
  unfolding recv_part store_in
  recv_part-Waiting sizes now u utime raw k seen j w l s h fits =
      let found =
        ap (lookup_frag_buf from seqno) w.last_of_pool
        ∙ lookup-last from seqno w.others w.message w.others_differ
            (same_key from seqno w.message w.from_same w.seqno_same) in
      rw
        (
          found,
          (==_iff w.message.data_size (length bytes)).1 w.holding.data_size,
          (==_iff (length w.message.fragments) n).1 w.holding.count,
          recv_part,
        )
        (elim (Bool-cases (seen k)) [
          | inl e ↦
              let same = mark_seen seen k e in
              rw
                (
                  store-duplicate seqno channel bytes n start cut now utime seen w.message k
                      w.holding h e,
                  same,
                )
                (going_on j u l s w)
          | inr e ↦
              let (f', p, t) =
                store-Taken seqno channel bytes n start cut now utime seen w.message k w.holding h e
                  fits in
              rw p (
                store_in-Progress u u.pool w.others w.message f' k utime (mark k seen)
                  w.last_of_pool w.others_differ (t.from_same ∙ w.from_same)
                  (t.seqno_same ∙ w.seqno_same) t.packet_utime t.holding (omega arith) fits)
        ])
