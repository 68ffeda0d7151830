-- ===== src/Udp/Reassembly/Storing.antt =====
-- `store` on a fragment of the message that was not seen: it takes its place.
use zcm.Prelude.{
  ℕ, zero, suc, ◌+◌, ◌-◌, ◌≤◌, ◌<◌, ◌≡◌, ◌≢◌, ◌∙◌, inl, inr, ap, refl, sym, subst, arith, Bool,
  true, false, Bool-cases, List, [], ◌∷◌, ◌++◌, Option, none, some, if◌then◌else◌, ltb, ◌==◌,
  length, get_or, set, length-set, length-append, ==_iff, equal_other, get_or-set_self,
  get_or-set_ne, ltb→lt, ltb→ge,
}
use zcm.Udp.Pool.{Fragment, FragBuf}
use zcm.Udp.Recv.{
  Part, no_fragment, payload_offset, with_payload, write_at, placed, store_channel, store_payload,
  store,
}
use zcm.Udp.Reassembly.Bytes.{Agrees, Written, write_at-Written}
use zcm.Udp.Reassembly.Placing.{
  Cut, slice, part_at, mark, counted-mark, counted-lt, Holding, slot_at, length-slice, slot_empty,
  adjacent-Holding,
}

abbrev slot : ℕ → ℕ → Fragment
slot offset size = record { offset = offset; size = size; received = true }

module _ (seqno : ℕ) (channel bytes : List ℕ) (n : ℕ) (start : ℕ → ℕ)
    (cut : Cut bytes n start) where
  abbrev base : ℕ
  base = payload_offset (length bytes)

  abbrev part : ℕ → Part
  part k = part_at seqno channel bytes n start k

  abbrev Holds : (ℕ → Bool) → FragBuf → Type 0
  Holds seen f = Holding seqno channel bytes n start cut seen f

  pub start_le : (i d : ℕ) → start i ≤ start (i + d)
  start_le i zero = omega (arith, ap start {x = i + 0} {y = i} (omega arith))
  start_le i (suc d) =
      let rest = start_le i d in
      let step = cut.grows (i + d) in
      omega (arith, ap start {x = i + suc d} {y = suc (i + d)} (omega arith))

  pub start-suc_le : (i j : ℕ) → i < j → start (suc i) ≤ start j
  start-suc_le i j h =
      let l = start_le (suc i) (j - suc i) in
      omega (arith, ap start {x = suc i + (j - suc i)} {y = j} (omega arith))

  -- The message with the channel, if the k-th fragment carries it.
  record Fronted (k : ℕ) (seen : ℕ → Bool) (f g : FragBuf) : Type 0 where
    fragments_same : g.fragments ≡ f.fragments
    remaining_same : g.fragments_remaining ≡ f.fragments_remaining
    data_size_same : g.data_size ≡ f.data_size
    seqno_same : g.msg_seqno ≡ f.msg_seqno
    from_same : g.from ≡ f.from
    length_same : length g.buf ≡ length f.buf
    behind : (j : ℕ) → base ≤ j → get_or g.buf j none ≡ get_or f.buf j none
    channel_length : mark k seen 0 ≡ true → g.channellen ≡ length channel
    channel_stored : mark k seen 0 ≡ true → Agrees g.buf 0 (channel ++ (0 ∷ []))

  store_channel-first :
      (f : FragBuf) (buf : List (Option ℕ)) (k : ℕ)
      → (k == 0) ≡ true
      → write_at f.buf 0 (channel ++ (0 ∷ [])) ≡ some buf
      → store_channel f (part k) ≡ some (record f { buf = buf; channellen = length channel })
  unfolding store_channel
  store_channel-first f buf k z e =
      subst
        (λ k. store_channel f (part k) ≡ some (record f { buf = buf; channellen = length channel }))
        (sym ((==_iff k 0).0 z)) (rw e refl)

  store_channel-Fronted :
      (seen : ℕ → Bool) (f : FragBuf) (k : ℕ)
      → Holds seen f
      → length channel + 1 ≤ base
      → (g : FragBuf) × (store_channel f (part k) ≡ some g) × Fronted k seen f g
  unfolding store_channel
  store_channel-Fronted seen f k v fits = elim (Bool-cases (k == 0)) [
    | inl z ↦
        let l = length-append channel (0 ∷ []) in
        let s = v.size in
        let (buf, w) = write_at-Written f.buf 0 (channel ++ (0 ∷ [])) (omega arith) in
        (
          record f { buf = buf; channellen = length channel },
          store_channel-first f buf k z w.copied,
          record {
            fragments_same = refl;
            remaining_same = refl;
            data_size_same = refl;
            seqno_same = refl;
            from_same = refl;
            length_same = w.same_length;
            behind = λ j h. w.behind j (omega arith);
            channel_length = λ e. refl;
            channel_stored = λ e. w.agrees;
          },
        )
    | inr z ↦
        let apart = equal_other 0 k (ground arith) in
        (
          f,
          rw z refl,
          record {
            fragments_same = refl;
            remaining_same = refl;
            data_size_same = refl;
            seqno_same = refl;
            from_same = refl;
            length_same = refl;
            behind = λ j h. refl;
            channel_length = λ e. v.channel_length (rw apart at e);
            channel_stored = λ e. v.channel_stored (rw apart at e);
          },
        )
  ]

  module _ (now utime : ℕ) (seen : ℕ → Bool) (f g : FragBuf) (k : ℕ) (v : Holds seen f)
      (fr : Fronted k seen f g) (buf : List (Option ℕ))
      (w : Written g.buf (base + start k) (slice bytes start k) buf) (h : k < n)
      (e : seen k ≡ false) (fits : length channel + 1 ≤ base) where
    filled-slots :
        (j : ℕ)
        → j < n
        → get_or (set g.fragments k (slot (start k) (length (slice bytes start k)))) j no_fragment
          ≡ (if mark k seen j then slot_at seqno channel bytes n start cut j else no_fragment)
    filled-slots j l = elim (Bool-cases (j == k)) [
      | inl z ↦
          let same = (==_iff j k).0 z in
          let size = length-slice seqno channel bytes n start cut k h in
          let new = slot (start k) (length (slice bytes start k)) in
          let enough : k < length g.fragments =
            omega (arith, ap (λ (x : List Fragment). length x) fr.fragments_same, v.count) in
          rw z (
            ap (λ i. get_or (set g.fragments k new) i no_fragment) same
            ∙ get_or-set_self g.fragments k new no_fragment enough
            ∙ ap (slot (start k)) size
            ∙ ap (λ i. slot_at seqno channel bytes n start cut i) (sym same))
      | inr z ↦
          let apart : j ≢ k = ground arith in
          rw z (
            get_or-set_ne g.fragments k j _ no_fragment (λ e. apart (sym e))
            ∙ ap (λ x. get_or x j no_fragment) fr.fragments_same
            ∙ v.slots j l)
    ]

    filled-stored :
        (j : ℕ) → j < n → mark k seen j ≡ true → Agrees buf (base + start j) (slice bytes start j)
    filled-stored j l s = elim (Bool-cases (j == k)) [
      | inl z ↦
          subst (λ i. Agrees buf (base + start i) (slice bytes start i)) (sym ((==_iff j k).0 z))
            w.agrees
      | inr z ↦ λ i m.
          let apart : j ≢ k = ground arith in
          let size = length-slice seqno channel bytes n start cut j l in
          let size' = length-slice seqno channel bytes n start cut k h in
          untouched j i apart (omega arith) size'
          ∙ fr.behind (base + start j + i) (omega arith)
          ∙ v.stored j l (rw z at s) i m
    ]
      where
        untouched :
            (j i : ℕ)
            → j ≢ k
            → i < start (suc j) - start j
            → length (slice bytes start k) ≡ start (suc k) - start k
            → get_or buf (base + start j + i) none ≡ get_or g.buf (base + start j + i) none
        untouched j i apart m size = elim (Bool-cases (ltb j k)) [
          | inl b ↦
              let order = start-suc_le j k (ltb→lt _ _ b) in
              w.before (base + start j + i) (omega arith)
          | inr b ↦
              let order = start-suc_le k j (omega (arith, ltb→ge _ _ b)) in
              w.behind (base + start j + i) (omega arith)
        ]

    filled-Holding : Holds (mark k seen) (with_payload now utime g (part k) buf)
    filled-Holding = record {
      count =
          length-set g.fragments k _
          ∙ ap (λ (x : List Fragment). length x) fr.fragments_same
          ∙ v.count;
      size = w.same_length ∙ fr.length_same ∙ v.size;
      data_size = fr.data_size_same ∙ v.data_size;
      remaining = omega (
        arith,
        fr.remaining_same,
        v.remaining,
        counted-mark seen k n h e,
        counted-lt seen k n h e,
      );
      slots = filled-slots;
      stored = filled-stored;
      channel_length = fr.channel_length;
      channel_stored = λ s i m.
          let l = length-append channel (0 ∷ []) in
          w.before (0 + i) (omega arith) ∙ fr.channel_stored s i m;
    }

  -- The fragment takes its place, and the rest of the message stays as it was.
  pub record Taken (k utime : ℕ) (seen : ℕ → Bool) (f f' : FragBuf) : Type 0 where
    pub holding : Holding seqno channel bytes n start cut (mark k seen) f'
    pub packet_utime : f'.last_packet_utime ≡ utime
    pub seqno_same : f'.msg_seqno ≡ f.msg_seqno
    pub from_same : f'.from ≡ f.from

  pub store-Taken :
      (now utime : ℕ) (seen : ℕ → Bool) (f : FragBuf) (k : ℕ)
      → Holding seqno channel bytes n start cut seen f
      → k < n
      → seen k ≡ false
      → length channel + 1 ≤ payload_offset (length bytes)
      → (f' : FragBuf) × (store now utime f (part_at seqno channel bytes n start k) ≡ placed f')
        × Taken k utime seen f f'
  unfolding store store_payload
  store-Taken now utime seen f k v h e fits =
      let (g, front, fr) = store_channel-Fronted seen f k v fits in
      let size = length-slice seqno channel bytes n start cut k h in
      let grow = cut.grows k in
      let inside = cut.inside k h in
      let (buf, w) =
        write_at-Written g.buf (base + start k) (slice bytes start k)
          (omega (arith, fr.length_same, v.size)) in
      (
        with_payload now utime g (part k) buf,
        rw
            (
              slot_empty seqno channel bytes n start cut seen f v k h e,
              adjacent-Holding seqno channel bytes n start cut seen f v k h,
              front,
              w.copied,
            )
            refl,
        record {
          holding = filled-Holding now utime seen f g k v fr buf w h e fits;
          packet_utime = refl;
          seqno_same = fr.seqno_same;
          from_same = fr.from_same;
        },
      )
