-- ===== src/Udp/Reassembly/Complete.antt =====
-- A fragment that comes again, and the message of which all fragments have come.
use zcm.Prelude.{
  ℕ, zero, suc, ◌+◌, ◌-◌, ◌≤◌, ◌<◌, ◌≡◌, ◌∙◌, ◌⊎◌, inl, inr, ap, ap₂, refl, sym, arith, Bool, true,
  false, not, ◌&&◌, ◌||◌, Bool-cases, List, [], ◌∷◌, ◌++◌, map, Option, none, some, if◌then◌else◌,
  ltb, ◌==◌, length, get_or, take, drop, length-append, ==_iff, equal_self, ltb→lt, ltb→ge,
  get_or-append_left,
}
use zcm.Udp.Pool.{FragBuf}
use zcm.Udp.Recv.{payload_offset, same_bytes, same_part, duplicate, store, Message, message_of}
use zcm.Udp.Reassembly.Bytes.{Agrees, get_or-drop, get_or-take, piece-Agrees}
use zcm.Udp.Reassembly.Placing.{Cut, slice, part_at, Holding, length-slice, slot_seen}

-- Bytes that are there are found the same.
same_bytes-Agrees :
    (buf : List (Option ℕ)) (i : ℕ) (bs : List ℕ) → Agrees buf i bs → same_bytes buf i bs ≡ true
unfolding same_bytes
same_bytes-Agrees buf i [] a = refl
same_bytes-Agrees buf i (b ∷ bs) a =
    let first = ap (λ j. get_or buf j none) {x = i} {y = i + 0} (omega arith) ∙ a 0 (omega arith) in
    let rest = same_bytes-Agrees buf (i + 1) bs (λ j h.
      ap (λ m. get_or buf m none) {x = i + 1 + j} {y = i + suc j} (omega arith)
      ∙ a (suc j) (omega arith)) in
    rw (first, same_bytes, equal_self b) rest

module _ (seqno : ℕ) (channel bytes : List ℕ) (n : ℕ) (start : ℕ → ℕ)
    (cut : Cut bytes n start) where
  -- It changes nothing.
  pub store-duplicate :
      (now utime : ℕ) (seen : ℕ → Bool) (f : FragBuf) (k : ℕ)
      → Holding seqno channel bytes n start cut seen f
      → k < n
      → seen k ≡ true
      → store now utime f (part_at seqno channel bytes n start k) ≡ duplicate
  unfolding store same_part
  store-duplicate now utime seen f k v h e =
      rw
        (
          slot_seen seqno channel bytes n start cut seen f v k h e,
          equal_self (start k),
          (==_iff _ _).1 (sym (length-slice seqno channel bytes n start cut k h)),
          same_bytes-Agrees f.buf (payload_offset (length bytes) + start k) (slice bytes start k)
              (v.stored k h e),
          channel_found (Bool-cases (k == 0)),
        )
        refl
    where
      channel_found :
          ((k == 0) ≡ true) ⊎ ((k == 0) ≡ false)
          → (not (k == 0)
              || (f.channellen == length (if k == 0 then channel else [])
                  && same_bytes f.buf 0 ((if k == 0 then channel else []) ++ (0 ∷ []))))
            ≡ true
      channel_found (inl z) =
          let seen_first = ap seen (sym ((==_iff k 0).0 z)) ∙ e in
          rw
            (
              z,
              (==_iff f.channellen (length channel)).1 (v.channel_length seen_first),
              same_bytes-Agrees f.buf 0 (channel ++ (0 ∷ [])) (v.channel_stored seen_first),
            )
            refl
      channel_found (inr z) = rw z refl

  -- Which fragment has the i-th byte.
  located : (m i : ℕ) → i < start m → (k : ℕ) × (k < m) × (start k ≤ i) × (i < start (suc k))
  located zero i h = absurd (omega (arith, cut.first))
  located (suc m) i h = elim (Bool-cases (ltb i (start m))) [
    | inl b ↦ let (k, l, low, high) = located m i (ltb→lt _ _ b) in (k, omega arith, low, high)
    | inr b ↦ (m, omega arith, omega (arith, ltb→ge _ _ b), h)
  ]

  all-Agrees :
      (seen : ℕ → Bool) (f : FragBuf)
      → Holding seqno channel bytes n start cut seen f
      → ((j : ℕ) → j < n → seen j ≡ true)
      → Agrees f.buf (payload_offset (length bytes)) bytes
  all-Agrees seen f v all i h =
      let (k, l, low, high) = located n i (omega (arith, cut.last)) in
      let size = length-slice seqno channel bytes n start cut k l in
      let here : start k + (i - start k) ≡ i = omega arith in
      ap (λ j. get_or f.buf j none) {x = payload_offset (length bytes) + i}
        {y = payload_offset (length bytes) + start k + (i - start k)} (omega arith)
      ∙ v.stored k l (all k l) (i - start k) (omega arith)
      ∙ ap some (
          get_or-take (start (suc k) - start k) (i - start k) (drop (start k) bytes) 0 (omega arith)
          ∙ get_or-drop (start k) (i - start k) bytes 0
          ∙ ap (λ j. get_or bytes j 0) here)

  -- The message that is given is the one that was sent.
  pub complete-Holding :
      (seen : ℕ → Bool) (f : FragBuf) (k : ℕ)
      → Holding seqno channel bytes n start cut seen f
      → ((j : ℕ) → j < n → seen j ≡ true)
      → 0 < n
      → length channel + 1 ≤ payload_offset (length bytes)
      → message_of f (part_at seqno channel bytes n start k) ≡ record {
        utime = f.last_packet_utime;
        channel = map some channel;
        payload = map some bytes;
      }
  complete-Holding seen f k v all pos fits =
      ap₂
        (λ c p.
          let m : Message = record { utime = f.last_packet_utime; channel = c; payload = p } in m)
        (ap (λ c. take c f.buf) (v.channel_length (all 0 pos))
          ∙ piece-Agrees f.buf 0 channel (omega (arith, v.size)) channel_agrees)
        (piece-Agrees f.buf (payload_offset (length bytes)) bytes (omega (arith, v.size))
          (all-Agrees seen f v all))
    where
      channel_agrees : Agrees f.buf 0 channel
      channel_agrees i h =
          let l = length-append channel (0 ∷ []) in
          v.channel_stored (all 0 pos) i (omega arith)
          ∙ ap some (get_or-append_left channel (0 ∷ []) i 0 h)
