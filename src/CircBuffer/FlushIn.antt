-- ===== src/CircBuffer/FlushIn.antt =====
-- `cb_flush_in` against the callback that supplies the bytes.
use zcm.Prelude.{
  ℕ, ◌+◌, ◌-◌, ◌≤◌, ◌<◌, ◌≡◌, ◌⊎◌, inl, inr, ◌∙◌, ap, ap₂, sym, refl, arith, List, ◌++◌, get_or,
  length, min, tabulate_cong, tabulate-add, length-append, ltb→lt, ltb→ge, if◌then◌else◌,
  Bool-cases, ltb, append_assoc, ◌==◌, not, true,
}
use zcm.CircBuffer.{CircBuffer, cb_size, cb_room, cb_front, cb_flush_in, store}
use zcm.CircBuffer.Contents.{IsValid, contents, size-add-room}
use zcm.CircBuffer.Blocks.{length-store, store_other, store_inside, all-eq-tabulate}

-- Bytes stored at `back`, with room for them up to the end of the block, are appended.
fill_lem :
    (cb : CircBuffer) (bytes : List ℕ) (b : ℕ)
    → IsValid cb
    → length bytes ≤ cb_room cb
    → ((b ≡ cb.back + length bytes) × (b < cb.capacity))
      ⊎ ((b ≡ 0) × (cb.back + length bytes ≡ cb.capacity))
    → let cb' : CircBuffer = record cb { mem = store cb.mem cb.back bytes; back = b } in
      IsValid cb'
      × (contents cb' ≡ contents cb ++ bytes)
      × (cb_size cb' ≡ cb_size cb + length bytes)
unfolding contents
fill_lem cb bytes b v h w = (
  ground (arith, length-store cb.mem cb.back bytes),
  tabulate_cong _ _ _ _ sizes (λ k p. refl)
      ∙ tabulate-add (cb_size cb) (length bytes) (cb_front cb')
      ∙ ap₂ ◌++◌ (tabulate_cong _ _ _ _ refl old)
          (tabulate_cong _ _ _ _ refl new ∙ sym (all-eq-tabulate bytes)),
  sizes,
)
  where
    cb' : CircBuffer
    cb' = record cb { mem = store cb.mem cb.back bytes; back = b }

    sizes : cb_size cb' ≡ cb_size cb + length bytes
    sizes = unfold cb_size cb_room in ground arith

    old : (k : ℕ) → k < cb_size cb → cb_front cb' k ≡ cb_front cb k
    old k p = unfold cb_front cb_size cb_room in store_other cb.mem cb.back bytes _ (ground arith)

    new : (k : ℕ) → k < length bytes → cb_front cb' (cb_size cb + k) ≡ get_or bytes k 0
    new k p =
        unfold cb_front cb_size cb_room in
        ap (λ t. get_or (store cb.mem cb.back bytes) t 0) (ground arith)
        ∙ store_inside cb.mem cb.back bytes k (ground arith) p

wrap_cases :
    (x cap : ℕ)
    → x ≤ cap
    → let b = if x == cap then 0 else x in ((b ≡ x) × (b < cap)) ⊎ ((b ≡ 0) × (x ≡ cap))
wrap_cases x cap h = ground arith

room_wrapped :
    {cb : CircBuffer} → IsValid cb → cb.back < cb.front → cb_room cb + cb.back + 1 ≡ cb.front
unfolding cb_room
room_wrapped v h = ground arith

room_straight :
    {cb : CircBuffer}
    → IsValid cb
    → cb.front ≤ cb.back
    → cb_room cb + cb.back + 1 ≡ cb.capacity + cb.front
unfolding cb_room
room_straight v h = ground arith

-- `supply` is what the callback has put in place so far.
module _ {W : Type 0} (read : ℕ → W → List ℕ × W) (supply : W → List ℕ)
    (at_most : (n : ℕ) (w : W) → length (read n w).0 ≤ n)
    (supplies : (n : ℕ) (w : W) → supply (read n w).1 ≡ supply w ++ (read n w).0) where
  -- What `cb_flush_in` answers: the bytes that `read` supplied, appended in order.
  abbrev pub Filled : CircBuffer → W → ℕ × CircBuffer × W → Type 0
  Filled cb w r =
      (got : List ℕ) × (r.0 ≡ length got)
      × (length got ≤ cb_room cb)
      × IsValid r.1
      × (contents r.1 ≡ contents cb ++ got)
      × (supply r.2 ≡ supply w ++ got)

  -- The case of two reads: the first fills the block up to its end, and the second starts at 0.
  fill_both :
      {cb : CircBuffer} (w : W)
      → IsValid cb
      → cb.front ≤ cb.back
      → let c = min (cb.capacity - cb.back) (cb_room cb) in
        let (bytes, w') = read c w in
        let (more, w'') = read (cb_room cb - c) w' in
        length bytes ≡ c
        → 0 < cb_room cb - c
        → Filled cb w (
          length bytes + length more,
          record cb { mem = store (store cb.mem cb.back bytes) 0 more; back = 0 + length more },
          w'',
        )
  fill_both {cb} w v h e p =
      let c = min (cb.capacity - cb.back) (cb_room cb) in
      let got = (read c w).0 in
      let w' = (read c w).1 in
      let more = (read (cb_room cb - c) w').0 in
      let size = room_straight v h in
      let (v', cs, s) = fill_lem cb got 0 v (omega arith) (inr (refl, omega arith)) in
      let cb' : CircBuffer = record cb { mem = store cb.mem cb.back got; back = 0 } in
      let fits = at_most (cb_room cb - c) w' in
      let room' = size-add-room v' in
      let room = size-add-room v in
      let (v'', cs', _) =
        fill_lem cb' more (0 + length more) v' (omega arith) (inl (refl, omega arith)) in
      (
        got ++ more,
        sym (length-append got more),
        omega (arith, length-append got more),
        v'',
        cs' ∙ ap (λ t. t ++ more) cs ∙ append_assoc (contents cb) got more,
        supplies (cb_room cb - c) w'
            ∙ ap (λ t. t ++ more) (supplies c w)
            ∙ append_assoc (supply w) got more,
      )

  -- `cb_flush_in` appends what `read` supplies, and asks for no more than there is room for.
  pub flush_in_lem : (cb : CircBuffer) (w : W) → IsValid cb → Filled cb w (cb_flush_in cb read w)
  unfolding cb_flush_in
  flush_in_lem cb w v =
      let room = cb_room cb in
      let c = min (cb.capacity - cb.back) room in
      let got = (read c w).0 in
      let all = (read room w).0 in
      let some_read = at_most c w in
      let all_read = at_most room w in
      elim (Bool-cases (ltb cb.back cb.front)) [
        | inl e ↦ rw e (
            let size = room_wrapped v (ltb→lt _ _ e) in
            let (v', cs, _) =
              fill_lem cb all (cb.back + length all) v all_read (inl (refl, omega arith)) in
            (all, refl, all_read, v', cs, supplies room w))
        | inr e ↦ rw e (
            let size = room_straight v (ltb→ge _ _ e) in
            elim (Bool-cases (not (length got == c))) [
              | inl s ↦ rw s (
                  let (v', cs, _) =
                    fill_lem cb got (cb.back + length got) v (omega arith)
                      (inl (refl, ground arith)) in
                  (got, refl, omega arith, v', cs, supplies c w))
              | inr s ↦ rw s (elim (Bool-cases (room - c == 0)) [
                | inl z ↦ rw z (
                    let (v', cs, _) =
                      fill_lem cb got _ v (omega arith) (wrap_cases _ _ (omega arith)) in
                    (got, refl, omega arith, v', cs, supplies c w))
                | inr z ↦ rw z (
                    let full : (cb.back + length got == cb.capacity) ≡ true = ground arith in
                    rw full (fill_both w v (ltb→ge _ _ e) (ground arith) (ground arith)))
              ])
            ])
      ]
