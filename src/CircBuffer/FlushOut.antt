-- ===== src/CircBuffer/FlushOut.antt =====
-- `cb_flush_out` against the callback that takes the bytes.
use zcm.Prelude.{
  ℕ, ◌+◌, ◌-◌, ◌≤◌, ◌<◌, ◌≡◌, inl, inr, ◌∙◌, ap, ap₂, sym, refl, arith, List, ◌++◌, drop, take,
  get_or, length, min, tabulate_cong, take-tabulate, take-take, take-add, drop-add, length-take,
  length-drop, Bool-cases, append_assoc, append-nil, ◌==◌, ◌||◌, not,
}
use zcm.CircBuffer.{CircBuffer, cb_size, cb_front, cb_pop_front, cb_flush_out, slice}
use zcm.CircBuffer.Contents.{IsValid, contents, length-contents, size-add-room}
use zcm.CircBuffer.Blocks.{get_or-drop, take-eq-tabulate}
use zcm.CircBuffer.Pop.{pop_front_lem, size-pop_front}

-- The bytes up to the end of the block are the first ones of the contents.
slice-front :
    {cb : CircBuffer} (c : ℕ)
    → IsValid cb
    → c ≤ cb.capacity - cb.front
    → c ≤ cb_size cb
    → slice cb.mem cb.front c ≡ take c (contents cb)
unfolding contents
slice-front {cb} c v h k =
    take-eq-tabulate (drop cb.front cb.mem) c (omega (arith, length-drop cb.front cb.mem))
    ∙ tabulate_cong c c _ _ refl (λ j p. get_or-drop cb.mem cb.front j ∙ read j p)
    ∙ sym (take-tabulate c (cb_size cb) (cb_front cb) k)
  where
    read : (j : ℕ) → j < c → get_or cb.mem (cb.front + j) 0 ≡ cb_front cb j
    read j p = unfold cb_front in ap (λ t. get_or cb.mem t 0) (ground arith)

-- What a callback behind `usr` promises: it takes at most what it is offered, and `log` is what it
-- has taken so far.
module _ {W : Type 0} (write : List ℕ → W → ℕ × W) (log : W → List ℕ)
    (at_most : (d : List ℕ) (w : W) → (write d w).0 ≤ length d)
    (logs : (d : List ℕ) (w : W) → log (write d w).1 ≡ log w ++ take (write d w).0 d) where
  -- One call of `write` on the first `c` bytes, and the pop after it.
  flush_part :
      {cb : CircBuffer} (c : ℕ) (d : List ℕ) (w : W)
      → IsValid cb
      → c ≤ cb_size cb
      → d ≡ take c (contents cb)
      → let (n, w') = write d w in
        (n ≤ c)
        × IsValid (cb_pop_front cb n)
        × (contents (cb_pop_front cb n) ≡ drop n (contents cb))
        × (log w' ≡ log w ++ take n (contents cb))
  flush_part {cb} c d w v h e =
      let n = (write d w).0 in
      let few : n ≤ c =
        omega (arith, at_most d w, ap length e, length-take c (contents cb), length-contents cb) in
      let (v', c') = pop_front_lem n v (omega arith) in
      (
        few,
        v',
        c',
        logs d w
            ∙ ap (λ t. log w ++ take n t) e
            ∙ ap (λ t. log w ++ t) (take-take n c (contents cb) few),
      )

  -- The two calls together: the first takes all of its part, which ends at the end of the block.
  flush_both :
      {cb : CircBuffer} (w : W)
      → IsValid cb
      → let c = min (cb.capacity - cb.front) (cb_size cb) in
        let (n, w') = write (slice cb.mem cb.front c) w in
        let (n', w'') = write (slice cb.mem 0 (cb_size cb - c)) w' in
        n ≡ c
        → 0 < cb_size cb - c
        → (n + n' ≤ cb_size cb)
          × IsValid (cb_pop_front (cb_pop_front cb n) n')
          × (contents (cb_pop_front (cb_pop_front cb n) n') ≡ drop (n + n') (contents cb))
          × (log w'' ≡ log w ++ take (n + n') (contents cb))
  unfolding cb_pop_front
  flush_both {cb} w v e p =
      let c = min (cb.capacity - cb.front) (cb_size cb) in
      let r = cb_size cb - c in
      let n = (write (slice cb.mem cb.front c) w).0 in
      let w' = (write (slice cb.mem cb.front c) w).1 in
      let cb' = cb_pop_front cb n in
      let n' = (write (slice cb.mem 0 r) w').0 in
      let first = slice-front c v (omega arith) (omega arith) in
      let (few, v', rest, l) = flush_part c _ w v (omega arith) first in
      let size' : cb_size cb' ≡ r = size-pop_front n v (omega arith) ∙ omega arith in
      let home : cb'.front ≡ 0 = unfold cb_size in ground arith in
      let second : slice cb.mem 0 r ≡ take r (contents cb') =
        ap (λ t. slice cb.mem t r) (sym home)
        ∙ slice-front r v' (omega (arith, size-add-room v')) (omega arith) in
      let (few', v'', rest', l') = flush_part r _ w' v' (omega arith) second in
      (
        omega arith,
        v'',
        rest' ∙ ap (drop n') rest ∙ sym (drop-add n n' (contents cb)),
        l'
            ∙ ap₂ (λ a b. a ++ take n' b) l rest
            ∙ append_assoc (log w) _ _
            ∙ ap (λ t. log w ++ t) (sym (take-add n n' (contents cb))),
      )

  -- `cb_flush_out` hands the oldest bytes over in order, as many as it reports, and drops just those.
  pub flush_out_lem :
      (cb : CircBuffer) (w : W)
      → IsValid cb
      → let (n, cb', w') = cb_flush_out cb write w in
        (n ≤ cb_size cb)
        × IsValid cb'
        × (contents cb' ≡ drop n (contents cb))
        × (log w' ≡ log w ++ take n (contents cb))
  unfolding cb_flush_out
  flush_out_lem cb w v =
      let c = min (cb.capacity - cb.front) (cb_size cb) in
      let r = cb_size cb - c in
      let n = (write (slice cb.mem cb.front c) w).0 in
      elim (Bool-cases (cb_size cb == 0)) [
        | inl e ↦ rw e (omega arith, v, refl, sym (append-nil (log w)))
        | inr e ↦ rw e (elim (Bool-cases (not (n == c) || r == 0)) [
          | inl s ↦ rw s (
              let (few, v', rest, l) =
                flush_part c _ w v (omega arith) (slice-front c v (omega arith) (omega arith)) in
              (omega arith, v', rest, l))
          | inr s ↦ rw s (flush_both w v (ground arith) (ground arith))
        ])
      ]
