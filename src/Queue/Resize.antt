-- ===== src/Queue/Resize.antt =====
-- `setCapacity` and the destructor of `Queue`.
use zcm.Prelude.{
  ℕ, zero, suc, ◌+◌, ◌-◌, ◌≤◌, ◌<◌, ◌≡◌, ◌∙◌, ap, ap₂, sym, refl, arith, List, [], ◌∷◌, ◌++◌, map,
  length, true, false, Option, none, some, ltb, get_or, take, replicate, tabulate, length-replicate,
  tabulate_cong, length-append, length-take, tabulate-get_or, tabulate_ext, take-tabulate, drop,
  lt→ltb, ge→ltb, min, append_assoc, append-nil, nil-take, subst,
}
use zcm.Queue.{
  Queue, num_messages, inc_idx, has_message, has_free_space, move_all, set_capacity, destroy,
}
use zcm.Queue.Holds.{Holds, InRange, slot, num-lt-capacity, set-elements}
use zcm.Queue.Refine.{has_message_lem, num-popped, slot_zero, Matches-some, pop_refines}

-- The elements of a queue, whatever stands in its other slots.
record Shows {ℓ} {A : Type ℓ} (q : Queue A) (xs : List A) : Type ℓ where
  in_range : InRange q
  counts : num_messages q ≡ length xs
  shown : tabulate (length xs) (slot q) ≡ map some xs

module _ {ℓ} {A : Type ℓ} where
  advance : Queue A → Queue A
  advance q = record q { front = inc_idx q q.front }

  take-map_append :
      (xs : List A) (ys : List (Option A)) → take (length xs) (map some xs ++ ys) ≡ map some xs
  take-map_append [] ys = refl
  take-map_append (x ∷ xs) ys = ap (λ t. some x ∷ t) (take-map_append xs ys)

  Holds→Shows : {q : Queue A} {xs : List A} → Holds q xs → Shows q xs
  Holds→Shows {q} {xs} h = record {
    in_range = h.in_range;
    counts = h.counts;
    shown =
        sym (
          take-tabulate (length xs) q.capacity (slot q)
            (omega (arith, h.counts, num-lt-capacity h.in_range)))
        ∙ ap (take (length xs)) h.elements
        ∙ take-map_append xs _;
  }

  Shows-front :
      {q : Queue A} (x : A) (xs : List A) → Shows q (x ∷ xs) → get_or q.slots q.front none ≡ some x
  Shows-front x xs s = sym (slot_zero s.in_range) ∙ ap (λ l. get_or l 0 none) s.shown

  advance-InRange : {q : Queue A} → InRange q → InRange (advance q)
  unfolding advance inc_idx
  advance-InRange v = ground arith

  slot-advance :
      {q : Queue A} (k : ℕ) → InRange q → k + 1 < q.capacity → slot (advance q) k ≡ slot q (suc k)
  unfolding advance inc_idx
  slot-advance {q} k v h = ap (λ i. get_or q.slots i none) (ground arith)

  Shows-advance : {q : Queue A} (x : A) (xs : List A) → Shows q (x ∷ xs) → Shows (advance q) xs
  Shows-advance {q} x xs s =
      let less = num-lt-capacity s.in_range in
      record {
        in_range = advance-InRange s.in_range;
        counts =
            unfold advance in
            num-popped q.slots s.in_range (omega (arith, s.counts)) ∙ omega (arith, s.counts);
        shown =
            tabulate_ext (length xs) _ _
              (λ k p. slot-advance k s.in_range (omega (arith, s.counts)))
            ∙ ap (drop 1) s.shown;
      }

  -- The loop moves the oldest elements, as many as fit the new block.
  move_all_lem :
      (ys : List A) (q : Queue A) (moved : List A) (m c : ℕ)
      → Shows q ys
      → c ≡ length moved + m
      → move_all (length ys) c q (map some moved ++ replicate m none) (length moved) ≡ (
        map some (moved ++ take m ys) ++ replicate (m - length ys) none,
        length moved + min m (length ys),
      )
  unfolding move_all advance
  move_all_lem [] q moved m c s e =
      ap₂ (λ l n. (l, n))
        (ap₂ (λ l n. map some l ++ replicate n none)
          (sym (append-nil moved) ∙ ap (λ l. moved ++ l) (nil-take m)) (omega arith))
        (omega arith)
  move_all_lem (y ∷ ys) q moved zero c s e =
      let some_left : has_message q ≡ true =
        has_message_lem s.in_range ∙ lt→ltb 0 _ (omega (arith, s.counts)) in
      let full : ltb (length moved) c ≡ false = ge→ltb _ _ (omega arith) in
      let none_free : ◌≡◌ {A = ℕ} 0 (0 - suc (length ys)) = omega arith in
      rw (some_left, full)
        (ap₂ (λ l n. (l, n))
          (ap₂ (λ l n. map some l ++ replicate n none) (sym (append-nil moved)) none_free)
          (omega arith))
  move_all_lem (y ∷ ys) q moved (suc m) c s e =
      let len = length-append moved (y ∷ []) in
      let next = advance q in
      let ih = move_all_lem ys next (moved ++ (y ∷ [])) m c (Shows-advance y ys s) (omega arith) in
      let some_left : has_message q ≡ true =
        has_message_lem s.in_range ∙ lt→ltb 0 _ (omega (arith, s.counts)) in
      let fits : ltb (length moved) c ≡ true = lt→ltb _ _ (omega arith) in
      rw (some_left, fits, Shows-front y ys s)
        (ap₂ (move_all (length ys) c next) (set-elements moved m y) (omega arith)
          ∙ ih
          ∙ ap₂ (λ l n. (l, n))
              (ap₂ (λ l n. map some l ++ replicate n none) (append_assoc moved (y ∷ []) (take m ys))
                (omega arith))
              (omega arith))

  -- What `setCapacity` leaves in the slots and in `back`, at every capacity.
  pub set_capacity_lem :
      {q : Queue A} (xs : List A) (c : ℕ)
      → Holds q xs
      → let q' = set_capacity q c in
        (q'.slots ≡ map some (take c xs) ++ replicate (c - length xs) none)
        × (q'.back ≡ min c (length xs))
        × (q'.front ≡ 0)
        × (q'.capacity ≡ c)
  unfolding set_capacity
  set_capacity_lem {q} xs c h =
      let e =
        ap (λ n. move_all n c q (replicate c none) 0) h.counts
        ∙ move_all_lem xs q [] c c (Holds→Shows h) (omega arith) in
      (ap (λ t. t.0) e, ap (λ t. t.1) e ∙ omega arith, refl, refl)

  length-elements : (xs : List A) (n : ℕ) → length (map some xs ++ replicate n none) ≡ length xs + n
  length-elements [] n = length-replicate n none ∙ omega arith
  length-elements (x ∷ xs) n = ap suc (length-elements xs n) ∙ omega arith

  take_all : (xs : List A) (c : ℕ) → length xs ≤ c → take c xs ≡ xs
  take_all [] c h = sym (nil-take c)
  take_all (x ∷ xs) zero h = absurd (omega arith)
  take_all (x ∷ xs) (suc c) h = ap (λ t. x ∷ t) (take_all xs c (omega arith))

  length-resized :
      {q : Queue A} (xs : List A) (c : ℕ) → Holds q xs → length (set_capacity q c).slots ≡ c
  length-resized xs c h =
      let (slots, _, _, _) = set_capacity_lem xs c h in
      ap length slots
      ∙ length-elements (take c xs) (c - length xs)
      ∙ omega (arith, length-take c xs)

  -- A capacity above the number of messages keeps them all, in order.
  pub set_capacity-Holds :
      {q : Queue A} (xs : List A) (c : ℕ) → Holds q xs → length xs < c → Holds (set_capacity q c) xs
  set_capacity-Holds {q} xs c h p =
      let (slots, back, front, cap) = set_capacity_lem xs c h in
      let q' = set_capacity q c in
      let block : length q'.slots ≡ q'.capacity = length-resized xs c h ∙ sym cap in
      record {
        in_range = record { block = block; front_in = omega arith; back_in = omega arith };
        counts = unfold num_messages in ground arith;
        elements =
            tabulate_cong q'.capacity (length q'.slots) _ _ (sym block)
              (λ k j. ap (λ i. get_or q'.slots i none) (ground arith))
            ∙ tabulate-get_or q'.slots none
            ∙ slots
            ∙ ap₂ (λ l n. map some l ++ replicate n none) (take_all xs c (omega arith))
                (omega arith);
      }

  -- A capacity of at most the number of messages leaves `back` one past the new block, and the
  -- queue says that it has free space there.
  pub set_capacity_overflows :
      {q : Queue A} (xs : List A) (c : ℕ)
      → Holds q xs
      → c ≤ length xs
      → let q' = set_capacity q c in (q'.back ≡ length q'.slots) × (has_free_space q' ≡ true)
  unfolding has_free_space inc_idx
  set_capacity_overflows {q} xs c h p =
      let (slots, back, front, cap) = set_capacity_lem xs c h in
      (omega (arith, length-resized xs c h), ground arith)

  destroy_pops : (ys : List A) (q : Queue A) → Holds q ys → Holds (destroy (length ys) q) []
  unfolding destroy
  destroy_pops [] q h = h
  destroy_pops (y ∷ ys) q h =
      let (q', e, h', _) = Matches-some (pop_refines (y ∷ ys) h) in
      rw (e, destroy) (destroy_pops ys q' h')

  -- The destructor destroys every element.
  pub destroy-Holds :
      {q : Queue A} (xs : List A) → Holds q xs → Holds (destroy (num_messages q) q) []
  destroy-Holds {q} xs h = subst (λ n. Holds (destroy n q) []) (sym h.counts) (destroy_pops xs q h)
