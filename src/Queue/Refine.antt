-- ===== src/Queue/Refine.antt =====
-- The operations of `Queue` against those of a bounded list.
use zcm.Prelude.{
  subst, true, false, ◌≤◌, ge→ltb, ℕ, suc, ◌+◌, ◌-◌, ◌<◌, ◌≡◌, ◌∙◌, ap, ap₂, sym, refl, arith, List,
  [], ◌∷◌, ◌++◌, map, length, Option, none, some, ltb, if◌then◌else◌, get_or, set, replicate,
  tabulate_cong, length-append, length-set, set-tabulate, get_or-set_self, get_or-set_ne,
  tabulate-add, get_or-tabulate, drop, drop-tabulate, append_assoc, lt→ltb, Bool-cases, inl, inr,
  ltb→lt,
}
use zcm.Queue.{Queue, num_messages, push, pop, top, inc_idx, has_message, has_free_space}
use zcm.Queue.Holds.{Holds, InRange, ring, slot, num-lt-capacity, set-elements, replicate-snoc}

-- The model: a list of fewer elements than the capacity.
module _ {ℓ} {A : Type ℓ} where
  abbrev pub spec_push : ℕ → List A → A → Option (List A)
  spec_push capacity xs a = if ltb (length xs + 1) capacity then some (xs ++ (a ∷ [])) else none

  abbrev pub spec_top : List A → Option A
  spec_top [] = none
  spec_top (x ∷ xs) = some x

  abbrev pub spec_pop : List A → Option (List A)
  spec_pop [] = none
  spec_pop (x ∷ xs) = some xs

-- The queue that an operation leaves holds the list that the model leaves.
pub data Matches {ℓ} {A : Type ℓ} (capacity : ℕ) : Option (Queue A) → Option (List A) → Type ℓ where
  both_fail : Matches capacity none none
  both :
      {q : Queue A} {xs : List A}
      → Holds q xs
      → q.capacity ≡ capacity
      → Matches capacity (some q) (some xs)

module _ {ℓ} {A : Type ℓ} where
  pub has_free_space_lem :
      {q : Queue A} → InRange q → has_free_space q ≡ ltb (num_messages q + 1) q.capacity
  unfolding has_free_space num_messages
  has_free_space_lem v = ground arith

  pub has_message_lem : {q : Queue A} → InRange q → has_message q ≡ ltb 0 (num_messages q)
  unfolding has_message num_messages
  has_message_lem v = ground arith

  pushed-InRange :
      {q : Queue A} (a : A)
      → InRange q
      → InRange (record q { slots = set q.slots q.back (some a); back = inc_idx q q.back })
  unfolding inc_idx
  pushed-InRange {q} a v = ground (arith, length-set q.slots q.back (some a))

  num-pushed :
      {q : Queue A} (s : List (Option A))
      → InRange q
      → num_messages q + 1 < q.capacity
      → num_messages (record q { slots = s; back = inc_idx q q.back }) ≡ num_messages q + 1
  unfolding inc_idx num_messages
  num-pushed s v h = ground arith

  ring-pushed :
      {q : Queue A} (a : A)
      → InRange q
      → ring (record q { slots = set q.slots q.back (some a); back = inc_idx q q.back })
        ≡ set (ring q) (num_messages q) (some a)
  unfolding num_messages
  ring-pushed {q} a v =
      set-tabulate q.capacity (slot q) _ (num_messages q) (some a) (num-lt-capacity v)
        (ap (λ i. get_or (set q.slots q.back (some a)) i none) (ground arith)
          ∙ get_or-set_self q.slots q.back (some a) none (omega arith))
        (λ k p n. get_or-set_ne q.slots q.back _ (some a) none (ground arith))

  -- `push` appends its element if there is room, and otherwise fails its assertion.
  pub push_refines :
      {q : Queue A} {xs : List A} (a : A)
      → Holds q xs
      → Matches q.capacity (push q a) (spec_push q.capacity xs a)
  unfolding push
  push_refines {q} {xs} a h =
      let v = h.in_range in
      let test : has_free_space q ≡ ltb (length xs + 1) q.capacity =
        has_free_space_lem v ∙ ap (λ n. ltb (n + 1) q.capacity) h.counts in
      elim (Bool-cases (ltb (length xs + 1) q.capacity)) [
        | inr full ↦ rw (test, full) both_fail
        | inl room ↦
            let less = ltb→lt _ _ room in
            let m : q.capacity - length xs ≡ suc (q.capacity - length (xs ++ (a ∷ []))) =
              omega (arith, length-append xs (a ∷ [])) in
            rw (test, room)
              (both
                (record {
                  in_range = pushed-InRange a v;
                  counts =
                      num-pushed _ v (omega (arith, h.counts))
                      ∙ omega (arith, h.counts, length-append xs (a ∷ []));
                  elements =
                      ring-pushed a v
                      ∙ ap₂ (λ l n. set l n (some a))
                          (h.elements ∙ ap (λ n. map some xs ++ replicate n none) m) h.counts
                      ∙ set-elements xs _ a;
                })
                refl)
      ]

  popped-InRange :
      {q : Queue A}
      → InRange q
      → InRange (record q { slots = set q.slots q.front none; front = inc_idx q q.front })
  unfolding inc_idx
  popped-InRange {q} v = ground (arith, length-set q.slots q.front none)

  pub num-popped :
      {q : Queue A} (s : List (Option A))
      → InRange q
      → 0 < num_messages q
      → num_messages (record q { slots = s; front = inc_idx q q.front }) ≡ num_messages q - 1
  unfolding inc_idx num_messages
  num-popped s v h = ground arith

  -- The cleared slot comes to stand at the end.
  ring-popped :
      {q : Queue A}
      → InRange q
      → ring (record q { slots = set q.slots q.front none; front = inc_idx q q.front })
        ≡ drop 1 (ring q) ++ (none ∷ [])
  unfolding inc_idx
  ring-popped {q} v =
      tabulate_cong q.capacity (q.capacity - 1 + 1) _ _ (omega arith) (λ k p. refl)
      ∙ tabulate-add (q.capacity - 1) 1 _
      ∙ ap₂ ◌++◌
          (tabulate_cong _ _ _ _ refl (λ k p.
              get_or-set_ne q.slots q.front _ none none (ground arith)
              ∙ ap (λ i. get_or q.slots i none) (ground arith))
            ∙ sym (drop-tabulate 1 q.capacity (slot q)))
          (ap (λ t. t ∷ [])
            (ap (λ i. get_or (set q.slots q.front none) i none) (ground arith)
              ∙ get_or-set_self q.slots q.front none none (omega arith)))

  pub slot_zero : {q : Queue A} → InRange q → slot q 0 ≡ get_or q.slots q.front none
  slot_zero {q} v = ap (λ i. get_or q.slots i none) (ground arith)

  -- `top` is the oldest element.
  pub top_refines : {q : Queue A} (xs : List A) → Holds q xs → top q ≡ spec_top xs
  unfolding top
  top_refines {q} [] h = rw (has_message_lem h.in_range ∙ ap (ltb 0) h.counts) refl
  top_refines {q} (x ∷ xs) h =
      rw
        (has_message_lem h.in_range
          ∙ ap (ltb 0) h.counts
          ∙ lt→ltb 0 (suc (length xs)) (omega arith))
        (sym (slot_zero h.in_range)
          ∙ sym (get_or-tabulate q.capacity (slot q) 0 none (omega (arith, h.in_range.front_in)))
          ∙ ap (λ l. get_or l 0 none) h.elements)

  -- `pop` destroys the oldest element, and fails its assertion on an empty queue.
  pub pop_refines :
      {q : Queue A} (xs : List A) → Holds q xs → Matches q.capacity (pop q) (spec_pop xs)
  unfolding pop
  pop_refines {q} [] h = rw (has_message_lem h.in_range ∙ ap (ltb 0) h.counts) both_fail
  pop_refines {q} (x ∷ xs) h =
      let v = h.in_range in
      let m : suc (q.capacity - suc (length xs)) ≡ q.capacity - length xs =
        omega (arith, h.counts, num-lt-capacity v) in
      rw
        (has_message_lem h.in_range
          ∙ ap (ltb 0) h.counts
          ∙ lt→ltb 0 (suc (length xs)) (omega arith))
        (both
          (record {
            in_range = popped-InRange v;
            counts = num-popped _ v (omega (arith, h.counts)) ∙ omega (arith, h.counts);
            elements =
                ring-popped v
                ∙ ap (λ l. drop 1 l ++ (none ∷ [])) h.elements
                ∙ append_assoc (map some xs) (replicate (q.capacity - suc (length xs)) none)
                    (none ∷ [])
                ∙ ap (λ l. map some xs ++ l)
                    (replicate-snoc (q.capacity - suc (length xs)) none
                      ∙ ap (λ n. replicate n none) m);
          })
          refl)

  pub Matches-some :
      {c : ℕ} {o : Option (Queue A)} {xs : List A}
      → Matches c o (some xs)
      → (q : Queue A) × (o ≡ some q) × Holds q xs × (q.capacity ≡ c)
  Matches-some (both {q = q} h e) = (q, refl, h, e)

  Matches-at :
      {c : ℕ} {o : Option (Queue A)} (w : Option (List A)) (xs : List A)
      → Matches c o w
      → w ≡ some xs
      → (q : Queue A) × (o ≡ some q) × Holds q xs
  Matches-at none xs m e = absurd (cc)
  Matches-at (some ys) xs m e =
      let (q, p, h, _) = Matches-some m in let same : ys ≡ xs = cc in (q, p, subst (Holds q) same h)

  pub push_room :
      {q : Queue A} (xs : List A) (a : A)
      → Holds q xs
      → length xs + 1 < q.capacity
      → (has_free_space q ≡ true)
        × ((q' : Queue A) × (push q a ≡ some q') × Holds q' (xs ++ (a ∷ [])))
  push_room {q} xs a h room =
      let test = lt→ltb _ _ room in
      (
        has_free_space_lem h.in_range ∙ ap (λ n. ltb (n + 1) q.capacity) h.counts ∙ test,
        Matches-at _ _ (push_refines a h) (rw test refl),
      )

  pub push_full :
      {q : Queue A} (xs : List A)
      → Holds q xs
      → q.capacity ≤ length xs + 1
      → has_free_space q ≡ false
  push_full {q} xs h full = has_free_space_lem h.in_range ∙ ge→ltb _ _ (omega (arith, h.counts))
