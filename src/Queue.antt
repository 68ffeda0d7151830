-- ===== src/Queue.antt =====
-- zcm/util/queue.hpp: the bounded queue of constructed elements. One slot stays free.
pub mod Holds
pub mod Refine
pub mod Resize
use zcm.Prelude.{
  ℕ, zero, suc, ◌+◌, ◌-◌, Bool, not, ◌&&◌, List, Option, none, some, if◌then◌else◌, ltb, leb, ◌==◌,
  get_or, set, replicate,
}

-- `Queue<Element>`. A slot is `some` from the placement new of its element to the destructor call.
pub record Queue {ℓ} (A : Type ℓ) : Type ℓ where
  pub slots : List (Option A)
  pub capacity : ℕ
  pub front : ℕ
  pub back : ℕ

module _ {ℓ} {A : Type ℓ} where
  unfoldable pub inc_idx : Queue A → ℕ → ℕ
  inc_idx q i = let next_idx = i + 1 in if next_idx == q.capacity then 0 else next_idx

  unfoldable pub has_free_space : Queue A → Bool
  unfolding inc_idx
  has_free_space q = not (q.front == inc_idx q q.back)

  unfoldable pub has_message : Queue A → Bool
  has_message q = not (q.front == q.back)

  unfoldable pub num_messages : Queue A → ℕ
  num_messages q = if leb q.front q.back then q.back - q.front else q.capacity - (q.front - q.back)

  -- `none` is the failed assertion.
  unfoldable pub push : Queue A → A → Option (Queue A)
  unfolding has_free_space
  push q a =
      if has_free_space q
      then some (record q { slots = set q.slots q.back (some a); back = inc_idx q q.back })
      else none

  unfoldable pub top : Queue A → Option A
  unfolding has_message
  top q = if has_message q then get_or q.slots q.front none else none

  unfoldable pub pop : Queue A → Option (Queue A)
  unfolding has_message inc_idx
  pop q =
      if has_message q
      then some (record q { slots = set q.slots q.front none; front = inc_idx q q.front })
      else none

-- The constructor. Memory is raw: no slot holds an element.
pub new_queue {ℓ} : (A : Type ℓ) → ℕ → Queue A
new_queue A capacity = record {
  slots = replicate capacity none;
  capacity = capacity;
  front = 0;
  back = 0;
}

module _ {ℓ} {A : Type ℓ} where
  -- The loop of `setCapacity`: elements are moved, oldest first, as long as they fit. The fuel is the
  -- number of messages. What does not fit is dropped with the old block, and not destroyed.
  unfoldable pub move_all : ℕ → ℕ → Queue A → List (Option A) → ℕ → List (Option A) × ℕ
  move_all zero capacity q new_slots new_back = (new_slots, new_back)
  move_all (suc fuel) capacity q new_slots new_back =
      let msg = get_or q.slots q.front none in
      let rest =
        move_all fuel capacity (record q { front = inc_idx q q.front }) (set new_slots new_back msg)
          (new_back + 1) in
      if has_message q && ltb new_back capacity then rest else (new_slots, new_back)

  unfoldable pub set_capacity : Queue A → ℕ → Queue A
  set_capacity q capacity =
      let (slots, new_back) = move_all (num_messages q) capacity q (replicate capacity none) 0 in
      record { slots = slots; capacity = capacity; front = 0; back = new_back }

  -- The destructor's loop: it pops while there is a message.
  unfoldable pub destroy : ℕ → Queue A → Queue A
  destroy zero q = q
  destroy (suc fuel) q = elim (pop q) [ none ↦ q | some q' ↦ destroy fuel q' ]
