-- ===== src/ThreadsafeQueue.antt =====
-- zcm/util/threadsafe_queue.hpp: the queue behind a mutex and a condition variable. A method runs
-- under the mutex as one step; a wait that finds its predicate false is a step that cannot be taken.
pub mod Fifo
use zcm.Prelude.{
  ℕ, ◌<◌, ◌≡◌, ◌++◌, List, [], ◌∷◌, Bool, true, false, not, ◌||◌, Option, none, some, if◌then◌else◌,
}
use zcm.Queue
use zcm.Queue.{Queue}

pub record ThreadsafeQueue {ℓ} (A : Type ℓ) : Type ℓ where
  pub queue : Queue A
  pub disabled : Bool

module _ {ℓ} {A : Type ℓ} where
  -- The predicates of the two waits.
  unfoldable pub push_ready : ThreadsafeQueue A → Bool
  push_ready t = t.disabled || Queue.has_free_space t.queue

  unfoldable pub top_ready : ThreadsafeQueue A → Bool
  top_ready t = t.disabled || Queue.has_message t.queue

  -- `queue.push`, whose assertion has been tested.
  unfoldable pub push_now : ThreadsafeQueue A → A → ThreadsafeQueue A
  push_now t a = elim (Queue.push t.queue a) [ none ↦ t | some q ↦ record t { queue = q } ]

  -- `pushIfRoom`, and what `push` does once it is awake.
  unfoldable pub push_if_room : ThreadsafeQueue A → A → Bool × ThreadsafeQueue A
  push_if_room t a = if Queue.has_free_space t.queue then (true, push_now t a) else (false, t)

  -- `none`: the caller waits.
  unfoldable pub push : ThreadsafeQueue A → A → Option (Bool × ThreadsafeQueue A)
  unfolding push_ready
  push t a = if push_ready t then some (push_if_room t a) else none

  -- The outer `none`: the caller waits. The inner one is `nullptr`.
  unfoldable pub top : ThreadsafeQueue A → Option (Option A)
  unfolding top_ready
  top t = if top_ready t then some (if t.disabled then none else Queue.top t.queue) else none

  -- `none` is the failed assertion of `Queue::pop`.
  unfoldable pub pop : ThreadsafeQueue A → Option (ThreadsafeQueue A)
  pop t = elim (Queue.pop t.queue) [ none ↦ none | some q ↦ some (record t { queue = q }) ]

  unfoldable pub disable : ThreadsafeQueue A → ThreadsafeQueue A
  disable t = record t { disabled = true }

  unfoldable pub enable : ThreadsafeQueue A → ThreadsafeQueue A
  enable t = record t { disabled = false }

  unfoldable pub is_enabled : ThreadsafeQueue A → Bool
  is_enabled t = not t.disabled

  unfoldable pub set_capacity : ThreadsafeQueue A → ℕ → ThreadsafeQueue A
  set_capacity t capacity = record t { queue = Queue.set_capacity t.queue capacity }

-- `ThreadsafeQueue(size)`.
pub new_threadsafe {ℓ} : (A : Type ℓ) → ℕ → ThreadsafeQueue A
new_threadsafe A size = record { queue = Queue.new_queue A size; disabled = false }

-- The calls of any number of producers and of one consumer, in the order in which they got the mutex:
-- what was pushed, what was taken, and the element that the consumer has a pointer to. It reads the
-- top and pops it in two calls. The queue is resized only above the number of its elements, and only
-- while the consumer has no pointer into it.
pub data Run {ℓ} {A : Type ℓ} (start : ThreadsafeQueue A)
    : ThreadsafeQueue A → List A → List A → Option A → Type ℓ where
  begin : Run start start [] [] none
  pushed :
      {t t' : ThreadsafeQueue A} {ins outs : List A} {held : Option A} (a : A)
      → Run start t ins outs held
      → push t a ≡ some (true, t')
      → Run start t' (ins ++ (a ∷ [])) outs held
  not_pushed :
      {t t' : ThreadsafeQueue A} {ins outs : List A} {held : Option A} (a : A)
      → Run start t ins outs held
      → push t a ≡ some (false, t')
      → Run start t' ins outs held
  pushed_if_room :
      {t t' : ThreadsafeQueue A} {ins outs : List A} {held : Option A} (a : A)
      → Run start t ins outs held
      → push_if_room t a ≡ (true, t')
      → Run start t' (ins ++ (a ∷ [])) outs held
  peeked :
      {t : ThreadsafeQueue A} {ins outs : List A} {held : Option A} (a : A)
      → Run start t ins outs held
      → top t ≡ some (some a)
      → Run start t ins outs (some a)
  popped :
      {t t' : ThreadsafeQueue A} {ins outs : List A} (a : A)
      → Run start t ins outs (some a)
      → pop t ≡ some t'
      → Run start t' ins (outs ++ (a ∷ [])) none
  disabled_by :
      {t : ThreadsafeQueue A} {ins outs : List A} {held : Option A}
      → Run start t ins outs held
      → Run start (disable t) ins outs held
  enabled_by :
      {t : ThreadsafeQueue A} {ins outs : List A} {held : Option A}
      → Run start t ins outs held
      → Run start (enable t) ins outs held
  resized :
      {t : ThreadsafeQueue A} {ins outs : List A} (capacity : ℕ)
      → Run start t ins outs none
      → Queue.num_messages t.queue < capacity
      → Run start (set_capacity t capacity) ins outs none
