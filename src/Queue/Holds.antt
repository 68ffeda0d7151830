-- ===== src/Queue/Holds.antt =====
-- What a queue holds: the elements constructed in it, oldest first, and no others.
use zcm.Prelude.{
  ℕ, zero, suc, ◌+◌, ◌-◌, ◌<◌, ◌≡◌, ◌∙◌, ap, ap₂, refl, arith, List, [], ◌∷◌, ◌++◌, map, length,
  Option, none, some, leb, if◌then◌else◌, get_or, set, replicate, tabulate, length-replicate,
}
use zcm.Queue.{Queue, num_messages, new_queue}

-- The slot `k` places behind the front.
abbrev pub slot {ℓ} : {A : Type ℓ} → Queue A → ℕ → Option A
slot q k =
    get_or q.slots (if leb q.capacity (q.front + k) then q.front + k - q.capacity else q.front + k)
      none

abbrev pub ring {ℓ} : {A : Type ℓ} → Queue A → List (Option A)
ring q = tabulate q.capacity (slot q)

-- The indices are in range.
pub record InRange {ℓ} {A : Type ℓ} (q : Queue A) : Type 0 where
  pub block : length q.slots ≡ q.capacity
  pub front_in : q.front < q.capacity
  pub back_in : q.back < q.capacity

-- Going round from the front: first the elements, and then slots that hold none.
pub record Holds {ℓ} {A : Type ℓ} (q : Queue A) (xs : List A) : Type ℓ where
  pub in_range : InRange q
  pub counts : num_messages q ≡ length xs
  pub elements : ring q ≡ map some xs ++ replicate (q.capacity - length xs) none

module _ {ℓ} {A : Type ℓ} where
  pub get_or-elements :
      (xs : List A) (m k : ℕ) (d : Option A)
      → get_or (map some xs ++ replicate (suc m) none) (length xs) d ≡ none
  get_or-elements [] m k d = refl
  get_or-elements (x ∷ xs) m k d = get_or-elements xs m k d

  pub set-elements :
      (xs : List A) (m : ℕ) (a : A)
      → set (map some xs ++ replicate (suc m) none) (length xs) (some a)
        ≡ map some (xs ++ (a ∷ [])) ++ replicate m none
  set-elements [] m a = refl
  set-elements (x ∷ xs) m a = ap (λ t. some x ∷ t) (set-elements xs m a)

  pub num-lt-capacity : {q : Queue A} → InRange q → num_messages q < q.capacity
  unfolding num_messages
  num-lt-capacity v = ground arith

  pub replicate-snoc : (n : ℕ) (a : A) → replicate n a ++ (a ∷ []) ≡ replicate (suc n) a
  replicate-snoc zero a = refl
  replicate-snoc (suc n) a = ap (λ t. a ∷ t) (replicate-snoc n a)

tabulate-replicate {ℓ} :
    {A : Type ℓ} (n : ℕ) (f : ℕ → A) (a : A) → ((k : ℕ) → f k ≡ a) → tabulate n f ≡ replicate n a
tabulate-replicate zero f a h = refl
tabulate-replicate (suc n) f a h =
    ap₂ ◌∷◌ (h 0) (tabulate-replicate n (λ k. f (suc k)) a (λ k. h (suc k)))

get_or-replicate {ℓ} : {A : Type ℓ} (n k : ℕ) (a : A) → get_or (replicate n a) k a ≡ a
get_or-replicate zero k a = refl
get_or-replicate (suc n) zero a = refl
get_or-replicate (suc n) (suc k) a = get_or-replicate n k a

-- A new queue holds nothing.
pub new_queue-Holds {ℓ} :
    (A : Type ℓ) (capacity : ℕ) → 0 < capacity → Holds (new_queue A capacity) []
unfolding new_queue num_messages
new_queue-Holds A capacity h = record {
  in_range = record { block = length-replicate capacity none; front_in = h; back_in = h };
  counts = refl;
  elements =
      tabulate-replicate capacity _ none (λ k. get_or-replicate capacity _ none)
      ∙ ap (λ n. replicate n none) (omega arith);
}
