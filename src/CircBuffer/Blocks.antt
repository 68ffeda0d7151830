-- ===== src/CircBuffer/Blocks.antt =====
-- Runs of bytes in the block of a ring: what is stored, and what is read back.
use zcm.Prelude.{
  ℕ, zero, suc, ◌+◌, ◌≤◌, ◌<◌, ◌≡◌, ◌⊎◌, inl, ◌∙◌, ap, refl, arith, List, [], ◌∷◌, drop, take,
  get_or, set, length, tabulate, length-set, get_or-set_ne, get_or-set_self,
}
use zcm.CircBuffer.{store}

pub length-store : (m : List ℕ) (at : ℕ) (xs : List ℕ) → length (store m at xs) ≡ length m
length-store m at [] = refl
length-store m at (x ∷ xs) = length-store (set m at x) (at + 1) xs ∙ length-set m at x

-- A read before the stored bytes, and one after them.
pub store_other :
    (m : List ℕ) (at : ℕ) (xs : List ℕ) (i : ℕ)
    → (i < at) ⊎ (at + length xs ≤ i)
    → get_or (store m at xs) i 0 ≡ get_or m i 0
store_other m at [] i h = refl
store_other m at (x ∷ xs) i h =
    store_other (set m at x) (at + 1) xs i (omega arith) ∙ get_or-set_ne m at i x 0 (omega arith)

pub store_inside :
    (m : List ℕ) (at : ℕ) (xs : List ℕ) (k : ℕ)
    → at + length xs ≤ length m
    → k < length xs
    → get_or (store m at xs) (at + k) 0 ≡ get_or xs k 0
store_inside m at [] k h p = absurd (omega arith)
store_inside m at (x ∷ xs) zero h p =
    store_other (set m at x) (at + 1) xs (at + 0) (inl (omega arith))
    ∙ ap (λ t. get_or (set m at x) t 0) (omega arith)
    ∙ get_or-set_self m at x 0 (omega arith)
store_inside m at (x ∷ xs) (suc k) h p =
    ap (λ t. get_or (store (set m at x) (at + 1) xs) t 0) (omega arith)
    ∙ store_inside (set m at x) (at + 1) xs k (omega (arith, length-set m at x)) (omega arith)

pub get_or-drop : (m : List ℕ) (f k : ℕ) → get_or (drop f m) k 0 ≡ get_or m (f + k) 0
get_or-drop m zero k = ap (λ t. get_or m t 0) (omega arith)
get_or-drop [] (suc f) k = refl
get_or-drop (x ∷ m) (suc f) k =
    get_or-drop m f k ∙ ap (λ t. get_or (x ∷ m) t 0) {x = suc (f + k)} (omega arith)

pub take-eq-tabulate :
    (m : List ℕ) (n : ℕ) → n ≤ length m → take n m ≡ tabulate n (λ k. get_or m k 0)
take-eq-tabulate m zero h = refl
take-eq-tabulate [] (suc n) h = absurd (omega arith)
take-eq-tabulate (x ∷ m) (suc n) h = ap (λ t. x ∷ t) (take-eq-tabulate m n (omega arith))

pub all-eq-tabulate : (m : List ℕ) → m ≡ tabulate (length m) (λ k. get_or m k 0)
all-eq-tabulate [] = refl
all-eq-tabulate (x ∷ m) = ap (λ t. x ∷ t) (all-eq-tabulate m)
