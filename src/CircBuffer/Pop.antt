-- ===== src/CircBuffer/Pop.antt =====
-- `cb_pop_front` and `cb_pop_back` drop bytes at the two ends.
use zcm.Prelude.{
  ℕ, ◌+◌, ◌-◌, ◌≤◌, ◌<◌, ◌≡◌, ◌∙◌, ap, sym, refl, arith, drop, take, get_or, tabulate_cong,
  drop-tabulate, take-tabulate,
}
use zcm.CircBuffer.{CircBuffer, cb_size, cb_front, cb_pop_front, cb_pop_back}
use zcm.CircBuffer.Contents.{IsValid, contents}

pub pop_front-IsValid :
    {cb : CircBuffer} (n : ℕ) → IsValid cb → n ≤ cb_size cb → IsValid (cb_pop_front cb n)
unfolding cb_pop_front cb_size
pop_front-IsValid n v h = ground arith

pub size-pop_front :
    {cb : CircBuffer} (n : ℕ)
    → IsValid cb
    → n ≤ cb_size cb
    → cb_size (cb_pop_front cb n) ≡ cb_size cb - n
unfolding cb_pop_front cb_size
size-pop_front n v h = ground arith

pub front-pop_front :
    {cb : CircBuffer} (n k : ℕ)
    → IsValid cb
    → n ≤ cb_size cb
    → k < cb_size cb - n
    → cb_front (cb_pop_front cb n) k ≡ cb_front cb (n + k)
unfolding cb_pop_front cb_size cb_front
front-pop_front {cb} n k v h p = ap (λ t. get_or cb.mem t 0) (ground arith)

-- `cb_pop_front` drops the oldest bytes, and keeps the ring valid.
pub pop_front_lem :
    {cb : CircBuffer} (n : ℕ)
    → IsValid cb
    → n ≤ cb_size cb
    → IsValid (cb_pop_front cb n) × (contents (cb_pop_front cb n) ≡ drop n (contents cb))
unfolding contents
pop_front_lem {cb} n v h = (
  pop_front-IsValid n v h,
  tabulate_cong _ _ _ _ (size-pop_front n v h) (λ k p. front-pop_front n k v h p)
      ∙ sym (drop-tabulate n (cb_size cb) (cb_front cb)),
)

pop_back-IsValid :
    {cb : CircBuffer} (n : ℕ) → IsValid cb → n ≤ cb_size cb → IsValid (cb_pop_back cb n)
unfolding cb_pop_back cb_size
pop_back-IsValid n v h = ground arith

pub size-pop_back :
    {cb : CircBuffer} (n : ℕ)
    → IsValid cb
    → n ≤ cb_size cb
    → cb_size (cb_pop_back cb n) ≡ cb_size cb - n
unfolding cb_pop_back cb_size
size-pop_back n v h = ground arith

front-pop_back : (cb : CircBuffer) (n k : ℕ) → cb_front (cb_pop_back cb n) k ≡ cb_front cb k
unfolding cb_pop_back cb_front
front-pop_back cb n k = refl

-- `cb_pop_back` takes back the newest bytes, and keeps the ring valid.
pub pop_back_lem :
    {cb : CircBuffer} (n : ℕ)
    → IsValid cb
    → n ≤ cb_size cb
    → IsValid (cb_pop_back cb n)
      × (contents (cb_pop_back cb n) ≡ take (cb_size cb - n) (contents cb))
unfolding contents
pop_back_lem {cb} n v h = (
  pop_back-IsValid n v h,
  tabulate_cong _ _ _ _ (size-pop_back n v h) (λ k p. front-pop_back cb n k)
      ∙ sym (take-tabulate (cb_size cb - n) (cb_size cb) (cb_front cb) (omega arith)),
)
