-- ===== src/BufferPool/Bounds.antt =====
-- What the pool of zcm/util/message_buffer_pool.hpp keeps at most.
use zcm.Prelude.{
  ℕ, ◌+◌, ◌-◌, ◌≤◌, ◌<◌, ◌≡◌, arith, ap, ◌∙◌, refl, inl, inr, Bool-cases, List, [], ◌∷◌, ltb, leb,
  length, ltb→lt, leb→le,
}
use zcm.BufferPool.{
  Buffer, BufferPool, max_buffers, max_bytes, empty_pool, take_idle, resized, acquire, release,
}

abbrev pub bytes_of : List Buffer → ℕ
bytes_of [] = 0
bytes_of (b ∷ bs) = b.capacity + bytes_of bs

-- The bytes are counted exactly, and both bounds hold.
pub record Bounded (pool : BufferPool) : Type 0 where
  pub counted : pool.cached_bytes ≡ bytes_of pool.idle
  pub few : length pool.idle ≤ max_buffers
  pub small : pool.cached_bytes ≤ max_bytes

take_idle-Bounded :
    (pool : BufferPool) (bs : List Buffer)
    → pool.idle ≡ bs
    → Bounded pool
    → Bounded (take_idle pool bs).1
take_idle-Bounded pool [] e b = b
take_idle-Bounded pool (x ∷ bs) e b =
    let sum : pool.cached_bytes ≡ x.capacity + bytes_of bs = b.counted ∙ ap bytes_of e in
    let size : length pool.idle ≡ length (x ∷ bs) = ap length e in
    record {
      counted = omega (arith, sum);
      few = omega (arith, size, b.few);
      small = omega (arith, sum, b.small);
    }

acquire-Bounded :
    (grow : ℕ → ℕ → ℕ) (pool : BufferPool) (size : ℕ)
    → Bounded pool
    → Bounded (acquire grow pool size).1
unfolding acquire
acquire-Bounded grow pool size b = take_idle-Bounded pool pool.idle refl b

resized-size :
    (grow : ℕ → ℕ → ℕ) (size : ℕ) (b : Buffer)
    → (size ≤ (resized grow size b).size) × (0 < (resized grow size b).size)
resized-size grow size b = ground arith

release-Bounded : (pool : BufferPool) (b : Buffer) → Bounded pool → Bounded (release pool b)
unfolding release
release-Bounded pool b h = elim (Bool-cases (ltb (length pool.idle) max_buffers)) [
  | inr e ↦ rw e h
  | inl e ↦ elim (Bool-cases (leb b.capacity (max_bytes - pool.cached_bytes))) [
    | inr l ↦ rw (e, l) h
    | inl l ↦
        rw (e, l)
          (record {
            counted = omega (arith, h.counted);
            few = omega (arith, ltb→lt _ _ e);
            small = omega (arith, h.small, leb→le _ _ l);
          })
  ]
]

-- A call of either method; buffers that are released were acquired at any time.
pub data Use : Type 0 where
  acquired : ℕ → Use
  released : Buffer → Use

abbrev pub use_pool : (ℕ → ℕ → ℕ) → BufferPool → Use → BufferPool
use_pool grow pool (acquired size) = (acquire grow pool size).1
use_pool grow pool (released b) = release pool b

abbrev pub uses : (ℕ → ℕ → ℕ) → BufferPool → List Use → BufferPool
uses grow pool [] = pool
uses grow pool (u ∷ us) = uses grow (use_pool grow pool u) us

uses-Bounded :
    (grow : ℕ → ℕ → ℕ) (pool : BufferPool) (us : List Use)
    → Bounded pool
    → Bounded (uses grow pool us)
uses-Bounded grow pool [] b = b
uses-Bounded grow pool (acquired size ∷ us) b =
    uses-Bounded grow (acquire grow pool size).1 us (acquire-Bounded grow pool size b)
uses-Bounded grow pool (released x ∷ us) b =
    uses-Bounded grow (release pool x) us (release-Bounded pool x b)

-- After any calls on an empty pool, however vectors grow, it keeps at most 16 idle buffers, whose
-- capacities it has counted exactly and which are 16 MiB together at most; and the buffer that the
-- next `acquire` returns holds the bytes that are asked for, one at least.
pub acquire-uses :
    (grow : ℕ → ℕ → ℕ) (us : List Use) (size : ℕ)
    → Bounded (uses grow empty_pool us)
      × (size ≤ (acquire grow (uses grow empty_pool us) size).0.size)
      × (0 < (acquire grow (uses grow empty_pool us) size).0.size)
unfolding acquire
acquire-uses grow us size =
    let pool = uses grow empty_pool us in
    let (holds, positive) = resized-size grow size (take_idle pool pool.idle).0 in
    (
      uses-Bounded grow empty_pool us
          (record { counted = refl; few = omega arith; small = omega arith }),
      holds,
      positive,
    )
