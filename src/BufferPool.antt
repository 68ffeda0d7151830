-- ===== src/BufferPool.antt =====
-- zcm/util/message_buffer_pool.hpp: the storage of messages that is used again. A buffer is the sizes
-- of its payload; the idle ones are listed from the back.
pub mod Bounds
use zcm.Prelude.{ℕ, ◌+◌, ◌-◌, ◌*◌, ◌^◌, ◌&&◌, List, [], ◌∷◌, if◌then◌else◌, ltb, leb, ◌==◌, length}

-- `payload.size()` and `payload.capacity()`
pub record Buffer : Type 0 where
  pub size : ℕ
  pub capacity : ℕ

-- `MessageBufferPool`
pub record BufferPool : Type 0 where
  pub idle : List Buffer
  pub cached_bytes : ℕ

-- `MAX_BUFFERS` and `MAX_BYTES`
abbrev pub max_buffers : ℕ
max_buffers = 16

abbrev pub max_bytes : ℕ
max_bytes = 16 * 2 ^ 20

abbrev pub empty_pool : BufferPool
empty_pool = record { idle = []; cached_bytes = 0 }

abbrev take_idle : BufferPool → List Buffer → Buffer × BufferPool
take_idle pool [] = (record { size = 0; capacity = 0 }, pool)
take_idle pool (b ∷ rest) =
    (b, record { idle = rest; cached_bytes = pool.cached_bytes - b.capacity })

-- `std::vector::resize`: what capacity the vector then has is given by `grow`.
abbrev pub resized : (ℕ → ℕ → ℕ) → ℕ → Buffer → Buffer
resized grow size b =
    let wanted = if size == 0 then 1 else size in
    if ltb b.size wanted then record { size = wanted; capacity = grow b.capacity wanted } else b

unfoldable pub acquire : (ℕ → ℕ → ℕ) → BufferPool → ℕ → Buffer × BufferPool
acquire grow pool size = let (b, pool') = take_idle pool pool.idle in (resized grow size b, pool')

unfoldable pub release : BufferPool → Buffer → BufferPool
release pool b =
    if ltb (length pool.idle) max_buffers && leb b.capacity (max_bytes - pool.cached_bytes)
    then record { idle = b ∷ pool.idle; cached_bytes = pool.cached_bytes + b.capacity }
    else pool
