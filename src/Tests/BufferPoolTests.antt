-- ===== src/Tests/BufferPoolTests.antt =====
-- zcm/util/message_buffer_pool.hpp with a few buffers.
use zcm.Prelude.{ℕ, ◌+◌, ◌≤◌, ◌<◌, ◌≡◌, refl, List, [], ◌∷◌}
use zcm.BufferPool.{empty_pool, acquire, release}
use zcm.BufferPool.Bounds.{Bounded, Use, acquired, released, uses, acquire-uses}

abbrev double : ℕ → ℕ → ℕ
double capacity size = size + size

abbrev some_uses : List Use
some_uses =
    acquired 10
    ∷ released (record { size = 10; capacity = 20 })
    ∷ released (record { size = 5; capacity = 99999999 })
    ∷ []

acquire-uses_example :
    Bounded (uses double empty_pool some_uses)
    × (12 ≤ (acquire double (uses double empty_pool some_uses) 12).0.size)
    × (0 < (acquire double (uses double empty_pool some_uses) 12).0.size)
acquire-uses_example = acquire-uses double some_uses 12

-- The second buffer is too large to be kept.
uses_test :
    uses double empty_pool some_uses
    ≡ record { idle = record { size = 10; capacity = 20 } ∷ []; cached_bytes = 20 }
unfolding acquire release
uses_test = refl
