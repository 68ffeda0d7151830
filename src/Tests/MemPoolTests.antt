-- ===== src/Tests/MemPoolTests.antt =====
-- zcm/transport/udp/mempool.cpp: 70000 bytes from a pool that holds a block of 2 ^ 17.
use zcm.Prelude.{ℕ, zero, suc, ◌≤◌, ◌^◌, ◌≡◌, refl, arith, [], ◌∷◌, some, All, get_or, replicate}
use zcm.Udp.MemPool.{MemPool, compute_slot, mem_alloc, mem_free, slot_to_size}
use zcm.Udp.MemPool.Rooms.{Rooms, mem_alloc_lem}

abbrev holding : MemPool
holding = record { sizelists = [] ∷ (7 ∷ []) ∷ replicate 11 [] }

abbrev room : ℕ → ℕ
room b = 2 ^ 17

no_block : (P : ℕ → Type 0) (n i : ℕ) → All P (get_or (replicate n []) i [])
no_block P zero i = tt
no_block P (suc n) zero = tt
no_block P (suc n) (suc i) = no_block P n i

each_list : (i : ℕ) → All (λ b. room b ≡ slot_to_size i) (get_or holding.sizelists i [])
unfolding slot_to_size
each_list zero = tt
each_list (suc zero) = (refl, tt)
each_list (suc (suc i)) = no_block (λ b. room b ≡ slot_to_size (suc (suc i))) 11 i

holding-Rooms : Rooms room holding
holding-Rooms = record { lists = refl; rooms = each_list }

mem_alloc_lem_example :
    (mem : ℕ) × (pool' pool2 pool3 : MemPool) × (mem_alloc 9 holding 70000 ≡ some (mem, pool'))
    × (70000 ≤ room mem)
    × Rooms room pool'
    × (mem_free pool' mem 70000 ≡ some pool2)
    × Rooms room pool2
    × (mem_alloc 10 pool2 70000 ≡ some (mem, pool3))
unfolding slot_to_size zcm.Udp.MemPool.highest_bit
mem_alloc_lem_example =
    mem_alloc_lem room holding 9 10 70000 (omega arith) (omega arith) refl holding-Rooms

slot_test : compute_slot 70000 ≡ some 1
unfolding compute_slot zcm.Udp.MemPool.highest_bit
slot_test = refl
