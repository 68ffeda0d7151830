-- ===== src/Udp/MemPool.antt =====
-- zcm/transport/udp/mempool.cpp: blocks of a power of two bytes, kept on thirteen lists.
pub mod Rooms
use zcm.Prelude.{
  ℕ, zero, suc, ◌+◌, ◌-◌, ◌*◌, ◌/◌, ◌%◌, ◌^◌, Bool, not, ◌&&◌, ◌||◌, List, [], ◌∷◌, Option, none,
  some, if◌then◌else◌, ltb, leb, ◌==◌, get_or, set, replicate,
}

-- `NUMLISTS`
abbrev pub num_lists : ℕ
num_lists = 13

-- `MemPool`; a list is the addresses of its blocks.
pub record MemPool : Type 0 where
  pub sizelists : List (List ℕ)

pub new_mem_pool : MemPool
new_mem_pool = record { sizelists = replicate num_lists [] }

-- `31 - __builtin_clz(v)`, the place of the highest bit; so many bits at most.
unfoldable pub highest_bit : ℕ → ℕ → ℕ
highest_bit zero v = 0
highest_bit (suc bits) v = let rest = highest_bit bits (v / 2) in if ltb v 2 then 0 else suc rest

-- `none`: an assertion fails. `1 << (bits - 1)` wants more than 1 byte.
unfoldable pub compute_slot : ℕ → Option ℕ
compute_slot v =
    let bits = highest_bit 32 v in
    let bits' = if 2 ^ bits == v then bits else bits + 1 in
    if not (ltb v (2 ^ 32)) || ltb v 2
    then none
    else if ltb (2 ^ (bits' - 1)) v && leb v (2 ^ bits')
    then some ((if ltb bits' 16 then 16 else bits') - 16)
    else none

unfoldable pub slot_to_size : ℕ → ℕ
slot_to_size slot = 2 ^ (slot + 16)

-- The slot of a size that the assertions of `alloc` and `free` let pass.
unfoldable pub good_slot : ℕ → Option ℕ → Option ℕ
good_slot sz none = none
good_slot sz (some slot) = if ltb (2 ^ 28) sz || not (ltb slot num_lists) then none else some slot

abbrev pub take_block : ℕ → MemPool → ℕ → List ℕ → ℕ × MemPool
take_block fresh pool slot [] = (fresh, pool)
take_block fresh pool slot (mem ∷ rest) =
    (mem, record pool { sizelists = set pool.sizelists slot rest })

abbrev pub alloc_at : ℕ → MemPool → Option ℕ → Option (ℕ × MemPool)
alloc_at fresh pool none = none
alloc_at fresh pool (some slot) = some (take_block fresh pool slot (get_or pool.sizelists slot []))

-- `fresh` is what `malloc(slotToSize(slot))` returns if it is called.
unfoldable pub mem_alloc : ℕ → MemPool → ℕ → Option (ℕ × MemPool)
mem_alloc fresh pool sz = alloc_at fresh pool (good_slot sz (compute_slot sz))

abbrev pub free_at : MemPool → ℕ → Option ℕ → Option MemPool
free_at pool mem none = none
free_at pool mem (some slot) =
    some (record pool { sizelists = set pool.sizelists slot (mem ∷ get_or pool.sizelists slot []) })

unfoldable pub mem_free : MemPool → ℕ → ℕ → Option MemPool
mem_free pool mem sz = free_at pool mem (good_slot sz (compute_slot sz))
