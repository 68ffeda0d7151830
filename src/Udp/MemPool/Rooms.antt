-- ===== src/Udp/MemPool/Rooms.antt =====
-- The slots of zcm/transport/udp/mempool.cpp, and the room in its blocks.
use zcm.Prelude.{
  ℕ, zero, suc, ◌+◌, ◌-◌, ◌/◌, ◌^◌, ◌≤◌, ◌<◌, ◌≡◌, ◌≢◌, ◌∙◌, inl, inr, ap, refl, sym, subst, arith,
  Bool-cases, List, [], ◌∷◌, some, if◌then◌else◌, ltb, ◌==◌, length, get_or, set, All, ltb→lt,
  lt→ltb, ltb→ge, ge→ltb, le→leb, ==_iff, length-set, get_or-set_self, get_or-set_ne,
}
use native.Mathlib.Nat.{pow-suc, pow-le-pow_right, one-le-pow}
use zcm.Udp.MemPool.{
  num_lists, MemPool, highest_bit, compute_slot, slot_to_size, good_slot, take_block, alloc_at,
  mem_alloc, free_at, mem_free,
}

highest_bit_lem :
    (bits v : ℕ)
    → 0 < v
    → v < 2 ^ bits
    → (2 ^ highest_bit bits v ≤ v) × (v < 2 ^ suc (highest_bit bits v))
unfolding highest_bit
highest_bit_lem zero v h k = absurd (omega arith)
highest_bit_lem (suc bits) v h k = elim (Bool-cases (ltb v 2)) [
  | inl e ↦ rw e (omega (arith, ltb→lt v 2 e), omega (arith, ltb→lt v 2 e))
  | inr e ↦
      let big = ltb→ge v 2 e in
      let double = pow-suc 2 bits in
      let n = highest_bit bits (v / 2) in
      let (low, high) = highest_bit_lem bits (v / 2) (omega arith) (omega arith) in
      let here = pow-suc 2 n in let next = pow-suc 2 (suc n) in rw e (omega arith, omega arith)
]

-- The exponent: the power is the least one that is large enough.
record Bits (v bits : ℕ) : Type 0 where
  above : 2 ^ (bits - 1) < v
  enough : v ≤ 2 ^ bits

abbrev pub bits_of : ℕ → ℕ
bits_of v = let bits = highest_bit 32 v in if 2 ^ bits == v then bits else bits + 1

one_power :
    (n : ℕ) (v : ℕ) → 1 < v → 2 ^ n ≤ v → v < 2 ^ suc n → Bits v (if 2 ^ n == v then n else n + 1)
one_power zero v h low high = absurd (omega arith)
one_power (suc n) v h low high = elim (Bool-cases (2 ^ suc n == v)) [
  | inl e ↦
      let same = (==_iff (2 ^ suc n) v).0 e in
      let double = pow-suc 2 n in
      let less : suc n - 1 ≡ n = omega arith in
      let some_there = one-le-pow n 2 (omega arith) in
      rw e (record {
        above = rw less (omega (arith, same, double, some_there));
        enough = omega (arith, same);
      })
  | inr e ↦
      let differs : 2 ^ suc n ≢ v = λ q. absurd (ground (arith, e, (==_iff (2 ^ suc n) v).1 q)) in
      let less : suc n + 1 - 1 ≡ suc n = omega arith in
      let more : suc n + 1 ≡ suc (suc n) = omega arith in
      rw e (record {
        above = rw less (ground (arith, low, differs));
        enough = rw more (omega (arith, high));
      })
]

bits_of-Bits : (v : ℕ) → 1 < v → v < 2 ^ 32 → Bits v (bits_of v)
bits_of-Bits v h k =
    let (low, high) = highest_bit_lem 32 v (omega arith) k in
    one_power (highest_bit 32 v) v h low high

power_mono : (m n : ℕ) → m ≤ n → 2 ^ m ≤ 2 ^ n
power_mono m n h = pow-le-pow_right (omega arith) h

-- At least 2 ^ 16 bytes.
abbrev pub slot_of : ℕ → ℕ
slot_of v = (if ltb (bits_of v) 16 then 16 else bits_of v) - 16

compute_slot-slot_of : (v : ℕ) → 1 < v → v < 2 ^ 32 → compute_slot v ≡ some (slot_of v)
unfolding compute_slot
compute_slot-slot_of v h k =
    let b = bits_of-Bits v h k in
    rw (lt→ltb v (2 ^ 32) k, ge→ltb v 2 (omega arith), lt→ltb _ v b.above, le→leb v _ b.enough) refl

bits_of-small : (v : ℕ) → 1 < v → v ≤ 2 ^ 28 → bits_of v ≤ 28
bits_of-small v h k =
    let b = bits_of-Bits v h (omega arith) in
    elim (Bool-cases (ltb 28 (bits_of v))) [
      | inl e ↦
          let too_big = power_mono 28 (bits_of v - 1) (omega (arith, ltb→lt 28 (bits_of v) e)) in
          absurd (omega (arith, b.above, too_big))
      | inr e ↦ ltb→ge 28 (bits_of v) e
    ]

slot_of-fits : (v : ℕ) → 1 < v → v < 2 ^ 32 → v ≤ slot_to_size (slot_of v)
unfolding slot_to_size
slot_of-fits v h k =
    let b = bits_of-Bits v h k in
    let more : bits_of v ≤ slot_of v + 16 = ground arith in
    let grown = power_mono (bits_of v) (slot_of v + 16) more in omega (arith, b.enough, grown)

good_slot-slot_of :
    (sz : ℕ) → 1 < sz → sz ≤ 2 ^ 28 → good_slot sz (compute_slot sz) ≡ some (slot_of sz)
unfolding good_slot
good_slot-slot_of sz h k =
    let bound = bits_of-small sz h k in
    let within : slot_of sz < num_lists = ground arith in
    rw (compute_slot-slot_of sz h (omega arith))
      (rw (ge→ltb (2 ^ 28) sz k, lt→ltb (slot_of sz) num_lists within) refl)

-- Each block has the room that its list stands for.
pub record Rooms (room : ℕ → ℕ) (pool : MemPool) : Type 0 where
  pub lists : length pool.sizelists ≡ num_lists
  pub rooms : (i : ℕ) → All (λ b. room b ≡ slot_to_size i) (get_or pool.sizelists i [])

module _ (room : ℕ → ℕ) where
  set-Rooms :
      (pool : MemPool) (k : ℕ) (bs : List ℕ)
      → k < num_lists
      → All (λ b. room b ≡ slot_to_size k) bs
      → Rooms room pool
      → Rooms room (record pool { sizelists = set pool.sizelists k bs })
  set-Rooms pool k bs h p r = record {
    lists = length-set pool.sizelists k bs ∙ r.lists;
    rooms = λ i. elim (Bool-cases (i == k)) [
      | inl e ↦
          let same : i ≡ k = (==_iff i k).0 e in
          subst (λ j. All (λ b. room b ≡ slot_to_size j) (get_or (set pool.sizelists k bs) j []))
            (sym same)
            (subst (All (λ b. room b ≡ slot_to_size k))
              (sym (get_or-set_self pool.sizelists k bs [] (omega (arith, r.lists)))) p)
      | inr e ↦
          let other : k ≢ i = λ q. absurd (ground (arith, e, (==_iff i k).1 (sym q))) in
          subst (All (λ b. room b ≡ slot_to_size i))
            (sym (get_or-set_ne pool.sizelists k i bs [] other)) (r.rooms i)
    ];
  }

  take_block-Rooms :
      (fresh : ℕ) (pool : MemPool) (k : ℕ) (bs : List ℕ)
      → k < num_lists
      → Rooms room pool
      → room fresh ≡ slot_to_size k
      → All (λ b. room b ≡ slot_to_size k) bs
      → (room (take_block fresh pool k bs).0 ≡ slot_to_size k)
        × Rooms room (take_block fresh pool k bs).1
  take_block-Rooms fresh pool k [] h r f p = (f, r)
  take_block-Rooms fresh pool k (b ∷ bs) h r f (q, qs) = (q, set-Rooms pool k bs h qs r)

  -- For a size from 2 to 2^28, where `malloc` returns a block of the bytes it is asked for, `alloc`
  -- passes its assertions and returns a block with room for the size; every block on the lists still
  -- has the room its list stands for, and so after the block is freed, when the next `alloc` of the
  -- size returns it again.
  pub mem_alloc_lem :
      (pool : MemPool) (fresh fresh' sz : ℕ)
      → 1 < sz
      → sz ≤ 2 ^ 28
      → room fresh ≡ slot_to_size (slot_of sz)
      → Rooms room pool
      → (mem : ℕ) × (pool' pool2 pool3 : MemPool) × (mem_alloc fresh pool sz ≡ some (mem, pool'))
        × (sz ≤ room mem)
        × Rooms room pool'
        × (mem_free pool' mem sz ≡ some pool2)
        × Rooms room pool2
        × (mem_alloc fresh' pool2 sz ≡ some (mem, pool3))
  unfolding mem_alloc mem_free
  mem_alloc_lem pool fresh fresh' sz h k f r =
      let slot = slot_of sz in
      let good = good_slot-slot_of sz h k in
      let small : slot < num_lists = let bound = bits_of-small sz h k in ground arith in
      let bs = get_or pool.sizelists slot [] in
      let taken = take_block fresh pool slot bs in
      let (enough, kept) = take_block-Rooms fresh pool slot bs small r f (r.rooms slot) in
      let more = taken.0 ∷ get_or taken.1.sizelists slot [] in
      let pool2 : MemPool = record taken.1 { sizelists = set taken.1.sizelists slot more } in
      let top = get_or-set_self taken.1.sizelists slot more [] (omega (arith, kept.lists)) in
      (
        taken.0,
        taken.1,
        pool2,
        (take_block fresh' pool2 slot more).1,
        ap (alloc_at fresh pool) good,
        omega (arith, enough, slot_of-fits sz h (omega arith)),
        kept,
        ap (free_at taken.1 taken.0) good,
        set-Rooms taken.1 slot more small (enough, kept.rooms slot) kept,
        ap (alloc_at fresh' pool2) good ∙ ap (λ l. some (take_block fresh' pool2 slot l)) top,
      )
