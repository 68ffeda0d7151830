-- ===== src/CircBuffer/Contents.antt =====
-- The bytes that a ring holds, oldest first, and the invariant of `circBuffer_t`.
use zcm.Prelude.{
  ℕ, ◌+◌, ◌<◌, ◌≡◌, sym, arith, List, [], length, tabulate, length-tabulate, get_or-tabulate,
  get_or, some,
}
use zcm.CircBuffer.{CircBuffer, cb_init, cb_size, cb_room, cb_front}

pub record IsValid (cb : CircBuffer) : Type 0 where
  pub storage : length cb.mem ≡ cb.capacity
  pub front_in : cb.front < cb.capacity
  pub back_in : cb.back < cb.capacity

unfoldable pub contents : CircBuffer → List ℕ
contents cb = tabulate (cb_size cb) (cb_front cb)

pub length-contents : (cb : CircBuffer) → length (contents cb) ≡ cb_size cb
unfolding contents
length-contents cb = length-tabulate (cb_size cb) (cb_front cb)

-- `cb_front` reads the byte at that place of the contents.
pub cb_front-eq :
    (cb : CircBuffer) (k : ℕ) → k < cb_size cb → cb_front cb k ≡ get_or (contents cb) k 0
unfolding contents
cb_front-eq cb k h = sym (get_or-tabulate (cb_size cb) (cb_front cb) k 0 h)

-- The free slot: a ring of capacity `c` holds at most `c - 1` bytes.
pub size-add-room : {cb : CircBuffer} → IsValid cb → cb_size cb + cb_room cb + 1 ≡ cb.capacity
unfolding cb_room
size-add-room v = ground arith

-- What `cb_init` hands out is an empty ring, and it refuses an empty one and a failed `malloc`.
pub init-IsValid :
    (block : List ℕ) (sz : ℕ) {cb : CircBuffer}
    → length block ≡ sz
    → cb_init (some block) sz ≡ some cb
    → IsValid cb × (contents cb ≡ [])
unfolding cb_init contents cb_size
init-IsValid block sz h e = ground arith
