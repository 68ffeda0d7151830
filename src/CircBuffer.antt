-- ===== src/CircBuffer.antt =====
-- zcm/transport/generic_serial_circ_buff.c: the ring of bytes under the serial transport.
-- One slot stays free, so that `front == back` means that the ring is empty.
pub mod Contents
pub mod Push
pub mod Pop
pub mod Blocks
pub mod FlushOut
pub mod FlushIn
use zcm.Prelude.{
  ℕ, ◌+◌, ◌-◌, Option, none, some, List, [], ◌∷◌, if◌then◌else◌, ltb, leb, ◌==◌, ◌||◌, not, get_or,
  set, take, drop, length, min,
}

-- `circBuffer_t`. A byte is a number; `mem` is the block that `data` points to.
pub record CircBuffer : Type 0 where
  pub mem : List ℕ
  pub capacity : ℕ
  pub front : ℕ
  pub back : ℕ

-- What `malloc` hands out is an argument: the block, or nothing.
pub cb_init : Option (List ℕ) → ℕ → Option CircBuffer
cb_init block sz = if sz == 0 then none else alloc block
  where
    alloc : Option (List ℕ) → Option CircBuffer
    alloc none = none
    alloc (some m) = some (record { mem = m; capacity = sz; front = 0; back = 0 })

unfoldable pub cb_size : CircBuffer → ℕ
cb_size cb = if leb cb.front cb.back then cb.back - cb.front else cb.capacity - (cb.front - cb.back)

unfoldable pub cb_room : CircBuffer → ℕ
unfolding cb_size
cb_room cb = cb.capacity - 1 - cb_size cb

unfoldable pub cb_push_back : CircBuffer → ℕ → CircBuffer
cb_push_back cb d =
    let b = cb.back + 1 in
    record cb { mem = set cb.mem cb.back d; back = if b == cb.capacity then 0 else b }

unfoldable pub cb_front : CircBuffer → ℕ → ℕ
cb_front cb offset =
    let idx = cb.front + offset in
    get_or cb.mem (if leb cb.capacity idx then idx - cb.capacity else idx) 0

unfoldable pub cb_pop_front : CircBuffer → ℕ → CircBuffer
cb_pop_front cb num =
    let f = cb.front + num in record cb { front = if leb cb.capacity f then f - cb.capacity else f }

unfoldable pub cb_pop_back : CircBuffer → ℕ → CircBuffer
cb_pop_back cb num = record cb {
  back = if ltb cb.back num then cb.capacity - (num - cb.back) else cb.back - num;
}

-- The `num` bytes at `data + from`.
abbrev pub slice : List ℕ → ℕ → ℕ → List ℕ
slice m from num = take num (drop from m)

-- The bytes that a callback has put at `data + at`.
abbrev pub store : List ℕ → ℕ → List ℕ → List ℕ
store m at [] = m
store m at (x ∷ xs) = store (set m at x) (at + 1) xs

module _ {W : Type 0} where
  -- `write` is given the bytes, and answers how many it took. `W` is the state behind `usr`.
  unfoldable pub cb_flush_out : CircBuffer → (List ℕ → W → ℕ × W) → W → ℕ × CircBuffer × W
  cb_flush_out cb write usr =
      let sz = cb_size cb in
      let contiguous = min (cb.capacity - cb.front) sz in
      let wrapped = sz - contiguous in
      let (n, usr') = write (slice cb.mem cb.front contiguous) usr in
      let cb' = cb_pop_front cb n in
      let (n', usr'') = write (slice cb.mem 0 wrapped) usr' in
      if sz == 0
      then (0, cb, usr)
      else if not (n == contiguous) || wrapped == 0
      then (n, cb', usr')
      else (n + n', cb_pop_front cb' n', usr'')

  -- `read` is asked for at most so many bytes, and answers those that it put in place.
  unfoldable pub cb_flush_in : CircBuffer → (ℕ → W → List ℕ × W) → W → ℕ × CircBuffer × W
  cb_flush_in cb read usr =
      let room = cb_room cb in
      let (all, usr_all) = read room usr in
      let contiguous = min (cb.capacity - cb.back) room in
      let wrapped = room - contiguous in
      let (bytes, usr') = read contiguous usr in
      let b = cb.back + length bytes in
      let cb' = record cb { mem = store cb.mem cb.back bytes; back = b } in
      let b' = if b == cb.capacity then 0 else b in
      let (more, usr'') = read wrapped usr' in
      if ltb cb.back cb.front
      then (
        length all,
        record cb { mem = store cb.mem cb.back all; back = cb.back + length all },
        usr_all,
      )
      else if not (length bytes == contiguous)
      then (length bytes, cb', usr')
      else if wrapped == 0
      then (length bytes, record cb' { back = b' }, usr')
      else (
        length bytes + length more,
        record cb' { mem = store cb'.mem 0 more; back = b' + length more },
        usr'',
      )
