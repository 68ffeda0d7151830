-- ===== src/Coretypes.antt =====
-- zcm/zcm_coretypes.h: how arrays of the basic types are laid out on the bus. `buf` is the whole
-- memory object. Offsets, positions and numbers of elements are of 32 bits; a size is returned as an
-- `int`, which is negative from 2 ^ 31 on.
pub mod Numbers
pub mod Text
pub mod RoundTrip
pub mod Bounds
use zcm.Prelude.{
  ℕ, zero, suc, ◌+◌, ◌*◌, ◌%◌, ◌^◌, List, [], ◌∷◌, ◌++◌, Option, none, some, if◌then◌else◌, ltb,
  length, set, get_or,
}

-- What a function of this file returns: -1, a size with what was written or read, a size that is
-- negative as an `int`, of which nothing further is followed, or an access outside of the buffer.
pub data Result {ℓ} (A : Type ℓ) : Type ℓ where
  refused fault : Result A
  done : ℕ → A → Result A
  negative : ℕ → Result A

-- A `uint32_t` is returned as an `int`.
abbrev pub returned {ℓ} : {A : Type ℓ} → ℕ → A → Result A
returned n a = if ltb n (2 ^ 31) then done n a else negative n

-- Bytes are written and read one after the other, with `pos++` on a `uint32_t`.
unfoldable pub write_wrapping : List ℕ → ℕ → List ℕ → Option (List ℕ)
write_wrapping buf pos [] = some buf
write_wrapping buf pos (b ∷ bs) =
    let rest = write_wrapping (set buf pos b) ((pos + 1) % 2 ^ 32) bs in
    if ltb pos (length buf) then rest else none

abbrev pub cons_some : ℕ → Option (List ℕ) → Option (List ℕ)
cons_some v none = none
cons_some v (some vs) = some (v ∷ vs)

unfoldable pub read_wrapping : List ℕ → ℕ → ℕ → Option (List ℕ)
read_wrapping buf pos zero = some []
read_wrapping buf pos (suc n) =
    let rest = read_wrapping buf ((pos + 1) % 2 ^ 32) n in
    if ltb pos (length buf) then cons_some (get_or buf pos 0) rest else none

-- The body of the loops over the elements: how many bytes an element takes, and which.
pub record Layout : Type 0 where
  pub width : ℕ
  pub put : ℕ → List ℕ
  pub get : List ℕ → ℕ

-- `__X_encoded_array_size`
abbrev pub encoded_array_size : ℕ → ℕ → ℕ
encoded_array_size width elements = width * elements % 2 ^ 32

unfoldable pub encode_loop : (ℕ → List ℕ) → List ℕ → ℕ → List ℕ → Option (List ℕ)
encode_loop put buf pos [] = some buf
encode_loop put buf pos (v ∷ vs) = elim (write_wrapping buf pos (put v)) [
  | none ↦ none
  | some buf' ↦ encode_loop put buf' ((pos + length (put v)) % 2 ^ 32) vs
]

-- `return total_size`, or an access outside of the buffer before it.
abbrev pub or_fault : ℕ → Option (List ℕ) → Result (List ℕ)
or_fault n none = fault
or_fault n (some bs) = returned n bs

-- The array `p` is written at `offset`.
unfoldable pub encode_with : Layout → List ℕ → ℕ → ℕ → List ℕ → Result (List ℕ)
encode_with l buf offset maxlen p =
    let total_size = encoded_array_size l.width (length p) in
    if ltb maxlen total_size then refused else or_fault total_size (encode_loop l.put buf offset p)

unfoldable pub decode_loop : ℕ → (List ℕ → ℕ) → List ℕ → ℕ → ℕ → Option (List ℕ)
decode_loop width get buf pos zero = some []
decode_loop width get buf pos (suc n) = elim (read_wrapping buf pos width) [
  | none ↦ none
  | some bs ↦ cons_some (get bs) (decode_loop width get buf ((pos + width) % 2 ^ 32) n)
]

-- What the loop stores in `p`, which has room for `elements`.
unfoldable pub decode_with : Layout → List ℕ → ℕ → ℕ → ℕ → Result (List ℕ)
decode_with l buf offset maxlen elements =
    let total_size = encoded_array_size l.width elements in
    if ltb maxlen total_size
    then refused
    else or_fault total_size (decode_loop l.width l.get buf offset elements)
