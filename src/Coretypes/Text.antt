-- ===== src/Coretypes/Text.antt =====
-- Bytes and strings of zcm/zcm_coretypes.h. A string is the list of its bytes before the closing NUL;
-- a decoded one is the whole block that `zcm_malloc` gave, for which there is memory.
pub mod RoundTrip
use zcm.Prelude.{
  ℕ, zero, suc, ◌+◌, ◌-◌, ◌*◌, ◌%◌, ◌^◌, List, [], ◌∷◌, ◌++◌, Option, none, some, if◌then◌else◌,
  ltb, length, get_or, take, read_bytes, write_bytes,
}
use zcm.Coretypes.{Result, refused, fault, done, negative, returned, encoded_array_size, or_fault}
use zcm.Coretypes.Numbers.{
  int32_t_encode_array, int32_t_decode_array, int32_t_encode_little_endian_array,
  int32_t_decode_little_endian_array,
}

unfoldable pub byte_encode_array : List ℕ → ℕ → ℕ → List ℕ → Result (List ℕ)
byte_encode_array buf offset maxlen p =
    if ltb maxlen (encoded_array_size 1 (length p))
    then refused
    else or_fault (length p) (write_bytes buf offset p)

unfoldable pub byte_decode_array : List ℕ → ℕ → ℕ → ℕ → Result (List ℕ)
byte_decode_array buf offset maxlen elements =
    if ltb maxlen (encoded_array_size 1 elements)
    then refused
    else or_fault elements (read_bytes buf offset elements)

unfoldable pub int8_t_encode_array : List ℕ → ℕ → ℕ → List ℕ → Result (List ℕ)
int8_t_encode_array buf offset maxlen p =
    if ltb maxlen (encoded_array_size 1 (length p))
    then refused
    else or_fault (length p) (write_bytes buf offset p)

unfoldable pub int8_t_decode_array : List ℕ → ℕ → ℕ → ℕ → Result (List ℕ)
int8_t_decode_array buf offset maxlen elements =
    if ltb maxlen (encoded_array_size 1 elements)
    then refused
    else or_fault elements (read_bytes buf offset elements)

-- `if (thislen < 0) return thislen; else pos += thislen;`
abbrev pub and_then {ℓ κ} : {A : Type ℓ} {B : Type κ} → Result A → (ℕ → A → Result B) → Result B
and_then refused k = refused
and_then (negative n) k = negative n
and_then fault k = fault
and_then (done n a) k = k n a

unfoldable pub string_encoded_array_size : List (List ℕ) → ℕ
string_encoded_array_size [] = 0
string_encoded_array_size (s ∷ ss) = (4 + length s + 1 + string_encoded_array_size ss) % 2 ^ 32

-- The loop of either `__string_encode_array`; `pos` never passes `maxlen`, so neither it nor `maxlen - pos`
-- wraps, unlike `offset + pos`.
unfoldable pub string_encode_loop :
    (List ℕ → ℕ → ℕ → List ℕ → Result (List ℕ))
    → List ℕ
    → ℕ
    → ℕ
    → ℕ
    → List (List ℕ)
    → Result (List ℕ)
string_encode_loop encode_length buf offset maxlen pos [] = returned pos buf
string_encode_loop encode_length buf offset maxlen pos (s ∷ ss) =
    let len = (length s + 1) % 2 ^ 32 in
    and_then (encode_length buf ((offset + pos) % 2 ^ 32) (maxlen - pos) (len ∷ [])) λ n buf'.
      and_then
        (int8_t_encode_array buf' ((offset + (pos + n)) % 2 ^ 32) (maxlen - (pos + n))
          (take len (s ++ (0 ∷ []))))
        λ m buf''. string_encode_loop encode_length buf'' offset maxlen (pos + n + m) ss

unfoldable pub string_encode_array : List ℕ → ℕ → ℕ → List (List ℕ) → Result (List ℕ)
string_encode_array buf offset maxlen p =
    string_encode_loop int32_t_encode_array buf offset maxlen 0 p

unfoldable pub string_encode_little_endian_array : List ℕ → ℕ → ℕ → List (List ℕ) → Result (List ℕ)
string_encode_little_endian_array buf offset maxlen p =
    string_encode_loop int32_t_encode_little_endian_array buf offset maxlen 0 p

-- The loop of either `__string_decode_array`. The `int32_t` length is passed on as a `uint32_t`.
unfoldable pub string_decode_loop :
    (List ℕ → ℕ → ℕ → ℕ → Result (List ℕ)) → List ℕ → ℕ → ℕ → ℕ → ℕ → Result (List (List ℕ))
string_decode_loop decode_length buf offset maxlen pos zero = returned pos []
string_decode_loop decode_length buf offset maxlen pos (suc k) =
    and_then (decode_length buf ((offset + pos) % 2 ^ 32) (maxlen - pos) 1) λ n lens.
      and_then
        (int8_t_decode_array buf ((offset + (pos + n)) % 2 ^ 32) (maxlen - (pos + n))
          (get_or lens 0 0))
        λ m s.
          and_then (string_decode_loop decode_length buf offset maxlen (pos + n + m) k)
            λ end ss. done end (s ∷ ss)

unfoldable pub string_decode_array : List ℕ → ℕ → ℕ → ℕ → Result (List (List ℕ))
string_decode_array buf offset maxlen elements =
    string_decode_loop int32_t_decode_array buf offset maxlen 0 elements

unfoldable pub string_decode_little_endian_array : List ℕ → ℕ → ℕ → ℕ → Result (List (List ℕ))
string_decode_little_endian_array buf offset maxlen elements =
    string_decode_loop int32_t_decode_little_endian_array buf offset maxlen 0 elements
