-- ===== src/Coretypes/Numbers.antt =====
-- The integers and floating-point numbers of zcm/zcm_coretypes.h, each as its bit pattern.
use zcm.Prelude.{ℕ, ◌+◌, ◌*◌, ◌/◌, ◌%◌, ◌^◌, List, [], ◌∷◌, get_or, ◌≡◌, refl}
use zcm.Coretypes.{Result, Layout, encode_with, decode_with}

-- `(v >> shift) & 0xff`
abbrev pub byte_at : ℕ → ℕ → ℕ
byte_at v shift = v / 2 ^ shift % 256

-- `buf[pos + i]`
abbrev pub at : List ℕ → ℕ → ℕ
at bs i = get_or bs i 0

abbrev pub put_be16 : ℕ → List ℕ
put_be16 v = (byte_at v 8) ∷ (v % 256) ∷ []

abbrev pub put_le16 : ℕ → List ℕ
put_le16 v = (v % 256) ∷ (byte_at v 8) ∷ []

abbrev pub put_be32 : ℕ → List ℕ
put_be32 v = (byte_at v 24) ∷ (byte_at v 16) ∷ (byte_at v 8) ∷ (v % 256) ∷ []

abbrev pub put_le32 : ℕ → List ℕ
put_le32 v = (v % 256) ∷ (byte_at v 8) ∷ (byte_at v 16) ∷ (byte_at v 24) ∷ []

abbrev pub put_be64 : ℕ → List ℕ
put_be64 v =
    (byte_at v 56)
    ∷ (byte_at v 48)
    ∷ (byte_at v 40)
    ∷ (byte_at v 32)
    ∷ (byte_at v 24)
    ∷ (byte_at v 16)
    ∷ (byte_at v 8)
    ∷ (v % 256)
    ∷ []

abbrev pub put_le64 : ℕ → List ℕ
put_le64 v =
    (v % 256)
    ∷ (byte_at v 8)
    ∷ (byte_at v 16)
    ∷ (byte_at v 24)
    ∷ (byte_at v 32)
    ∷ (byte_at v 40)
    ∷ (byte_at v 48)
    ∷ (byte_at v 56)
    ∷ []

abbrev pub get_be16 : List ℕ → ℕ
get_be16 bs = (at bs 0 * 2 ^ 8 + at bs 1) % 2 ^ 16

abbrev pub get_le16 : List ℕ → ℕ
get_le16 bs = (at bs 1 * 2 ^ 8 + at bs 0) % 2 ^ 16

-- Four bytes from the i-th on, as a `uint32_t`.
abbrev pub be32_at : List ℕ → ℕ → ℕ
be32_at bs i =
    (at bs i * 2 ^ 24 + at bs (i + 1) * 2 ^ 16 + at bs (i + 2) * 2 ^ 8 + at bs (i + 3)) % 2 ^ 32

abbrev pub le32_at : List ℕ → ℕ → ℕ
le32_at bs i =
    (at bs (i + 3) * 2 ^ 24 + at bs (i + 2) * 2 ^ 16 + at bs (i + 1) * 2 ^ 8 + at bs i) % 2 ^ 32

abbrev pub get_be32 : List ℕ → ℕ
get_be32 bs = be32_at bs 0

abbrev pub get_le32 : List ℕ → ℕ
get_le32 bs = le32_at bs 0

-- Two halves, `(a << 32) + (b & 0xffffffff)`.
abbrev pub get_be64 : List ℕ → ℕ
get_be64 bs = (be32_at bs 0 * 2 ^ 32 + be32_at bs 4 % 2 ^ 32) % 2 ^ 64

abbrev pub get_le64 : List ℕ → ℕ
get_le64 bs = (le32_at bs 4 * 2 ^ 32 + le32_at bs 0 % 2 ^ 32) % 2 ^ 64

abbrev pub be16 : Layout
be16 = record { width = 2; put = put_be16; get = get_be16 }

abbrev pub be32 : Layout
be32 = record { width = 4; put = put_be32; get = get_be32 }

abbrev pub be64 : Layout
be64 = record { width = 8; put = put_be64; get = get_be64 }

abbrev pub le16 : Layout
le16 = record { width = 2; put = put_le16; get = get_le16 }

abbrev pub le32 : Layout
le32 = record { width = 4; put = put_le32; get = get_le32 }

abbrev pub le64 : Layout
le64 = record { width = 8; put = put_le64; get = get_le64 }

unfoldable pub int16_t_encode_array : List ℕ → ℕ → ℕ → List ℕ → Result (List ℕ)
int16_t_encode_array = encode_with be16

unfoldable pub int16_t_decode_array : List ℕ → ℕ → ℕ → ℕ → Result (List ℕ)
int16_t_decode_array = decode_with be16

unfoldable pub int16_t_encode_little_endian_array : List ℕ → ℕ → ℕ → List ℕ → Result (List ℕ)
int16_t_encode_little_endian_array = encode_with le16

unfoldable pub int16_t_decode_little_endian_array : List ℕ → ℕ → ℕ → ℕ → Result (List ℕ)
int16_t_decode_little_endian_array = decode_with le16

unfoldable pub int32_t_encode_array : List ℕ → ℕ → ℕ → List ℕ → Result (List ℕ)
int32_t_encode_array = encode_with be32

unfoldable pub int32_t_decode_array : List ℕ → ℕ → ℕ → ℕ → Result (List ℕ)
int32_t_decode_array = decode_with be32

unfoldable pub int32_t_encode_little_endian_array : List ℕ → ℕ → ℕ → List ℕ → Result (List ℕ)
int32_t_encode_little_endian_array = encode_with le32

unfoldable pub int32_t_decode_little_endian_array : List ℕ → ℕ → ℕ → ℕ → Result (List ℕ)
int32_t_decode_little_endian_array = decode_with le32

unfoldable pub int64_t_encode_array : List ℕ → ℕ → ℕ → List ℕ → Result (List ℕ)
int64_t_encode_array = encode_with be64

unfoldable pub int64_t_decode_array : List ℕ → ℕ → ℕ → ℕ → Result (List ℕ)
int64_t_decode_array = decode_with be64

unfoldable pub int64_t_encode_little_endian_array : List ℕ → ℕ → ℕ → List ℕ → Result (List ℕ)
int64_t_encode_little_endian_array = encode_with le64

unfoldable pub int64_t_decode_little_endian_array : List ℕ → ℕ → ℕ → ℕ → Result (List ℕ)
int64_t_decode_little_endian_array = decode_with le64

unfoldable pub float_encode_array : List ℕ → ℕ → ℕ → List ℕ → Result (List ℕ)
float_encode_array = encode_with be32

unfoldable pub float_decode_array : List ℕ → ℕ → ℕ → ℕ → Result (List ℕ)
float_decode_array = decode_with be32

unfoldable pub float_encode_little_endian_array : List ℕ → ℕ → ℕ → List ℕ → Result (List ℕ)
float_encode_little_endian_array = encode_with le32

unfoldable pub float_decode_little_endian_array : List ℕ → ℕ → ℕ → ℕ → Result (List ℕ)
float_decode_little_endian_array = decode_with le32

unfoldable pub double_encode_array : List ℕ → ℕ → ℕ → List ℕ → Result (List ℕ)
double_encode_array = encode_with be64

unfoldable pub double_decode_array : List ℕ → ℕ → ℕ → ℕ → Result (List ℕ)
double_decode_array = decode_with be64

unfoldable pub double_encode_little_endian_array : List ℕ → ℕ → ℕ → List ℕ → Result (List ℕ)
double_encode_little_endian_array = encode_with le64

unfoldable pub double_decode_little_endian_array : List ℕ → ℕ → ℕ → ℕ → Result (List ℕ)
double_decode_little_endian_array = decode_with le64

-- The functions above, by type and byte order.
pub data NumberType : Type 0 where
  int16 int32 int64 float double : NumberType

pub data Endian : Type 0 where
  big little : Endian

abbrev pub bits_of : NumberType → ℕ
bits_of int16 = 16
bits_of int32 = 32
bits_of int64 = 64
bits_of float = 32
bits_of double = 64

abbrev pub layout_of : NumberType → Endian → Layout
layout_of int16 big = be16
layout_of int16 little = le16
layout_of int32 big = be32
layout_of int32 little = le32
layout_of int64 big = be64
layout_of int64 little = le64
layout_of float big = be32
layout_of float little = le32
layout_of double big = be64
layout_of double little = le64

abbrev pub encode_of : NumberType → Endian → List ℕ → ℕ → ℕ → List ℕ → Result (List ℕ)
encode_of int16 big = int16_t_encode_array
encode_of int16 little = int16_t_encode_little_endian_array
encode_of int32 big = int32_t_encode_array
encode_of int32 little = int32_t_encode_little_endian_array
encode_of int64 big = int64_t_encode_array
encode_of int64 little = int64_t_encode_little_endian_array
encode_of float big = float_encode_array
encode_of float little = float_encode_little_endian_array
encode_of double big = double_encode_array
encode_of double little = double_encode_little_endian_array

abbrev pub decode_of : NumberType → Endian → List ℕ → ℕ → ℕ → ℕ → Result (List ℕ)
decode_of int16 big = int16_t_decode_array
decode_of int16 little = int16_t_decode_little_endian_array
decode_of int32 big = int32_t_decode_array
decode_of int32 little = int32_t_decode_little_endian_array
decode_of int64 big = int64_t_decode_array
decode_of int64 little = int64_t_decode_little_endian_array
decode_of float big = float_decode_array
decode_of float little = float_decode_little_endian_array
decode_of double big = double_decode_array
decode_of double little = double_decode_little_endian_array

pub encode_of_lem :
    (t : NumberType) (e : Endian) (buf : List ℕ) (offset maxlen : ℕ) (p : List ℕ)
    → encode_with (layout_of t e) buf offset maxlen p ≡ encode_of t e buf offset maxlen p
unfolding int16_t_encode_array int16_t_encode_little_endian_array int32_t_encode_array
    int32_t_encode_little_endian_array int64_t_encode_array int64_t_encode_little_endian_array
    float_encode_array float_encode_little_endian_array double_encode_array
    double_encode_little_endian_array
encode_of_lem int16 big buf offset maxlen p = refl
encode_of_lem int16 little buf offset maxlen p = refl
encode_of_lem int32 big buf offset maxlen p = refl
encode_of_lem int32 little buf offset maxlen p = refl
encode_of_lem int64 big buf offset maxlen p = refl
encode_of_lem int64 little buf offset maxlen p = refl
encode_of_lem float big buf offset maxlen p = refl
encode_of_lem float little buf offset maxlen p = refl
encode_of_lem double big buf offset maxlen p = refl
encode_of_lem double little buf offset maxlen p = refl

pub decode_of_lem :
    (t : NumberType) (e : Endian) (buf : List ℕ) (offset maxlen : ℕ) (p : ℕ)
    → decode_with (layout_of t e) buf offset maxlen p ≡ decode_of t e buf offset maxlen p
unfolding int16_t_decode_array int16_t_decode_little_endian_array int32_t_decode_array
    int32_t_decode_little_endian_array int64_t_decode_array int64_t_decode_little_endian_array
    float_decode_array float_decode_little_endian_array double_decode_array
    double_decode_little_endian_array
decode_of_lem int16 big buf offset maxlen p = refl
decode_of_lem int16 little buf offset maxlen p = refl
decode_of_lem int32 big buf offset maxlen p = refl
decode_of_lem int32 little buf offset maxlen p = refl
decode_of_lem int64 big buf offset maxlen p = refl
decode_of_lem int64 little buf offset maxlen p = refl
decode_of_lem float big buf offset maxlen p = refl
decode_of_lem float little buf offset maxlen p = refl
decode_of_lem double big buf offset maxlen p = refl
decode_of_lem double little buf offset maxlen p = refl
