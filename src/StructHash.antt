-- ===== src/StructHash.antt =====
-- The signature of a type in gen/ZCMGen.cpp: `ZCMStruct::computeHash`.
pub mod Bits
pub mod Mixing
pub mod Differs
use Prim.Native.Nat.{bit_or, bit_xor}
use zcm.Prelude.{
  ℕ, ◌+◌, ◌-◌, ◌*◌, ◌/◌, ◌%◌, ◌^◌, Bool, List, [], ◌∷◌, if◌then◌else◌, ltb, ◌==◌, length,
}

-- `signExtendedRightShift`
unfoldable pub sign_extended_right_shift : ℕ → ℕ → ℕ
sign_extended_right_shift val n_shift =
    if (val / 2 ^ 63) == 0
    then val / 2 ^ n_shift
    else bit_or (val / 2 ^ n_shift) (2 ^ 64 - 2 ^ (64 - n_shift))

-- An integer that is converted to `char`, and added to a `uint64_t`.
unfoldable pub char_of : ℕ → ℕ
char_of c = if ltb (c % 2 ^ 8) 128 then c % 2 ^ 8 else c % 2 ^ 8 + 2 ^ 64 - 2 ^ 8

-- `hashUpdate` of a character.
unfoldable pub hash_update : ℕ → ℕ → ℕ
hash_update v c =
    (bit_xor (v * 2 ^ 8 % 2 ^ 64) (sign_extended_right_shift v 55) + char_of c) % 2 ^ 64

unfoldable pub hash_chars : ℕ → List ℕ → ℕ
hash_chars v [] = v
hash_chars v (c ∷ cs) = hash_chars (hash_update v c) cs

-- `hashUpdate` of a string: its size goes first, as a character.
unfoldable pub hash_string : ℕ → List ℕ → ℕ
hash_string v s = hash_chars (hash_update v (length s)) s

-- `ZCMDimension`: whether its size is constant or a member, as the number that stands for it, and that size.
pub record Dimension : Type 0 where
  pub mode : ℕ
  pub size : List ℕ

-- `ZCMMember`: of its type the full name, whether that is primitive, and the bits of a bit field.
pub record Member : Type 0 where
  pub type_name : List ℕ
  pub is_primitive : Bool
  pub numbits : ℕ
  pub membername : List ℕ
  pub dimensions : List Dimension

pub record Struct : Type 0 where
  pub shortname : List ℕ
  pub members : List Member

-- `ENABLE_TYPENAME_HASHING` and `ENABLE_MEMBERNAME_HASHING`
pub record Options : Type 0 where
  pub typename_hashing : Bool
  pub membername_hashing : Bool

unfoldable pub hash_dimensions : ℕ → List Dimension → ℕ
hash_dimensions v [] = v
hash_dimensions v (d ∷ ds) = hash_dimensions (hash_string (hash_update v d.mode) d.size) ds

unfoldable pub hash_type : ℕ → Member → ℕ
hash_type v m =
    let named = hash_string v m.type_name in
    if m.is_primitive then (if m.numbits == 0 then named else hash_update named m.numbits) else v

unfoldable pub hash_member : Options → ℕ → Member → ℕ
hash_member o v m =
    let v' = if o.membername_hashing then hash_string v m.membername else v in
    hash_dimensions (hash_update (hash_type v' m) (length m.dimensions)) m.dimensions

unfoldable pub hash_members : Options → ℕ → List Member → ℕ
hash_members o v [] = v
hash_members o v (m ∷ ms) = hash_members o (hash_member o v m) ms

-- `computeHash`
unfoldable pub compute_hash : Options → Struct → ℕ
compute_hash o s =
    let v : ℕ = 305419896 in
    hash_members o (if o.typename_hashing then hash_string v s.shortname else v) s.members
