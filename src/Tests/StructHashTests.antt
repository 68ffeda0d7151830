-- ===== src/Tests/StructHashTests.antt =====
-- The signatures of two types with one member each.
use zcm.Prelude.{ℕ, ◌≡◌, ◌≢◌, refl, arith, true, false, List, [], ◌∷◌}
use zcm.StructHash.{Struct, Options, compute_hash}
use zcm.StructHash.Differs.{compute_hash-differs}

abbrev options : Options
options = record { typename_hashing = false; membername_hashing = true }

abbrev int8 : List ℕ
int8 = b'i' ∷ b'n' ∷ b't' ∷ b'8' ∷ b'_' ∷ b't' ∷ []

abbrev with_member : ℕ → Struct
with_member name = record {
  shortname = b'p' ∷ [];
  members =
      record {
        type_name = int8;
        is_primitive = true;
        numbits = 0;
        membername = name ∷ [];
        dimensions = [];
      }
      ∷ [];
}

compute_hash-differs_example :
    compute_hash options (with_member b'x') ≢ compute_hash options (with_member b'y')
compute_hash-differs_example =
    compute_hash-differs options options (with_member b'x') (with_member b'y') (1 ∷ [])
      (6 ∷ b'i' ∷ b'n' ∷ b't' ∷ b'8' ∷ b'_' ∷ b't' ∷ 0 ∷ []) b'x' b'y' refl refl
      (λ e. absurd (omega arith))

-- A type without members has the value that the hash starts with.
empty_test : compute_hash options (record { shortname = b'p' ∷ []; members = [] }) ≡ 0x12345678
unfolding compute_hash zcm.StructHash.hash_members
empty_test = refl
