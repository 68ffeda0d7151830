-- ===== src/StructHash/Differs.antt =====
-- Two types whose hashed characters differ in one place have different signatures.
use zcm.Prelude.{
  ℕ, ◌%◌, ◌^◌, ◌≡◌, ◌≢◌, ◌∙◌, inl, inr, ap, refl, sym, arith, Bool, true, false, Bool-cases, List,
  [], ◌∷◌, ◌++◌, append-nil, if◌then◌else◌, ◌==◌, length,
}
use zcm.StructHash.{
  hash_update, hash_chars, hash_string, Dimension, Member, Struct, Options, hash_dimensions,
  hash_type, hash_member, hash_members, compute_hash,
}
use zcm.StructHash.Mixing.{
  hash_update-lt, hash_update-char, hash_chars-same, hash_chars-lt, hash_chars-append,
}

-- The characters that are hashed, in their order.
abbrev pub string_chars : List ℕ → List ℕ
string_chars s = length s ∷ s

abbrev pub dimension_chars : List Dimension → List ℕ
dimension_chars [] = []
dimension_chars (d ∷ ds) = (d.mode ∷ string_chars d.size) ++ dimension_chars ds

abbrev pub type_chars : Member → List ℕ
type_chars m =
    if m.is_primitive
    then string_chars m.type_name ++ (if m.numbits == 0 then [] else m.numbits ∷ [])
    else []

abbrev pub member_chars : Options → List Member → List ℕ
member_chars o [] = []
member_chars o (m ∷ ms) =
    (if o.membername_hashing then string_chars m.membername else [])
    ++ (type_chars m ++ ((length m.dimensions ∷ dimension_chars m.dimensions) ++ member_chars o ms))

abbrev pub struct_chars : Options → Struct → List ℕ
struct_chars o s =
    (if o.typename_hashing then string_chars s.shortname else []) ++ member_chars o s.members

hash_dimensions_lem :
    (ds : List Dimension) (v : ℕ) → hash_dimensions v ds ≡ hash_chars v (dimension_chars ds)
unfolding hash_dimensions hash_string hash_chars
hash_dimensions_lem [] v = refl
hash_dimensions_lem (d ∷ ds) v =
    hash_dimensions_lem ds (hash_string (hash_update v d.mode) d.size)
    ∙ sym (
        hash_chars-append d.size (dimension_chars ds)
          (hash_update (hash_update v d.mode) (length d.size)))

hash_optional :
    (b : Bool) (s : List ℕ) (v : ℕ)
    → (if b then hash_string v s else v) ≡ hash_chars v (if b then string_chars s else [])
unfolding hash_string hash_chars
hash_optional false s v = refl
hash_optional true s v = refl

hash_type_lem : (m : Member) (v : ℕ) → hash_type v m ≡ hash_chars v (type_chars m)
unfolding hash_type hash_string hash_chars
hash_type_lem m v = elim (Bool-cases m.is_primitive) [
  | inr e ↦ rw e refl
  | inl e ↦ elim (Bool-cases (m.numbits == 0)) [
    | inl z ↦
        rw (e, z)
          (ap (hash_chars (hash_update v (length m.type_name))) (sym (append-nil m.type_name)))
    | inr z ↦
        rw (e, z)
          (sym
            (hash_chars-append m.type_name (m.numbits ∷ []) (hash_update v (length m.type_name))))
  ]
]

hash_member_lem :
    (o : Options) (m : Member) (v : ℕ) (rest : List ℕ)
    → hash_chars (hash_member o v m) rest
      ≡ hash_chars v (
          (if o.membername_hashing then string_chars m.membername else [])
          ++ (type_chars m ++ ((length m.dimensions ∷ dimension_chars m.dimensions) ++ rest)))
unfolding hash_member hash_chars
hash_member_lem o m v rest =
    let n = length m.dimensions in
    let named = if o.membername_hashing then string_chars m.membername else [] in
    let v' = if o.membername_hashing then hash_string v m.membername else v in
    let dims = (n ∷ dimension_chars m.dimensions) ++ rest in
    sym (
      hash_chars-append named (type_chars m ++ dims) v
      ∙ ap (λ w. hash_chars w (type_chars m ++ dims))
          (sym (hash_optional o.membername_hashing m.membername v))
      ∙ hash_chars-append (type_chars m) dims v'
      ∙ ap (λ w. hash_chars w dims) (sym (hash_type_lem m v'))
      ∙ hash_chars-append (dimension_chars m.dimensions) rest (hash_update (hash_type v' m) n)
      ∙ ap (λ w. hash_chars w rest)
          (sym (hash_dimensions_lem m.dimensions (hash_update (hash_type v' m) n))))

hash_members_lem :
    (o : Options) (ms : List Member) (v : ℕ)
    → hash_members o v ms ≡ hash_chars v (member_chars o ms)
unfolding hash_members hash_chars
hash_members_lem o [] v = refl
hash_members_lem o (m ∷ ms) v =
    hash_members_lem o ms (hash_member o v m) ∙ hash_member_lem o m v (member_chars o ms)

abbrev start : ℕ
start = 305419896

compute_hash_lem :
    (o : Options) (s : Struct) → compute_hash o s ≡ hash_chars start (struct_chars o s)
unfolding compute_hash
compute_hash_lem o s =
    let named = if o.typename_hashing then string_chars s.shortname else [] in
    sym (
      hash_chars-append named (member_chars o s.members) start
      ∙ ap (λ w. hash_chars w (member_chars o s.members))
          (sym (hash_optional o.typename_hashing s.shortname start))
      ∙ sym (
          hash_members_lem o s.members
            (if o.typename_hashing then hash_string start s.shortname else start)))

-- Two types, of which the names, sizes and numbers that are hashed make the same row of characters
-- but for one place, have different signatures, if the characters in that place differ as bytes.
pub compute_hash-differs :
    (o o' : Options) (s t : Struct) (xs ys : List ℕ) (a b : ℕ)
    → struct_chars o s ≡ xs ++ (a ∷ ys)
    → struct_chars o' t ≡ xs ++ (b ∷ ys)
    → a % 2 ^ 8 ≢ b % 2 ^ 8
    → compute_hash o s ≢ compute_hash o' t
unfolding hash_chars
compute_hash-differs o o' s t xs ys a b e e' different same =
    let v = hash_chars start xs in
    let hs = compute_hash_lem o s ∙ ap (hash_chars start) e ∙ hash_chars-append xs (a ∷ ys) start in
    let ht =
      compute_hash_lem o' t ∙ ap (hash_chars start) e' ∙ hash_chars-append xs (b ∷ ys) start in
    let behind =
      hash_chars-same ys (hash_update v a) (hash_update v b) (hash_update-lt v a)
        (hash_update-lt v b) (sym hs ∙ same ∙ ht) in
    different (hash_update-char v a b (hash_chars-lt xs start (omega arith)) behind)
