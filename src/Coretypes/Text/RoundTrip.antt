-- ===== src/Coretypes/Text/RoundTrip.antt =====
-- Strings are decoded as they were encoded.
use zcm.Prelude.{
  ℕ, suc, ◌+◌, ◌-◌, ◌^◌, ◌≤◌, ◌<◌, ◌≡◌, ◌∙◌, ap, ap₂, refl, sym, subst, arith, List, [], ◌∷◌, ◌++◌,
  map, append_assoc, length, length-append, take, drop, take-append-drop, length-take, length-drop,
  ge→ltb, lt→ltb, read_bytes-middle, write_bytes-middle,
}
use native.Mathlib.Nat.{add-zero}
use zcm.Coretypes.{Result, done, encoded_array_size}
use zcm.Coretypes.Numbers.{
  put_be32, put_le32, Endian, big, little, int32_t_encode_array, int32_t_decode_array,
  int32_t_encode_little_endian_array, int32_t_decode_little_endian_array,
}
use zcm.Coretypes.RoundTrip.{
  be32-Faithful, le32-Faithful, no_wrap, encode_with-middle, decode_with-middle,
}
use zcm.Coretypes.Text.{
  int8_t_encode_array, int8_t_decode_array, and_then, string_encode_loop, string_decode_loop,
  string_encode_array, string_decode_array, string_encode_little_endian_array,
  string_decode_little_endian_array,
}

-- The block that holds a string.
abbrev pub block : List ℕ → List ℕ
block s = s ++ (0 ∷ [])

int8_t_encode_array-middle :
    (before old bs behind : List ℕ) (maxlen : ℕ)
    → length old ≡ length bs
    → length bs < 2 ^ 31
    → length bs ≤ maxlen
    → int8_t_encode_array (before ++ (old ++ behind)) (length before) maxlen bs
      ≡ done (length bs) (before ++ (bs ++ behind))
unfolding int8_t_encode_array
int8_t_encode_array-middle before old bs behind maxlen room small fits =
    let size : encoded_array_size 1 (length bs) ≡ length bs = omega arith in
    rw
      (
        size,
        ge→ltb maxlen (length bs) fits,
        write_bytes-middle before old bs behind room,
        lt→ltb (length bs) (2 ^ 31) small,
      )
      refl

int8_t_decode_array-middle :
    (before bs behind : List ℕ) (maxlen : ℕ)
    → length bs < 2 ^ 31
    → length bs ≤ maxlen
    → int8_t_decode_array (before ++ (bs ++ behind)) (length before) maxlen (length bs)
      ≡ done (length bs) bs
unfolding int8_t_decode_array
int8_t_decode_array-middle before bs behind maxlen small fits =
    let size : encoded_array_size 1 (length bs) ≡ length bs = omega arith in
    rw
      (
        size,
        ge→ltb maxlen (length bs) fits,
        read_bytes-middle before bs behind,
        lt→ltb (length bs) (2 ^ 31) small,
      )
      refl

-- A length of four bytes, as both byte orders of `int32_t` write and read it.
record Length (put : ℕ → List ℕ) (encode : List ℕ → ℕ → ℕ → List ℕ → Result (List ℕ))
    (decode : List ℕ → ℕ → ℕ → ℕ → Result (List ℕ)) : Type 0 where
  length-put : (n : ℕ) → length (put n) ≡ 4
  encodes :
      (before old behind : List ℕ) (maxlen n : ℕ)
      → length old ≡ 4
      → length before + 4 < 2 ^ 32
      → 4 ≤ maxlen
      → encode (before ++ (old ++ behind)) (length before) maxlen (n ∷ [])
        ≡ done 4 (before ++ (put n ++ behind))
  decodes :
      (before behind : List ℕ) (maxlen n : ℕ)
      → n < 2 ^ 32
      → length before + 4 < 2 ^ 32
      → 4 ≤ maxlen
      → decode (before ++ (put n ++ behind)) (length before) maxlen 1 ≡ done 4 (n ∷ [])

regroup : (pre x y z : List ℕ) → pre ++ (x ++ (y ++ z)) ≡ (pre ++ (x ++ y)) ++ z
regroup pre x y z =
    ap (λ l. pre ++ l) (sym (append_assoc x y z)) ∙ sym (append_assoc pre (x ++ y) z)

flatten : (x y t z : List ℕ) → x ++ (y ++ (t ++ z)) ≡ (x ++ (y ++ t)) ++ z
flatten x y t z = ap (λ l. x ++ l) (sym (append_assoc y t z)) ∙ sym (append_assoc x (y ++ t) z)

-- The bytes of some strings.
abbrev pub texts : (ℕ → List ℕ) → List (List ℕ) → List ℕ
texts put [] = []
texts put (s ∷ ss) = put (length s + 1) ++ (block s ++ texts put ss)

take_all : (xs : List ℕ) → take (length xs) xs ≡ xs
take_all [] = refl
take_all (x ∷ xs) = ap (λ l. x ∷ l) (take_all xs)

length-block : (s : List ℕ) → length (block s) ≡ length s + 1
length-block s = omega (arith, length-append s (0 ∷ []))

module _ {put : ℕ → List ℕ} {encode : List ℕ → ℕ → ℕ → List ℕ → Result (List ℕ)}
    {decode : List ℕ → ℕ → ℕ → ℕ → Result (List ℕ)} (l : Length put encode decode) where
  length-texts :
      (s : List ℕ) (ss : List (List ℕ))
      → length (texts put (s ∷ ss)) ≡ 4 + (length s + 1) + length (texts put ss)
  length-texts s ss = omega (
    arith,
    length-append (put (length s + 1)) (block s ++ texts put ss),
    length-append (block s) (texts put ss),
    length-block s,
    l.length-put (length s + 1),
  )

  -- One string is written in the place of `o1` and `o2`.
  encode_step :
      (s : List ℕ) (ss : List (List ℕ)) (pre o1 o2 o3 : List ℕ) (offset maxlen pos : ℕ)
      → length s + 1 < 2 ^ 31
      → offset + (pos + 4) < 2 ^ 32
      → length pre ≡ offset + pos
      → length o1 ≡ 4
      → length o2 ≡ length s + 1
      → pos + (4 + (length s + 1)) ≤ maxlen
      → string_encode_loop encode (pre ++ (o1 ++ (o2 ++ o3))) offset maxlen pos (s ∷ ss)
        ≡ string_encode_loop encode
            (pre ++ (put (length s + 1) ++ (block s ++ o3)))
            offset
            maxlen
            (pos + 4 + length (block s))
            ss
  unfolding string_encode_loop
  encode_step s ss pre o1 o2 o3 offset maxlen pos small inside e e1 e2 fits =
      let nw1 = no_wrap (offset + pos) (omega arith) in
      let nw2 = no_wrap (offset + (pos + 4)) inside in
      let n = length s + 1 in
      let whole : take n (block s) ≡ block s = rw (← length-block s) (take_all (block s)) in
      let first : encode (pre ++ (o1 ++ (o2 ++ o3))) (offset + pos) (maxlen - pos) (n ∷ [])
          ≡ done 4 (pre ++ (put n ++ (o2 ++ o3))) =
        rw (← e) (l.encodes pre o1 (o2 ++ o3) (maxlen - pos) n e1 (omega arith) (omega arith)) in
      let k = length-append pre (put n) in
      let at4 : length (pre ++ put n) ≡ offset + (pos + 4) = omega (arith, l.length-put n) in
      let second : int8_t_encode_array (pre ++ (put n ++ (o2 ++ o3))) (offset + (pos + 4))
            (maxlen - (pos + 4)) (block s)
          ≡ done (length (block s)) (pre ++ (put n ++ (block s ++ o3))) =
        rw
          (← at4, ← append_assoc pre (put n) (o2 ++ o3), ← append_assoc pre (put n) (block s ++ o3))
          (int8_t_encode_array-middle (pre ++ put n) o2 (block s) o3 (maxlen - (pos + 4))
            (e2 ∙ sym (length-block s)) (omega (arith, length-block s))
            (omega (arith, length-block s))) in
      rw (no_wrap n (omega arith), nw1, first) (rw (whole, nw2, second) refl)

  encode_loop-texts :
      (ss : List (List ℕ)) (pre old behind : List ℕ) (offset maxlen pos : ℕ)
      → pos + length (texts put ss) < 2 ^ 31
      → offset + (pos + length (texts put ss)) < 2 ^ 32
      → length pre ≡ offset + pos
      → length old ≡ length (texts put ss)
      → pos + length (texts put ss) ≤ maxlen
      → string_encode_loop encode (pre ++ (old ++ behind)) offset maxlen pos ss
        ≡ done (pos + length (texts put ss)) (pre ++ (texts put ss ++ behind))
  unfolding string_encode_loop
  encode_loop-texts [] pre [] behind offset maxlen pos h i e room fits =
      rw (add-zero, lt→ltb pos (2 ^ 31) (omega arith)) refl
  encode_loop-texts [] pre (o ∷ old) behind offset maxlen pos h i e room fits = absurd (omega arith)
  encode_loop-texts (s ∷ ss) pre old behind offset maxlen pos h i e room fits =
      let n = length s + 1 in
      let total = length-texts s ss in
      let tail = drop 4 old in
      let o3 = drop n tail in
      let l1 = length-take 4 old in
      let l2 = length-drop 4 old in
      let l3 = length-take n tail in
      let l4 = length-drop n tail in
      let split : old ++ behind ≡ take 4 old ++ (take n tail ++ (o3 ++ behind)) =
        ap (λ x. x ++ behind) (sym (take-append-drop 4 old))
        ∙ append_assoc (take 4 old) tail behind
        ∙ ap (λ x. take 4 old ++ (x ++ behind)) (sym (take-append-drop n tail))
        ∙ ap (λ x. take 4 old ++ x) (append_assoc (take n tail) o3 behind) in
      let b = length-block s in
      let pre' = pre ++ (put n ++ block s) in
      let at : length pre' ≡ offset + (pos + 4 + length (block s)) = omega (
        arith,
        length-append pre (put n ++ block s),
        length-append (put n) (block s),
        l.length-put n,
      ) in
      let rest =
        encode_loop-texts ss pre' o3 behind offset maxlen (pos + 4 + length (block s)) (omega arith)
          (omega arith) at (omega arith) (omega arith) in
      let sum : pos + 4 + length (block s) + length (texts put ss)
          ≡ pos + length (texts put (s ∷ ss)) =
        omega arith in
      rw split (
        encode_step s ss pre (take 4 old) (take n tail) (o3 ++ behind) offset maxlen pos
          (omega arith) (omega arith) e (omega arith) (omega arith) (omega arith)
        ∙ ap (λ buf. string_encode_loop encode buf offset maxlen (pos + 4 + length (block s)) ss)
            (regroup pre (put n) (block s) (o3 ++ behind))
        ∙ rest
        ∙ ap₂ done sum (
            sym (regroup pre (put n) (block s) (texts put ss ++ behind))
            ∙ ap (λ x. pre ++ x) (flatten (put n) (block s) (texts put ss) behind)))

  decode_step :
      (s : List ℕ) (pre o3 : List ℕ) (offset maxlen pos k : ℕ)
      → length s + 1 < 2 ^ 31
      → offset + (pos + 4) < 2 ^ 32
      → length pre ≡ offset + pos
      → pos + (4 + (length s + 1)) ≤ maxlen
      → string_decode_loop decode
          (pre ++ (put (length s + 1) ++ (block s ++ o3)))
          offset
          maxlen
          pos
          (suc k)
        ≡ and_then
            (string_decode_loop decode
              (pre ++ (put (length s + 1) ++ (block s ++ o3)))
              offset
              maxlen
              (pos + 4 + length (block s))
              k)
            (λ end ss. done end (block s ∷ ss))
  unfolding string_decode_loop
  decode_step s pre o3 offset maxlen pos k small inside e fits =
      let nw1 = no_wrap (offset + pos) (omega arith) in
      let nw2 = no_wrap (offset + (pos + 4)) inside in
      let n = length s + 1 in
      let buf = pre ++ (put n ++ (block s ++ o3)) in
      let first : decode buf (offset + pos) (maxlen - pos) 1 ≡ done 4 (n ∷ []) = rw (← e) (
        l.decodes pre (block s ++ o3) (maxlen - pos) n (omega arith) (omega arith) (omega arith)) in
      let j = length-append pre (put n) in
      let at4 : length (pre ++ put n) ≡ offset + (pos + 4) = omega (arith, l.length-put n) in
      let second : int8_t_decode_array buf (offset + (pos + 4)) (maxlen - (pos + 4)) n
          ≡ done (length (block s)) (block s) =
        rw (← at4, ← append_assoc pre (put n) (block s ++ o3))
          (subst
            (λ i.
              int8_t_decode_array ((pre ++ put n) ++ (block s ++ o3)) (length (pre ++ put n))
                (maxlen - (pos + 4)) i
              ≡ done (length (block s)) (block s))
            (length-block s)
            (int8_t_decode_array-middle (pre ++ put n) (block s) o3 (maxlen - (pos + 4))
              (omega (arith, length-block s)) (omega (arith, length-block s)))) in
      rw (nw1, first) (rw (nw2, second) refl)

  decode_loop-texts :
      (ss : List (List ℕ)) (pre behind : List ℕ) (offset maxlen pos : ℕ)
      → pos + length (texts put ss) < 2 ^ 31
      → offset + (pos + length (texts put ss)) < 2 ^ 32
      → length pre ≡ offset + pos
      → pos + length (texts put ss) ≤ maxlen
      → string_decode_loop decode (pre ++ (texts put ss ++ behind)) offset maxlen pos (length ss)
        ≡ done (pos + length (texts put ss)) (map block ss)
  unfolding string_decode_loop
  decode_loop-texts [] pre behind offset maxlen pos h i e fits =
      rw (add-zero, lt→ltb pos (2 ^ 31) (omega arith)) refl
  decode_loop-texts (s ∷ ss) pre behind offset maxlen pos h i e fits =
      let n = length s + 1 in
      let total = length-texts s ss in
      let b = length-block s in
      let pre' = pre ++ (put n ++ block s) in
      let at : length pre' ≡ offset + (pos + 4 + length (block s)) = omega (
        arith,
        length-append pre (put n ++ block s),
        length-append (put n) (block s),
        l.length-put n,
      ) in
      let rest =
        decode_loop-texts ss pre' behind offset maxlen (pos + 4 + length (block s)) (omega arith)
          (omega arith) at (omega arith) in
      let sum : pos + 4 + length (block s) + length (texts put ss)
          ≡ pos + length (texts put (s ∷ ss)) =
        omega arith in
      let next = rw (← regroup pre (put n) (block s) (texts put ss ++ behind)) at rest in
      ap (λ x. string_decode_loop decode (pre ++ x) offset maxlen pos (suc (length ss)))
        (sym (flatten (put n) (block s) (texts put ss) behind))
      ∙ decode_step s pre (texts put ss ++ behind) offset maxlen pos (length ss) (omega arith)
          (omega arith) e (omega arith)
      ∙ ap (λ r. and_then r (λ end ss'. done end (block s ∷ ss'))) next
      ∙ ap (λ i. done i (map block (s ∷ ss))) sum

  both_ways :
      (ss : List (List ℕ)) (before old behind : List ℕ) (maxlen : ℕ)
      → length (texts put ss) < 2 ^ 31
      → length before + length (texts put ss) < 2 ^ 32
      → length old ≡ length (texts put ss)
      → length (texts put ss) ≤ maxlen
      → let bytes = texts put ss in
        (string_encode_loop encode (before ++ (old ++ behind)) (length before) maxlen 0 ss
          ≡ done (length bytes) (before ++ (bytes ++ behind)))
        × (string_decode_loop decode
              (before ++ (bytes ++ behind))
              (length before)
              maxlen
              0
              (length ss)
            ≡ done (length bytes) (map block ss))
  both_ways ss before old behind maxlen h i room fits =
      let z : 0 + length (texts put ss) ≡ length (texts put ss) = omega arith in
      (
        encode_loop-texts ss before old behind (length before) maxlen 0 (omega arith) (omega arith)
              (omega arith) room (omega arith)
            ∙ ap (λ i. done i (before ++ (texts put ss ++ behind))) z,
        decode_loop-texts ss before behind (length before) maxlen 0 (omega arith) (omega arith)
              (omega arith) (omega arith)
            ∙ ap (λ i. done i (map block ss)) z,
      )

big_Length : Length put_be32 int32_t_encode_array int32_t_decode_array
unfolding int32_t_encode_array int32_t_decode_array
big_Length = record {
  length-put = λ n. refl;
  encodes = λ before old behind maxlen n room i fits.
      encode_with-middle be32-Faithful (n ∷ []) before old behind maxlen room (omega arith) i fits;
  decodes = λ before behind maxlen n small i fits.
      decode_with-middle be32-Faithful (n ∷ []) before behind maxlen (small, tt) (omega arith) i
        fits;
}

little_Length :
    Length put_le32 int32_t_encode_little_endian_array int32_t_decode_little_endian_array
unfolding int32_t_encode_little_endian_array int32_t_decode_little_endian_array
little_Length = record {
  length-put = λ n. refl;
  encodes = λ before old behind maxlen n room i fits.
      encode_with-middle le32-Faithful (n ∷ []) before old behind maxlen room (omega arith) i fits;
  decodes = λ before behind maxlen n small i fits.
      decode_with-middle le32-Faithful (n ∷ []) before behind maxlen (small, tt) (omega arith) i
        fits;
}

-- The two byte orders of the string functions.
abbrev pub strings_encode_of : Endian → List ℕ → ℕ → ℕ → List (List ℕ) → Result (List ℕ)
strings_encode_of big = string_encode_array
strings_encode_of little = string_encode_little_endian_array

abbrev pub strings_decode_of : Endian → List ℕ → ℕ → ℕ → ℕ → Result (List (List ℕ))
strings_decode_of big = string_decode_array
strings_decode_of little = string_decode_little_endian_array

abbrev pub put_of : Endian → ℕ → List ℕ
put_of big = put_be32
put_of little = put_le32

-- In either byte order, strings that take less than 2 ^ 31 bytes and fit into `maxlen` and into the
-- room that the buffer has at the offset, up to a position below 2 ^ 32: the encoder writes for each its length with the NUL, its bytes and
-- the NUL, returns how many bytes that is and changes no other, and the decoder gets the strings back,
-- each closed by its NUL.
pub strings_decode_of-encode_of :
    (e : Endian) (ss : List (List ℕ)) (before old behind : List ℕ) (maxlen : ℕ)
    → length (texts (put_of e) ss) < 2 ^ 31
    → length before + length (texts (put_of e) ss) < 2 ^ 32
    → length old ≡ length (texts (put_of e) ss)
    → length (texts (put_of e) ss) ≤ maxlen
    → let bytes = texts (put_of e) ss in
      (strings_encode_of e (before ++ (old ++ behind)) (length before) maxlen ss
        ≡ done (length bytes) (before ++ (bytes ++ behind)))
      × (strings_decode_of e (before ++ (bytes ++ behind)) (length before) maxlen (length ss)
          ≡ done (length bytes) (map block ss))
unfolding string_encode_array string_encode_little_endian_array string_decode_array
    string_decode_little_endian_array
strings_decode_of-encode_of big ss before old behind maxlen h i room fits =
    both_ways big_Length ss before old behind maxlen h i room fits
strings_decode_of-encode_of little ss before old behind maxlen h i room fits =
    both_ways little_Length ss before old behind maxlen h i room fits
