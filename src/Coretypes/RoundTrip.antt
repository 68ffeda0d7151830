-- ===== src/Coretypes/RoundTrip.antt =====
-- What is encoded is decoded again, whatever stands before and behind it in the buffer.
use zcm.Prelude.{
  ℕ, suc, ◌+◌, ◌*◌, ◌%◌, ◌^◌, ◌≤◌, ◌<◌, ◌≡◌, ◌∙◌, ap, refl, sym, arith, List, [], ◌∷◌, ◌++◌,
  append_assoc, some, All, length, length-append, lt→ltb, set, get_or, Bool-cases, Option-cases,
  inl, inr, ltb, zero, Option, none, ◌⊎◌, ge→ltb, write_bytes, read_bytes, write_bytes-middle,
  read_bytes-middle, take, drop, take-append-drop, length-take, length-drop,
}
use zcm.Coretypes.{
  write_wrapping, read_wrapping, done, Layout, encoded_array_size, encode_loop, encode_with,
  cons_some, decode_loop, decode_with,
}
use zcm.Coretypes.Numbers.{
  be16, le16, be32, le32, be64, le64, NumberType, Endian, encode_of, decode_of, layout_of, bits_of,
  encode_of_lem, decode_of_lem, int16, int32, int64, float, double, big, little,
}

-- An element takes `width` bytes, and a value below `2 ^ bits` is got back from them.
pub record Faithful (l : Layout) (bits : ℕ) : Type 0 where
  pub length-put : (v : ℕ) → length (l.put v) ≡ l.width
  pub get-put : (v : ℕ) → v < 2 ^ bits → l.get (l.put v) ≡ v

pub be16-Faithful : Faithful be16 16
be16-Faithful = record { length-put = λ v. refl; get-put = λ v h. omega arith }

pub le16-Faithful : Faithful le16 16
le16-Faithful = record { length-put = λ v. refl; get-put = λ v h. omega arith }

pub be32-Faithful : Faithful be32 32
be32-Faithful = record { length-put = λ v. refl; get-put = λ v h. omega arith }

pub le32-Faithful : Faithful le32 32
le32-Faithful = record { length-put = λ v. refl; get-put = λ v h. omega arith }

pub be64-Faithful : Faithful be64 64
be64-Faithful = record { length-put = λ v. refl; get-put = λ v h. omega arith }

pub le64-Faithful : Faithful le64 64
le64-Faithful = record { length-put = λ v. refl; get-put = λ v h. omega arith }

pub no_wrap : (n : ℕ) → n < 2 ^ 32 → n % 2 ^ 32 ≡ n
no_wrap n h = omega arith

-- The bytes of an array.
abbrev pub flat : (ℕ → List ℕ) → List ℕ → List ℕ
flat put [] = []
flat put (v ∷ vs) = put v ++ flat put vs

write_wrapping-write_bytes :
    (buf : List ℕ) (pos : ℕ) (bs : List ℕ)
    → pos + length bs < 2 ^ 32
    → write_wrapping buf pos bs ≡ write_bytes buf pos bs
unfolding write_wrapping zcm.Prelude.Bytes.write_bytes
write_wrapping-write_bytes buf pos [] h = refl
write_wrapping-write_bytes buf pos (b ∷ bs) h =
    let next = no_wrap (pos + 1) (omega arith) in
    rw (next, write_wrapping-write_bytes (set buf pos b) (pos + 1) bs (omega arith)) refl

same_cons :
    (v : ℕ) {o : Option (List ℕ)}
    → (o ≡ none) ⊎ ((bs : List ℕ) × (o ≡ some bs))
    → cons_some v o ≡ zcm.Prelude.Bytes.cons_some v o
same_cons v (inl e) = rw e refl
same_cons v (inr (bs, e)) = rw e refl

read_wrapping-read_bytes :
    (buf : List ℕ) (pos n : ℕ) → pos + n < 2 ^ 32 → read_wrapping buf pos n ≡ read_bytes buf pos n
unfolding read_wrapping zcm.Prelude.Bytes.read_bytes
read_wrapping-read_bytes buf pos zero h = refl
read_wrapping-read_bytes buf pos (suc n) h =
    let next = no_wrap (pos + 1) (omega arith) in
    rw (next, read_wrapping-read_bytes buf (pos + 1) n (omega arith))
      (elim (Bool-cases (ltb pos (length buf))) [
        | inl e ↦ rw e (same_cons (get_or buf pos 0) (Option-cases (read_bytes buf (pos + 1) n)))
        | inr e ↦ rw e refl
      ])

encode_loop_step :
    (put : ℕ → List ℕ) (buf buf' : List ℕ) (pos v : ℕ) (p : List ℕ)
    → write_bytes buf pos (put v) ≡ some buf'
    → pos + length (put v) < 2 ^ 32
    → encode_loop put buf pos (v ∷ p) ≡ encode_loop put buf' (pos + length (put v)) p
unfolding encode_loop
encode_loop_step put buf buf' pos v p e h =
    rw
      (
        write_wrapping-write_bytes buf pos (put v) h ∙ e,
        no_wrap (pos + length (put v)) h,
        encode_loop,
      )
      refl

pub decode_loop_step :
    (width : ℕ) (get : List ℕ → ℕ) (buf bs : List ℕ) (pos n : ℕ)
    → read_bytes buf pos width ≡ some bs
    → pos + width < 2 ^ 32
    → decode_loop width get buf pos (suc n)
      ≡ cons_some (get bs) (decode_loop width get buf (pos + width) n)
unfolding decode_loop
decode_loop_step width get buf bs pos n e h =
    rw (read_wrapping-read_bytes buf pos width h ∙ e, no_wrap (pos + width) h, decode_loop) refl

module _ {l : Layout} {bits : ℕ} (f : Faithful l bits) where
  length-flat : (p : List ℕ) → length (flat l.put p) ≡ l.width * length p
  length-flat [] = grind arith
  length-flat (v ∷ p) =
      grind (arith, length-append (l.put v) (flat l.put p), f.length-put v, length-flat p)

  encode_loop-middle :
      (p before old behind : List ℕ)
      → length old ≡ length (flat l.put p)
      → length before + length old < 2 ^ 32
      → encode_loop l.put (before ++ (old ++ behind)) (length before) p
        ≡ some (before ++ (flat l.put p ++ behind))
  unfolding encode_loop
  encode_loop-middle [] before [] behind h small = refl
  encode_loop-middle [] before (o ∷ old) behind h small = absurd (omega arith)
  encode_loop-middle (v ∷ p) before old behind h small =
      let n = length (l.put v) in
      let k = length-append (l.put v) (flat l.put p) in
      let first = take n old in
      let others = drop n old in
      let written =
        write_bytes-middle before first (l.put v) (others ++ behind)
          (omega (arith, length-take n old)) in
      let rest =
        encode_loop-middle p (before ++ l.put v) others behind (omega (arith, length-drop n old))
          (omega (arith, length-append before (l.put v), length-drop n old)) in
      rw (← take-append-drop n old) (
        rw (append_assoc first others behind, append_assoc (l.put v) (flat l.put p) behind)
          (encode_loop_step l.put _ _ (length before) v p written (omega arith)
            ∙ rw
                (
                  ← append_assoc before (l.put v) (others ++ behind),
                  ← append_assoc before (l.put v) (flat l.put p ++ behind),
                  ← length-append before (l.put v),
                )
                rest))

  decode_loop-middle :
      (p before behind : List ℕ)
      → All (λ v. v < 2 ^ bits) p
      → length before + length (flat l.put p) < 2 ^ 32
      → decode_loop l.width l.get (before ++ (flat l.put p ++ behind)) (length before) (length p)
        ≡ some p
  unfolding decode_loop
  decode_loop-middle [] before behind h small = refl
  decode_loop-middle (v ∷ p) before behind (hv, h) small =
      let size = length-append (l.put v) (flat l.put p) in
      let n = f.length-put v in
      let read : read_bytes (before ++ (l.put v ++ (flat l.put p ++ behind))) (length before)
            l.width
          ≡ some (l.put v) =
        rw (← n) (read_bytes-middle before (l.put v) (flat l.put p ++ behind)) in
      let k = length-append before (l.put v) in
      let e = append_assoc before (l.put v) (flat l.put p ++ behind) in
      let rest = decode_loop-middle p (before ++ l.put v) behind h (omega arith) in
      rw (append_assoc (l.put v) (flat l.put p) behind) (
        decode_loop_step l.width l.get _ (l.put v) (length before) (length p) read (omega arith)
        ∙ rw (f.get-put v hv) (ap (cons_some v) (rw (e, k, n) at rest)))

  pub encode_with-middle :
      (p before old behind : List ℕ) (maxlen : ℕ)
      → length old ≡ l.width * length p
      → l.width * length p < 2 ^ 31
      → length before + l.width * length p < 2 ^ 32
      → l.width * length p ≤ maxlen
      → encode_with l (before ++ (old ++ behind)) (length before) maxlen p
        ≡ done (l.width * length p) (before ++ (flat l.put p ++ behind))
  unfolding encode_with
  encode_with-middle p before old behind maxlen room small inside fits =
      let size : encoded_array_size l.width (length p) ≡ l.width * length p =
        no_wrap _ (omega arith) in
      rw
        (
          size,
          ge→ltb maxlen (l.width * length p) fits,
          encode_loop-middle p before old behind (room ∙ sym (length-flat p))
              (omega (arith, length-flat p)),
          lt→ltb (l.width * length p) (2 ^ 31) small,
        )
        refl

  pub decode_with-middle :
      (p before behind : List ℕ) (maxlen : ℕ)
      → All (λ v. v < 2 ^ bits) p
      → l.width * length p < 2 ^ 31
      → length before + l.width * length p < 2 ^ 32
      → l.width * length p ≤ maxlen
      → decode_with l (before ++ (flat l.put p ++ behind)) (length before) maxlen (length p)
        ≡ done (l.width * length p) p
  unfolding decode_with
  decode_with-middle p before behind maxlen h small inside fits =
      let size : encoded_array_size l.width (length p) ≡ l.width * length p =
        no_wrap _ (omega arith) in
      rw
        (
          size,
          ge→ltb maxlen (l.width * length p) fits,
          decode_loop-middle p before behind h (omega (arith, length-flat p)),
          lt→ltb (l.width * length p) (2 ^ 31) small,
        )
        refl

layout_of-Faithful : (t : NumberType) (e : Endian) → Faithful (layout_of t e) (bits_of t)
layout_of-Faithful int16 big = be16-Faithful
layout_of-Faithful int16 little = le16-Faithful
layout_of-Faithful int32 big = be32-Faithful
layout_of-Faithful int32 little = le32-Faithful
layout_of-Faithful int64 big = be64-Faithful
layout_of-Faithful int64 little = le64-Faithful
layout_of-Faithful float big = be32-Faithful
layout_of-Faithful float little = le32-Faithful
layout_of-Faithful double big = be64-Faithful
layout_of-Faithful double little = le64-Faithful

-- For each of the five types and either byte order, an array of values of the type whose size is
-- below 2 ^ 31 and at most `maxlen`, and for which the buffer has room at the offset, up to a position
-- below 2 ^ 32: the encoder returns the size and changes no other byte of the buffer, and the decoder
-- gets the array back.
pub decode_of-encode_of :
    (t : NumberType) (e : Endian) (p before old behind : List ℕ) (maxlen : ℕ)
    → let size = (layout_of t e).width * length p in
      length old ≡ size
      → size < 2 ^ 31
      → length before + size < 2 ^ 32
      → size ≤ maxlen
      → All (λ v. v < 2 ^ bits_of t) p
      → (bytes : List ℕ) × (length bytes ≡ size)
        × (encode_of t e (before ++ (old ++ behind)) (length before) maxlen p
            ≡ done size (before ++ (bytes ++ behind)))
        × (decode_of t e (before ++ (bytes ++ behind)) (length before) maxlen (length p)
            ≡ done size p)
decode_of-encode_of t e p before old behind maxlen room small inside fits h =
    let f = layout_of-Faithful t e in
    let l = layout_of t e in
    (
      flat l.put p,
      length-flat f p,
      sym (encode_of_lem t e _ _ _ _)
          ∙ encode_with-middle f p before old behind maxlen room small inside fits,
      sym (decode_of_lem t e _ _ _ _)
          ∙ decode_with-middle f p before behind maxlen h small inside fits,
    )
