-- ===== src/Coretypes/Bounds.antt =====
-- When a decoder stays inside of the buffer that it is given.
use zcm.Prelude.{
  ℕ, zero, suc, ◌+◌, ◌*◌, ◌%◌, ◌^◌, ◌≤◌, ◌<◌, ◌≡◌, ◌∙◌, ap, refl, arith, inl, inr, ◌⊎◌, lt→ltb,
  Bool, true, false, List, [], ◌∷◌, none, some, ltb, length, ge→ltb, ltb→ge, ltb→lt, Bool-cases,
  Option-cases, read_bytes_total,
}
use zcm.Coretypes.{
  Result, refused, fault, done, negative, cons_some, read_wrapping, decode_loop, decode_with,
}
use zcm.Coretypes.Numbers.{
  NumberType, Endian, layout_of, decode_of, decode_of_lem, int16, int32, int64, float, double, big,
  little,
}
use zcm.Coretypes.RoundTrip.{decode_loop_step, no_wrap}

abbrev pub is_fault {ℓ} : {A : Type ℓ} → Result A → Bool
is_fault refused = false
is_fault fault = true
is_fault (done n a) = false
is_fault (negative n) = false

decode_loop_total :
    (width : ℕ) (get : List ℕ → ℕ) (buf : List ℕ) (n pos : ℕ)
    → pos + width * n ≤ length buf
    → pos + width * n < 2 ^ 32
    → (vs : List ℕ) × (decode_loop width get buf pos n ≡ some vs) × (length vs ≡ n)
unfolding decode_loop
decode_loop_total width get buf zero pos h small = ([], refl, refl)
decode_loop_total width get buf (suc n) pos h small =
    let (bs, e, k) = read_bytes_total buf pos width (grind arith) in
    let (vs, e', l) = decode_loop_total width get buf n (pos + width) (grind arith) (grind arith) in
    (
      get bs ∷ vs,
      decode_loop_step width get buf bs pos n e (grind arith) ∙ ap (cons_some (get bs)) e',
      ap suc l,
    )

-- In a buffer below 2 ^ 32 bytes a position leaves it before it wraps round.
read_wrapping_inside :
    (buf : List ℕ) (pos n : ℕ) {bs : List ℕ}
    → length buf < 2 ^ 32
    → 0 < n
    → read_wrapping buf pos n ≡ some bs
    → pos + n ≤ length buf
unfolding read_wrapping
read_wrapping_inside buf pos zero small p e = absurd (omega arith)
read_wrapping_inside buf pos (suc n) small p e = elim (Bool-cases (ltb pos (length buf))) [
  | inl within ↦
      let i = ltb→lt pos (length buf) within in
      let next = no_wrap (pos + 1) (omega arith) in
      elim (Bool-cases (ltb 0 n)) [
        | inl more ↦ elim (Option-cases (read_wrapping buf (pos + 1) n)) [
          | inl z ↦ let c = rw (within, next, z) at e in absurd (cc c)
          | inr (bs', z) ↦
              let rest = read_wrapping_inside buf (pos + 1) n small (ltb→lt 0 n more) z in
              omega arith
        ]
        | inr last ↦ omega (arith, ltb→ge 0 n last)
      ]
  | inr outside ↦ let c = rw outside at e in absurd (cc c)
]

decode_loop_short :
    (width : ℕ) (get : List ℕ → ℕ) (buf : List ℕ) (n pos : ℕ)
    → length buf < 2 ^ 32
    → 0 < width
    → 0 < n
    → length buf < pos + width * n
    → decode_loop width get buf pos n ≡ none
unfolding decode_loop
decode_loop_short width get buf zero pos small w p h = absurd (omega arith)
decode_loop_short width get buf (suc n) pos small w p h =
    elim (Option-cases (read_wrapping buf pos width)) [
      | inl e ↦ rw (e, decode_loop) refl
      | inr (bs, e) ↦
          let inside = read_wrapping_inside buf pos width small w e in
          let next = no_wrap (pos + width) (omega arith) in
          elim (Bool-cases (ltb 0 n)) [
            | inl more ↦
                rw
                  (
                    e,
                    next,
                    decode_loop_short width get buf n (pos + width) small w (ltb→lt _ _ more)
                        (grind arith),
                    decode_loop,
                  )
                  refl
            | inr last ↦
                let z : n ≡ 0 = omega (arith, ltb→ge _ _ last) in
                let all : width * suc n ≡ width = rw z (omega arith) in absurd (omega arith)
          ]
    ]

width_pos : (t : NumberType) (e : Endian) → 0 < (layout_of t e).width
width_pos int16 big = omega arith
width_pos int16 little = omega arith
width_pos int32 big = omega arith
width_pos int32 little = omega arith
width_pos int64 big = omega arith
width_pos int64 little = omega arith
width_pos float big = omega arith
width_pos float little = omega arith
width_pos double big = omega arith
width_pos double little = omega arith

-- If the buffer has `maxlen` bytes at the offset, up to a position below 2 ^ 32, and the size of the
-- array is below 2 ^ 31, then a decoder of numbers reads inside of the buffer: it returns -1 if the
-- size is above `maxlen`, and otherwise the size, with as many numbers as it was asked for.
pub decode_of_safe :
    (t : NumberType) (e : Endian) (buf : List ℕ) (offset maxlen elements : ℕ)
    → offset + maxlen ≤ length buf
    → offset + maxlen < 2 ^ 32
    → (layout_of t e).width * elements < 2 ^ 31
    → let size = (layout_of t e).width * elements in
      let result = decode_of t e buf offset maxlen elements in
      ((maxlen < size) × (result ≡ refused))
      ⊎ ((size ≤ maxlen) × (vs : List ℕ) × (result ≡ done size vs) × (length vs ≡ elements))
unfolding decode_with
decode_of_safe t e buf offset maxlen elements room inside small =
    let l = layout_of t e in
    let size = no_wrap (l.width * elements) (omega arith) in
    rw (← decode_of_lem t e buf offset maxlen elements)
      (elim (Bool-cases (ltb maxlen (l.width * elements))) [
        | inl over ↦ inl (ltb→lt _ _ over, rw (size, over) refl)
        | inr within ↦
            let fits = ltb→ge maxlen (l.width * elements) within in
            let (vs, d, k) =
              decode_loop_total l.width l.get buf elements offset (omega arith) (omega arith) in
            inr (fits, vs, rw (d, size, within, lt→ltb (l.width * elements) (2 ^ 31) small) refl, k)
      ])

-- The size is computed in 32 bits. Where the number of elements, which a variable array has from the
-- datagram, makes it wrap round to at most `maxlen`, the test passes, and the decoder reads behind the
-- end of any buffer below 2 ^ 32 bytes that is not that large.
pub decode_of_overruns :
    (t : NumberType) (e : Endian) (buf : List ℕ) (offset maxlen elements : ℕ)
    → length buf < 2 ^ 32
    → length buf < offset + (layout_of t e).width * elements
    → 0 < elements
    → (layout_of t e).width * elements % 2 ^ 32 ≤ maxlen
    → is_fault (decode_of t e buf offset maxlen elements) ≡ true
unfolding decode_with
decode_of_overruns t e buf offset maxlen elements small short pos wraps =
    let l = layout_of t e in
    rw (← decode_of_lem t e buf offset maxlen elements) (
      rw
        (
          ge→ltb maxlen (l.width * elements % 2 ^ 32) wraps,
          decode_loop_short l.width l.get buf elements offset small (width_pos t e) pos short,
        )
        refl)
