-- ===== src/StructHash/Mixing.antt =====
-- `hashUpdate` loses nothing of the hash nor of the character.
use Prim.Native.Nat.{bit_xor}
use zcm.Prelude.{
  ℕ, ◌+◌, ◌-◌, ◌*◌, ◌/◌, ◌%◌, ◌^◌, ◌≤◌, ◌<◌, ◌≡◌, ◌≢◌, ◌∙◌, inl, inr, ap, ap₂, refl, sym, arith,
  Bool-cases, List, [], ◌∷◌, ◌++◌, ltb, ltb→lt, ltb→ge, ==_iff, equal_other,
}
use zcm.StructHash.{sign_extended_right_shift, char_of, hash_update, hash_chars}
use zcm.StructHash.Bits.{xor_shifted, bit_xor-zero, xor_mask, bit_or-high}

-- What becomes of the hash before the character is added.
abbrev mixed : ℕ → ℕ
mixed v = bit_xor (v * 2 ^ 8 % 2 ^ 64) (sign_extended_right_shift v 55)

mixed-low : (v : ℕ) → v < 2 ^ 63 → mixed v ≡ v % 2 ^ 56 * 256 + v / 2 ^ 55
unfolding sign_extended_right_shift
mixed-low v h =
    let top = (==_iff (v / 2 ^ 63) 0).1 (omega arith) in
    let up : v * 2 ^ 8 % 2 ^ 64 ≡ v % 2 ^ 56 * 256 = omega arith in
    let none_above : v / 2 ^ 55 / 256 ≡ 0 = omega arith in
    let low : v / 2 ^ 55 % 256 ≡ v / 2 ^ 55 = omega arith in
    rw (top, up)
      (xor_shifted (v % 2 ^ 56) (v / 2 ^ 55)
        ∙ ap₂ (λ x y. bit_xor (v % 2 ^ 56) x * 256 + y) none_above low
        ∙ ap (λ x. x * 256 + v / 2 ^ 55) (bit_xor-zero (v % 2 ^ 56)))

mixed-high :
    (v : ℕ)
    → 2 ^ 63 ≤ v
    → v < 2 ^ 64
    → mixed v ≡ (2 ^ 56 - 1 - v % 2 ^ 56) * 256 + (v / 2 ^ 55 - 256)
unfolding sign_extended_right_shift
mixed-high v h l =
    let top = equal_other (v / 2 ^ 63) 0 (λ e. absurd (omega arith)) in
    let up : v * 2 ^ 8 % 2 ^ 64 ≡ v % 2 ^ 56 * 256 = omega arith in
    let b = v / 2 ^ 55 + (2 ^ 64 - 2 ^ 9) in
    let all_above : b / 256 ≡ 2 ^ 56 - 1 = omega arith in
    let low : b % 256 ≡ v / 2 ^ 55 - 256 = omega arith in
    rw (top, up)
      (ap (bit_xor (v % 2 ^ 56 * 256)) (bit_or-high (v / 2 ^ 55) (omega arith))
        ∙ xor_shifted (v % 2 ^ 56) b
        ∙ ap₂ (λ x y. bit_xor (v % 2 ^ 56) x * 256 + y) all_above low
        ∙ ap (λ x. x * 256 + (v / 2 ^ 55 - 256)) (xor_mask (v % 2 ^ 56) (omega arith)))

-- Where the 64th digit is: two hashes that are mixed to the same are the same.
apart_halves : (v w : ℕ) → v < 2 ^ 63 → 2 ^ 63 ≤ w → w < 2 ^ 64 → mixed v ≢ mixed w
apart_halves v w h l m e =
    let e' = sym (mixed-low v h) ∙ e ∙ mixed-high w l m in absurd (omega (arith, e'))

mixed-same : (v w : ℕ) → v < 2 ^ 64 → w < 2 ^ 64 → mixed v ≡ mixed w → v ≡ w
mixed-same v w hv hw e = elim (Bool-cases (ltb v (2 ^ 63))) [
  | inl a ↦ elim (Bool-cases (ltb w (2 ^ 63))) [
    | inl b ↦
        let small = ltb→lt v (2 ^ 63) a in
        let small' = ltb→lt w (2 ^ 63) b in
        let e' = sym (mixed-low v small) ∙ e ∙ mixed-low w small' in omega (arith, e')
    | inr b ↦ absurd (apart_halves v w (ltb→lt _ _ a) (ltb→ge _ _ b) hw e)
  ]
  | inr a ↦ elim (Bool-cases (ltb w (2 ^ 63))) [
    | inl b ↦ absurd (apart_halves w v (ltb→lt _ _ b) (ltb→ge _ _ a) hv (sym e))
    | inr b ↦
        let large = ltb→ge v (2 ^ 63) a in
        let large' = ltb→ge w (2 ^ 63) b in
        let e' = sym (mixed-high v large hv) ∙ e ∙ mixed-high w large' hw in omega (arith, e')
  ]
]

mixed-lt : (v : ℕ) → v < 2 ^ 64 → mixed v < 2 ^ 64
mixed-lt v h = elim (Bool-cases (ltb v (2 ^ 63))) [
  | inl a ↦ let small = ltb→lt v (2 ^ 63) a in omega (arith, mixed-low v small)
  | inr a ↦ let large = ltb→ge v (2 ^ 63) a in omega (arith, mixed-high v large h)
]

char_of-lt : (c : ℕ) → char_of c < 2 ^ 64
unfolding char_of
char_of-lt c = elim (Bool-cases (ltb (c % 2 ^ 8) 128)) [
  | inl e ↦ rw e (omega arith)
  | inr e ↦ rw e (omega arith)
]

char_of-same : (c d : ℕ) → char_of c ≡ char_of d → c % 2 ^ 8 ≡ d % 2 ^ 8
unfolding char_of
char_of-same c d e = ground arith

pub hash_update-lt : (v c : ℕ) → hash_update v c < 2 ^ 64
unfolding hash_update
hash_update-lt v c = omega arith

hash_update-same : (v w c : ℕ) → v < 2 ^ 64 → w < 2 ^ 64 → hash_update v c ≡ hash_update w c → v ≡ w
unfolding hash_update
hash_update-same v w c hv hw e =
    let a = mixed-lt v hv in
    let b = mixed-lt w hw in
    let k = char_of-lt c in mixed-same v w hv hw (cancel (mixed v) (mixed w) (char_of c) a b e)
  where
    cancel : (x y k : ℕ) → x < 2 ^ 64 → y < 2 ^ 64 → (x + k) % 2 ^ 64 ≡ (y + k) % 2 ^ 64 → x ≡ y
    cancel x y k a b e = omega arith

pub hash_update-char :
    (v c d : ℕ) → v < 2 ^ 64 → hash_update v c ≡ hash_update v d → c % 2 ^ 8 ≡ d % 2 ^ 8
unfolding hash_update
hash_update-char v c d h e =
    char_of-same c d (cancel (mixed v) (char_of c) (char_of d) (char_of-lt c) (char_of-lt d) e)
  where
    cancel : (x k l : ℕ) → k < 2 ^ 64 → l < 2 ^ 64 → (x + k) % 2 ^ 64 ≡ (x + l) % 2 ^ 64 → k ≡ l
    cancel x k l a b e = omega arith

pub hash_chars-same :
    (cs : List ℕ) (v w : ℕ) → v < 2 ^ 64 → w < 2 ^ 64 → hash_chars v cs ≡ hash_chars w cs → v ≡ w
unfolding hash_chars
hash_chars-same [] v w hv hw e = e
hash_chars-same (c ∷ cs) v w hv hw e = hash_update-same v w c hv hw (
    hash_chars-same cs (hash_update v c) (hash_update w c) (hash_update-lt v c) (hash_update-lt w c)
      e)

pub hash_chars-lt : (cs : List ℕ) (v : ℕ) → v < 2 ^ 64 → hash_chars v cs < 2 ^ 64
unfolding hash_chars
hash_chars-lt [] v h = h
hash_chars-lt (c ∷ cs) v h = hash_chars-lt cs (hash_update v c) (hash_update-lt v c)

pub hash_chars-append :
    (xs ys : List ℕ) (v : ℕ) → hash_chars v (xs ++ ys) ≡ hash_chars (hash_chars v xs) ys
unfolding hash_chars
hash_chars-append [] ys v = refl
hash_chars-append (x ∷ xs) ys v = hash_chars-append xs ys (hash_update v x)
