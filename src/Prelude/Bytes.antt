-- ===== src/Prelude/Bytes.antt =====
-- Reading and writing bytes of a buffer, one after the other. `none` is an access outside of it.
use zcm.Prelude.Tests.{ltb, if◌then◌else◌, lt→ltb, ltb→lt, Bool-cases}
use zcm.Prelude.Lists.{length, get_or, set, length-append}
use Prim.Native.Nat.{ℕ, zero, suc, ◌+◌, ◌≤◌, ◌<◌}
use mathlib.Core.Path.{◌≡◌, refl, ap, ◌∙◌}
use mathlib.Core.Logic.{inl, inr}
use mathlib.Core.Option.{Option, none, some}
use mathlib.Core.List.{List, [], ◌∷◌, ◌++◌, append_assoc}
use native.Mathlib.Omega.{arith}

unfoldable pub write_bytes : List ℕ → ℕ → List ℕ → Option (List ℕ)
write_bytes buf i [] = some buf
write_bytes buf i (b ∷ bs) =
    let rest = write_bytes (set buf i b) (i + 1) bs in if ltb i (length buf) then rest else none

abbrev pub cons_some : ℕ → Option (List ℕ) → Option (List ℕ)
cons_some b none = none
cons_some b (some bs) = some (b ∷ bs)

unfoldable pub read_bytes : List ℕ → ℕ → ℕ → Option (List ℕ)
read_bytes buf i zero = some []
read_bytes buf i (suc n) =
    let rest = read_bytes buf (i + 1) n in
    if ltb i (length buf) then cons_some (get_or buf i 0) rest else none

module _ {ℓ} {A : Type ℓ} where
  set-middle :
      (xs : List A) (o b : A) (ys : List A) → set (xs ++ (o ∷ ys)) (length xs) b ≡ xs ++ (b ∷ ys)
  set-middle [] o b ys = refl
  set-middle (x ∷ xs) o b ys = ap (λ l. x ∷ l) (set-middle xs o b ys)

  get_or-middle :
      (xs : List A) (b : A) (ys : List A) (d : A) → get_or (xs ++ (b ∷ ys)) (length xs) d ≡ b
  get_or-middle [] b ys d = refl
  get_or-middle (x ∷ xs) b ys d = get_or-middle xs b ys d

  length-snoc : (xs : List A) (b : A) → length (xs ++ (b ∷ [])) ≡ length xs + 1
  length-snoc xs b = omega (arith, length-append xs (b ∷ []))

-- Where there is room the bytes take the place of those that stood there.
pub write_bytes-middle :
    (xs old bs ys : List ℕ)
    → length old ≡ length bs
    → write_bytes (xs ++ (old ++ ys)) (length xs) bs ≡ some (xs ++ (bs ++ ys))
unfolding write_bytes
write_bytes-middle xs [] [] ys h = refl
write_bytes-middle xs [] (b ∷ bs) ys h = absurd (omega arith)
write_bytes-middle xs (o ∷ old) [] ys h = absurd (omega arith)
write_bytes-middle xs (o ∷ old) (b ∷ bs) ys h =
    let l = length-append xs (o ∷ (old ++ ys)) in
    rw
      (
        lt→ltb (length xs) (length (xs ++ (o ∷ (old ++ ys)))) (omega arith),
        set-middle xs o b (old ++ ys),
      )
      (rw (← append_assoc xs (b ∷ []) (old ++ ys), ← length-snoc xs b)
        (write_bytes-middle (xs ++ (b ∷ [])) old bs ys (omega arith)
          ∙ ap some (append_assoc xs (b ∷ []) (bs ++ ys))))

pub read_bytes-middle :
    (xs bs ys : List ℕ) → read_bytes (xs ++ (bs ++ ys)) (length xs) (length bs) ≡ some bs
unfolding read_bytes
read_bytes-middle xs [] ys = refl
read_bytes-middle xs (b ∷ bs) ys =
    let l = length-append xs (b ∷ (bs ++ ys)) in
    let rest =
      rw (append_assoc xs (b ∷ []) (bs ++ ys), length-snoc xs b) at
        (read_bytes-middle (xs ++ (b ∷ [])) bs ys) in
    rw
      (
        lt→ltb (length xs) (length (xs ++ (b ∷ (bs ++ ys)))) (omega arith),
        rest,
        get_or-middle xs b (bs ++ ys) 0,
      )
      refl

-- A read that leaves the buffer is noticed.
pub read_bytes_short :
    (buf : List ℕ) (i n : ℕ) → length buf < i + n → 0 < n → read_bytes buf i n ≡ none
unfolding read_bytes
read_bytes_short buf i zero h p = absurd (omega arith)
read_bytes_short buf i (suc n) h p = elim (Bool-cases (ltb i (length buf))) [
  | inl e ↦
      let inside = ltb→lt _ _ e in
      rw (e, read_bytes_short buf (i + 1) n (omega arith) (omega arith)) refl
  | inr e ↦ rw e refl
]

-- A read that stays inside answers as many bytes as it is asked for.
pub read_bytes_total :
    (buf : List ℕ) (i n : ℕ)
    → i + n ≤ length buf
    → (bs : List ℕ) × (read_bytes buf i n ≡ some bs) × (length bs ≡ n)
unfolding read_bytes
read_bytes_total buf i zero h = ([], refl, refl)
read_bytes_total buf i (suc n) h =
    let (bs, e, l) = read_bytes_total buf (i + 1) n (omega arith) in
    (get_or buf i 0 ∷ bs, rw (lt→ltb i (length buf) (omega arith), e) refl, ap suc l)
