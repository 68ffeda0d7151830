-- ===== src/StructHash/Bits.antt =====
-- The exclusive or in `hashUpdate`, as arithmetic.
use Prim.Native.Nat.{bit_or, bit_xor, bit_xor-bitwise, digits, differ}
use zcm.Prelude.{
  ℕ, zero, suc, ◌+◌, ◌-◌, ◌*◌, ◌/◌, ◌%◌, ◌^◌, ◌≤◌, ◌<◌, ◌≡◌, ◌∙◌, ap, ap₂, refl, sym, arith, Bool,
  true, ◌&&◌, ◌==◌, ==_iff,
}

abbrev xor_digits : ℕ → ℕ → ℕ → ℕ
xor_digits n a b = digits (λ y. y) differ n a b

enough_digits : (n m a b : ℕ) → a ≤ n → a ≤ m → xor_digits n a b ≡ xor_digits m a b
enough_digits zero zero zero b h h' = refl
enough_digits zero (suc m) zero b h h' = refl
enough_digits (suc n) zero zero b h h' = refl
enough_digits (suc n) (suc m) zero b h h' = refl
enough_digits zero m (suc a) b h h' = absurd (omega arith)
enough_digits (suc n) zero (suc a) b h h' = absurd (omega arith)
enough_digits (suc n) (suc m) (suc a) b h h' =
    ap (λ x. x * 2 + differ (suc a % 2) (b % 2))
      (enough_digits n m (suc a / 2) (b / 2) (omega arith) (omega arith))

pub zero-bit_xor : (b : ℕ) → bit_xor 0 b ≡ b
zero-bit_xor b = bit_xor-bitwise 0 b

-- The lowest digit.
bit_xor_step : (a b : ℕ) → bit_xor a b ≡ bit_xor (a / 2) (b / 2) * 2 + differ (a % 2) (b % 2)
bit_xor_step zero b = zero-bit_xor b ∙ lowest ∙ ap (λ x. x * 2 + b % 2) (sym (zero-bit_xor (b / 2)))
  where
    lowest : b ≡ b / 2 * 2 + b % 2
    lowest = omega arith
bit_xor_step (suc a) b =
    bit_xor-bitwise (suc a) b
    ∙ ap (λ x. x * 2 + differ (suc a % 2) (b % 2))
        (enough_digits a (suc a / 2) (suc a / 2) (b / 2) (omega arith) (omega arith)
          ∙ sym (bit_xor-bitwise (suc a / 2) (b / 2)))

xor_twice : (a b : ℕ) → bit_xor (a * 2) b ≡ bit_xor a (b / 2) * 2 + b % 2
xor_twice a b =
    let half : a * 2 / 2 ≡ a = omega arith in
    let even : a * 2 % 2 ≡ 0 = omega arith in
    bit_xor_step (a * 2) b ∙ ap₂ (λ x y. bit_xor x (b / 2) * 2 + differ y (b % 2)) half even

-- By 2, 4 and 8 digits.
xor_shifted_two : (a b : ℕ) → bit_xor (a * 4) b ≡ bit_xor a (b / 4) * 4 + b % 4
xor_shifted_two a b =
    let split : a * 4 ≡ a * 2 * 2 = omega arith in
    let quarter : b / 2 / 2 ≡ b / 4 = omega arith in
    ap (λ x. bit_xor x b) split
    ∙ omega (arith, xor_twice (a * 2) b, xor_twice a (b / 2), ap (bit_xor a) quarter)

xor_shifted_four : (a b : ℕ) → bit_xor (a * 16) b ≡ bit_xor a (b / 16) * 16 + b % 16
xor_shifted_four a b =
    let split : a * 16 ≡ a * 4 * 4 = omega arith in
    let quarter : b / 4 / 4 ≡ b / 16 = omega arith in
    ap (λ x. bit_xor x b) split
    ∙ omega (arith, xor_shifted_two (a * 4) b, xor_shifted_two a (b / 4), ap (bit_xor a) quarter)

pub xor_shifted : (a b : ℕ) → bit_xor (a * 256) b ≡ bit_xor a (b / 256) * 256 + b % 256
xor_shifted a b =
    let split : a * 256 ≡ a * 16 * 16 = omega arith in
    let quarter : b / 16 / 16 ≡ b / 256 = omega arith in
    ap (λ x. bit_xor x b) split
    ∙ omega
        (arith, xor_shifted_four (a * 16) b, xor_shifted_four a (b / 16), ap (bit_xor a) quarter)

xor_zero_fuel : (n a : ℕ) → a ≤ n → bit_xor a 0 ≡ a
xor_zero_fuel n zero h = zero-bit_xor 0
xor_zero_fuel zero (suc a) h = absurd (omega arith)
xor_zero_fuel (suc n) (suc a) h =
    let rest = xor_zero_fuel n (suc a / 2) (omega arith) in
    let digit = differ_zero (suc a % 2) in omega (arith, bit_xor_step (suc a) 0)
  where
    differ_zero : (x : ℕ) → differ x 0 ≡ x
    differ_zero zero = refl
    differ_zero (suc x) = refl

pub bit_xor-zero : (a : ℕ) → bit_xor a 0 ≡ a
bit_xor-zero a = xor_zero_fuel a a (omega arith)

-- As many digits 1.
abbrev ones : ℕ → ℕ
ones zero = 0
ones (suc n) = ones n * 2 + 1

differ_one : (x : ℕ) → x < 2 → differ x 1 + x ≡ 1
differ_one zero h = refl
differ_one (suc zero) h = refl
differ_one (suc (suc x)) h = absurd (omega arith)

-- Against ones every digit is turned over.
xor_ones : (n a : ℕ) → a ≤ ones n → bit_xor a (ones n) + a ≡ ones n
xor_ones zero zero h = zero-bit_xor 0
xor_ones zero (suc a) h = absurd (omega arith)
xor_ones (suc n) a h =
    let rest = xor_ones n (a / 2) (omega arith) in
    let half : (ones n * 2 + 1) / 2 ≡ ones n = omega arith in
    let odd : (ones n * 2 + 1) % 2 ≡ 1 = omega arith in
    let digit = differ_one (a % 2) (omega arith) in
    let step =
      bit_xor_step a (ones n * 2 + 1)
      ∙ ap₂ (λ x y. bit_xor (a / 2) x * 2 + differ (a % 2) y) half odd in
    omega (arith, step)

pub xor_mask : (a : ℕ) → a < 2 ^ 56 → bit_xor a (2 ^ 56 - 1) ≡ 2 ^ 56 - 1 - a
xor_mask a h = let e = xor_ones 56 a (omega arith) in omega (arith, e)

-- A small number and the digits above it.
all_below : ℕ → (ℕ → Bool) → Bool
all_below zero p = true
all_below (suc n) p = p n && all_below n p

all_below_lem : (n : ℕ) (p : ℕ → Bool) (x : ℕ) → all_below n p ≡ true → x < n → p x ≡ true
unfolding all_below
all_below_lem zero p x h l = absurd (omega arith)
all_below_lem (suc n) p x h l = ground (arith, all_below_lem n p x)

or_table : all_below 512 (λ x. bit_or x (2 ^ 64 - 2 ^ 9) == x + (2 ^ 64 - 2 ^ 9)) ≡ true
unfolding all_below
or_table = refl

pub bit_or-high : (x : ℕ) → x < 512 → bit_or x (2 ^ 64 - 2 ^ 9) ≡ x + (2 ^ 64 - 2 ^ 9)
bit_or-high x h =
    (==_iff (bit_or x (2 ^ 64 - 2 ^ 9)) (x + (2 ^ 64 - 2 ^ 9))).0 (all_below_lem 512 _ x or_table h)
