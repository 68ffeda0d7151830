-- ===== src/Tracker/Nearest.antt =====
-- What `get(utime)` answers, with the default interpolation.
use zcm.Prelude.{
  ℕ, ◌+◌, ◌-◌, ◌≤◌, ◌<◌, ◌≡◌, ◌⊎◌, inl, inr, refl, arith, List, [], ◌∷◌, Option, none, some,
  if◌then◌else◌, ltb, ◌==◌, All, Bool-cases, ltb→lt, ltb→ge,
}
use zcm.Tracker.{
  Stored, Traits, Tracker, search_utime, search, start, close, choose, get_between, get_at,
  default_interpolate,
}
use zcm.Tracker.Search.{In, BestBefore, BestAfter, search-Found}

-- How far a message is from the time.
abbrev pub distance : ℕ → ℕ → ℕ
distance t k = (k - t) + (t - k)

-- The answer is a nearest message, not farther than `max_err`, or none if all are farther.
pub data Nearest {ℓ} {M : Type ℓ} (u : Stored M → ℕ) (max_err t : ℕ) (ms : List (Stored M))
    : Option M → Type ℓ where
  all_far : All (λ s. max_err < distance t (u s)) ms → Nearest u max_err t ms none
  nearest :
      (s : Stored M)
      → In s ms
      → distance t (u s) ≤ max_err
      → All (λ r. distance t (u s) ≤ distance t (u r)) ms
      → Nearest u max_err t ms (some s.msg)

All-both {ℓ} :
    {A : Type ℓ} (P Q R : A → Type 0) (xs : List A)
    → ((a : A) → P a → Q a → R a)
    → All P xs
    → All Q xs
    → All R xs
All-both P Q R [] f h k = tt
All-both P Q R (x ∷ xs) f (p, h) (q, k) = (f x p q, All-both P Q R xs f h k)

module _ {ℓ} {M : Type ℓ} (u : Stored M → ℕ) (max_err t : ℕ) (ms : List (Stored M)) where
  Nearest-before :
      (a : Stored M) (k0 : ℕ) (R : Stored M → Type 0)
      → BestBefore u t ms (some a) k0
      → All R ms
      → ((s : Stored M) → R s → ((t < u s) ⊎ (u s ≤ k0)) → t - k0 ≤ distance t (u s))
      → t - k0 ≤ max_err
      → Nearest u max_err t ms (some a.msg)
  Nearest-before a k0 R (i, e, le, h) r f near = nearest a i (omega arith) (
      All-both R (λ s. (t < u s) ⊎ (u s ≤ k0)) (λ s. distance t (u a) ≤ distance t (u s)) ms
        (λ s p q. let g = f s p q in omega arith) r h)

  Nearest-after :
      (c : Stored M) (k1 : ℕ) (R : Stored M → Type 0)
      → BestAfter u t ms (some c) k1
      → All R ms
      → ((s : Stored M) → R s → ((u s < t) ⊎ (k1 ≤ u s)) → k1 - t ≤ distance t (u s))
      → k1 - t ≤ max_err
      → Nearest u max_err t ms (some c.msg)
  Nearest-after c k1 R (i, e, le, h) r f near = nearest c i (omega arith) (
      All-both R (λ s. (u s < t) ⊎ (k1 ≤ u s)) (λ s. distance t (u c) ≤ distance t (u s)) ms
        (λ s p q. let g = f s p q in omega arith) r h)

module _ {ℓ} {M : Type ℓ} (u : Stored M → ℕ) (max_err t : ℕ) (ms : List (Stored M)) where
  nearer :
      (a c : Stored M) (k0 k1 : ℕ)
      → BestBefore u t ms (some a) k0
      → BestAfter u t ms (some c) k1
      → t - k0 ≤ max_err
      → k1 - t ≤ max_err
      → Nearest u max_err t ms
          (if k0 == k1 then some a.msg else some (default_interpolate t a.msg k0 c.msg k1))
  unfolding default_interpolate
  nearer a c k0 k1 h0 h1 n0 n1 = elim (Bool-cases (k0 == k1)) [
    | inl b ↦ rw b (Nearest-before u max_err t ms a k0 _ h0 h1.3 (λ s p q. ground arith) n0)
    | inr b ↦ rw b (elim (Bool-cases (ltb (t - k0) (k1 - t))) [
      | inl l ↦ rw l (
          Nearest-before u max_err t ms a k0 _ h0 h1.3
            (λ s p q. let l' = ltb→lt _ _ l in ground arith) n0)
      | inr l ↦ rw l (
          Nearest-after u max_err t ms c k1 _ h1 h0.3
            (λ s p q. let l' = ltb→ge _ _ l in ground arith) n1)
    ])
  ]

All-far {ℓ} :
    {A : Type ℓ} (u : A → ℕ) (max_err t : ℕ) (P Q : A → Type 0) (ms : List A)
    → ((s : A) → P s → Q s → max_err < distance t (u s))
    → All P ms
    → All Q ms
    → All (λ s. max_err < distance t (u s)) ms
All-far u max_err t P Q ms f h k = All-both P Q _ ms f h k

close-none {ℓ} : {M : Type ℓ} (max_err err : ℕ) → close {M = M} max_err err none ≡ none
close-none max_err err = elim (Bool-cases (ltb max_err err)) [
  | inl e ↦ rw e refl
  | inr e ↦ rw e refl
]

module _ {ℓ} {M : Type ℓ} (tr : Traits M) (u : Stored M → ℕ) (max_err t : ℕ)
    (ms : List (Stored M)) where
  answer :
      tr.interpolate ≡ default_interpolate
      → (o0 o1 : Option (Stored M)) (k0 k1 : ℕ) → BestBefore u t ms o0 k0
      → BestAfter u t ms o1 k1
      → Nearest u max_err t ms (
          choose tr t
            (record { m0 = o0; m0_utime = k0; m1 = o1; m1_utime = k1 })
            (close max_err (t - k0) o0)
            (close max_err (k1 - t) o1))
  unfolding choose
  answer e none none k0 k1 (h0, _) (h1, _) =
      rw (close-none max_err (t - k0), close-none max_err (k1 - t))
        (all_far (All-far u max_err t _ _ ms (λ s p q. ground arith) h0 h1))
  answer e (some a) none k0 k1 h0 (h1, _) = elim (Bool-cases (ltb max_err (t - k0))) [
    | inl b ↦
        rw (b, close-none max_err (k1 - t))
          (let fb = ltb→lt _ _ b in
            all_far (All-far u max_err t _ _ ms (λ s p q. ground arith) h0.3 h1))
    | inr b ↦
        rw (b, close-none max_err (k1 - t))
          (Nearest-before u max_err t ms a k0 _ h0 h1 (λ s p q. ground arith) (ltb→ge _ _ b))
  ]
  answer e none (some c) k0 k1 (h0, _) h1 = elim (Bool-cases (ltb max_err (k1 - t))) [
    | inl d ↦
        rw (d, close-none max_err (t - k0))
          (let fd = ltb→lt _ _ d in
            all_far (All-far u max_err t _ _ ms (λ s p q. ground arith) h0 h1.3))
    | inr d ↦
        rw (d, close-none max_err (t - k0))
          (Nearest-after u max_err t ms c k1 _ h1 h0 (λ s p q. ground arith) (ltb→ge _ _ d))
  ]
  answer e (some a) (some c) k0 k1 h0 h1 = elim (Bool-cases (ltb max_err (t - k0))) [
    | inl b ↦ elim (Bool-cases (ltb max_err (k1 - t))) [
      | inl d ↦
          rw (b, d)
            (let fb = ltb→lt _ _ b in
              let fd = ltb→lt _ _ d in
              all_far (All-far u max_err t _ _ ms (λ s p q. ground arith) h0.3 h1.3))
      | inr d ↦
          rw (b, d)
            (let fb = ltb→lt _ _ b in
              Nearest-after u max_err t ms c k1 _ h1 h0.3 (λ s p q. ground arith) (ltb→ge _ _ d))
    ]
    | inr b ↦ elim (Bool-cases (ltb max_err (k1 - t))) [
      | inl d ↦
          rw (b, d)
            (let fd = ltb→lt _ _ d in
              Nearest-before u max_err t ms a k0 _ h0 h1.3 (λ s p q. ground arith) (ltb→ge _ _ b))
      | inr d ↦ rw (b, d, e) (nearer u max_err t ms a c k0 k1 h0 h1 (ltb→ge _ _ b) (ltb→ge _ _ d))
    ]
  ]

-- With the default interpolation, `get(utime)` answers a message of the buffer that is nearest to
-- the time, if that is at most `maxTimeErr_us` away, and none exactly if every message of the
-- buffer is farther away than that.
pub get_at-Nearest {ℓ} :
    {M : Type ℓ} (t : Tracker M) (utime : ℕ)
    → t.traits.interpolate ≡ default_interpolate
    → Nearest (search_utime t.traits) t.max_time_err_us utime t.buf (get_at t utime)
unfolding get_at get_between
get_at-Nearest t utime e =
    let found = search-Found t.traits utime t.buf in
    let b = search t.traits utime t.buf start in
    answer t.traits (search_utime t.traits) t.max_time_err_us utime t.buf e b.m0 b.m1 b.m0_utime
      b.m1_utime found.0 found.1
