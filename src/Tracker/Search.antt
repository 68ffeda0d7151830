-- ===== src/Tracker/Search.antt =====
-- The linear search of `get` finds the best message on either side of the time.
use zcm.Prelude.{
  ℕ, ◌≤◌, ◌<◌, ◌≡◌, ◌⊎◌, inl, inr, refl, subst, arith, ◌&&◌, ◌||◌, List, [], ◌∷◌, ◌++◌, Option,
  none, some, if◌then◌else◌, ltb, leb, All, Bool-cases, append_assoc, append-nil, leb→le, leb→gt,
}
use zcm.Tracker.{Stored, Traits, Bracket, search_utime, bracket_step, search, start, is_none}

pub data In {ℓ} {A : Type ℓ} (a : A) : List A → Type ℓ where
  here : {xs : List A} → In a (a ∷ xs)
  there : {x : A} {xs : List A} → In a xs → In a (x ∷ xs)

module _ {ℓ} {A : Type ℓ} where
  In-last : (a : A) (xs : List A) → In a (xs ++ (a ∷ []))
  In-last a [] = here
  In-last a (x ∷ xs) = there (In-last a xs)

  In-before_last : {a : A} {xs : List A} (x : A) → In a xs → In a (xs ++ (x ∷ []))
  In-before_last x here = here
  In-before_last x (there i) = there (In-before_last x i)

  All-snoc : (P : A → Type 0) (xs : List A) (x : A) → All P xs → P x → All P (xs ++ (x ∷ []))
  All-snoc P [] x h p = (p, tt)
  All-snoc P (y ∷ ys) x (q, h) p = (q, All-snoc P ys x h p)

  pub All-map : (P Q : A → Type 0) (xs : List A) → ((a : A) → P a → Q a) → All P xs → All Q xs
  All-map P Q [] f h = tt
  All-map P Q (x ∷ xs) f (p, h) = (f x p, All-map P Q xs f h)

module _ {ℓ} {M : Type ℓ} (u : Stored M → ℕ) (t : ℕ) where
  -- `k` is the utime of the best message at or before `t` among those seen.
  abbrev pub BestBefore : List (Stored M) → Option (Stored M) → ℕ → Type ℓ
  BestBefore seen none k = All (λ s. t < u s) seen × ◌≡◌ {A = List (Stored M)} [] []
  BestBefore seen (some a) k =
      In a seen × (u a ≡ k) × (k ≤ t) × All (λ s. (t < u s) ⊎ (u s ≤ k)) seen

  -- `k` is the utime of the best message at or after `t` among those seen.
  abbrev pub BestAfter : List (Stored M) → Option (Stored M) → ℕ → Type ℓ
  BestAfter seen none k = All (λ s. u s < t) seen × ◌≡◌ {A = List (Stored M)} [] []
  BestAfter seen (some a) k =
      In a seen × (u a ≡ k) × (t ≤ k) × All (λ s. (u s < t) ⊎ (k ≤ u s)) seen

  before_step :
      (seen : List (Stored M)) (o : Option (Stored M)) (k : ℕ) (m : Stored M)
      → BestBefore seen o k
      → let before = leb (u m) t && (is_none o || ltb k (u m)) in
        BestBefore (seen ++ (m ∷ [])) (if before then some m else o) (if before then u m else k)
  before_step seen none k m (h, _) = elim (Bool-cases (leb (u m) t)) [
    | inl e ↦ rw e (
      In-last m seen,
      refl,
      leb→le _ _ e,
      All-snoc _ seen m (All-map _ _ seen (λ s p. inl p) h) (inr (omega arith)),
    )
    | inr e ↦ rw e (All-snoc _ seen m h (leb→gt _ _ e), refl)
  ]
  before_step seen (some a) k m (i, e, le, h) = elim (Bool-cases (leb (u m) t && ltb k (u m))) [
    | inl b ↦ rw b (
      In-last m seen,
      refl,
      ground arith,
      All-snoc _ seen m (All-map _ _ seen (λ s p. ground arith) h) (inr (omega arith)),
    )
    | inr b ↦ rw b (In-before_last m i, e, le, All-snoc _ seen m h (ground arith))
  ]

  after_step :
      (seen : List (Stored M)) (o : Option (Stored M)) (k : ℕ) (m : Stored M)
      → BestAfter seen o k
      → let after = leb t (u m) && (is_none o || ltb (u m) k) in
        BestAfter (seen ++ (m ∷ [])) (if after then some m else o) (if after then u m else k)
  after_step seen none k m (h, _) = elim (Bool-cases (leb t (u m))) [
    | inl e ↦ rw e (
      In-last m seen,
      refl,
      leb→le _ _ e,
      All-snoc _ seen m (All-map _ _ seen (λ s p. inl p) h) (inr (omega arith)),
    )
    | inr e ↦ rw e (All-snoc _ seen m h (leb→gt _ _ e), refl)
  ]
  after_step seen (some a) k m (i, e, le, h) = elim (Bool-cases (leb t (u m) && ltb (u m) k)) [
    | inl b ↦ rw b (
      In-last m seen,
      refl,
      ground arith,
      All-snoc _ seen m (All-map _ _ seen (λ s p. ground arith) h) (inr (omega arith)),
    )
    | inr b ↦ rw b (In-before_last m i, e, le, All-snoc _ seen m h (ground arith))
  ]

-- What the search leaves.
abbrev pub Found {ℓ} : {M : Type ℓ} → Traits M → ℕ → List (Stored M) → Bracket M → Type ℓ
Found tr t seen b =
    BestBefore (search_utime tr) t seen b.m0 b.m0_utime
    × BestAfter (search_utime tr) t seen b.m1 b.m1_utime

module _ {ℓ} {M : Type ℓ} (tr : Traits M) (t : ℕ) where
  search_from :
      (ms seen : List (Stored M)) (b : Bracket M)
      → Found tr t seen b
      → Found tr t (seen ++ ms) (search tr t ms b)
  unfolding search bracket_step
  search_from [] seen b h = rw (append-nil seen) h
  search_from (m ∷ ms) seen b (h, k) =
      subst (λ l. Found tr t l (search tr t ms (bracket_step tr t m b)))
        (append_assoc seen (m ∷ []) ms)
        (search_from ms (seen ++ (m ∷ [])) (bracket_step tr t m b) (
          before_step (search_utime tr) t seen b.m0 b.m0_utime m h,
          after_step (search_utime tr) t seen b.m1 b.m1_utime m k,
        ))

  -- From the start, the search finds the best of all messages on either side.
  pub search-Found : (ms : List (Stored M)) → Found tr t ms (search tr t ms start)
  search-Found ms = search_from ms [] start ((tt, refl), (tt, refl))
