-- ===== src/Udp/Reassembly/Bytes.antt =====
-- `memcpy` into the buffer of a message, byte by byte.
use zcm.Prelude.{
  ℕ, zero, suc, ◌+◌, ◌≤◌, ◌<◌, ◌≡◌, ◌∙◌, ap, refl, sym, arith, List, [], ◌∷◌, map, Option, none,
  some, length, get_or, set, take, drop, lt→ltb, length-set, length-map, length-take, length-drop,
  get_or-set_self, get_or-set_ne, tabulate_cong, tabulate-get_or,
}
use zcm.Udp.Recv.{write_at}

-- From `base` on the buffer has these bytes.
abbrev pub Agrees : List (Option ℕ) → ℕ → List ℕ → Type 0
Agrees buf base xs = (i : ℕ) → i < length xs → get_or buf (base + i) none ≡ some (get_or xs i 0)

-- A copy that stays inside: the bytes are there, and those before and behind are as they were.
pub record Written (buf : List (Option ℕ)) (i : ℕ) (bs : List ℕ) (buf' : List (Option ℕ))
    : Type 0 where
  pub copied : write_at buf i bs ≡ some buf'
  pub same_length : length buf' ≡ length buf
  pub agrees : Agrees buf' i bs
  pub before : (j : ℕ) → j < i → get_or buf' j none ≡ get_or buf j none
  pub behind : (j : ℕ) → i + length bs ≤ j → get_or buf' j none ≡ get_or buf j none

pub write_at-Written :
    (buf : List (Option ℕ)) (i : ℕ) (bs : List ℕ)
    → i + length bs ≤ length buf
    → (buf' : List (Option ℕ)) × Written buf i bs buf'
unfolding write_at
write_at-Written buf i [] h = (
  buf,
  record {
    copied = refl;
    same_length = refl;
    agrees = λ j k. absurd (omega arith);
    before = λ j k. refl;
    behind = λ j k. refl;
  },
)
write_at-Written buf i (b ∷ bs) h =
    let l = length-set buf i (some b) in
    let (buf', w) = write_at-Written (set buf i (some b)) (i + 1) bs (omega arith) in
    let inside : i < length buf = omega arith in
    (
      buf',
      record {
        copied = rw (lt→ltb i (length buf) inside) w.copied;
        same_length = w.same_length ∙ l;
        agrees = copied_from buf' inside w.agrees (w.before i (omega arith));
        before =
            λ j k. w.before j (omega arith) ∙ get_or-set_ne buf i j (some b) none (omega arith);
        behind =
            λ j k. w.behind j (omega arith) ∙ get_or-set_ne buf i j (some b) none (omega arith);
      },
    )
  where
    copied_from :
        (buf' : List (Option ℕ))
        → i < length buf
        → Agrees buf' (i + 1) bs
        → get_or buf' i none ≡ get_or (set buf i (some b)) i none
        → Agrees buf' i (b ∷ bs)
    copied_from buf' inside rest first zero k =
        ap (λ j. get_or buf' j none) {x = i + 0} {y = i} (omega arith)
        ∙ first
        ∙ get_or-set_self buf i (some b) none inside
    copied_from buf' inside rest first (suc j) k =
        ap (λ m. get_or buf' m none) {x = i + suc j} {y = i + 1 + j} (omega arith)
        ∙ rest j (omega arith)

module _ {ℓ} {A : Type ℓ} where
  pub get_or-drop : (n i : ℕ) (xs : List A) (d : A) → get_or (drop n xs) i d ≡ get_or xs (n + i) d
  get_or-drop zero i xs d = ap (λ k. get_or xs k d) (omega arith)
  get_or-drop (suc n) i [] d = refl
  get_or-drop (suc n) i (x ∷ xs) d =
      get_or-drop n i xs d
      ∙ ap (λ k. get_or (x ∷ xs) k d) {x = suc (n + i)} {y = suc n + i} (omega arith)

  pub get_or-take : (n i : ℕ) (xs : List A) (d : A) → i < n → get_or (take n xs) i d ≡ get_or xs i d
  get_or-take zero i xs d h = absurd (omega arith)
  get_or-take (suc n) i [] d h = refl
  get_or-take (suc n) zero (x ∷ xs) d h = refl
  get_or-take (suc n) (suc i) (x ∷ xs) d h = get_or-take n i xs d (omega arith)

  -- Lists with the same elements at the same places.
  pub same_elements :
      (xs ys : List A) (d : A)
      → length xs ≡ length ys
      → ((i : ℕ) → i < length ys → get_or xs i d ≡ get_or ys i d)
      → xs ≡ ys
  same_elements xs ys d l h =
      sym (tabulate-get_or xs d)
      ∙ tabulate_cong (length xs) (length ys) (λ i. get_or xs i d) (λ i. get_or ys i d) l h
      ∙ tabulate-get_or ys d

pub get_or-map-some :
    (xs : List ℕ) (i : ℕ) → i < length xs → get_or (map some xs) i none ≡ some (get_or xs i 0)
get_or-map-some [] i h = absurd (omega arith)
get_or-map-some (x ∷ xs) zero h = refl
get_or-map-some (x ∷ xs) (suc i) h = get_or-map-some xs i (omega arith)

-- A piece of the buffer that has the bytes.
pub piece-Agrees :
    (buf : List (Option ℕ)) (base : ℕ) (xs : List ℕ)
    → base + length xs ≤ length buf
    → Agrees buf base xs
    → take (length xs) (drop base buf) ≡ map some xs
piece-Agrees buf base xs h a =
    let size : length (map some xs) ≡ length xs = length-map some xs in
    same_elements (take (length xs) (drop base buf)) (map some xs) none
      (length-take (length xs) (drop base buf) ∙ omega (arith, length-drop base buf, size))
      (λ i k.
        let inside : i < length xs = omega arith in
        get_or-take (length xs) i (drop base buf) none inside
        ∙ get_or-drop base i buf none
        ∙ a i inside
        ∙ sym (get_or-map-some xs i inside))
