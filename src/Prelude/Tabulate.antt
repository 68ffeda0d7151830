-- ===== src/Prelude/Tabulate.antt =====
-- Lists given by a function on their positions: the view of an array's window.
use Prim.Native.Nat.{ℕ, zero, suc, ◌+◌, ◌-◌, ◌≤◌, ◌<◌}
use mathlib.Core.Path.{◌≡◌, refl, ap, ap₂, ◌∙◌}
use mathlib.Core.List.{List, [], ◌∷◌, ◌++◌}
use native.Mathlib.Omega.{arith}
use mathlib.Core.Logic.{◌≢◌}
use zcm.Prelude.Lists.{length, get_or, take, drop, set}

module _ {ℓ} {A : Type ℓ} where
  abbrev pub tabulate : ℕ → (ℕ → A) → List A
  tabulate zero f = []
  tabulate (suc n) f = f 0 ∷ tabulate n (λ k. f (suc k))

module _ {ℓ} {A : Type ℓ} where
  pub length-tabulate : (n : ℕ) (f : ℕ → A) → length (tabulate n f) ≡ n
  length-tabulate zero f = refl
  length-tabulate (suc n) f = ap suc (length-tabulate n (λ k. f (suc k)))

  pub tabulate_ext :
      (n : ℕ) (f g : ℕ → A) → ((k : ℕ) → k < n → f k ≡ g k) → tabulate n f ≡ tabulate n g
  tabulate_ext zero f g h = refl
  tabulate_ext (suc n) f g h =
      ap₂ ◌∷◌ (h 0 (omega arith))
        (tabulate_ext n (λ k. f (suc k)) (λ k. g (suc k)) (λ k p. h (suc k) (omega arith)))

  pub tabulate_cong :
      (m n : ℕ) (f g : ℕ → A) → m ≡ n → ((k : ℕ) → k < n → f k ≡ g k) → tabulate m f ≡ tabulate n g
  tabulate_cong m n f g e h = ap (λ t. tabulate t f) e ∙ tabulate_ext n f g h

  pub tabulate-add :
      (m n : ℕ) (f : ℕ → A) → tabulate (m + n) f ≡ tabulate m f ++ tabulate n (λ k. f (m + k))
  tabulate-add zero n f = tabulate_cong _ _ _ _ (omega arith) (λ k p. ap f (omega arith))
  tabulate-add (suc m) n f =
      tabulate_cong (suc m + n) (suc (m + n)) f f (omega arith) (λ k p. refl)
      ∙ ap (λ t. f 0 ∷ t) (tabulate-add m n (λ k. f (suc k)))
      ∙ ap (λ t. tabulate (suc m) f ++ t) (tabulate_ext n _ _ (λ k p. ap f (omega arith)))

  pub get_or-tabulate :
      (n : ℕ) (f : ℕ → A) (i : ℕ) (d : A) → i < n → get_or (tabulate n f) i d ≡ f i
  get_or-tabulate zero f i d h = absurd (omega arith)
  get_or-tabulate (suc n) f zero d h = refl
  get_or-tabulate (suc n) f (suc i) d h = get_or-tabulate n (λ k. f (suc k)) i d (omega arith)

  pub drop-tabulate :
      (m n : ℕ) (f : ℕ → A) → drop m (tabulate n f) ≡ tabulate (n - m) (λ k. f (m + k))
  drop-tabulate zero n f = tabulate_cong _ _ _ _ (omega arith) (λ k p. ap f (omega arith))
  drop-tabulate (suc m) zero f =
      tabulate_cong zero (0 - suc m) f _ (omega arith) (λ k p. absurd (omega arith))
  drop-tabulate (suc m) (suc n) f =
      drop-tabulate m n (λ k. f (suc k))
      ∙ tabulate_cong _ _ _ _ (omega arith) (λ k p. ap f (omega arith))

  pub take-tabulate : (m n : ℕ) (f : ℕ → A) → m ≤ n → take m (tabulate n f) ≡ tabulate m f
  take-tabulate zero n f h = refl
  take-tabulate (suc m) zero f h = absurd (omega arith)
  take-tabulate (suc m) (suc n) f h =
      ap (λ t. f 0 ∷ t) (take-tabulate m n (λ k. f (suc k)) (omega arith))

  -- A function that differs at one position gives the list with that position written.
  pub set-tabulate :
      (n : ℕ) (f g : ℕ → A) (i : ℕ) (v : A)
      → i < n
      → g i ≡ v
      → ((k : ℕ) → k < n → k ≢ i → g k ≡ f k)
      → tabulate n g ≡ set (tabulate n f) i v
  set-tabulate zero f g i v h e o = absurd (omega arith)
  set-tabulate (suc n) f g zero v h e o =
      ap₂ ◌∷◌ e (tabulate_ext n _ _ (λ k p. o (suc k) (omega arith) (omega arith)))
  set-tabulate (suc n) f g (suc i) v h e o = ap₂ ◌∷◌ (o 0 (omega arith) (omega arith)) (
      set-tabulate n (λ k. f (suc k)) (λ k. g (suc k)) i v (omega arith) e
        (λ k p q. o (suc k) (omega arith) (omega arith)))

  pub tabulate-get_or : (xs : List A) (d : A) → tabulate (length xs) (λ k. get_or xs k d) ≡ xs
  tabulate-get_or [] d = refl
  tabulate-get_or (x ∷ xs) d = ap (λ t. x ∷ t) (tabulate-get_or xs d)
