-- ===== src/Serial/Recv/Reads.antt =====
-- What `cb_front` reads, against the contents of the ring.
use zcm.Prelude.{
  ℕ, ◌+◌, ◌≤◌, ◌≡◌, ◌∙◌, ap, ap₂, sym, refl, arith, List, [], ◌∷◌, ◌++◌, length, length-append,
  get_or, take, tabulate, tabulate_cong, take-tabulate, append_assoc,
}
use zcm.CircBuffer.{CircBuffer, cb_size, cb_front}
use zcm.CircBuffer.Contents.{contents, length-contents, cb_front-eq}

get_or-append_at : (xs : List ℕ) (y : ℕ) (ys : List ℕ) → get_or (xs ++ (y ∷ ys)) (length xs) 0 ≡ y
get_or-append_at [] y ys = refl
get_or-append_at (x ∷ xs) y ys = get_or-append_at xs y ys

module _ (r : CircBuffer) where
  -- The bytes from offset `k` on are those of the list.
  abbrev pub Reads : ℕ → List ℕ → Type 0
  Reads k [] = Unit {0}
  Reads k (x ∷ xs) = (cb_front r k ≡ x) × Reads (k + 1) xs

  pub Reads-at : (j k : ℕ) (xs : List ℕ) → j ≡ k → Reads j xs → Reads k xs
  Reads-at j k xs e h = rw (← e) h

  pub Reads-split :
      (k : ℕ) (xs ys : List ℕ) → Reads k (xs ++ ys) → Reads k xs × Reads (k + length xs) ys
  Reads-split k [] ys h = (tt, Reads-at _ _ ys (omega arith) h)
  Reads-split k (x ∷ xs) ys (e, h) =
      let (a, b) = Reads-split (k + 1) xs ys h in ((e, a), Reads-at _ _ ys (omega arith) b)

  pub Reads-join :
      (k : ℕ) (xs ys : List ℕ) → Reads k xs → Reads (k + length xs) ys → Reads k (xs ++ ys)
  Reads-join k [] ys a b = Reads-at _ _ ys (omega arith) b
  Reads-join k (x ∷ xs) ys (e, a) b =
      (e, Reads-join (k + 1) xs ys a (Reads-at _ _ ys (omega arith) b))

  -- A part of the contents is what is read at its place.
  pub Reads-of_contents :
      (front xs rest : List ℕ) (k : ℕ)
      → contents r ≡ front ++ (xs ++ rest)
      → k ≡ length front
      → Reads k xs
  Reads-of_contents front [] rest k e h = tt
  Reads-of_contents front (x ∷ xs) rest k e h =
      let size = length-contents r in
      let whole = length-append front ((x ∷ xs) ++ rest) in
      (
        cb_front-eq r k (omega (arith, ap length e))
            ∙ ap₂ (λ t i. get_or t i 0) e h
            ∙ get_or-append_at front x (xs ++ rest),
        Reads-of_contents (front ++ (x ∷ [])) xs rest (k + 1)
            (e ∙ sym (append_assoc front (x ∷ []) (xs ++ rest)))
            (omega (arith, length-append front (x ∷ []))),
      )

  tabulate-Reads :
      (k : ℕ) (xs : List ℕ) → Reads k xs → tabulate (length xs) (λ i. cb_front r (k + i)) ≡ xs
  tabulate-Reads k [] h = refl
  tabulate-Reads k (x ∷ xs) (e, h) = ap₂ ◌∷◌ (ap (cb_front r) (omega arith) ∙ e) (
      tabulate_cong _ _ _ _ refl (λ i p. ap (cb_front r) (omega arith))
      ∙ tabulate-Reads (k + 1) xs h)

  -- What is read from the front on is a prefix of the contents.
  pub take-Reads :
      (xs : List ℕ) → Reads 0 xs → length xs ≤ cb_size r → take (length xs) (contents r) ≡ xs
  unfolding contents
  take-Reads xs h k =
      take-tabulate (length xs) (cb_size r) (cb_front r) k
      ∙ tabulate_cong _ _ _ _ refl (λ i p. ap (cb_front r) (omega arith))
      ∙ tabulate-Reads 0 xs h
