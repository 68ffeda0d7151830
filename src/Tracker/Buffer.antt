-- ===== src/Tracker/Buffer.antt =====
-- The message list: what `newMsg` keeps of the messages received, what `getRange` reads of it and
-- what `expireBefore` leaves.
use zcm.Prelude.{
  ℕ, zero, suc, ◌+◌, ◌-◌, ◌≤◌, ◌<◌, ◌≡◌, ◌∙◌, ap, sym, refl, subst, arith, inl, inr, Bool, true,
  false, List, [], ◌∷◌, ◌++◌, map, if◌then◌else◌, ltb, leb, ◌==◌, ◌&&◌, length, drop, length-append,
  append_assoc, append-nil, Bool-cases, ==_iff, length-drop, drop-add,
}
use zcm.Tracker.{
  Stored, Traits, Tracker, get_msg_utime, get_range, expire_front, expire_rest, expire_before,
  new_msg,
}

-- A message as `newMsg` stores it.
abbrev pub stored {ℓ} : {M : Type ℓ} → M × ℕ → Stored M
stored m = record { msg = m.0; host_utime = m.1 }

module _ {ℓ} {M : Type ℓ} where
  -- `newMsg` for each of some messages, with their host utimes.
  unfoldable pub receive_all : Tracker M → List (M × ℕ) → Tracker M
  receive_all t [] = t
  receive_all t (m ∷ ms) = receive_all (new_msg t m.0 m.1).1 ms

  -- The last `n` elements.
  abbrev pub last_of : ℕ → List (Stored M) → List (Stored M)
  last_of n xs = drop (length xs - n) xs

drop-append {ℓ} :
    {A : Type ℓ} (n : ℕ) (xs ys : List A) → n ≤ length xs → drop n (xs ++ ys) ≡ drop n xs ++ ys
drop-append zero xs ys h = refl
drop-append (suc n) [] ys h = absurd (omega arith)
drop-append (suc n) (x ∷ xs) ys h = drop-append n xs ys (omega arith)

module _ {ℓ} {M : Type ℓ} where
  last_of-append :
      (n : ℕ) (xs ys : List (Stored M)) → last_of n (last_of n xs ++ ys) ≡ last_of n (xs ++ ys)
  last_of-append n xs ys =
      let k = length xs - n in
      let e : drop k xs ++ ys ≡ drop k (xs ++ ys) = sym (drop-append k xs ys (omega arith)) in
      let l = length-append xs ys in
      let i : k + (length (xs ++ ys) - k - n) ≡ length (xs ++ ys) - n = omega arith in
      ap (last_of n) e
      ∙ ap (λ i. drop (i - n) (drop k (xs ++ ys))) (length-drop k (xs ++ ys))
      ∙ sym (drop-add k (length (xs ++ ys) - k - n) (xs ++ ys))
      ∙ ap (λ i. drop i (xs ++ ys)) i

  new_msg-last :
      (t : Tracker M) (m : M × ℕ)
      → 0 < t.buf_max
      → length t.buf ≤ t.buf_max
      → (new_msg t m.0 m.1).1.buf ≡ last_of t.buf_max (t.buf ++ (stored m ∷ []))
  unfolding new_msg
  new_msg-last t m p h =
      let l = length-append t.buf (stored m ∷ []) in
      elim (Bool-cases (length t.buf == t.buf_max)) [
        | inl e ↦
            let q = (==_iff _ _).0 e in
            let one : length (t.buf ++ (stored m ∷ [])) - t.buf_max ≡ 1 = omega arith in
            rw (e, one) (sym (drop-append 1 t.buf (stored m ∷ []) (omega arith)))
        | inr e ↦
            let q : length t.buf < t.buf_max = ground arith in
            let none : length (t.buf ++ (stored m ∷ [])) - t.buf_max ≡ 0 = omega arith in
            rw (e, none) refl
      ]

  last_of-length : (n : ℕ) (xs : List (Stored M)) → length (last_of n xs) ≤ n
  last_of-length n xs = let l = length-drop (length xs - n) xs in omega arith

-- From a buffer within its bound, which is positive, after any messages received the buffer holds
-- exactly the last `bufMax` of its messages and theirs, in the order received: `newMsg` drops the
-- oldest message, only when the buffer is full, and never more than one.
pub receive_all-last {ℓ} :
    {M : Type ℓ} (t : Tracker M) (ms : List (M × ℕ))
    → 0 < t.buf_max
    → length t.buf ≤ t.buf_max
    → (receive_all t ms).buf ≡ last_of t.buf_max (t.buf ++ map stored ms)
unfolding receive_all new_msg
receive_all-last t [] p h =
    let none : length t.buf - t.buf_max ≡ 0 = omega arith in rw (append-nil t.buf, none) refl
receive_all-last t (m ∷ ms) p h =
    let b = t.buf_max in
    let e = new_msg-last t m p h in
    receive_all-last (new_msg t m.0 m.1).1 ms p
      (subst (λ l. length l ≤ b) (sym e) (last_of-length b (t.buf ++ (stored m ∷ []))))
    ∙ ap (λ l. last_of b (l ++ map stored ms)) e
    ∙ last_of-append b (t.buf ++ (stored m ∷ [])) (map stored ms)
    ∙ ap (last_of b) (append_assoc t.buf (stored m ∷ []) (map stored ms))

-- The messages that pass a test.
abbrev pub select {ℓ} : {A : Type ℓ} → (A → Bool) → List A → List A
select p [] = []
select p (x ∷ xs) = if p x then x ∷ select p xs else select p xs

-- A message of the utime or later.
abbrev pub recent {ℓ} : {M : Type ℓ} → Traits M → ℕ → Stored M → Bool
recent tr utime s = leb utime (get_msg_utime tr s)

module _ {ℓ} {M : Type ℓ} (tr : Traits M) (utime : ℕ) where
  -- What either loop of `expireBefore` makes of a list.
  abbrev Expired : ℕ × List (Stored M) → List (Stored M) → Type ℓ
  Expired r ms =
      (r.1 ≡ select (recent tr utime) ms) × (r.0 + length (select (recent tr utime) ms) ≡ length ms)

  expire_rest-Expired : (ms : List (Stored M)) → Expired (expire_rest tr utime ms) ms
  unfolding expire_rest
  expire_rest-Expired [] = (refl, refl)
  expire_rest-Expired (m ∷ ms) =
      let h = expire_rest-Expired ms in
      elim (Bool-cases (leb utime (get_msg_utime tr m))) [
        | inl e ↦
            let f : ltb (get_msg_utime tr m) utime ≡ false = ground arith in
            rw (e, f) (ap (λ l. m ∷ l) h.0, omega (arith, h.1))
        | inr e ↦
            let f : ltb (get_msg_utime tr m) utime ≡ true = ground arith in
            rw (e, f) (h.0, omega (arith, h.1))
      ]

  -- The first loop stops at a message that stays; the second goes on with what is left.
  expire_both :
      (ms : List (Stored M))
      → let (n, left) = expire_front tr utime ms in
        let (n', left') = expire_rest tr utime left in Expired (n + n', left') ms
  unfolding expire_front expire_rest
  expire_both [] = (refl, refl)
  expire_both (m ∷ ms) =
      let h = expire_both ms in
      elim (Bool-cases (leb utime (get_msg_utime tr m))) [
        | inl e ↦ (let k = rw e at (expire_rest-Expired (m ∷ ms)) in rw e (k.0, omega (arith, k.1)))
        | inr e ↦ rw e (h.0, omega (arith, h.1))
      ]

module _ {ℓ} {M : Type ℓ} where
  get_range-select :
      (tr : Traits M) (utime a b : ℕ) (ms : List (Stored M))
      → utime ≤ a
      → get_range tr a b (select (recent tr utime) ms) ≡ get_range tr a b ms
  unfolding get_range
  get_range-select tr utime a b [] h = refl
  get_range-select tr utime a b (m ∷ ms) h =
      let k = get_range-select tr utime a b ms h in
      elim (Bool-cases (leb utime (get_msg_utime tr m))) [
        | inl e ↦ rw (e, k) refl
        | inr e ↦
            let f : (leb a (get_msg_utime tr m) && leb (get_msg_utime tr m) b) ≡ false =
              ground arith in
            rw (e, f) k
      ]

  -- `expireBefore` leaves exactly the messages of the utime or later, in their order, and answers
  -- how many it deleted.
  pub expire_before_lem :
      (t : Tracker M) (utime : ℕ)
      → let (n, t') = expire_before t utime in
        (t' ≡ record t { buf = select (recent t.traits utime) t.buf })
        × (n + length t'.buf ≡ length t.buf)
  unfolding expire_before
  expire_before_lem t utime =
      let h = expire_both t.traits utime t.buf in (ap (λ l. record t { buf = l }) h.0, rw h.0 h.1)

  -- `getRange` from the utime of an `expireBefore`, or from a later one, is what it was before that.
  pub get_range-expire_before :
      (t : Tracker M) (utime a b : ℕ)
      → utime ≤ a
      → get_range t.traits a b (expire_before t utime).1.buf ≡ get_range t.traits a b t.buf
  unfolding expire_before
  get_range-expire_before t utime a b le =
      rw (expire_both t.traits utime t.buf).0 (get_range-select t.traits utime a b t.buf le)
