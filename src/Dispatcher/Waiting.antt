-- ===== src/Dispatcher/Waiting.antt =====
-- What `process` sends and keeps, and that no message waits for one that is there.
use zcm.Prelude.{
  ℕ, ◌≡◌, ◌∙◌, refl, sym, subst, arith, false, List, [], ◌∷◌, ◌++◌, Option, none, some,
  if◌then◌else◌, ◌==◌, length, take, drop, ◌⊎◌, inl, inr, All, All-drop, Option-cases, Bool-cases,
  length-append, take-length_append, ◌≤◌, ◌-◌,
}
use zcm.Tracker.{Stored, Tracker, get_msg_utime, new_msg}
use zcm.Dispatcher.{Dispatcher, back, partner, process_from, process, handle1, handle2, handle, run}

ge→== : (n : ℕ) → 1 ≤ n → (n == 0) ≡ false
ge→== n h = ground arith

-- Some messages of the first type are split, in their order, into those sent, each with its
-- partner, and those kept, which have none.
pub data Split {ℓ κ} {A : Type ℓ} {B : Type κ} (partner_of : A → Option B)
    : List A → List (A × B) → List A → Type (ℓ ⊔ κ) where
  done : Split partner_of [] [] []
  sent :
      {m : A} {b : B} {ms : List A} {out : List (A × B)} {kept : List A}
      → partner_of m ≡ some b
      → Split partner_of ms out kept
      → Split partner_of (m ∷ ms) ((m, b) ∷ out) kept
  kept :
      {m : A} {ms : List A} {out : List (A × B)} {kept : List A}
      → partner_of m ≡ none
      → Split partner_of ms out kept
      → Split partner_of (m ∷ ms) out (m ∷ kept)

module _ {ℓ κ} {A : Type ℓ} where
  All-append : (P : A → Type κ) (xs ys : List (A)) → All P xs → All P ys → All P (xs ++ ys)
  All-append P [] ys h k = k
  All-append P (x ∷ xs) ys (p, h) k = (p, All-append P xs ys h k)

  All-any : (P : A → Type κ) (xs : List (A)) → ((m : A) → P m) → All P xs
  All-any P [] f = tt
  All-any P (x ∷ xs) f = (f x, All-any P xs f)

module _ {ℓ κ} {A : Type ℓ} {B : Type κ} where
  -- Every message that a loop of `process` meets is sent, with its partner, or kept, if it has
  -- none, both in their order.
  pub process_from-Split :
      (u : Stored A → ℕ) (t2 : Tracker B) (t2_utime : ℕ) (ms : List (Stored A))
      → let (out, left) = process_from u t2 t2_utime ms in
        Split (λ m. partner t2 t2_utime (u m)) ms out left
  unfolding process_from
  process_from-Split u t2 t2_utime [] = done
  process_from-Split u t2 t2_utime (m ∷ ms) =
      let h = process_from-Split u t2 t2_utime ms in
      elim (Option-cases (partner t2 t2_utime (u m))) [
        | inl e ↦ rw (e, process_from) (kept e h)
        | inr (b, e) ↦ rw (e, process_from) (sent e h)
      ]

  -- What the second tracker has for a message of the first type.
  abbrev pub available : (Stored A → ℕ) → Tracker B → Stored A → Option B
  available u t2 m = elim (back t2.buf) [
    | none ↦ none
    | some last ↦ partner t2 (get_msg_utime t2.traits last) (u m)
  ]

  -- No message of a list can be sent.
  abbrev pub NoneAvailable : (Stored A → ℕ) → Tracker B → List (Stored A) → Type κ
  NoneAvailable u t2 ms = All (λ m. available u t2 m ≡ none) ms

  abbrev pub Waiting : Dispatcher A B → Type κ
  Waiting d = NoneAvailable (get_msg_utime d.t1.traits) d.t2 d.t1.buf

  available-none :
      (u : Stored A → ℕ) (t2 : Tracker B) (m : Stored A)
      → back t2.buf ≡ none
      → available u t2 m ≡ none
  available-none u t2 m e = rw (e, available) refl

  available-some :
      (u : Stored A → ℕ) (t2 : Tracker B) (m : Stored A) (last : Stored B)
      → back t2.buf ≡ some last
      → available u t2 m ≡ partner t2 (get_msg_utime t2.traits last) (u m)
  available-some u t2 m last e = rw (e, available) refl

  Split-kept :
      (p : Stored A → Option B) (P : Stored A → Type κ) (ms : List (Stored A))
      (out : List (Stored A × B)) (left : List (Stored A))
      → ((m : Stored A) → p m ≡ none → P m)
      → Split p ms out left
      → All P left
  Split-kept p P _ _ _ f done = tt
  Split-kept p P _ _ _ f (sent e h) = Split-kept p P _ _ _ f h
  Split-kept p P _ _ _ f (kept e h) = (f _ e, Split-kept p P _ _ _ f h)

  process-Waiting :
      (d : Dispatcher A B) (begin : ℕ)
      → NoneAvailable (get_msg_utime d.t1.traits) d.t2 (take begin d.t1.buf)
      → Waiting (process d begin).1
  unfolding process
  process-Waiting d begin h = elim (Option-cases (back d.t2.buf)) [
    | inl e ↦
        rw (e, process)
          (All-any _ d.t1.buf (λ m. available-none (get_msg_utime d.t1.traits) d.t2 m e))
    | inr (last, e) ↦
        let u = get_msg_utime d.t1.traits in
        let ms = drop begin d.t1.buf in
        let split = process_from-Split u d.t2 (get_msg_utime d.t2.traits last) ms in
        rw (e, process)
          (All-append _ (take begin d.t1.buf) _ h (
            Split-kept _ (λ m. available u d.t2 m ≡ none) ms _ _
              (λ m p. available-some u d.t2 m last e ∙ p) split))
  ]

  handle1-Waiting :
      (d : Dispatcher A B) (m : A) (host_utime : ℕ) → Waiting d → Waiting (handle1 d m host_utime).2
  unfolding handle1 new_msg
  handle1-Waiting d m host_utime h =
      let x : Stored A = record { msg = m; host_utime = host_utime } in
      let old = if length d.t1.buf == d.t1.buf_max then drop 1 d.t1.buf else d.t1.buf in
      let u = get_msg_utime d.t1.traits in
      let l = length-append old (x ∷ []) in
      let nonempty : (length (old ++ (x ∷ [])) == 0) ≡ false = ge→== _ (omega arith) in
      let i = length (old ++ (x ∷ [])) - 1 in
      let h' : NoneAvailable u d.t2 old = elim (Bool-cases (length d.t1.buf == d.t1.buf_max)) [
        | inl e ↦ rw e (All-drop _ 1 d.t1.buf h)
        | inr e ↦ rw e h
      ] in
      rw nonempty (
        process-Waiting (record d { t1 = (new_msg d.t1 m host_utime).1 }) i
          (subst (NoneAvailable u d.t2) (sym (take-length_append old (x ∷ []) i (omega arith))) h'))

  handle2-Waiting :
      (d : Dispatcher A B) (m : B) (host_utime : ℕ) → Waiting (handle2 d m host_utime).2
  unfolding handle2 new_msg
  handle2-Waiting d m host_utime =
      process-Waiting (record d { t2 = (new_msg d.t2 m host_utime).1 }) 0 tt

  handle-Waiting : (d : Dispatcher A B) (e : (A × ℕ) ⊎ (B × ℕ)) → Waiting d → Waiting (handle d e).1
  unfolding handle
  handle-Waiting d (inl m) h = handle1-Waiting d m.0 m.1 h
  handle-Waiting d (inr m) h = handle2-Waiting d m.0 m.1

  -- What could not be sent before still cannot after any messages of the two types, in any order.
  pub run-Waiting :
      (d : Dispatcher A B) (es : List ((A × ℕ) ⊎ (B × ℕ))) → Waiting d → Waiting (run d es).1
  unfolding run
  run-Waiting d [] h = h
  run-Waiting d (e ∷ es) h = run-Waiting (handle d e).1 es (handle-Waiting d e h)
