-- ===== src/Dispatcher/Released.antt =====
-- That no message waits for one of the second type that is there.
use zcm.Prelude.{
  ℕ, ◌≡◌, refl, arith, List, [], ◌∷◌, Option, none, some, ◌⊎◌, inl, inr, All, Bool-cases, ◌≤◌, ◌<◌,
  leb, leb→gt,
}
use zcm.Tracker.{Stored, Tracker, get_msg_utime, get_at}
use zcm.Dispatcher.{Dispatcher, back, partner, run}
use zcm.Dispatcher.Waiting.{available, NoneAvailable, run-Waiting}

back-none {ℓ} : {A : Type ℓ} (xs : List A) → back xs ≡ none → xs ≡ []
back-none [] e = refl
back-none (x ∷ []) e = absurd (cc e)
back-none (x ∷ y ∷ xs) e = let z = back-none (y ∷ xs) e in absurd (cc z)

module _ {κ} {B : Type κ} where
  -- No message of the second type is later than the one received last.
  abbrev pub LastIsLatest : Tracker B → Type 0
  LastIsLatest t2 = elim (back t2.buf) [
    | none ↦ Unit {0}
    | some last ↦ All (λ s. get_msg_utime t2.traits s ≤ get_msg_utime t2.traits last) t2.buf
  ]

  earlier_by_bound :
      (f : Stored B → ℕ) (bound utime : ℕ) (xs : List (Stored B))
      → bound < utime
      → All (λ s. f s ≤ bound) xs
      → All (λ s. f s < utime) xs
  earlier_by_bound f bound utime [] h a = tt
  earlier_by_bound f bound utime (x ∷ xs) h (p, a) =
      (omega arith, earlier_by_bound f bound utime xs h a)

  partner-none :
      (t2 : Tracker B) (last : Stored B) (utime : ℕ)
      → All (λ s. get_msg_utime t2.traits s ≤ get_msg_utime t2.traits last) t2.buf
      → partner t2 (get_msg_utime t2.traits last) utime ≡ none
      → All (λ s. get_msg_utime t2.traits s < utime) t2.buf ⊎ (get_at t2 utime ≡ none)
  unfolding partner
  partner-none t2 last utime a e = elim (Bool-cases (leb utime (get_msg_utime t2.traits last))) [
    | inl l ↦ inr (rw l at e)
    | inr g ↦ inl (
        earlier_by_bound (get_msg_utime t2.traits) (get_msg_utime t2.traits last) utime t2.buf
          (leb→gt _ _ g) a)
  ]

module _ {ℓ κ} {A : Type ℓ} {B : Type κ} where
  -- Each message of the first type that is kept is behind every message of the second type that is
  -- there, or finds none of them near enough.
  abbrev pub Released : Dispatcher A B → Type κ
  Released d =
      All
        (λ m.
          All (λ s. get_msg_utime d.t2.traits s < get_msg_utime d.t1.traits m) d.t2.buf
          ⊎ (get_at d.t2 (get_msg_utime d.t1.traits m) ≡ none))
        d.t1.buf

  kept_behind :
      (u : Stored A → ℕ) (t2 : Tracker B) (o : Option (Stored B)) (ms : List (Stored A))
      → back t2.buf ≡ o
      → LastIsLatest t2
      → NoneAvailable u t2 ms
      → All (λ m. All (λ s. get_msg_utime t2.traits s < u m) t2.buf ⊎ (get_at t2 (u m) ≡ none)) ms
  kept_behind u t2 o [] e latest a = tt
  kept_behind u t2 none (m ∷ ms) e latest (p, a) =
      (inl (rw (back-none t2.buf e) tt), kept_behind u t2 none ms e latest a)
  kept_behind u t2 (some last) (m ∷ ms) e latest (p, a) = (
    partner-none t2 last (u m) (rw (e, LastIsLatest) at latest) (rw (e, available) at p),
    kept_behind u t2 (some last) ms e latest a,
  )

  -- After any messages of the two types, in any order, to a dispatcher that has none of the first
  -- type: if none of the second type that is there then is later than the one received last, each
  -- message of the first type that is still kept is later than all of the second type that are there,
  -- or `get` finds none of them near enough for its time.
  pub run-Released :
      (d : Dispatcher A B) (es : List ((A × ℕ) ⊎ (B × ℕ)))
      → d.t1.buf ≡ []
      → LastIsLatest (run d es).1.t2
      → Released (run d es).1
  run-Released d es empty latest =
      let d' = (run d es).1 in
      kept_behind (get_msg_utime d'.t1.traits) d'.t2 (back d'.t2.buf) d'.t1.buf refl latest
        (run-Waiting d es (rw empty tt))
