-- ===== src/Dispatcher.antt =====
-- `SynchronizedMessageDispatcher` of zcm/message_tracker.hpp: messages of a first type wait for a
-- message of a second type of about their time. What the callback is given is a list.
pub mod Waiting
pub mod Released
use zcm.Prelude.{
  ℕ, ◌-◌, List, [], ◌∷◌, ◌++◌, Option, none, some, if◌then◌else◌, leb, ◌==◌, length, take, drop,
  ◌⊎◌, inl, inr,
}
use zcm.Tracker.{Stored, Tracker, get_msg_utime, get_at, new_msg}

pub record Dispatcher {ℓ κ} (A : Type ℓ) (B : Type κ) : Type (ℓ ⊔ κ) where
  pub t1 : Tracker A
  pub t2 : Tracker B

-- The last message of a buffer, `*crbegin()`.
abbrev pub back {ℓ} : {A : Type ℓ} → List A → Option A
back [] = none
back (a ∷ []) = some a
back (a ∷ b ∷ rest) = back (b ∷ rest)

-- `t1Utime <= t2Utime`, then `t2.get(t1Utime)`.
unfoldable pub partner {κ} : {B : Type κ} → Tracker B → ℕ → ℕ → Option B
partner t2 t2_utime t1_utime = if leb t1_utime t2_utime then get_at t2 t1_utime else none

module _ {ℓ κ} {A : Type ℓ} {B : Type κ} where
  -- The loop of `process`: what the callback is given, and what stays in `t1`.
  unfoldable pub process_from :
      (Stored A → ℕ) → Tracker B → ℕ → List (Stored A) → List (Stored A × B) × List (Stored A)
  process_from u t2 t2_utime [] = ([], [])
  process_from u t2 t2_utime (m ∷ ms) =
      let (sent, kept) = process_from u t2 t2_utime ms in
      elim (partner t2 t2_utime (u m)) [ none ↦ (sent, m ∷ kept) | some b ↦ ((m, b) ∷ sent, kept) ]

  -- `process(t1Begin)`, with the index of the iterator.
  unfoldable pub process : Dispatcher A B → ℕ → List (Stored A × B) × Dispatcher A B
  process d begin = elim (back d.t2.buf) [
    | none ↦ ([], d)
    | some last ↦
        let (sent, kept) =
          process_from (get_msg_utime d.t1.traits) d.t2 (get_msg_utime d.t2.traits last)
            (drop begin d.t1.buf) in
        (sent, record d { t1 = record d.t1 { buf = take begin d.t1.buf ++ kept } })
  ]

  -- `TrackerOverride1::handle`
  unfoldable pub handle1 : Dispatcher A B → A → ℕ → ℕ × List (Stored A × B) × Dispatcher A B
  handle1 d m host_utime =
      let (utime, t1) = new_msg d.t1 m host_utime in
      let d' = record d { t1 = t1 } in
      let (sent, d'') = process d' (length t1.buf - 1) in
      if length t1.buf == 0 then (utime, [], d') else (utime, sent, d'')

  -- `TrackerOverride2::handle`
  unfoldable pub handle2 : Dispatcher A B → B → ℕ → ℕ × List (Stored A × B) × Dispatcher A B
  handle2 d m host_utime =
      let (utime, t2) = new_msg d.t2 m host_utime in
      let (sent, d') = process (record d { t2 = t2 }) 0 in (utime, sent, d')

  -- A message of either type, with its host utime, as the subscriptions deliver them.
  unfoldable pub handle : Dispatcher A B → (A × ℕ) ⊎ (B × ℕ) → List (Stored A × B) × Dispatcher A B
  handle d (inl m) = let (utime, sent, d') = handle1 d m.0 m.1 in (sent, d')
  handle d (inr m) = let (utime, sent, d') = handle2 d m.0 m.1 in (sent, d')

  unfoldable pub run :
      Dispatcher A B → List ((A × ℕ) ⊎ (B × ℕ)) → List (Stored A × B) × Dispatcher A B
  run d [] = ([], d)
  run d (e ∷ es) =
      let (sent, d') = handle d e in let (sent', d'') = run d' es in (sent ++ sent', d'')
