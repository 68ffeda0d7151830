-- ===== src/Nonblocking/Slots.antt =====
-- The loops of zcm/nonblocking.c over the slots.
use zcm.Prelude.{
  ℕ, zero, suc, ◌+◌, ◌-◌, ◌≤◌, ◌<◌, ◌≡◌, ◌∙◌, subst, ltb→lt, ltb→ge, inl, inr, ap, arith, Bool,
  true, false, Bool-cases, List, [], ◌∷◌, none, some, ltb, leb, length, get_or, leb→le,
}
use zcm.Nonblocking.{Slot, unused, first_free, shrink}

-- Whether the slot is in use.
abbrev pub used : List Slot → ℕ → Bool
used ss i = (get_or ss i unused).in_use

pub record Free (ss : List Slot) (i last k : ℕ) : Type 0 where
  pub from : i ≤ k
  pub within : k < i + length ss
  pub at_most : k ≤ last
  pub unoccupied : used ss (k - i) ≡ false

later_Free :
    (s : Slot) (ss : List Slot) (i last k : ℕ) → Free ss (i + 1) last k → Free (s ∷ ss) i last k
later_Free s ss i last k h =
    let next : k - i ≡ suc (k - (i + 1)) = omega (arith, h.from) in
    record {
      from = omega (arith, h.from);
      within = omega (arith, h.within);
      at_most = h.at_most;
      unoccupied = ap (used (s ∷ ss)) next ∙ h.unoccupied;
    }

here_Free :
    (s : Slot) (ss : List Slot) (i last : ℕ) → i ≤ last → s.in_use ≡ false → Free (s ∷ ss) i last i
here_Free s ss i last h e =
    let here : i - i ≡ 0 = omega arith in
    record {
      from = omega arith;
      within = omega arith;
      at_most = h;
      unoccupied = ap (used (s ∷ ss)) here ∙ e;
    }

pub first_free-some :
    (ss : List Slot) (i last k : ℕ) → first_free ss i last ≡ some k → Free ss i last k
unfolding first_free
first_free-some [] i last k h = absurd (ground (arith, h))
first_free-some (s ∷ ss) i last k h = elim (Bool-cases (leb i last)) [
  | inr e ↦ absurd (ground (arith, rw e at h))
  | inl e ↦ elim (Bool-cases s.in_use) [
    | inl u ↦ later_Free s ss i last k (first_free-some ss (i + 1) last k (rw (e, u) at h))
    | inr u ↦
        let same : i ≡ k = ground (arith, rw (e, u) at h) in
        subst (λ j. Free (s ∷ ss) i last j) same (here_Free s ss i last (leb→le i last e) u)
  ]
]

pub first_free-none :
    (ss : List Slot) (i last j : ℕ)
    → first_free ss i last ≡ none
    → j < length ss
    → i + j ≤ last
    → used ss j ≡ true
unfolding first_free
first_free-none [] i last j h k l = absurd (omega arith)
first_free-none (s ∷ ss) i last zero h k l = ground arith
first_free-none (s ∷ ss) i last (suc j) h k l =
    first_free-none ss (i + 1) last j (ground arith) (omega arith) (omega arith)

-- The new end: every slot behind it is free, up to the old end, and the one before it is used.
pub record Shrunk (ss : List Slot) (last end : ℕ) : Type 0 where
  pub at_most : end ≤ last
  pub behind : (i : ℕ) → end ≤ i → i < last → used ss i ≡ false
  pub before : (i : ℕ) → suc i ≡ end → used ss i ≡ true

later_Shrunk :
    (ss : List Slot) (last end : ℕ)
    → used ss last ≡ false
    → Shrunk ss last end
    → Shrunk ss (suc last) end
later_Shrunk ss last end u h = record {
  at_most = omega (arith, h.at_most);
  behind = λ i k l. elim (Bool-cases (ltb i last)) [
    | inl e ↦ h.behind i k (ltb→lt i last e)
    | inr e ↦ ap (used ss) {x = i} {y = last} (omega (arith, ltb→ge i last e)) ∙ u
  ];
  before = h.before;
}

pub shrink_lem : (ss : List Slot) (last : ℕ) → Shrunk ss last (shrink ss last)
unfolding shrink
shrink_lem ss zero = record {
  at_most = omega arith;
  behind = λ i h k. absurd (omega arith);
  before = λ i h. absurd (omega arith);
}
shrink_lem ss (suc last) = elim (Bool-cases (used ss last)) [
  | inl u ↦ rw u (record {
    at_most = omega arith;
    behind = λ i h k. absurd (omega arith);
    before = λ i h. ap (used ss) {x = i} {y = last} (omega arith) ∙ u;
  })
  | inr u ↦ rw u (later_Shrunk ss last (shrink ss last) u (shrink_lem ss last))
]
