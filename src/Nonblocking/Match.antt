-- ===== src/Nonblocking/Match.antt =====
-- Which channels a subscription of zcm/nonblocking.c is called for.
use zcm.Prelude.{
  ℕ, zero, suc, ◌+◌, ◌-◌, ◌≤◌, ◌≡◌, ◌↔◌, ◌∙◌, ◌⊎◌, inl, inr, ap, ap₂, refl, sym, arith, true,
  Bool-cases, List, [], ◌∷◌, ◌++◌, ltb, leb, ◌==◌, length, take, drop, get_or, take-append-drop,
  length-append, ==_iff,
}
use zcm.Transport.{channel_maxlen}
use zcm.Nonblocking.{
  Slot, regex_char, is_regex_channel, is_supported_regex, same_prefix, should_dispatch,
}
use zcm.Nonblocking.Valid.{Fits}

-- A subscription wants its own channel, and one that ends in `.*` all that start with what is before.
abbrev pub Wants : List ℕ → List ℕ → Type 0
Wants p c = (p ≡ c) ⊎ ((q : List ℕ) × (rest : List ℕ) × (p ≡ q ++ (46 ∷ 42 ∷ [])) × (c ≡ q ++ rest))

same_prefix_refl : (n : ℕ) (s : List ℕ) → same_prefix n s s ≡ true
unfolding same_prefix
same_prefix_refl zero s = refl
same_prefix_refl (suc n) [] = refl
same_prefix_refl (suc n) (x ∷ s) = rw ((==_iff x x).1 refl) (same_prefix_refl n s)

same_prefix_whole :
    (n : ℕ) (s t : List ℕ) → length s ≤ n → length t ≤ n → same_prefix n s t ≡ true → s ≡ t
unfolding same_prefix
same_prefix_whole zero [] [] h k e = refl
same_prefix_whole zero [] (y ∷ t) h k e = absurd (omega arith)
same_prefix_whole zero (x ∷ s) t h k e = absurd (omega arith)
same_prefix_whole (suc n) [] [] h k e = refl
same_prefix_whole (suc n) [] (y ∷ t) h k e = absurd (ground arith)
same_prefix_whole (suc n) (x ∷ s) [] h k e = absurd (ground arith)
same_prefix_whole (suc n) (x ∷ s) (y ∷ t) h k e = elim (Bool-cases (x == y)) [
  | inl q ↦
      ap₂ (λ a l. a ∷ l) ((==_iff x y).0 q)
        (same_prefix_whole n s t (omega arith) (omega arith) (rw q at e))
  | inr q ↦ absurd (ground (arith, rw q at e))
]

-- Comparing as many bytes as the first string has, behind which it goes on.
same_prefix_iff :
    (q more t : List ℕ)
    → (same_prefix (length q) (q ++ more) t ≡ true) ↔ ((rest : List ℕ) × (t ≡ q ++ rest))
unfolding same_prefix
same_prefix_iff [] more t = (λ e. (t, refl), λ r. refl)
same_prefix_iff (x ∷ q) more [] = (λ e. absurd (ground arith), λ (rest, e). absurd (ground arith))
same_prefix_iff (x ∷ q) more (y ∷ t) = elim (Bool-cases (x == y)) [
  | inl e ↦
      let same : x ≡ y = (==_iff x y).0 e in
      let (to, from) = same_prefix_iff q more t in
      (
        λ h. let (rest, r) = to (rw e at h) in (rest, ap₂ (λ a l. a ∷ l) (sym same) r),
        λ (rest, r). rw e (from (rest, cc r)),
      )
  | inr e ↦ (
    λ h. absurd (ground (arith, rw e at h)),
    λ (rest, r). let same : x ≡ y = cc r in absurd (ground (arith, e, (==_iff x y).1 same)),
  )
]

last_two :
    (n : ℕ) (c : List ℕ) → length c ≡ n + 2 → drop n c ≡ get_or c n 0 ∷ get_or c (n + 1) 0 ∷ []
last_two zero [] h = absurd (omega arith)
last_two zero (x ∷ []) h = absurd (omega arith)
last_two zero (x ∷ y ∷ []) h = refl
last_two zero (x ∷ y ∷ z ∷ c) h = absurd (omega arith)
last_two (suc n) [] h = absurd (omega arith)
last_two (suc n) (x ∷ c) h =
    last_two n c (omega arith)
    ∙ ap (λ i. get_or c n 0 ∷ get_or (x ∷ c) i 0 ∷ []) {x = suc (n + 1)} {y = suc n + 1}
        (omega arith)

-- A regex that is supported ends in `.*`.
supported_regex :
    (c : List ℕ)
    → is_regex_channel c ≡ true
    → is_supported_regex c ≡ true
    → (q : List ℕ) × (c ≡ q ++ (46 ∷ 42 ∷ []))
unfolding is_supported_regex
supported_regex c r h =
    let n = length c - 2 in
    elim (Bool-cases (ltb (length c) 2)) [
      | inl l ↦ absurd (ground (arith, rw (r, l) at h))
      | inr l ↦ elim (Bool-cases (get_or c (length c - 1) 0 == 42)) [
        | inr a ↦ absurd (ground (arith, rw (r, l, a) at h))
        | inl a ↦ elim (Bool-cases (get_or c n 0 == 46)) [
          | inr b ↦ absurd (ground (arith, rw (r, l, a, b) at h))
          | inl b ↦
              let star : get_or c (n + 1) 0 ≡ 42 =
                ap (λ i. get_or c i 0) {x = n + 1} {y = length c - 1} (ground (arith, l))
                ∙ (==_iff _ _).0 a in
              let ends : drop n c ≡ 46 ∷ 42 ∷ [] =
                last_two n c (ground (arith, l))
                ∙ ap₂ (λ x y. x ∷ y ∷ []) ((==_iff _ _).0 b) star in
              (take n c, sym (take-append-drop n c) ∙ ap (λ t. take n c ++ t) ends)
        ]
      ]
    ]

dot_star-is_regex : (q : List ℕ) → is_regex_channel (q ++ (46 ∷ 42 ∷ [])) ≡ true
unfolding is_regex_channel
dot_star-is_regex [] = refl
dot_star-is_regex (x ∷ q) = elim (Bool-cases (regex_char x)) [
  | inl e ↦ rw e refl
  | inr e ↦ rw e (dot_star-is_regex q)
]

regex_dispatch :
    (s : Slot) (q c : List ℕ)
    → s.is_regex ≡ true
    → s.channel ≡ q ++ (46 ∷ 42 ∷ [])
    → (should_dispatch s c ≡ true) ↔ ((rest : List ℕ) × (c ≡ q ++ rest))
unfolding should_dispatch
regex_dispatch s q c r e =
    let size : length s.channel ≡ length q + 2 = ap length e ∙ length-append q (46 ∷ 42 ∷ []) in
    let long : leb 2 (length s.channel) ≡ true = ground arith in
    let core : same_prefix (length s.channel - 2) s.channel c
        ≡ same_prefix (length q) (q ++ (46 ∷ 42 ∷ [])) c =
      ap₂ (λ n p. same_prefix n p c) (omega arith) e in
    rw (r, long, core) (same_prefix_iff q (46 ∷ 42 ∷ []) c)

-- `dispatch_message` calls a valid subscription for a channel of at most 32 bytes exactly if it wants it.
pub should_dispatch_lem :
    (s : Slot) (c : List ℕ)
    → Fits s
    → length c ≤ channel_maxlen
    → (should_dispatch s c ≡ true) ↔ Wants s.channel c
unfolding should_dispatch
should_dispatch_lem s c f l = elim (Bool-cases s.is_regex) [
  | inl r ↦
      let (q, e) = supported_regex s.channel (sym f.regex ∙ r) f.supported in
      (
        λ h. let (rest, w) = (regex_dispatch s q c r e).0 h in inr (q, rest, e, w),
        λ w. elim w [
          | inl same ↦ (regex_dispatch s q c r e).1 (46 ∷ 42 ∷ [], sym same ∙ e)
          | inr (q', rest, e', w') ↦ (regex_dispatch s q' c r e').1 (rest, w')
        ],
      )
  | inr r ↦ (
    λ h. inl (same_prefix_whole channel_maxlen s.channel c f.short l (rw r at h)),
    λ w. elim w [
      | inl same ↦ rw (r, sym same) (same_prefix_refl channel_maxlen s.channel)
      | inr (q, rest, e, w') ↦
          absurd (ground (arith, r, f.regex, ap is_regex_channel e, dot_star-is_regex q))
    ],
  )
]
