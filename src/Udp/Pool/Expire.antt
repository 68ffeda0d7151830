-- ===== src/Udp/Pool/Expire.antt =====
-- `expireFragBufs` removes every message that waited too long without progress.
use zcm.Prelude.{
  ℕ, zero, suc, ◌+◌, ◌-◌, ◌≤◌, ◌<◌, ◌≡◌, ◌∙◌, inl, inr, refl, sym, subst, arith, List, [], ◌∷◌, leb,
  length, get_or, set, take, All, Bool-cases, leb→le, leb→gt, get_or-set_ne,
}
use zcm.Udp.Pool.{FragBuf, MessagePool, blank, remove_at, expire_from, expire_frag_bufs}
use zcm.Udp.Pool.Budget.{Budget, remove_at_lem, remove_at-Budget}

-- Progress was made less than five seconds ago.
abbrev pub Active : ℕ → FragBuf → Type 0
Active now f = now - f.last_progress < 5000000

get_or-take {ℓ} :
    {A : Type ℓ} (k : ℕ) (xs : List A) (j : ℕ) (d : A)
    → j < k
    → get_or (take k xs) j d ≡ get_or xs j d
get_or-take zero xs j d h = absurd (omega arith)
get_or-take (suc k) [] j d h = refl
get_or-take (suc k) (x ∷ xs) zero d h = refl
get_or-take (suc k) (x ∷ xs) (suc j) d h = get_or-take k xs j d (omega arith)

All-indices :
    (P : FragBuf → Type 0) (xs : List FragBuf)
    → ((j : ℕ) → j < length xs → P (get_or xs j blank))
    → All P xs
All-indices P [] f = tt
All-indices P (x ∷ xs) f = (f 0 (omega arith), All-indices P xs (λ j h. f (suc j) (omega arith)))

-- The first `i` elements are active.
abbrev ActiveBelow : ℕ → ℕ → List FragBuf → Type 0
ActiveBelow now i xs = (j : ℕ) → j < i → Active now (get_or xs j blank)

-- Removing an element leaves those before it in their places.
remove_at-before :
    (p : MessagePool) (i j : ℕ)
    → i < length p.fragbufs
    → j < i
    → get_or (remove_at p i).fragbufs j blank ≡ get_or p.fragbufs j blank
unfolding remove_at
remove_at-before p i j h l =
    let last_idx = length p.fragbufs - 1 in
    get_or-take last_idx (set p.fragbufs i (get_or p.fragbufs last_idx blank)) j blank (omega arith)
    ∙ get_or-set_ne p.fragbufs i j _ blank (λ q. omega arith)

Active-step :
    (now i : ℕ) (xs : List FragBuf)
    → ActiveBelow now i xs
    → Active now (get_or xs i blank)
    → ActiveBelow now (i + 1) xs
Active-step now i xs h a j l = elim (Bool-cases (leb i j)) [
  | inl e ↦
      let g = leb→le _ _ e in
      let same : i ≡ j = omega arith in subst (λ k. Active now (get_or xs k blank)) same a
  | inr e ↦ h j (leb→gt _ _ e)
]

expire_from_lem :
    (fuel now i : ℕ) (p : MessagePool)
    → Budget p
    → length p.fragbufs ≤ i + fuel
    → ActiveBelow now i p.fragbufs
    → let p' = expire_from fuel now i p in
      Budget p' × ActiveBelow now (length p'.fragbufs) p'.fragbufs
unfolding expire_from
expire_from_lem zero now i p b h a = (b, λ j l. a j (omega arith))
expire_from_lem (suc fuel) now i p b h a = elim (Bool-cases (leb (length p.fragbufs) i)) [
  | inl e ↦ rw e (b, λ j l. let g = leb→le _ _ e in a j (omega arith))
  | inr e ↦
      let g = leb→gt _ _ e in
      elim (Bool-cases (leb 5000000 (now - (get_or p.fragbufs i blank).last_progress))) [
        | inl old ↦
            let r = remove_at_lem p i b.counted g in
            rw (e, old)
              (expire_from_lem fuel now i (remove_at p i) (remove_at-Budget p i g b) (omega arith)
                (λ j l. subst (Active now) (sym (remove_at-before p i j g l)) (a j l)))
        | inr active ↦
            rw (e, active)
              (expire_from_lem fuel now (i + 1) p b (omega arith)
                (Active-step now i p.fragbufs a (leb→gt _ _ active)))
      ]
]

-- After `expireFragBufs` every message of the pool has made progress in the last five seconds, and
-- the pool keeps its bounds if it did.
pub expire_frag_bufs_lem :
    (now : ℕ) (p : MessagePool)
    → Budget p
    → let p' = expire_frag_bufs now p in Budget p' × All (Active now) p'.fragbufs
unfolding expire_frag_bufs
expire_frag_bufs_lem now p b =
    let r =
      expire_from_lem (length p.fragbufs) now 0 p b (omega arith) (λ j l. absurd (omega arith)) in
    (r.0, All-indices (Active now) _ r.1)
