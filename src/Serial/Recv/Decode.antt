-- ===== src/Serial/Recv/Decode.antt =====
-- The read loops undo the escaping, and answer nothing but what stands escaped in the ring.
use zcm.Prelude.{
  ℕ, zero, suc, ◌+◌, ◌≤◌, ◌≡◌, ◌∙◌, ap, sym, refl, arith, List, [], ◌∷◌, length, Bool, true, false,
  ◌&&◌, ltb, ◌==◌, Bool-cases, inl, inr, ge→ltb, ltb→ge, ==_iff,
}
use zcm.CircBuffer.{CircBuffer, cb_front}
use zcm.Serial.{fletcher_update, escape}
use zcm.Serial.Frame.{stuff, fletcher_sum, length-le-stuff}
use zcm.Serial.Recv.{Read, again, fail, bytes, keep, recv_bytes}
use zcm.Serial.Recv.Reads.{Reads, Reads-at}

module _ (checks : Bool) (r : CircBuffer) (incoming after : ℕ) where
  -- Escaped bytes are read back, with enough bytes in the ring behind them.
  pub recv_bytes-stuff :
      (cs : List ℕ) (k s : ℕ)
      → Reads r k (stuff cs)
      → k + length (stuff cs) + after ≤ incoming
      → recv_bytes checks r incoming after (length cs) k s
        ≡ bytes cs (k + length (stuff cs)) (fletcher_sum cs s)
  unfolding recv_bytes stuff fletcher_sum
  recv_bytes-stuff [] k s h fits = ap (λ j. bytes [] j s) (omega arith)
  recv_bytes-stuff (c ∷ cs) k s h fits = elim (Bool-cases (c == escape)) [
    | inl e ↦
        let h' : Reads r k (c ∷ c ∷ stuff cs) = rw e at h in
        let fits' : k + length (c ∷ c ∷ stuff cs) + after ≤ incoming = rw e at fits in
        let e0 = h'.0 in
        let e1 = h'.1.0 in
        let longer = length-le-stuff cs in
        let ih =
          recv_bytes-stuff cs (k + 2) (fletcher_update c s)
            (Reads-at r _ _ (stuff cs) (omega arith) h'.1.1) (omega arith) in
        let t1 : ltb incoming k ≡ false = ge→ltb _ _ (omega arith) in
        let t2 : ltb incoming (k + 1 + suc (length cs) + after) ≡ false =
          ge→ltb _ _ (omega arith) in
        rw (e0, e1, e, t1, t2, ih) (ground arith)
    | inr e ↦
        let h' : Reads r k (c ∷ stuff cs) = rw e at h in
        let fits' : k + length (c ∷ stuff cs) + after ≤ incoming = rw e at fits in
        let e0 = h'.0 in
        let ih = recv_bytes-stuff cs (k + 1) (fletcher_update c s) h'.1 (omega arith) in
        let t1 : ltb incoming k ≡ false = ge→ltb _ _ (omega arith) in
        rw (e0, e, t1, ih) (ground arith)
  ]

  -- What a loop that began at `k` with checksum `s` and `n` rounds answers.
  abbrev pub Sound : ℕ → ℕ → ℕ → Read → Type 0
  Sound n k s again = Unit {0}
  Sound n k s fail = Unit {0}
  Sound n k s (bytes cs k' s') =
      (length cs ≡ n)
      × Reads r k (stuff cs)
      × (k' ≡ k + length (stuff cs))
      × (s' ≡ fletcher_sum cs s)
      × (k' + after ≤ incoming)

  Sound-keep_plain :
      (n k s c : ℕ) (x : Read)
      → (c == escape) ≡ false
      → cb_front r k ≡ c
      → Sound n (k + 1) (fletcher_update c s) x
      → Sound (suc n) k s (keep c x)
  unfolding stuff fletcher_sum
  Sound-keep_plain n k s c again e f h = tt
  Sound-keep_plain n k s c fail e f h = tt
  Sound-keep_plain n k s c (bytes cs k' s') e f (l, rs, p, q, b) =
      (ap suc l, rw e (f, rs), rw e (p ∙ omega arith), q, b)

  Sound-keep_escaped :
      (n k s c : ℕ) (x : Read)
      → (c == escape) ≡ true
      → cb_front r k ≡ c
      → cb_front r (k + 1) ≡ c
      → Sound n (k + 2) (fletcher_update c s) x
      → Sound (suc n) k s (keep c x)
  unfolding stuff fletcher_sum
  Sound-keep_escaped n k s c again e f g h = tt
  Sound-keep_escaped n k s c fail e f g h = tt
  Sound-keep_escaped n k s c (bytes cs k' s') e f g (l, rs, p, q, b) = (
    ap suc l,
    rw e (f, (g, Reads-at r _ _ (stuff cs) (omega arith) rs)),
    rw e (p ∙ omega arith),
    q,
    b,
  )

  -- The loop answers only bytes that stand escaped in the ring.
  pub recv_bytes-Sound :
      (n k s : ℕ)
      → k + n + after ≤ incoming
      → Sound n k s (recv_bytes checks r incoming after n k s)
  unfolding recv_bytes
  recv_bytes-Sound zero k s h =
      unfold stuff fletcher_sum in (refl, tt, omega arith, refl, omega arith)
  recv_bytes-Sound (suc n) k s h =
      let c = cb_front r k in
      elim (Bool-cases (checks && ltb incoming k)) [
        | inl t ↦ rw t tt
        | inr t ↦ rw t (elim (Bool-cases (c == escape)) [
          | inr e ↦ rw e (
              Sound-keep_plain n k s c _ e refl
                (recv_bytes-Sound n (k + 1) (fletcher_update c s) (omega arith)))
          | inl e ↦ rw e (elim (Bool-cases (ltb incoming (k + 1 + suc n + after))) [
            | inl u ↦ rw u tt
            | inr u ↦ rw u (elim (Bool-cases (cb_front r (k + 1) == escape)) [
              | inr w ↦ rw w tt
              | inl w ↦ rw w (
                  Sound-keep_escaped n k s c _ e refl ((==_iff _ _).0 w ∙ sym ((==_iff _ _).0 e)) (
                    recv_bytes-Sound n (k + 2) (fletcher_update c s) (omega (arith, ltb→ge _ _ u))))
            ])
          ])
        ])
      ]
