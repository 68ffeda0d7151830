-- ===== src/Serial/Recv/Loop.antt =====
-- `serial_recvmsg` as a whole: it ends, delivers what was framed, and finds a frame behind noise.
use zcm.Prelude.{
  ℕ, zero, suc, ◌+◌, ◌-◌, ◌≤◌, ◌<◌, ◌≡◌, ◌∙◌, ap, ap₂, sym, refl, arith, List, [], ◌∷◌, ◌++◌,
  length, subst, true, false, if◌then◌else◌, ltb, ◌==◌, Bool-cases, inl, inr, ltb→ge, ==_iff, All,
  take, drop, take-append-drop, append_assoc, drop-add, length-drop, All-drop, get_or,
}
use zcm.CircBuffer.{CircBuffer, cb_size, cb_front, cb_pop_front}
use zcm.CircBuffer.Contents.{IsValid, contents, length-contents, cb_front-eq}
use zcm.CircBuffer.Pop.{pop_front_lem, size-pop_front}
use zcm.Transport.{Msg, channel_maxlen}
use zcm.Serial.{Serial, escape, frame_bytes}
use zcm.Serial.Frame.{IsByte, frame}
use zcm.Serial.Recv.{
  Attempt, wait, bad, got, Received, delivered, waiting, stuck, resync, recv_frame, recv_loop,
}
use zcm.Serial.Recv.Accept.{Accepted, recv_frame-Accepted}

-- The bytes from the first escape character on.
unfoldable pub skip : List ℕ → List ℕ
skip [] = []
skip (x ∷ xs) = let rest = skip xs in if x == escape then x ∷ xs else rest

skip_here : (l : List ℕ) → (get_or l 0 0 == escape) ≡ true → skip l ≡ l
unfolding skip
skip_here [] h = refl
skip_here (x ∷ xs) h = rw h

pub skip_none : (l : List ℕ) → length l ≡ 0 → skip l ≡ l
unfolding skip
skip_none [] h = refl
skip_none (x ∷ xs) h = absurd (omega arith)

skip_more : (l : List ℕ) → (get_or l 0 0 == escape) ≡ false → skip l ≡ skip (drop 1 l)
unfolding skip
skip_more [] h = refl
skip_more (x ∷ xs) h = rw h

skip-suffix : (l : List ℕ) → (n : ℕ) × (n ≤ length l) × (skip l ≡ drop n l)
unfolding skip
skip-suffix [] = (0, omega arith, refl)
skip-suffix (x ∷ xs) = elim (Bool-cases (x == escape)) [
  | inl e ↦ rw e (0, omega arith, refl)
  | inr e ↦ let (n, h, p) = skip-suffix xs in rw e (suc n, omega arith, p)
]

pub front_zero : (r : CircBuffer) → 0 < cb_size r → cb_front r 0 ≡ get_or (contents r) 0 0
front_zero r h = cb_front-eq r 0 h

resync_step :
    (fuel : ℕ) (r : CircBuffer)
    → IsValid r
    → 0 < cb_size r
    → (0 < cb_size (cb_pop_front r 1)
        → IsValid (resync fuel (cb_pop_front r 1))
          × (contents (resync fuel (cb_pop_front r 1))
              ≡ skip (drop 1 (contents (cb_pop_front r 1)))))
    → IsValid (resync (suc fuel) r) × (contents (resync (suc fuel) r) ≡ skip (drop 1 (contents r)))
unfolding resync
resync_step fuel r v p next =
    let r' = cb_pop_front r 1 in
    let (v', e) = pop_front_lem 1 v p in
    elim (Bool-cases (cb_size r' == 0)) [
      | inl none_left ↦
          let empty : length (drop 1 (contents r)) ≡ 0 =
            ap length (sym e) ∙ length-contents r' ∙ (==_iff _ _).0 none_left in
          rw none_left (v', e ∙ sym (skip_none _ empty))
      | inr some_left ↦
          let pos : 0 < cb_size r' = ground arith in
          let first : cb_front r' 0 ≡ get_or (drop 1 (contents r)) 0 0 =
            front_zero r' pos ∙ ap (λ l. get_or l 0 0) e in
          elim (Bool-cases (cb_front r' 0 == escape)) [
            | inl found ↦ rw (some_left, found) (v', e ∙ sym (skip_here _ (rw first at found)))
            | inr other ↦
                let (v'', e'') = next pos in
                rw (some_left, other)
                  (v'', e'' ∙ ap (λ l. skip (drop 1 l)) e ∙ sym (skip_more _ (rw first at other)))
          ]
    ]

-- `resync` drops a byte, and then all up to the next escape character.
pub resync_lem :
    (fuel : ℕ) (r : CircBuffer)
    → IsValid r
    → 0 < cb_size r
    → cb_size r ≤ suc fuel
    → IsValid (resync (suc fuel) r) × (contents (resync (suc fuel) r) ≡ skip (drop 1 (contents r)))
resync_lem zero r v p q =
    let size' = size-pop_front 1 v p in resync_step zero r v p (λ a. absurd (omega arith))
resync_lem (suc f) r v p q =
    let size' = size-pop_front 1 v p in
    let (v', _) = pop_front_lem 1 v p in
    resync_step (suc f) r v p (λ a. resync_lem f (cb_pop_front r 1) v' a (omega arith))

pub resync_all :
    (r : CircBuffer)
    → IsValid r
    → 0 < cb_size r
    → IsValid (resync (cb_size r) r)
      × (contents (resync (cb_size r) r) ≡ skip (drop 1 (contents r)))
resync_all r v p =
    let e : cb_size r ≡ suc (cb_size r - 1) = omega arith in
    let (v', c) = resync_lem (cb_size r - 1) r v p (omega arith) in
    (subst (λ n. IsValid (resync n r)) (sym e) v', ap (λ n. contents (resync n r)) e ∙ c)

-- What `serial_recvmsg` may leave. A message is one whose frame stood in the ring, behind bytes that
-- were dropped; the bytes after it are kept.
abbrev pub Outcome : (ℕ → ℕ) → ℕ → CircBuffer → Received → Type 0
Outcome now mtu r stuck = ⊥
Outcome now mtu r (waiting r') =
    IsValid r' × ((noise : List ℕ) × (contents r ≡ noise ++ contents r'))
Outcome now mtu r (delivered m r') =
    IsValid r'
    × ((noise : List ℕ) × (contents r ≡ noise ++ (frame m ++ contents r')))
    × ((k : ℕ) × (m.utime ≡ now k))
    × (length m.channel ≤ channel_maxlen)
    × (length m.buf ≤ mtu)

Outcome-later :
    (now : ℕ → ℕ) (mtu : ℕ) (r r' : CircBuffer) (dropped : List ℕ) (x : Received)
    → contents r ≡ dropped ++ contents r'
    → Outcome now mtu r' x
    → Outcome now mtu r x
Outcome-later now mtu r r' dropped stuck e h = h
Outcome-later now mtu r r' dropped (waiting r'') e (v, (noise, p)) =
    (v, (dropped ++ noise, e ∙ ap (λ t. dropped ++ t) p ∙ sym (append_assoc dropped noise _)))
Outcome-later now mtu r r' dropped (delivered m r'') e (v, (noise, p), at, chan, buf) = (
  v,
  (dropped ++ noise, e ∙ ap (λ t. dropped ++ t) p ∙ sym (append_assoc dropped noise _)),
  at,
  chan,
  buf,
)

bad-size : (mtu : ℕ) (r : CircBuffer) (t : ℕ) → recv_frame mtu r t ≡ bad → frame_bytes ≤ cb_size r
unfolding recv_frame
bad-size mtu r t h = elim (Bool-cases (ltb (cb_size r) frame_bytes)) [
  | inl e ↦ absurd (cc (rw e at h))
  | inr e ↦ ltb→ge _ _ e
]

delivered-Outcome :
    (now : ℕ → ℕ) (k mtu : ℕ) (r : CircBuffer) (m : Msg) (n : ℕ)
    → IsValid r
    → Accepted mtu r (now k) (got m n)
    → Outcome now mtu r (delivered m (cb_pop_front r n))
delivered-Outcome now k mtu r m n v (t, chan, buf, within, len, front) =
    let (v', rest) = pop_front_lem n v within in
    (v', ([], sym (take-append-drop n (contents r)) ∙ ap₂ ◌++◌ front (sym rest)), (k, t), chan, buf)

-- The ring after `resync` is valid, holds bytes, and is a byte shorter at least.
resync-shorter :
    (r : CircBuffer)
    → IsValid r
    → 0 < cb_size r
    → let r' = resync (cb_size r) r in
      IsValid r' × (cb_size r' < cb_size r) × ((n : ℕ) × (contents r' ≡ drop n (contents r)))
resync-shorter r v p =
    let r' = resync (cb_size r) r in
    let (v', c) = resync_all r v p in
    let (n, h, e) = skip-suffix (drop 1 (contents r)) in
    let c' : contents r' ≡ drop (1 + n) (contents r) = c ∙ e ∙ sym (drop-add 1 n (contents r)) in
    (
      v',
      omega (
        arith,
        length-contents r,
        length-contents r',
        ap length c',
        length-drop (1 + n) (contents r),
      ),
      (1 + n, c'),
    )

-- With more fuel than bytes the loop ends, and leaves what it should.
pub recv_loop_lem :
    (fuel : ℕ) (now : ℕ → ℕ) (k mtu : ℕ) (r : CircBuffer)
    → IsValid r
    → All IsByte (contents r)
    → cb_size r < fuel
    → Outcome now mtu r (recv_loop fuel now k mtu r)
unfolding recv_loop
recv_loop_lem zero now k mtu r v h p = absurd (omega arith)
recv_loop_lem (suc fuel) now k mtu r v h p =
    round (recv_frame mtu r (now k)) refl (recv_frame-Accepted mtu r (now k) h)
      (λ v' h' p'. recv_loop_lem fuel now (k + 1) mtu (resync (cb_size r) r) v' h' p')
  where
    r' : CircBuffer
    r' = resync (cb_size r) r

    round :
        (x : Attempt)
        → recv_frame mtu r (now k) ≡ x
        → Accepted mtu r (now k) x
        → (IsValid r'
            → All IsByte (contents r')
            → cb_size r' < fuel
            → Outcome now mtu r' (recv_loop fuel now (k + 1) mtu r'))
        → Outcome now mtu r (elim x [
          | wait ↦ waiting r
          | bad ↦ recv_loop fuel now (k + 1) mtu r'
          | got m n ↦ delivered m (cb_pop_front r n)
        ])
    round wait e a next = (v, ([], refl))
    round (got m n) e a next = delivered-Outcome now k mtu r m n v a
    round bad e a next =
        let some = bad-size mtu r (now k) e in
        let (v', less, (n, c)) = resync-shorter r v (omega arith) in
        Outcome-later now mtu r r' (take n (contents r)) _
          (sym (take-append-drop n (contents r)) ∙ ap (λ t. take n (contents r) ++ t) (sym c))
          (next v' (rw c (All-drop IsByte n (contents r) h)) (omega arith))
