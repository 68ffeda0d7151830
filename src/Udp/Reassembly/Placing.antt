-- ===== src/Udp/Reassembly/Placing.antt =====
-- `store` on the fragments of one message, in any order.
use zcm.Prelude.{
  ℕ, zero, suc, ◌+◌, ◌-◌, ◌≤◌, ◌<◌, ◌≡◌, ◌≢◌, ◌∙◌, inl, inr, ap, refl, arith, Bool, true, false,
  not, ◌||◌, Bool-cases, List, [], ◌∷◌, ◌++◌, if◌then◌else◌, leb, ◌==◌, length, get_or, take, drop,
  length-take, length-drop, ==_iff, equal_other, leb→gt,
}
use zcm.Udp.Pool.{Fragment, FragBuf}
use zcm.Udp.Recv.{Part, no_fragment, payload_offset, adjacent}
use zcm.Udp.Reassembly.Bytes.{Agrees}

-- Where the fragments of the data start: the n-th start is its end.
pub record Cut (bytes : List ℕ) (n : ℕ) (start : ℕ → ℕ) : Type 0 where
  pub first : start 0 ≡ 0
  pub last : start n ≡ length bytes
  pub grows : (k : ℕ) → start k ≤ start (suc k)
  pub inside : (k : ℕ) → k < n → start (suc k) ≤ length bytes
  pub not_empty : (k : ℕ) → 0 < k → k < n → start k < start (suc k)

abbrev pub slice : List ℕ → (ℕ → ℕ) → ℕ → List ℕ
slice bytes start k = take (start (suc k) - start k) (drop (start k) bytes)

-- The k-th fragment once it is parsed.
abbrev pub part_at : ℕ → List ℕ → List ℕ → ℕ → (ℕ → ℕ) → ℕ → Part
part_at seqno channel bytes n start k = record {
  msg_seqno = seqno;
  data_size = length bytes;
  fragment_offset = start k;
  fragment_no = k;
  fragments_in_msg = n;
  payload = slice bytes start k;
  channel = if k == 0 then channel else [];
}

-- The fragments that were seen, with the k-th.
abbrev pub mark : ℕ → (ℕ → Bool) → ℕ → Bool
mark k seen j = if j == k then true else seen j

-- How many of the first n were seen.
unfoldable pub counted : (ℕ → Bool) → ℕ → ℕ
counted seen zero = 0
counted seen (suc n) = (if seen n then 1 else 0) + counted seen n

pub counted-behind : (seen : ℕ → Bool) (k n : ℕ) → n ≤ k → counted (mark k seen) n ≡ counted seen n
unfolding counted
counted-behind seen k zero h = refl
counted-behind seen k (suc n) h =
    rw (equal_other n k (omega arith))
      (ap (λ c. (if seen n then 1 else 0) + c) (counted-behind seen k n (omega arith)))

pub counted-mark :
    (seen : ℕ → Bool) (k n : ℕ)
    → k < n
    → seen k ≡ false
    → counted (mark k seen) n ≡ suc (counted seen n)
unfolding counted
counted-mark seen k zero h e = absurd (omega arith)
counted-mark seen k (suc n) h e = elim (Bool-cases (n == k)) [
  | inl z ↦
      let same = (==_iff n k).0 z in
      let rest = counted-behind seen k n (omega arith) in
      let here = ap seen same ∙ e in rw (z, here) (omega arith)
  | inr z ↦ let apart = counted-mark seen k n (other_below z) e in rw z (rw apart (omega arith))
]
  where
    other_below : (n == k) ≡ false → k < n
    other_below z = ground arith

pub counted-le : (seen : ℕ → Bool) (n : ℕ) → counted seen n ≤ n
unfolding counted
counted-le seen zero = omega arith
counted-le seen (suc n) =
    let rest = counted-le seen n in
    elim (Bool-cases (seen n)) [ inl e ↦ rw e (omega arith) | inr e ↦ rw e (omega arith) ]

-- One that was not seen is not counted.
pub counted-lt : (seen : ℕ → Bool) (k n : ℕ) → k < n → seen k ≡ false → counted seen n < n
counted-lt seen k n h e =
    let more = counted-mark seen k n h e in let bound = counted-le (mark k seen) n in omega arith

pub counted-all : (seen : ℕ → Bool) (n : ℕ) → ((k : ℕ) → k < n → seen k ≡ true) → counted seen n ≡ n
unfolding counted
counted-all seen zero h = refl
counted-all seen (suc n) h =
    let rest = counted-all seen n (λ k l. h k (omega arith)) in rw (h n (omega arith)) (omega arith)

module _ (seqno : ℕ) (channel bytes : List ℕ) (n : ℕ) (start : ℕ → ℕ)
    (cut : Cut bytes n start) where
  abbrev pub base : ℕ
  base = payload_offset (length bytes)

  abbrev pub slot_at : ℕ → Fragment
  slot_at k = record { offset = start k; size = start (suc k) - start k; received = true }

  -- The buffer of the message has the fragments that were seen.
  pub record Holding (seen : ℕ → Bool) (f : FragBuf) : Type 0 where
    pub count : length f.fragments ≡ n
    pub size : length f.buf ≡ base + length bytes
    pub data_size : f.data_size ≡ length bytes
    pub remaining : f.fragments_remaining + counted seen n ≡ n
    pub slots :
        (k : ℕ)
        → k < n
        → get_or f.fragments k no_fragment ≡ (if seen k then slot_at k else no_fragment)
    pub stored :
        (k : ℕ) → k < n → seen k ≡ true → Agrees f.buf (base + start k) (slice bytes start k)
    pub channel_length : seen 0 ≡ true → f.channellen ≡ length channel
    pub channel_stored : seen 0 ≡ true → Agrees f.buf 0 (channel ++ (0 ∷ []))

  pub length-slice : (k : ℕ) → k < n → length (slice bytes start k) ≡ start (suc k) - start k
  length-slice k h =
      length-take (start (suc k) - start k) (drop (start k) bytes)
      ∙ omega (arith, length-drop (start k) bytes, cut.inside k h)

  module _ (seen : ℕ → Bool) (f : FragBuf) (v : Holding seen f) where
    pub slot_seen : (k : ℕ) → k < n → seen k ≡ true → get_or f.fragments k no_fragment ≡ slot_at k
    slot_seen k h e = v.slots k h ∙ ap (λ b. if b then slot_at k else no_fragment) e

    pub slot_empty :
        (k : ℕ) → k < n → seen k ≡ false → get_or f.fragments k no_fragment ≡ no_fragment
    slot_empty k h e = v.slots k h ∙ ap (λ b. if b then slot_at k else no_fragment) e

    prev_fits :
        (k : ℕ)
        → k < n
        → (k == 0
            || not (get_or f.fragments (k - 1) no_fragment).received
            || ((get_or f.fragments (k - 1) no_fragment).offset
                + (get_or f.fragments (k - 1) no_fragment).size)
              == start k)
          ≡ true
    prev_fits k h = elim (Bool-cases (k == 0)) [
      | inl e ↦ rw e refl
      | inr e ↦
          let positive : k ≢ 0 = ground arith in
          elim (Bool-cases (seen (k - 1))) [
            | inl s ↦
                let g = cut.grows (k - 1) in
                let q = ap start {x = suc (k - 1)} {y = k} (omega arith) in
                rw
                  (
                    e,
                    slot_seen (k - 1) (omega arith) s,
                    (==_iff (start (k - 1) + (start (suc (k - 1)) - start (k - 1))) (start k)).1
                        (omega arith),
                  )
                  refl
            | inr s ↦ rw (e, slot_empty (k - 1) (omega arith) s) refl
          ]
    ]

    next_fits :
        (k : ℕ)
        → k < n
        → (leb n (k + 1)
            || not (get_or f.fragments (k + 1) no_fragment).received
            || (start k + length (slice bytes start k))
              == (get_or f.fragments (k + 1) no_fragment).offset)
          ≡ true
    next_fits k h = elim (Bool-cases (leb n (k + 1))) [
      | inl e ↦ rw e refl
      | inr e ↦
          let behind : k + 1 < n = leb→gt _ _ e in
          elim (Bool-cases (seen (k + 1))) [
            | inl s ↦
                let g = cut.grows k in
                let l = length-slice k h in
                let q = ap start {x = suc k} {y = k + 1} (omega arith) in
                rw
                  (
                    e,
                    slot_seen (k + 1) behind s,
                    (==_iff (start k + length (slice bytes start k)) (start (k + 1))).1
                        (omega arith),
                  )
                  refl
            | inr s ↦ rw (e, slot_empty (k + 1) behind s) refl
          ]
    ]

    pub adjacent-Holding :
        (k : ℕ) → k < n → adjacent f (part_at seqno channel bytes n start k) ≡ true
    unfolding adjacent
    adjacent-Holding k h = rw (prev_fits k h) (next_fits k h)
