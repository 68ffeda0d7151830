-- ===== src/Udp/Recv/InBounds.antt =====
-- No fragment writes outside of the buffer of its message.
use zcm.Prelude.{
  ℕ, ◌+◌, ◌-◌, ◌≤◌, ◌<◌, ◌≡◌, ◌∙◌, inl, inr, ap, refl, arith, not, ◌&&◌, ◌||◌, List, [], ◌∷◌, ◌++◌,
  Option, none, some, ltb, leb, ◌==◌, length, get_or, set, take, min, Bool-cases, Option-cases,
  ==_iff, lt→ltb, length-append, length-set, length-take,
}
use zcm.Udp.Pool.{FragBuf}
use zcm.Udp.Recv.{
  Part, header_part, header_bytes, no_fragment, same_part, adjacent, with_payload, mtu,
  payload_offset, before_zero, check_part, take_channel, parse_part, write_at, Placed, duplicate,
  conflict, placed, store_channel, store_payload, store,
}

-- A buffer holds the reserved channel and the data.
abbrev pub Sized : FragBuf → Type 0
Sized f = length f.buf ≡ payload_offset f.data_size + f.data_size

-- What the checks of a fragment's own fields guarantee.
pub record Checked (p : Part) : Type 0 where
  data_fits : p.fragment_offset + length p.payload ≤ p.data_size
  channel_fits : p.fragment_no ≡ 0 → length p.channel + 1 ≤ payload_offset p.data_size

-- Of the result, if there is one.
abbrev pub OnSome {ℓ} : {A : Type ℓ} → (A → Type 0) → Option A → Type 0
OnSome P none = Unit {0}
OnSome P (some a) = P a

write_at_lem :
    (buf : List (Option ℕ)) (i : ℕ) (bs : List ℕ)
    → i + length bs ≤ length buf
    → (buf' : List (Option ℕ)) × (write_at buf i bs ≡ some buf') × (length buf' ≡ length buf)
unfolding write_at
write_at_lem buf i [] h = (buf, refl, refl)
write_at_lem buf i (b ∷ bs) h =
    let l = length-set buf i (some b) in
    let (buf', e, k) = write_at_lem (set buf i (some b)) (i + 1) bs (omega arith) in
    (buf', rw (lt→ltb i (length buf) (omega arith)) e, k ∙ l)

before_zero_lem : (bs : List ℕ) → OnSome (λ n. n < length bs) (before_zero bs)
unfolding before_zero
before_zero_lem [] = tt
before_zero_lem (b ∷ bs) = elim (Bool-cases (b == 0)) [
  | inl z ↦ rw z (omega arith)
  | inr z ↦ elim (Option-cases (before_zero bs)) [
    | inl e ↦ rw (z, e) tt
    | inr (n, e) ↦ let h = rw e at (before_zero_lem bs) in rw (z, e) (omega arith)
  ]
]

-- The channel of a first fragment fits in front of its payload.
abbrev ChannelFits : Part → Type 0
ChannelFits p = p.fragment_no ≡ 0 → length p.channel + 1 ≤ payload_offset p.data_size

check_part-Checked : (p : Part) → ChannelFits p → OnSome Checked (check_part p)
unfolding check_part
check_part-Checked p c =
    let frag_size = length p.payload in
    elim (Bool-cases (
      ltb p.data_size p.fragment_offset
      || ltb (p.data_size - p.fragment_offset) frag_size
      || (not (p.fragment_no == 0) && frag_size == 0)
      || ((p.fragment_no + 1) == p.fragments_in_msg
          && not ((p.fragment_offset + frag_size) == p.data_size)))) [
            | inl e ↦ rw e tt
            | inr e ↦ rw e record { data_fits = ground arith; channel_fits = c }
          ]

take_channel-ChannelFits : (p : Part) → OnSome ChannelFits (take_channel p)
unfolding take_channel
take_channel-ChannelFits p =
    let room = min (length p.payload) (payload_offset p.data_size) in
    elim (Bool-cases (p.fragment_no == 0)) [
      | inl z ↦ elim (Option-cases (before_zero (take room p.payload))) [
        | inl e ↦ rw (z, e) tt
        | inr (n, e) ↦ elim (Bool-cases (p.fragment_offset == 0)) [
          | inl o ↦
              let h = rw e at (before_zero_lem (take room p.payload)) in
              let l = length-take room p.payload in
              let k = length-take n p.payload in rw (z, e, o) (λ q. omega arith)
          | inr o ↦ rw (z, e, o) tt
        ]
      ]
      | inr z ↦ rw z (λ q. absurd (ground arith))
    ]

pub parse_part-Checked : (bytes : List ℕ) → OnSome Checked (parse_part bytes)
unfolding parse_part
parse_part-Checked bytes =
    let p = header_part bytes in
    elim (Bool-cases (ltb (length bytes) header_bytes)) [
      | inl s ↦ rw s tt
      | inr s ↦
          elim (Bool-cases (
            ltb mtu p.data_size
            || p.fragments_in_msg == 0
            || leb p.fragments_in_msg p.fragment_no)) [
              | inl b ↦ rw (s, b) tt
              | inr b ↦ elim (Option-cases (take_channel p)) [
                | inl e ↦ rw (s, b, e) tt
                | inr (q, e) ↦
                    rw (s, b, e) (check_part-Checked q (rw e at (take_channel-ChannelFits p)))
              ]
            ]
    ]

store_channel_lem :
    (f : FragBuf) (p : Part)
    → Sized f
    → f.data_size ≡ p.data_size
    → Checked p
    → (g : FragBuf) × (store_channel f p ≡ some g)
      × (length g.buf ≡ length f.buf)
      × (g.data_size ≡ f.data_size)
unfolding store_channel
store_channel_lem f p s d c = elim (Bool-cases (p.fragment_no == 0)) [
  | inl z ↦
      let fits = c.channel_fits ((==_iff _ _).0 z) in
      let l = length-append p.channel (0 ∷ []) in
      let same = ap payload_offset d in
      let (buf, e, k) = write_at_lem f.buf 0 (p.channel ++ (0 ∷ [])) (omega arith) in
      (record f { buf = buf; channellen = length p.channel }, rw (z, e) refl, k, refl)
  | inr z ↦ (f, rw z refl, refl, refl)
]

store_payload_lem :
    (now utime : ℕ) (f : FragBuf) (p : Part)
    → length f.buf ≡ payload_offset p.data_size + p.data_size
    → Checked p
    → (g : FragBuf) × (store_payload now utime f p ≡ some g)
      × (length g.buf ≡ length f.buf)
      × (g.data_size ≡ f.data_size)
unfolding store_payload
store_payload_lem now utime f p s c =
    let fits = c.data_fits in
    let (buf, e, k) =
      write_at_lem f.buf (payload_offset p.data_size + p.fragment_offset) p.payload (omega arith) in
    (with_payload now utime f p buf, rw (e, store_payload) refl, k, refl)

-- The fragment is not written outside, and the buffer keeps its size.
pub data Safe : Placed → Type 0 where
  safe_duplicate : Safe duplicate
  safe_conflict : Safe conflict
  safe_placed : (f : FragBuf) → Sized f → Safe (placed f)

pub store-Safe :
    (now utime : ℕ) (f : FragBuf) (p : Part)
    → Sized f
    → f.data_size ≡ p.data_size
    → Checked p
    → Safe (store now utime f p)
unfolding store
store-Safe now utime f p s d c =
    elim (Bool-cases (get_or f.fragments p.fragment_no no_fragment).received) [
      | inl r ↦ elim (Bool-cases (same_part f p)) [
        | inl e ↦ rw (r, e) safe_duplicate
        | inr e ↦ rw (r, e) safe_conflict
      ]
      | inr r ↦ elim (Bool-cases (adjacent f p)) [
        | inr a ↦ rw (r, a) safe_conflict
        | inl a ↦
            let (g, e, l, k) = store_channel_lem f p s d c in
            let same = ap payload_offset d in
            let (h, e', l', k') = store_payload_lem now utime g p (omega arith) c in
            let same' = ap payload_offset (k' ∙ k) in rw (r, a, e, e') (safe_placed h (omega arith))
      ]
    ]
