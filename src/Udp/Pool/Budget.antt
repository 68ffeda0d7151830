-- ===== src/Udp/Pool/Budget.antt =====
-- The pool keeps within its two bounds, but for a single message that is larger.
use zcm.Prelude.{
  ℕ, zero, suc, ◌+◌, ◌-◌, ◌*◌, ◌≤◌, ◌<◌, ◌≡◌, ◌⊎◌, inl, inr, ap, refl, subst, arith, ◌&&◌, ◌||◌,
  not, List, [], ◌∷◌, ◌++◌, ltb, leb, ◌==◌, length, get_or, set, take, Bool-cases, ==_iff,
  length-append, length-set, length-take, get_or-set_self, get_or-set_ne,
}
use zcm.Udp.Pool.{
  FragBuf, MessagePool, Sizes, blank, remove_at, eldest_from, eldest_index, make_room, add_frag_buf,
}

-- The sum of the elements' `allocated_size`.
abbrev pub allocated_sum : List FragBuf → ℕ
allocated_sum [] = 0
allocated_sum (f ∷ fs) = f.allocated_size + allocated_sum fs

allocated_sum-append :
    (xs ys : List FragBuf) → allocated_sum (xs ++ ys) ≡ allocated_sum xs + allocated_sum ys
allocated_sum-append [] ys = omega arith
allocated_sum-append (x ∷ xs) ys = omega (arith, allocated_sum-append xs ys)

allocated_sum-take :
    (k : ℕ) (ys : List FragBuf)
    → length ys ≡ k + 1
    → allocated_sum (take k ys) + (get_or ys k blank).allocated_size ≡ allocated_sum ys
allocated_sum-take k [] h = absurd (omega arith)
allocated_sum-take zero (y ∷ []) h = omega arith
allocated_sum-take zero (y ∷ z ∷ ys) h = absurd (omega arith)
allocated_sum-take (suc k) (y ∷ ys) h = omega (arith, allocated_sum-take k ys (omega arith))

allocated_sum-set :
    (xs : List FragBuf) (i : ℕ) (z : FragBuf)
    → i < length xs
    → allocated_sum (set xs i z) + (get_or xs i blank).allocated_size
      ≡ allocated_sum xs + z.allocated_size
allocated_sum-set [] i z h = absurd (omega arith)
allocated_sum-set (x ∷ xs) zero z h = omega arith
allocated_sum-set (x ∷ xs) (suc i) z h = omega (arith, allocated_sum-set xs i z (omega arith))

get_or-set_last :
    (xs : List FragBuf) (i k : ℕ)
    → i < length xs
    → get_or (set xs i (get_or xs k blank)) k blank ≡ get_or xs k blank
get_or-set_last xs i k h = elim (Bool-cases (i == k)) [
  | inl e ↦
      subst (λ j. get_or (set xs i (get_or xs j blank)) j blank ≡ get_or xs j blank)
        ((==_iff i k).0 e) (get_or-set_self xs i (get_or xs i blank) blank h)
  | inr e ↦ get_or-set_ne xs i k _ blank (λ q. ground arith)
]

-- What the pool counts is what its elements take, and removing one never takes the count below 0.
pub record Budget (p : MessagePool) : Type 0 where
  pub counted : p.total_size ≡ allocated_sum p.fragbufs
  pub few : length p.fragbufs ≤ p.max_buffers
  pub small : (p.total_size ≤ p.max_size) ⊎ (length p.fragbufs ≤ 1)

pub remove_at_lem :
    (p : MessagePool) (i : ℕ)
    → p.total_size ≡ allocated_sum p.fragbufs
    → i < length p.fragbufs
    → ((remove_at p i).total_size ≡ allocated_sum (remove_at p i).fragbufs)
      × (length (remove_at p i).fragbufs + 1 ≡ length p.fragbufs)
      × ((remove_at p i).total_size ≤ p.total_size)
unfolding remove_at
remove_at_lem p i c h =
    let xs = p.fragbufs in
    let k = length xs - 1 in
    let z = get_or xs k blank in
    let ys = set xs i z in
    let l = length-set xs i z in
    let a = allocated_sum-take k ys (omega arith) in
    let b = allocated_sum-set xs i z h in
    let e = ap (λ f. f.allocated_size) (get_or-set_last xs i k h) in
    let t = length-take k ys in (omega arith, omega arith, omega arith)

eldest_from_lem :
    (i : ℕ) (fs : List FragBuf) (idx : ℕ) (f : FragBuf)
    → idx < i
    → eldest_from i fs idx f < i + length fs
unfolding eldest_from
eldest_from_lem i [] idx f h = omega arith
eldest_from_lem i (g ∷ gs) idx f h =
    elim (Bool-cases (ltb g.last_packet_utime f.last_packet_utime)) [
      | inl e ↦ rw e (omega (arith, eldest_from_lem (i + 1) gs i g (omega arith)))
      | inr e ↦ rw e (omega (arith, eldest_from_lem (i + 1) gs idx f (omega arith)))
    ]

eldest_index_lem : (fs : List FragBuf) → 0 < length fs → eldest_index fs < length fs
unfolding eldest_index
eldest_index_lem [] h = absurd (omega arith)
eldest_index_lem (f ∷ fs) h = omega (arith, eldest_from_lem 1 fs 0 f (omega arith))

-- What `make_room` leaves: an empty pool, or one with room for the new element.
record Roomy (allocated : ℕ) (p p' : MessagePool) : Type 0 where
  counted : p'.total_size ≡ allocated_sum p'.fragbufs
  max_size : p'.max_size ≡ p.max_size
  max_buffers : p'.max_buffers ≡ p.max_buffers
  room :
      (length p'.fragbufs ≡ 0)
      ⊎ ((p'.total_size + allocated ≤ p'.max_size) × (length p'.fragbufs < p'.max_buffers))

make_room-Roomy :
    (fuel allocated : ℕ) (p : MessagePool)
    → p.total_size ≡ allocated_sum p.fragbufs
    → length p.fragbufs ≤ fuel
    → Roomy allocated p (make_room fuel allocated p)
unfolding make_room remove_at
make_room-Roomy zero allocated p c h = record {
  counted = c;
  max_size = refl;
  max_buffers = refl;
  room = inl (omega arith);
}
make_room-Roomy (suc fuel) allocated p c h =
    let again =
      not (length p.fragbufs == 0)
      && (ltb p.max_size (p.total_size + allocated) || leb p.max_buffers (length p.fragbufs)) in
    let i = eldest_index p.fragbufs in
    elim (Bool-cases again) [
      | inl e ↦
          let some_left : 0 < length p.fragbufs = ground arith in
          let r = remove_at_lem p i c (eldest_index_lem p.fragbufs some_left) in
          let k = make_room-Roomy fuel allocated (remove_at p i) r.0 (omega arith) in
          rw e record {
            counted = k.counted;
            max_size = k.max_size;
            max_buffers = k.max_buffers;
            room = k.room;
          }
      | inr e ↦
          rw e record { counted = c; max_size = refl; max_buffers = refl; room = ground arith }
    ]

-- A pool that may hold a message at all, and keeps its bounds, keeps them when `addFragBuf` adds one
-- of any size: it evicts messages until both bounds hold, or until no other message is left.
pub add_frag_buf-Budget :
    (sizes : Sizes) (p : MessagePool) (now data_size fragments_in_msg : ℕ)
    → 0 < p.max_buffers
    → Budget p
    → Budget (add_frag_buf sizes p now data_size fragments_in_msg).1
unfolding add_frag_buf
add_frag_buf-Budget sizes p now data_size fragments_in_msg pos b =
    let allocated = data_size + sizes.of_frag_buf + fragments_in_msg * sizes.of_fragment in
    let p' = make_room (length p.fragbufs) allocated p in
    let r = make_room-Roomy (length p.fragbufs) allocated p b.counted (omega arith) in
    let fbuf = (add_frag_buf sizes p now data_size fragments_in_msg).0 in
    let s = allocated_sum-append p'.fragbufs (fbuf ∷ []) in
    let l = length-append p'.fragbufs (fbuf ∷ []) in
    let c = r.counted in
    let m = r.max_buffers in
    let n = r.max_size in
    elim r.room [
      | inl e ↦ record { counted = omega arith; few = omega arith; small = inr (omega arith) }
      | inr (fits, few) ↦ record {
        counted = omega arith;
        few = omega arith;
        small = inl (omega arith);
      }
    ]

pub remove_at-Budget :
    (p : MessagePool) (i : ℕ) → i < length p.fragbufs → Budget p → Budget (remove_at p i)
unfolding remove_at
remove_at-Budget p i h b =
    let r = remove_at_lem p i b.counted h in
    let f = b.few in
    record {
      counted = r.0;
      few = omega arith;
      small = elim b.small [ inl s ↦ inl (omega arith) | inr s ↦ inr (omega arith) ];
    }
