-- ===== src/Udp/Reassembly/Lookup.antt =====
-- Where a message stands in the pool, and what of it is missing.
use zcm.Prelude.{
  ℕ, zero, suc, ◌+◌, ◌<◌, ◌≡◌, ◌∙◌, inl, inr, ap, fun_ext, refl, sym, arith, Bool, true, false,
  ◌&&◌, Bool-cases, List, [], ◌∷◌, ◌++◌, none, some, if◌then◌else◌, ◌==◌, length, get_or, set,
  replicate, ==_iff, equal_self, All,
}
use zcm.Udp.Pool.{Sockaddr, Fragment, FragBuf, sockaddr_equal, lookup_frag_buf}
use zcm.Udp.Recv.{Packet}
use zcm.Udp.Reassembly.Placing.{mark, counted}

abbrev pub packet_of : Sockaddr → ℕ → List ℕ → Packet
packet_of from utime raw = record { utime = utime; from = from; bytes = raw }

-- A message of another sender or of another number.
abbrev pub Other : Sockaddr → ℕ → FragBuf → Type 0
Other from seqno f = (sockaddr_equal f.from from && f.msg_seqno == seqno) ≡ false

pub set-last :
    (rest : List FragBuf) (x f : FragBuf)
    → set (rest ++ (x ∷ [])) (length rest) f ≡ rest ++ (f ∷ [])
set-last [] x f = refl
set-last (y ∷ rest) x f = ap (λ l. y ∷ l) (set-last rest x f)

pub lookup-none :
    (from : Sockaddr) (seqno : ℕ) (xs : List FragBuf)
    → All (Other from seqno) xs
    → lookup_frag_buf from seqno xs ≡ none
unfolding lookup_frag_buf
lookup-none from seqno [] a = refl
lookup-none from seqno (x ∷ xs) (o, a) = rw (o, lookup-none from seqno xs a) refl

pub lookup-last :
    (from : Sockaddr) (seqno : ℕ) (rest : List FragBuf) (f : FragBuf)
    → All (Other from seqno) rest
    → (sockaddr_equal f.from from && f.msg_seqno == seqno) ≡ true
    → lookup_frag_buf from seqno (rest ++ (f ∷ [])) ≡ some (length rest, f)
unfolding lookup_frag_buf
lookup-last from seqno [] f a e = rw e refl
lookup-last from seqno (x ∷ xs) f (o, a) e =
    rw (o, lookup-last from seqno xs f a e) (ap (λ i. some (i, f)) (omega arith))

pub same_key :
    (from : Sockaddr) (seqno : ℕ) (f : FragBuf)
    → f.from ≡ from
    → f.msg_seqno ≡ seqno
    → (sockaddr_equal f.from from && f.msg_seqno == seqno) ≡ true
unfolding sockaddr_equal
same_key from seqno f e s =
    rw (e, s, equal_self from.addr, equal_self from.port, equal_self from.family, equal_self seqno)
      refl

pub get_or-replicate : (n k : ℕ) (x : Fragment) → get_or (replicate n x) k x ≡ x
get_or-replicate zero k x = refl
get_or-replicate (suc n) zero x = refl
get_or-replicate (suc n) (suc k) x = get_or-replicate n k x

pub counted-none : (n : ℕ) → counted (λ k. false) n ≡ 0
unfolding counted
counted-none zero = refl
counted-none (suc n) = let rest = counted-none n in omega arith

-- Not all were seen: there is one that was not.
pub missing : (seen : ℕ → Bool) (n : ℕ) → counted seen n < n → (j : ℕ) × (j < n) × (seen j ≡ false)
unfolding counted
missing seen zero h = absurd (omega arith)
missing seen (suc n) h = elim (Bool-cases (seen n)) [
  | inl e ↦ let (j, l, s) = missing seen n (fewer (rw e at h)) in (j, omega arith, s)
  | inr e ↦ (n, omega arith, e)
]
  where
    fewer : (if true then 1 else 0) + counted seen n < suc n → counted seen n < n
    fewer h = omega arith

pub mark_seen : (seen : ℕ → Bool) (k : ℕ) → seen k ≡ true → mark k seen ≡ seen
mark_seen seen k e = fun_ext (λ j. elim (Bool-cases (j == k)) [
  | inl z ↦ rw z (sym e ∙ ap seen (sym ((==_iff j k).0 z)))
  | inr z ↦ rw z refl
])
