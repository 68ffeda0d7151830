-- ===== src/ThreadsafeQueue/Fifo.antt =====
-- The threadsafe queue is first in, first out under every interleaving, and when its waits end.
use zcm.Prelude.{
  ◌+◌, ◌≤◌, ◌<◌, ◌≡◌, ◌∙◌, ap, sym, refl, arith, List, [], ◌∷◌, ◌++◌, length, Bool, true, false,
  ◌||◌, Option, none, some, if◌then◌else◌, Bool-cases, inl, inr, ltb, ltb→lt, ltb→ge, append_assoc,
  lt→ltb, subst,
}
use zcm.Queue
use zcm.Queue.{Queue}
use zcm.Queue.Holds.{Holds, num-lt-capacity}
use zcm.Queue.Refine.{
  push_room, push_full, top_refines, pop_refines, Matches-some, has_message_lem, has_free_space_lem,
}
use zcm.Queue.Resize.{set_capacity-Holds}
use zcm.ThreadsafeQueue.{
  ThreadsafeQueue, push_ready, top_ready, push_now, push_if_room, push, top, pop, disable, enable,
  set_capacity, Run, begin, pushed, not_pushed, pushed_if_room, peeked, popped, disabled_by,
  enabled_by, resized,
}

or_true : (b : Bool) → (b || true) ≡ true
or_true true = refl
or_true false = refl

module _ {ℓ} {A : Type ℓ} where
  push_now_of :
      (t : ThreadsafeQueue A) (a : A) (q : Queue A)
      → Queue.push t.queue a ≡ some q
      → push_now t a ≡ record t { queue = q }
  unfolding push_now
  push_now_of t a q e = rw (e, push_now)

  pub pop_of :
      (t : ThreadsafeQueue A) (q : Queue A)
      → Queue.pop t.queue ≡ some q
      → pop t ≡ some (record t { queue = q })
  unfolding pop
  pop_of t q e = rw (e, pop)

  -- `push` appends its element if there is room, also when disabled. Without room it gives up if
  -- disabled, and otherwise waits.
  pub push_room_lem :
      (t : ThreadsafeQueue A) (xs : List A) (a : A)
      → Holds t.queue xs
      → length xs + 1 < t.queue.capacity
      → (t' : ThreadsafeQueue A) × (push t a ≡ some (true, t'))
        × (push_if_room t a ≡ (true, t'))
        × Holds t'.queue (xs ++ (a ∷ []))
        × (t'.disabled ≡ t.disabled)
  unfolding push push_if_room push_now
  push_room_lem t xs a h room =
      let (free, (q', e, h')) = push_room xs a h room in
      (
        record t { queue = q' },
        ground arith,
        rw free (ap (λ u. (true, u)) (push_now_of t a q' e)),
        h',
        refl,
      )

  pub push_full_lem :
      (t : ThreadsafeQueue A) (xs : List A) (a : A)
      → Holds t.queue xs
      → t.queue.capacity ≤ length xs + 1
      → (push t a ≡ (if t.disabled then some (false, t) else none))
        × (push_if_room t a ≡ (false, t))
  unfolding push push_if_room
  push_full_lem t xs a h full = let free = push_full xs h full in (ground arith, rw free refl)

  -- `top` answers `nullptr` if disabled, waits on an empty queue, and else answers the oldest element.
  pub top_lem :
      (t : ThreadsafeQueue A) (xs : List A)
      → Holds t.queue xs
      → top t ≡ (if t.disabled then some none else elim xs [ [] ↦ none | x ∷ r ↦ some (some x) ])
  unfolding top
  top_lem t [] h = let test = has_message_lem h.in_range ∙ ap (ltb 0) h.counts in ground arith
  top_lem t (x ∷ xs) h =
      let test = has_message_lem h.in_range ∙ ap (ltb 0) h.counts in
      let first = top_refines (x ∷ xs) h in ground arith

  -- After a `pop` a `push` does not wait, and after `disable` neither wait holds.
  pub pop-push_ready :
      (t : ThreadsafeQueue A) (x : A) (xs : List A)
      → Holds t.queue (x ∷ xs)
      → (t' : ThreadsafeQueue A) × (pop t ≡ some t') × Holds t'.queue xs × (push_ready t' ≡ true)
  unfolding push_ready
  pop-push_ready t x xs h =
      let (q', e, h', cap) = Matches-some (pop_refines (x ∷ xs) h) in
      let less = num-lt-capacity h.in_range in
      let room : Queue.has_free_space q' ≡ true =
        has_free_space_lem h'.in_range ∙ lt→ltb _ _ (omega (arith, h'.counts, h.counts)) in
      (record t { queue = q' }, pop_of t q' e, h', rw room (or_true t.disabled))

  pub disable-ready :
      (t : ThreadsafeQueue A) → (push_ready (disable t) ≡ true) × (top_ready (disable t) ≡ true)
  unfolding push_ready top_ready disable
  disable-ready t = (refl, refl)

  -- What the consumer has a pointer to is the oldest element.
  abbrev pub Heads : List A → Option A → Type ℓ
  Heads xs none = Unit {ℓ}
  Heads xs (some a) = (r : List A) × (xs ≡ a ∷ r)

  -- What a run leaves: the elements that were pushed and not taken, in order.
  abbrev pub Left : ThreadsafeQueue A → List A → List A → Option A → Type ℓ
  Left t ins outs held = (xs : List A) × Holds t.queue xs × (ins ≡ outs ++ xs) × Heads xs held

module _ {ℓ} {A : Type ℓ} where
  pushed-Holds :
      (t t' : ThreadsafeQueue A) (xs : List A) (a : A)
      → Holds t.queue xs
      → push_if_room t a ≡ (true, t')
      → Holds t'.queue (xs ++ (a ∷ []))
  pushed-Holds t t' xs a h e = elim (Bool-cases (ltb (length xs + 1) t.queue.capacity)) [
    | inl room ↦
        let (u, _, e', h', _) = push_room_lem t xs a h (ltb→lt _ _ room) in
        subst (λ v. Holds v.queue (xs ++ (a ∷ []))) (ap (λ p. p.1) (sym e' ∙ e)) h'
    | inr full ↦
        let (_, e') = push_full_lem t xs a h (ltb→ge _ _ full) in
        absurd (cc (ap (λ p. p.0) (sym e' ∙ e)))
  ]

  -- A `push` that came back did what `pushIfRoom` does.
  push-eq-if_room :
      (t : ThreadsafeQueue A) (a : A) (r : Bool × ThreadsafeQueue A)
      → push t a ≡ some r
      → push_if_room t a ≡ r
  unfolding push
  push-eq-if_room t a r e = elim (Bool-cases (push_ready t)) [
    | inl ready ↦ let e' : some (push_if_room t a) ≡ some r = rw ready at e in cc
    | inr waits ↦ let e' : none ≡ some r = rw waits at e in absurd (cc)
  ]

  not_pushed-same : (t t' : ThreadsafeQueue A) (a : A) → push_if_room t a ≡ (false, t') → t ≡ t'
  unfolding push_if_room
  not_pushed-same t t' a e = ground arith

  top-first :
      (t : ThreadsafeQueue A) (xs : List A) (a : A)
      → Holds t.queue xs
      → top t ≡ some (some a)
      → (r : List A) × (xs ≡ a ∷ r)
  top-first t [] a h e = let e' = sym (top_lem t [] h) ∙ e in absurd (ground arith)
  top-first t (x ∷ xs) a h e = let e' = sym (top_lem t (x ∷ xs) h) ∙ e in (xs, ground arith)

  Heads-snoc : (xs : List A) (a : A) (held : Option A) → Heads xs held → Heads (xs ++ (a ∷ [])) held
  Heads-snoc xs a none k = tt
  Heads-snoc xs a (some b) (r, e) = (r ++ (a ∷ []), ap (λ l. l ++ (a ∷ [])) e)

  pushed-Left :
      (t t' : ThreadsafeQueue A) (ins outs : List A) (held : Option A) (a : A)
      → Left t ins outs held
      → push_if_room t a ≡ (true, t')
      → Left t' (ins ++ (a ∷ [])) outs held
  pushed-Left t t' ins outs held a (xs, h, e, k) p = (
    xs ++ (a ∷ []),
    pushed-Holds t t' xs a h p,
    ap (λ l. l ++ (a ∷ [])) e ∙ append_assoc outs xs (a ∷ []),
    Heads-snoc xs a held k,
  )

  popped-Left :
      (t t' : ThreadsafeQueue A) (ins outs : List A) (a : A)
      → Left t ins outs (some a)
      → pop t ≡ some t'
      → Left t' ins (outs ++ (a ∷ [])) none
  popped-Left t t' ins outs a (xs, h, e, (r, first)) p =
      let (u, q, h', _) = pop-push_ready t a r (subst (λ l. Holds t.queue l) first h) in
      let same : u ≡ t' = cc (q, p) in
      (
        r,
        subst (λ v. Holds v.queue r) same h',
        e ∙ ap (λ l. outs ++ l) first ∙ sym (append_assoc outs (a ∷ []) r),
        tt,
      )

-- Under every interleaving of producers with one consumer, which reads the top and then pops it, and
-- of disabling, enabling, and resizing above the number of elements while the consumer has no pointer:
-- elements come out in the order in which they went in, none is lost and none is repeated; what is in
-- between stands in the queue, and what the consumer has a pointer to is the oldest of it.
pub Run-Left {ℓ} :
    {A : Type ℓ} {start t : ThreadsafeQueue A} {ins outs : List A} {held : Option A}
    → Holds start.queue []
    → Run start t ins outs held
    → Left t ins outs held
unfolding disable enable set_capacity
Run-Left h begin = ([], h, refl, tt)
Run-Left h (pushed a r e) = pushed-Left _ _ _ _ _ a (Run-Left h r) (push-eq-if_room _ a _ e)
Run-Left h (not_pushed {ins = i} {outs = o} {held = p} a r e) =
    subst (λ u. Left u i o p) (not_pushed-same _ _ a (push-eq-if_room _ a _ e)) (Run-Left h r)
Run-Left h (pushed_if_room a r e) = pushed-Left _ _ _ _ _ a (Run-Left h r) e
Run-Left h (peeked a r e) = let (xs, g, i, k) = Run-Left h r in (xs, g, i, top-first _ xs a g e)
Run-Left h (popped a r e) = popped-Left _ _ _ _ a (Run-Left h r) e
Run-Left h (disabled_by r) = let (xs, g, e, k) = Run-Left h r in (xs, g, e, k)
Run-Left h (enabled_by r) = let (xs, g, e, k) = Run-Left h r in (xs, g, e, k)
Run-Left h (resized n r room) =
    let (xs, g, e, k) = Run-Left h r in
    (xs, set_capacity-Holds xs n g (subst (λ m. m < n) g.counts room), e, k)
