-- ===== src/Serial/Wrote.antt =====
-- What a run of pushes does to the send ring, while there is room.
use zcm.Prelude.{
  ℕ, ◌+◌, ◌-◌, ◌≤◌, ◌<◌, ◌≡◌, ◌∙◌, ap, sym, refl, arith, List, [], ◌∷◌, ◌++◌, length, length-append,
  append-nil, append_assoc, take, take-length_append,
}
use zcm.CircBuffer.{cb_size, cb_room, cb_push_back, cb_pop_back}
use zcm.CircBuffer.Contents.{IsValid, contents, length-contents, size-add-room}
use zcm.CircBuffer.Push.{push_back_lem}
use zcm.CircBuffer.Pop.{pop_back_lem}
use zcm.Serial.{Out, put, put_all}

-- From `o` to `o'` the bytes were appended, and counted.
pub record Wrote (o o' : Out) (bytes : List ℕ) : Type 0 where
  pub valid : IsValid o'.ring
  pub appended : contents o'.ring ≡ contents o.ring ++ bytes
  pub counted : o'.n_pushed ≡ o.n_pushed + length bytes
  pub same_ring : o'.ring.capacity ≡ o.ring.capacity

pub Wrote-nil : (o : Out) → IsValid o.ring → Wrote o o []
Wrote-nil o v = record {
  valid = v;
  appended = sym (append-nil (contents o.ring));
  counted = omega arith;
  same_ring = refl;
}

pub Wrote-append :
    {o o' o'' : Out} (xs ys : List ℕ) → Wrote o o' xs → Wrote o' o'' ys → Wrote o o'' (xs ++ ys)
Wrote-append {o} xs ys a b = record {
  valid = b.valid;
  appended = b.appended ∙ ap (λ t. t ++ ys) a.appended ∙ append_assoc (contents o.ring) xs ys;
  counted = omega (arith, a.counted, b.counted, length-append xs ys);
  same_ring = b.same_ring ∙ a.same_ring;
}

-- What is written leaves that much less room.
pub Wrote-room :
    {o o' : Out} {bytes : List ℕ}
    → IsValid o.ring
    → Wrote o o' bytes
    → cb_room o'.ring + length bytes ≡ cb_room o.ring
Wrote-room {o} {o'} {bytes} v w = omega (
  arith,
  w.same_ring,
  size-add-room v,
  size-add-room w.valid,
  length-contents o.ring,
  length-contents o'.ring,
  ap length w.appended,
  length-append (contents o.ring) bytes,
)

pub put_lem : (c : ℕ) (o : Out) → IsValid o.ring → 0 < cb_room o.ring → Wrote o (put c o) (c ∷ [])
unfolding put
put_lem c o v h =
    let (v', e) = push_back_lem c v h in
    record { valid = v'; appended = e; counted = refl; same_ring = unfold cb_push_back in refl }

pub put_all_lem :
    (cs : List ℕ) (o : Out)
    → IsValid o.ring
    → length cs ≤ cb_room o.ring
    → Wrote o (put_all cs o) cs
unfolding put_all
put_all_lem [] o v h = Wrote-nil o v
put_all_lem (c ∷ cs) o v h =
    let w = put_lem c o v (omega arith) in
    Wrote-append (c ∷ []) cs w (put_all_lem cs (put c o) w.valid (omega (arith, Wrote-room v w)))

-- `cb_pop_back` of all that was pushed leaves the ring as it was.
pub undo :
    {o o' : Out} {bytes : List ℕ}
    → Wrote o o' bytes
    → o.n_pushed ≡ 0
    → IsValid (cb_pop_back o'.ring o'.n_pushed)
      × (contents (cb_pop_back o'.ring o'.n_pushed) ≡ contents o.ring)
undo {o} {o'} {bytes} w h =
    let sizes : cb_size o'.ring ≡ length (contents o.ring) + length bytes =
      sym (length-contents o'.ring)
      ∙ ap length w.appended
      ∙ length-append (contents o.ring) bytes in
    let (v, e) = pop_back_lem o'.n_pushed w.valid (omega (arith, w.counted)) in
    (
      v,
      e
          ∙ ap (λ t. take (cb_size o'.ring - o'.n_pushed) t) w.appended
          ∙ take-length_append (contents o.ring) bytes _ (omega (arith, w.counted)),
    )

pub Wrote-checksum :
    {o o' : Out} {bytes : List ℕ}
    → Wrote o o' bytes
    → (s : ℕ) → Wrote o (record o' { checksum = s }) bytes
Wrote-checksum w s = record {
  valid = w.valid;
  appended = w.appended;
  counted = w.counted;
  same_ring = w.same_ring;
}
