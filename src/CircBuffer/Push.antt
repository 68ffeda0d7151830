-- ===== src/CircBuffer/Push.antt =====
-- `cb_push_back` appends a byte.
use zcm.Prelude.{
  ℕ, ◌+◌, ◌-◌, ◌<◌, ◌≡◌, ◌∙◌, ap, ap₂, refl, arith, [], ◌∷◌, ◌++◌, set, tabulate_cong, tabulate-add,
  get_or-set_self, get_or-set_ne, length-set, get_or, leb, if◌then◌else◌,
}
use zcm.CircBuffer.{CircBuffer, cb_size, cb_room, cb_front, cb_push_back}
use zcm.CircBuffer.Contents.{IsValid, contents}

pub push_back-IsValid : {cb : CircBuffer} (d : ℕ) → IsValid cb → IsValid (cb_push_back cb d)
unfolding cb_push_back
push_back-IsValid {cb} d v = ground (arith, length-set cb.mem cb.back d)

pub size-push_back :
    {cb : CircBuffer} (d : ℕ)
    → IsValid cb
    → 0 < cb_room cb
    → cb_size (cb_push_back cb d) ≡ cb_size cb + 1
unfolding cb_push_back cb_room
size-push_back d v h = ground arith

front-push_back_old :
    {cb : CircBuffer} (d k : ℕ)
    → IsValid cb
    → k < cb_size cb
    → cb_front (cb_push_back cb d) k ≡ cb_front cb k
unfolding cb_push_back cb_size cb_front
front-push_back_old {cb} d k v h =
    let i = if leb cb.capacity (cb.front + k) then cb.front + k - cb.capacity else cb.front + k in
    get_or-set_ne cb.mem cb.back i d 0 (ground arith)

front-push_back_new :
    {cb : CircBuffer} (d k : ℕ) → IsValid cb → k ≡ cb_size cb → cb_front (cb_push_back cb d) k ≡ d
unfolding cb_push_back cb_size cb_front
front-push_back_new {cb} d k v h =
    let i = if leb cb.capacity (cb.front + k) then cb.front + k - cb.capacity else cb.front + k in
    let e : i ≡ cb.back = ground arith in
    ap (λ t. get_or (set cb.mem cb.back d) t 0) e
    ∙ get_or-set_self cb.mem cb.back d 0 (ground arith)

-- With room `cb_push_back` appends its byte, and keeps the ring valid.
pub push_back_lem :
    {cb : CircBuffer} (d : ℕ)
    → IsValid cb
    → 0 < cb_room cb
    → IsValid (cb_push_back cb d) × (contents (cb_push_back cb d) ≡ contents cb ++ (d ∷ []))
unfolding contents
push_back_lem {cb} d v h = (
  push_back-IsValid d v,
  tabulate_cong _ (cb_size cb + 1) _ _ (size-push_back d v h) (λ k p. refl)
      ∙ tabulate-add (cb_size cb) 1 (cb_front (cb_push_back cb d))
      ∙ ap₂ ◌++◌ (tabulate_cong _ _ _ _ refl (λ k p. front-push_back_old d k v p))
          (ap (λ t. t ∷ []) (front-push_back_new d (cb_size cb + 0) v (omega arith))),
)
