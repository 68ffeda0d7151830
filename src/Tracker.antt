-- ===== src/Tracker.antt =====
-- zcm/message_tracker.hpp: the tracker keeps the last messages of a channel and answers the one
-- nearest to a time. Left out are the callback thread and the two filters over doubles.
pub mod Search
pub mod Nearest
pub mod Buffer
use zcm.Prelude.{
  ℕ, ◌+◌, ◌-◌, ◌^◌, Bool, true, false, not, ◌&&◌, ◌||◌, List, [], ◌∷◌, ◌++◌, Option, none, some,
  if◌then◌else◌, ltb, leb, ◌==◌, length, drop,
}

abbrev pub uint64_max : ℕ
uint64_max = 2 ^ 64 - 1

-- `MsgType`: a message, and the utime that it was received at.
pub record Stored {ℓ} (M : Type ℓ) : Type ℓ where
  pub msg : M
  pub host_utime : ℕ

-- What a message type brings. `own_utime` is its field `utime` or its method `getUtime()`, if it has
-- one; `msg_utime` and `interpolate` are the virtual methods of `Tracker`.
pub record Traits {ℓ} (M : Type ℓ) : Type ℓ where
  pub own_utime : Option (M → ℕ)
  pub msg_utime : M → ℕ
  pub interpolate : ℕ → M → ℕ → M → ℕ → M

-- The state: `buf` with the oldest message first.
pub record Tracker {ℓ} (M : Type ℓ) : Type ℓ where
  pub traits : Traits M
  pub max_time_err_us : ℕ
  pub buf : List (Stored M)
  pub buf_max : ℕ
  pub last_host_utime : ℕ

-- The search of `get`: the best messages at or before the time, and at or after it.
pub record Bracket {ℓ} (M : Type ℓ) : Type ℓ where
  pub m0 : Option (Stored M)
  pub m0_utime : ℕ
  pub m1 : Option (Stored M)
  pub m1_utime : ℕ

-- A null pointer.
abbrev pub is_none {ℓ} : {A : Type ℓ} → Option A → Bool
is_none none = true
is_none (some a) = false

module _ {ℓ} {M : Type ℓ} where
  -- The default of `Tracker::getMsgUtime` and of `Tracker::interpolate`.
  pub default_msg_utime : M → ℕ
  default_msg_utime m = uint64_max

  unfoldable pub default_interpolate : ℕ → M → ℕ → M → ℕ → M
  default_interpolate target a utime_a b utime_b =
      if ltb (target - utime_a) (utime_b - target) then a else b

  -- `MsgWithUtime::getUtime`, and `MsgWithUtime::getMsgUtime` of a stored message.
  abbrev pub own : Option (M → ℕ) → Stored M → ℕ
  own none s = s.host_utime
  own (some f) s = f s.msg

  unfoldable pub get_msg_utime : Traits M → Stored M → ℕ
  get_msg_utime tr s =
      let tmp = tr.msg_utime s.msg in if tmp == uint64_max then own tr.own_utime s else tmp

  -- The utime that the loop of `get` works with.
  unfoldable pub search_utime : Traits M → Stored M → ℕ
  search_utime tr s =
      let utime = get_msg_utime tr s in if utime == uint64_max then own tr.own_utime s else utime

  -- One round of the loop of `get`.
  unfoldable pub bracket_step : Traits M → ℕ → Stored M → Bracket M → Bracket M
  bracket_step tr utime m b =
      let m_utime = search_utime tr m in
      let before = leb m_utime utime && (is_none b.m0 || ltb b.m0_utime m_utime) in
      let after = leb utime m_utime && (is_none b.m1 || ltb m_utime b.m1_utime) in
      record {
        m0 = if before then some m else b.m0;
        m0_utime = if before then m_utime else b.m0_utime;
        m1 = if after then some m else b.m1;
        m1_utime = if after then m_utime else b.m1_utime;
      }

  unfoldable pub search : Traits M → ℕ → List (Stored M) → Bracket M → Bracket M
  search tr utime [] b = b
  search tr utime (m ∷ ms) b = search tr utime ms (bracket_step tr utime m b)

  abbrev pub start : Bracket M
  start = record { m0 = none; m0_utime = 0; m1 = none; m1_utime = uint64_max }

  -- What `get` makes of the two messages, those too far away dropped.
  unfoldable pub choose :
      Traits M → ℕ → Bracket M → Option (Stored M) → Option (Stored M) → Option M
  choose tr utime b (some a) (some c) =
      if b.m0_utime == b.m1_utime
      then some a.msg
      else some (tr.interpolate utime a.msg b.m0_utime c.msg b.m1_utime)
  choose tr utime b (some a) none = some a.msg
  choose tr utime b none (some c) = some c.msg
  choose tr utime b none none = none

  abbrev pub close : ℕ → ℕ → Option (Stored M) → Option (Stored M)
  close max_err err o = if ltb max_err err then none else o

  -- `get(utime, first, last, lk)`
  unfoldable pub get_between : Traits M → ℕ → ℕ → List (Stored M) → Option M
  get_between tr max_err utime ms =
      let b = search tr utime ms start in
      choose tr utime b (close max_err (utime - b.m0_utime) b.m0)
        (close max_err (b.m1_utime - utime) b.m1)

  -- `get(utime)`
  unfoldable pub get_at : Tracker M → ℕ → Option M
  get_at t utime = get_between t.traits t.max_time_err_us utime t.buf

  -- `get()`
  unfoldable pub get_latest : List (Stored M) → Option M
  get_latest [] = none
  get_latest (m ∷ []) = some m.msg
  get_latest (m ∷ n ∷ ms) = get_latest (n ∷ ms)

  -- The loop of `getRange`.
  unfoldable pub get_range : Traits M → ℕ → ℕ → List (Stored M) → List M
  get_range tr a b [] = []
  get_range tr a b (m ∷ ms) =
      let rest = get_range tr a b ms in
      let utime = get_msg_utime tr m in if leb a utime && leb utime b then m.msg ∷ rest else rest

  -- The two loops of `expireBefore`, each with the number of messages that it deletes.
  unfoldable pub expire_front : Traits M → ℕ → List (Stored M) → ℕ × List (Stored M)
  expire_front tr utime [] = (0, [])
  expire_front tr utime (m ∷ ms) =
      let rest = expire_front tr utime ms in
      if leb utime (get_msg_utime tr m) then (0, m ∷ ms) else (rest.0 + 1, rest.1)

  unfoldable pub expire_rest : Traits M → ℕ → List (Stored M) → ℕ × List (Stored M)
  expire_rest tr utime [] = (0, [])
  expire_rest tr utime (m ∷ ms) =
      let (n, kept) = expire_rest tr utime ms in
      if ltb (get_msg_utime tr m) utime then (n + 1, kept) else (n, m ∷ kept)

  unfoldable pub expire_before : Tracker M → ℕ → ℕ × Tracker M
  expire_before t utime =
      let (n, left) = expire_front t.traits utime t.buf in
      let (n', left') = expire_rest t.traits utime left in (n + n', record t { buf = left' })

  -- The message list of `newMsg`.
  unfoldable pub new_msg : Tracker M → M → ℕ → ℕ × Tracker M
  new_msg t m host_utime =
      let tmp : Stored M = record { msg = m; host_utime = host_utime } in
      let kept = if length t.buf == t.buf_max then drop 1 t.buf else t.buf in
      (
        get_msg_utime t.traits tmp,
        record t { buf = kept ++ (tmp ∷ []); last_host_utime = host_utime },
      )

  unfoldable pub last_msg_host_utime : Tracker M → ℕ
  last_msg_host_utime t = if length t.buf == 0 then uint64_max else t.last_host_utime
