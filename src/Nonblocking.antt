-- ===== src/Nonblocking.antt =====
-- zcm/nonblocking.c: the core that one thread drives. The three arrays of a subscription's slot are
-- one list of slots, whose length is `ZCM_NONBLOCK_SUBS_MAX`; a subscription is its slot's number.
pub mod Slots
pub mod Valid
pub mod Match
pub mod Dispatch
pub mod OverInproc
use zcm.Prelude.{
  ℕ, zero, suc, ◌+◌, ◌-◌, Bool, true, false, not, ◌&&◌, ◌||◌, ◌⊎◌, inl, inr, List, [], ◌∷◌, Option,
  none, some, if◌then◌else◌, ltb, leb, ◌==◌, length, take, replicate, get_or, set,
}
use zcm.Transport.{
  Retcode, eok, einvalid, ememory, channel_maxlen, Msg, ZcmType, blocking, nonblocking, Methods,
}

-- `zcm_sub_t`, `subInUse` and `subIsRegex` at one index. The handler and its argument are numbers.
pub record Slot : Type 0 where
  pub channel : List ℕ
  pub callback : ℕ
  pub usr : ℕ
  pub in_use : Bool
  pub is_regex : Bool

-- `zcm_nonblocking`
pub record Nonblocking (T : Type 0) : Type 0 where
  pub zt : T
  pub subs : List Slot
  pub sub_in_use_end : ℕ

-- What `malloc` leaves in a slot does not matter while it is not in use.
abbrev pub unused : Slot
unused = record { channel = []; callback = 0; usr = 0; in_use = false; is_regex = false }

-- `(`, `)`, `|`, `.`, `*`, `+`
abbrev pub regex_char : ℕ → Bool
regex_char c = c == 40 || c == 41 || c == 124 || c == 46 || c == 42 || c == 43

unfoldable pub is_regex_channel : List ℕ → Bool
is_regex_channel [] = false
is_regex_channel (c ∷ cs) = if regex_char c then true else is_regex_channel cs

-- `a` to `z`, `A` to `Z`, `0` to `9`, `_`
abbrev pub plain_char : ℕ → Bool
plain_char c = leb 97 c && leb c 122 || leb 65 c && leb c 90 || leb 48 c && leb c 57 || c == 95

unfoldable pub all_plain : List ℕ → Bool
all_plain [] = true
all_plain (c ∷ cs) = if plain_char c then all_plain cs else false

unfoldable pub is_supported_regex : List ℕ → Bool
is_supported_regex c =
    let clen = length c in
    if not (is_regex_channel c)
    then true
    else if ltb clen 2
    then false
    else if not (get_or c (clen - 1) 0 == 42)
    then false
    else if not (get_or c (clen - 2) 0 == 46)
    then false
    else all_plain (take (clen - 2) c)

-- `strncmp(s, t, n) == 0`, on the bytes before the NULs.
unfoldable pub same_prefix : ℕ → List ℕ → List ℕ → Bool
same_prefix zero s t = true
same_prefix (suc n) [] [] = true
same_prefix (suc n) [] (y ∷ t) = false
same_prefix (suc n) (x ∷ s) [] = false
same_prefix (suc n) (x ∷ s) (y ∷ t) = if x == y then same_prefix n s t else false

-- `zcm_nonblocking_try_create`; the Boolean says whether `malloc` has room.
unfoldable pub try_create : {T : Type 0} → ℕ → Bool → ZcmType → T → Retcode × Option (Nonblocking T)
try_create subs_max room blocking zt = (einvalid, none)
try_create subs_max false nonblocking zt = (ememory, none)
try_create subs_max true nonblocking zt =
    (eok, some (record { zt = zt; subs = replicate subs_max unused; sub_in_use_end = 0 }))

-- The first slot of the loop of `zcm_nonblocking_subscribe` that is not passed over.
unfoldable pub first_free : List Slot → ℕ → ℕ → Option ℕ
first_free [] i last = none
first_free (s ∷ ss) i last =
    let rest = first_free ss (i + 1) last in
    if leb i last then (if s.in_use then rest else some i) else none

-- The loop over the last slots of `zcm_nonblocking_unsubscribe`.
unfoldable pub shrink : List Slot → ℕ → ℕ
shrink ss zero = zero
shrink ss (suc last) =
    let rest = shrink ss last in if (get_or ss last unused).in_use then suc last else rest

-- The loop that looks for another subscription of the channel, from slot `i` on.
unfoldable pub last_chan_sub : List Slot → ℕ → ℕ → ℕ → List ℕ → Bool
last_chan_sub [] i last match_idx channel = true
last_chan_sub (s ∷ ss) i last match_idx channel =
    let rest = last_chan_sub ss (i + 1) last match_idx channel in
    if ltb i last
    then (if not s.in_use
        then rest
        else if not (match_idx == i) && same_prefix channel_maxlen channel s.channel
        then false
        else rest)
    else true

-- `shouldDispatch`
unfoldable pub should_dispatch : Slot → List ℕ → Bool
should_dispatch s channel =
    if s.is_regex
    then leb 2 (length s.channel) && same_prefix (length s.channel - 2) s.channel channel
    else same_prefix channel_maxlen s.channel channel

module _ {T : Type 0} (m : Methods T) where
  abbrev pub with_zt : Nonblocking T → Retcode × T → Retcode × Nonblocking T
  with_zt z (rc, zt) = (rc, record z { zt = zt })

  -- `msg.utime` is not set: it is what the stack holds.
  unfoldable pub nonblocking_publish : ℕ → Nonblocking T → List ℕ → List ℕ → Retcode × Nonblocking T
  nonblocking_publish junk z channel bytes =
      with_zt z (m.sendmsg z.zt (record { utime = junk; channel = channel; buf = bytes }))

  -- The body of the loop of `zcm_nonblocking_subscribe`.
  abbrev pub occupy : Nonblocking T → List ℕ → ℕ → ℕ → Option ℕ → Option ℕ × Nonblocking T
  occupy z channel cb usr none = (none, z)
  occupy z channel cb usr (some i) =
      let name = take channel_maxlen channel in
      let slot : Slot = record {
        channel = name;
        callback = cb;
        usr = usr;
        in_use = false;
        is_regex = is_regex_channel name;
      } in
      if is_regex_channel name && not (is_supported_regex name)
      then (none, record z { subs = set z.subs i slot })
      else (
        some i,
        record z {
          subs = set z.subs i (record slot { in_use = true });
          sub_in_use_end = if i == z.sub_in_use_end then z.sub_in_use_end + 1 else z.sub_in_use_end;
        },
      )

  abbrev pub if_enabled : List ℕ → ℕ → ℕ → Retcode × Nonblocking T → Option ℕ × Nonblocking T
  if_enabled channel cb usr (eok, z) =
      occupy z channel cb usr (first_free z.subs 0 z.sub_in_use_end)
  if_enabled channel cb usr (_, z) = (none, z)

  unfoldable pub nonblocking_subscribe : Nonblocking T → List ℕ → ℕ → ℕ → Option ℕ × Nonblocking T
  nonblocking_subscribe z channel cb usr =
      if_enabled channel cb usr (with_zt z (m.recvmsg_enable z.zt channel true))

  abbrev pub vacate : ℕ → Retcode × Nonblocking T → Retcode × Nonblocking T
  vacate i (rc, z) =
      let subs = set z.subs i (record (get_or z.subs i unused) { in_use = false }) in
      (rc, record z { subs = subs; sub_in_use_end = shrink subs z.sub_in_use_end })

  unfoldable pub nonblocking_unsubscribe : Nonblocking T → ℕ → Retcode × Nonblocking T
  nonblocking_unsubscribe z match_idx =
      let sub = get_or z.subs match_idx unused in
      if not (ltb match_idx z.sub_in_use_end)
      then (einvalid, z)
      else if not sub.in_use
      then (einvalid, z)
      else vacate match_idx (
          if last_chan_sub z.subs 0 z.sub_in_use_end match_idx sub.channel
          then with_zt z (m.recvmsg_enable z.zt sub.channel false)
          else (eok, z))

  -- The handlers run on the program's own state and may call back into the core.
  module _ {W : Type 0} (call : Slot → Msg → W × Nonblocking T → W × Nonblocking T) where
    -- The loop of `dispatch_message` from slot `i` on; the first argument is the slots that are left.
    unfoldable pub dispatch_loop : ℕ → ℕ → Msg → W × Nonblocking T → W × Nonblocking T
    dispatch_loop zero i msg w = w
    dispatch_loop (suc left) i msg w =
        let s = get_or w.1.subs i unused in
        if ltb i w.1.sub_in_use_end
        then dispatch_loop left (i + 1) msg
            (if s.in_use && should_dispatch s msg.channel then call s msg w else w)
        else w

    unfoldable pub dispatch_message : Msg → W × Nonblocking T → W × Nonblocking T
    dispatch_message msg w = dispatch_loop (length w.1.subs) 0 msg w

    abbrev update_zt : W × Nonblocking T → W × Nonblocking T
    update_zt (w, z) = (w, record z { zt = (m.update z.zt).1 })

    abbrev pub receive : W × Nonblocking T → (Retcode ⊎ Msg) × (W × Nonblocking T)
    receive (w, z) = let (r, zt) = m.recvmsg z.zt 0 in (r, (w, record z { zt = zt }))

    abbrev pub handle_received :
        (Retcode ⊎ Msg) × (W × Nonblocking T) → Retcode × (W × Nonblocking T)
    handle_received (inl ret, w) = (ret, w)
    handle_received (inr msg, w) = (eok, dispatch_message msg w)

    unfoldable pub handle_nonblock : W × Nonblocking T → Retcode × (W × Nonblocking T)
    handle_nonblock w = handle_received (receive (update_zt w))

    abbrev pub flush_received :
        (W × Nonblocking T → Option (W × Nonblocking T))
        → (Retcode ⊎ Msg) × (W × Nonblocking T)
        → Option (W × Nonblocking T)
    flush_received again (inl ret, w) = some w
    flush_received again (inr msg, w) = again (dispatch_message msg w)

    -- The loop of `zcm_nonblocking_flush`, which need not end: handlers may publish. So many rounds.
    unfoldable pub flush_loop : ℕ → W × Nonblocking T → Option (W × Nonblocking T)
    flush_loop zero w = none
    flush_loop (suc fuel) w = flush_received (flush_loop fuel) (receive w)

    unfoldable pub nonblocking_flush : ℕ → W × Nonblocking T → Option (W × Nonblocking T)
    nonblocking_flush fuel w = flush_loop fuel (update_zt (update_zt w))
