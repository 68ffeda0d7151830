-- ===== src/Blocking/Dispatch.antt =====
-- Subscriptions, and what zcm/blocking.cpp hands to them. `subs` and `subsRegex` are in the order in
-- which the maps are walked.
pub mod Flush
use zcm.Prelude.{
  ℕ, zero, suc, ◌+◌, ◌-◌, Bool, true, false, not, ◌&&◌, ◌||◌, List, [], ◌∷◌, ◌++◌, Option, none,
  some, if◌then◌else◌, ◌==◌, length, take, get_or, set,
}
use zcm.Transport.{Retcode, eok, einvalid, eagain, channel_maxlen, Msg, Methods}
use zcm.ThreadsafeQueue
use zcm.ThreadsafeQueue.{ThreadsafeQueue}
use zcm.Queue
use zcm.Blocking.{Blocking, is_halting, send_all, start_recv_thread}
use zcm.Nonblocking.{is_regex_channel}

-- `zcm_sub_t`, with its address and the text of its regex.
pub record Sub : Type 0 where
  pub address : ℕ
  pub channel : List ℕ
  pub callback : ℕ
  pub usr : ℕ
  pub regex : Bool
  pub regexobj : List ℕ

-- `unordered_map<string, SubList>`
abbrev pub SubMap : Type 0
SubMap = List (List ℕ × List Sub)

pub record Subs : Type 0 where
  pub subs : SubMap
  pub subs_regex : SubMap

abbrev pub same_text : List ℕ → List ℕ → Bool
same_text [] [] = true
same_text [] (y ∷ t) = false
same_text (x ∷ s) [] = false
same_text (x ∷ s) (y ∷ t) = x == y && same_text s t

unfoldable pub find_subs : SubMap → List ℕ → Option (List Sub)
find_subs [] channel = none
find_subs ((key, list) ∷ rest) channel =
    let later = find_subs rest channel in if same_text key channel then some list else later

-- `subs[channel].push_back(sub)`
unfoldable pub add_sub : SubMap → List ℕ → Sub → SubMap
add_sub [] channel sub = (channel, sub ∷ []) ∷ []
add_sub ((key, list) ∷ rest) channel sub =
    let later = add_sub rest channel sub in
    if same_text key channel then (key, list ++ (sub ∷ [])) ∷ rest else (key, list) ∷ later

unfoldable pub put_subs : SubMap → List ℕ → List Sub → SubMap
put_subs [] channel list' = []
put_subs ((key, list) ∷ rest) channel list' =
    let later = put_subs rest channel list' in
    if same_text key channel then (key, list') ∷ rest else (key, list) ∷ later

abbrev pub is_ok : Retcode → Bool
is_ok eok = true
is_ok _ = false

-- The index that the loop of `deleteFromSubList` stops at.
unfoldable pub index_of : List Sub → ℕ → Option ℕ
index_of [] address = none
index_of (s ∷ list) address =
    let later = index_of list address in
    if s.address == address then some 0 else elim later [ none ↦ none | some i ↦ some (suc i) ]

-- The last entry takes the place of the one that goes.
abbrev move_last : List Sub → Option ℕ → Option (List Sub)
move_last list none = none
move_last [] (some i) = none
move_last (s ∷ rest) (some i) =
    let list : List Sub = s ∷ rest in
    let last = length rest in some (take last (set list i (get_or list last s)))

unfoldable pub delete_from_sub_list : List Sub → ℕ → Option (List Sub)
delete_from_sub_list list address = move_last list (index_of list address)

module _ {T : Type 0} (m : Methods T) where
  -- `locked`: the two locks were taken; `address` is that of the new subscription.
  unfoldable pub blocking_subscribe : Bool → ℕ → Subs → T → List ℕ → ℕ → ℕ → Option Sub × (Subs × T)
  blocking_subscribe locked address subs zt channel cb usr =
      let (rc, zt') = m.recvmsg_enable zt channel true in
      let regex = is_regex_channel channel in
      let sub : Sub = record {
        address = address;
        channel = take channel_maxlen channel;
        callback = cb;
        usr = usr;
        regex = regex;
        regexobj = channel;
      } in
      if not locked
      then (none, (subs, zt))
      else if not (is_ok rc)
      then (none, (subs, zt'))
      else if regex
      then (some sub, (record subs { subs_regex = add_sub subs.subs_regex channel sub }, zt'))
      else (some sub, (record subs { subs = add_sub subs.subs channel sub }, zt'))

  abbrev select : Bool → Subs → SubMap
  select true subs = subs.subs_regex
  select false subs = subs.subs

  abbrev replace : Bool → Subs → SubMap → Subs
  replace true subs map' = record subs { subs_regex = map' }
  replace false subs map' = record subs { subs = map' }

  abbrev pub disable_last : List Sub → T → List ℕ → Retcode × T
  disable_last [] zt channel =
      let (rc, zt') = m.recvmsg_enable zt channel false in (if is_ok rc then eok else einvalid, zt')
  disable_last (_ ∷ _) zt channel = (eok, zt)

  abbrev pub delete_found : Sub → Subs → T → Option (List Sub) → Retcode × (Subs × T)
  delete_found sub subs zt none = (einvalid, (subs, zt))
  delete_found sub subs zt (some list) =
      let (rc, zt') = disable_last list zt sub.channel in
      (rc, (replace sub.regex subs (put_subs (select sub.regex subs) sub.channel list), zt'))

  abbrev pub delete_in : Sub → Subs → T → Option (List Sub) → Retcode × (Subs × T)
  delete_in sub subs zt none = (einvalid, (subs, zt))
  delete_in sub subs zt (some list) =
      delete_found sub subs zt (delete_from_sub_list list sub.address)

  unfoldable pub blocking_unsubscribe : Bool → Sub → Subs → T → Retcode × (Subs × T)
  blocking_unsubscribe false sub subs zt = (eagain, (subs, zt))
  blocking_unsubscribe true sub subs zt =
      delete_in sub subs zt (find_subs (select sub.regex subs) sub.channel)

-- The handlers work on the program's state and may call the core; they cannot change the
-- subscriptions, whose lock is held.
module _ {T : Type 0} (m : Methods T) (regex_match : List ℕ → List ℕ → Bool) (subs : Subs)
    {W : Type 0} (call : Sub → Msg → W × Blocking T → W × Blocking T) where
  unfoldable pub call_all : List Sub → Msg → W × Blocking T → W × Blocking T
  call_all [] msg w = w
  call_all (s ∷ list) msg w = call_all list msg (call s msg w)

  unfoldable pub call_matching : List Sub → Msg → W × Blocking T → W × Blocking T
  call_matching [] msg w = w
  call_matching (s ∷ list) msg w =
      call_matching list msg (if regex_match msg.channel s.regexobj then call s msg w else w)

  unfoldable pub call_regexes : SubMap → Msg → W × Blocking T → W × Blocking T
  call_regexes [] msg w = w
  call_regexes ((key, list) ∷ rest) msg w = call_regexes rest msg (call_matching list msg w)

  abbrev pub call_found : Option (List Sub) → Msg → W × Blocking T → W × Blocking T
  call_found none msg w = w
  call_found (some list) msg w = call_all list msg w

  unfoldable pub dispatch_msg : Msg → W × Blocking T → W × Blocking T
  dispatch_msg msg w =
      call_regexes subs.subs_regex msg (call_found (find_subs subs.subs msg.channel) msg w)

  abbrev popped_recv :
      W × Blocking T → Option (ThreadsafeQueue Msg) → Option (Bool × (W × Blocking T))
  popped_recv w none = none
  popped_recv (w, z) (some q) = some (true, (w, record z { recv_queue = q }))

  abbrev pub dispatch_top :
      Bool → W × Blocking T → Option (Option Msg) → Option (Bool × (W × Blocking T))
  dispatch_top return_if_paused w none = none
  dispatch_top return_if_paused w (some none) = some (false, w)
  dispatch_top return_if_paused w (some (some msg)) =
      let w' = dispatch_msg msg w in
      if return_if_paused && (w.1.paused || is_halting w.1.hndl_state)
      then some (false, w)
      else popped_recv w' (ThreadsafeQueue.pop w'.1.recv_queue)

  -- `none`: the caller waits for a message, or the assertion of `pop` fails.
  unfoldable pub dispatch_one_message : Bool → W × Blocking T → Option (Bool × (W × Blocking T))
  dispatch_one_message return_if_paused w =
      dispatch_top return_if_paused w (ThreadsafeQueue.top w.1.recv_queue)

  abbrev pub rest_of :
      (W × Blocking T → Option (W × Blocking T))
      → Option (Bool × (W × Blocking T))
      → Option (W × Blocking T)
  rest_of go none = none
  rest_of go (some (b, w)) = go w

  -- The loop of `flush` over the messages received.
  unfoldable pub dispatch_all : ℕ → W × Blocking T → Option (W × Blocking T)
  dispatch_all zero w = some w
  dispatch_all (suc n) w = rest_of (dispatch_all n) (dispatch_one_message false w)

  abbrev with_recv_enabled : W × Blocking T → W × Blocking T
  with_recv_enabled (w, z) =
      (w, record z { recv_queue = ThreadsafeQueue.enable (ThreadsafeQueue.disable z.recv_queue) })

  abbrev pub done : Option (W × Blocking T) → Option (Retcode × (W × Blocking T))
  done none = none
  done (some w) = some (eok, w)

  -- The second half of `flush`.
  abbrev pub flush_received : Bool → W → Option (Blocking T) → Option (Retcode × (W × Blocking T))
  flush_received locked w none = none
  flush_received locked w (some z) =
      let (w', z') = with_recv_enabled (w, z) in
      if not locked
      then some (eagain, (w', z'))
      else done (dispatch_all (Queue.num_messages z'.recv_queue.queue) (w', z'))

  -- `locked` and `locked'`: the locks for sending and for dispatching were taken. The queue is enabled
  -- again either way.
  unfoldable pub blocking_flush : Bool → Bool → W × Blocking T → Option (Retcode × (W × Blocking T))
  blocking_flush locked locked' (w, z) =
      let z' = record z {
        send_queue = ThreadsafeQueue.enable (ThreadsafeQueue.disable z.send_queue);
      } in
      if not locked
      then some (eagain, (w, z'))
      else flush_received locked' w (send_all m (Queue.num_messages z'.send_queue.queue) z')

  abbrev handled : Option (Bool × (W × Blocking T)) → Option (Retcode × (W × Blocking T))
  handled none = none
  handled (some (b, w)) = some (if b then eok else eagain, w)

  unfoldable pub blocking_handle : W × Blocking T → Option (Retcode × (W × Blocking T))
  blocking_handle (w, z) =
      let (started, z') = start_recv_thread z in
      if not started then some (einvalid, (w, z')) else handled (dispatch_one_message true (w, z'))

  unfoldable pub blocking_handle_nonblock : W × Blocking T → Option (Retcode × (W × Blocking T))
  blocking_handle_nonblock (w, z) =
      let (started, z') = start_recv_thread z in
      if not started
      then some (einvalid, (w, z'))
      else if not (Queue.has_message z'.recv_queue.queue)
      then some (eagain, (w, z'))
      else handled (dispatch_one_message true (w, z'))
