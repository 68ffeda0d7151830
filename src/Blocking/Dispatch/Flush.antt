-- ===== src/Blocking/Dispatch/Flush.antt =====
-- What `flush` of zcm/blocking.cpp sends and dispatches.
use zcm.Prelude.{
  ℕ, ◌≡◌, ◌∙◌, ap, refl, sym, Bool, true, false, Bool-cases, inl, inr, List, [], ◌∷◌, ◌++◌,
  append_assoc, append-nil, Option, none, some, if◌then◌else◌, length,
}
use zcm.Transport.{eok, Msg, Methods}
use zcm.ThreadsafeQueue.{ThreadsafeQueue, top, pop, enable, disable}
use zcm.ThreadsafeQueue.Fifo.{top_lem, pop_of}
use zcm.Queue.{Queue}
use zcm.Queue.Holds.{Holds}
use zcm.Queue.Refine.{pop_refines, Matches-some}
use zcm.Blocking.{Blocking, send_one_message, send_all}
use zcm.Blocking.Dispatch.{
  Sub, SubMap, Subs, find_subs, call_all, call_matching, call_regexes, call_found, dispatch_msg,
  dispatch_one_message, dispatch_all, blocking_flush,
}

-- The oldest element is there to be taken.
take_one :
    {A : Type 0} (t : ThreadsafeQueue A) (x : A) (xs : List A)
    → Holds t.queue (x ∷ xs)
    → t.disabled ≡ false
    → (top t ≡ some (some x))
      × ((q : Queue A) × (pop t ≡ some (record t { queue = q })) × Holds q xs)
take_one t x xs h e =
    let (q, p, h', _) = Matches-some (pop_refines (x ∷ xs) h) in
    (
      top_lem t (x ∷ xs) h ∙ ap (λ b. if b then some none else some (some x)) e,
      (q, pop_of t q p, h'),
    )

module _ {T : Type 0} (m : Methods T) where
  -- The transport that was given the messages in order, whatever it answered.
  abbrev pub sent_all : T → List Msg → T
  sent_all zt [] = zt
  sent_all zt (x ∷ xs) = sent_all (m.sendmsg zt x).1 xs

  send_all_lem :
      (z : Blocking T) (xs : List Msg)
      → Holds z.send_queue.queue xs
      → z.send_queue.disabled ≡ false
      → (q : Queue Msg) × Holds q []
        × (send_all m (length xs) z
            ≡ some (record z {
              zt = sent_all z.zt xs;
              send_queue = record z.send_queue { queue = q };
            }))
  unfolding send_all send_one_message
  send_all_lem z [] h e = (z.send_queue.queue, h, refl)
  send_all_lem z (x ∷ xs) h e =
      let (first, (q, popped, h')) = take_one z.send_queue x xs h e in
      let z' : Blocking T = record z {
        zt = (m.sendmsg z.zt x).1;
        send_queue = record z.send_queue { queue = q };
      } in
      let (q', empty, go) = send_all_lem z' xs h' e in (q', empty, rw (first, popped) go)

-- A call of a handler.
pub record Called : Type 0 where
  pub callback : ℕ
  pub usr : ℕ
  pub msg : Msg

abbrev pub called : Sub → Msg → Called
called s msg = record { callback = s.callback; usr = s.usr; msg = msg }

-- A handler that notes that it is called.
abbrev pub note : {T : Type 0} → Sub → Msg → List Called × Blocking T → List Called × Blocking T
note s msg (log, z) = (log ++ (called s msg ∷ []), z)

module _ (regex_match : List ℕ → List ℕ → Bool) where
  abbrev calls_each : List Sub → Msg → List Called
  calls_each [] msg = []
  calls_each (s ∷ list) msg = called s msg ∷ calls_each list msg

  abbrev calls_matching : List Sub → Msg → List Called
  calls_matching [] msg = []
  calls_matching (s ∷ list) msg =
      let rest = calls_matching list msg in
      if regex_match msg.channel s.regexobj then called s msg ∷ rest else rest

  abbrev calls_regexes : SubMap → Msg → List Called
  calls_regexes [] msg = []
  calls_regexes ((key, list) ∷ rest) msg = calls_matching list msg ++ calls_regexes rest msg

  abbrev calls_found : Option (List Sub) → Msg → List Called
  calls_found none msg = []
  calls_found (some list) msg = calls_each list msg

  -- The subscriptions of the channel, and then those whose regex matches it.
  abbrev pub calls_of : Subs → Msg → List Called
  calls_of subs msg =
      calls_found (find_subs subs.subs msg.channel) msg ++ calls_regexes subs.subs_regex msg

  abbrev pub calls_of_all : Subs → List Msg → List Called
  calls_of_all subs [] = []
  calls_of_all subs (y ∷ ys) = calls_of subs y ++ calls_of_all subs ys

  module _ {T : Type 0} (m : Methods T) (subs : Subs) where
    call_all_lem :
        (list : List Sub) (msg : Msg) (log : List Called) (z : Blocking T)
        → call_all m regex_match subs note list msg (log, z) ≡ (log ++ calls_each list msg, z)
    unfolding call_all
    call_all_lem [] msg log z = ap (λ l. (l, z)) (sym (append-nil log))
    call_all_lem (s ∷ list) msg log z =
        call_all_lem list msg (log ++ (called s msg ∷ [])) z
        ∙ ap (λ l. (l, z)) (append_assoc log (called s msg ∷ []) (calls_each list msg))

    call_matching_lem :
        (list : List Sub) (msg : Msg) (log : List Called) (z : Blocking T)
        → call_matching m regex_match subs note list msg (log, z)
          ≡ (log ++ calls_matching list msg, z)
    unfolding call_matching
    call_matching_lem [] msg log z = ap (λ l. (l, z)) (sym (append-nil log))
    call_matching_lem (s ∷ list) msg log z =
        elim (Bool-cases (regex_match msg.channel s.regexobj)) [
          | inl e ↦ rw e (
              call_matching_lem list msg (log ++ (called s msg ∷ [])) z
              ∙ ap (λ l. (l, z)) (append_assoc log (called s msg ∷ []) (calls_matching list msg)))
          | inr e ↦ rw e (call_matching_lem list msg log z)
        ]

    call_regexes_lem :
        (map' : SubMap) (msg : Msg) (log : List Called) (z : Blocking T)
        → call_regexes m regex_match subs note map' msg (log, z)
          ≡ (log ++ calls_regexes map' msg, z)
    unfolding call_regexes
    call_regexes_lem [] msg log z = ap (λ l. (l, z)) (sym (append-nil log))
    call_regexes_lem ((key, list) ∷ rest) msg log z =
        ap (call_regexes m regex_match subs note rest msg) (call_matching_lem list msg log z)
        ∙ call_regexes_lem rest msg (log ++ calls_matching list msg) z
        ∙ ap (λ l. (l, z)) (append_assoc log (calls_matching list msg) (calls_regexes rest msg))

    call_found_lem :
        (o : Option (List Sub)) (msg : Msg) (log : List Called) (z : Blocking T)
        → call_found m regex_match subs note o msg (log, z) ≡ (log ++ calls_found o msg, z)
    call_found_lem none msg log z = ap (λ l. (l, z)) (sym (append-nil log))
    call_found_lem (some list) msg log z = call_all_lem list msg log z

    dispatch_msg_lem :
        (msg : Msg) (log : List Called) (z : Blocking T)
        → dispatch_msg m regex_match subs note msg (log, z) ≡ (log ++ calls_of subs msg, z)
    unfolding dispatch_msg
    dispatch_msg_lem msg log z =
        let plain = find_subs subs.subs msg.channel in
        ap (call_regexes m regex_match subs note subs.subs_regex msg)
          (call_found_lem plain msg log z)
        ∙ call_regexes_lem subs.subs_regex msg (log ++ calls_found plain msg) z
        ∙ ap (λ l. (l, z))
            (append_assoc log (calls_found plain msg) (calls_regexes subs.subs_regex msg))

    dispatch_all_lem :
        (log : List Called) (z : Blocking T) (ys : List Msg)
        → Holds z.recv_queue.queue ys
        → z.recv_queue.disabled ≡ false
        → (q : Queue Msg) × Holds q []
          × (dispatch_all m regex_match subs note (length ys) (log, z)
              ≡ some (
                log ++ calls_of_all subs ys,
                record z { recv_queue = record z.recv_queue { queue = q } },
              ))
    unfolding dispatch_all dispatch_one_message
    dispatch_all_lem log z [] h e =
        (z.recv_queue.queue, h, ap (λ l. some (l, z)) (sym (append-nil log)))
    dispatch_all_lem log z (y ∷ ys) h e =
        let (first, (q, popped, h')) = take_one z.recv_queue y ys h e in
        let z' : Blocking T = record z { recv_queue = record z.recv_queue { queue = q } } in
        let (q', empty, go) = dispatch_all_lem (log ++ calls_of subs y) z' ys h' e in
        (
          q',
          empty,
          rw (first, dispatch_msg_lem y log z, popped)
              (go
                ∙ ap (λ l. some (l, record z { recv_queue = record z.recv_queue { queue = q' } }))
                    (append_assoc log (calls_of subs y) (calls_of_all subs ys))),
        )

    -- With both locks, and handlers that leave the core alone, `flush` ends; it has given the transport
    -- every message that waited to be sent, in order, and called for every message received, in order,
    -- the subscriptions of its channel and then those whose regex matches; both queues are empty.
    pub flush_lem :
        (log : List Called) (z : Blocking T) (xs ys : List Msg)
        → Holds z.send_queue.queue xs
        → Holds z.recv_queue.queue ys
        → (z' : Blocking T) × (blocking_flush m regex_match subs note true true (log, z)
            ≡ some (eok, (log ++ calls_of_all subs ys, z')))
          × (z'.zt ≡ sent_all m z.zt xs)
          × Holds z'.send_queue.queue []
          × Holds z'.recv_queue.queue []
    unfolding blocking_flush enable disable
    flush_lem log z xs ys h k =
        let z1 : Blocking T = record z { send_queue = enable (disable z.send_queue) } in
        let (q, empty, sent) = send_all_lem m z1 xs h refl in
        let z2 : Blocking T = record z1 {
          zt = sent_all m z.zt xs;
          send_queue = record z1.send_queue { queue = q };
        } in
        let z3 : Blocking T = record z2 { recv_queue = enable (disable z.recv_queue) } in
        let (q', empty', called_all) = dispatch_all_lem log z3 ys k refl in
        (
          record z3 { recv_queue = record z3.recv_queue { queue = q' } },
          rw (h.counts, sent, k.counts, called_all) refl,
          refl,
          empty,
          empty',
        )
