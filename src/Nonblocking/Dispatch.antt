-- ===== src/Nonblocking/Dispatch.antt =====
-- The handlers that zcm/nonblocking.c calls for a message, if they leave the core alone.
use zcm.Prelude.{
  ℕ, zero, suc, ◌+◌, ◌≤◌, ◌<◌, ◌≡◌, ◌∙◌, inl, inr, ap, refl, sym, arith, false, ◌&&◌, Bool-cases,
  List, [], ◌∷◌, ◌++◌, append_assoc, append-nil, if◌then◌else◌, ltb, length, drop, get_or, drop_all,
  ltb→lt, ltb→ge,
}
use zcm.Transport.{Msg, Methods}
use zcm.Nonblocking.{Slot, Nonblocking, unused, should_dispatch, dispatch_loop, dispatch_message}
use zcm.Nonblocking.Slots.{used}
use zcm.Nonblocking.Valid.{Valid}

-- A call of a handler: which one, its argument, and the message.
pub record Call : Type 0 where
  pub callback : ℕ
  pub usr : ℕ
  pub msg : Msg

abbrev pub call_of : Slot → Msg → Call
call_of s msg = record { callback = s.callback; usr = s.usr; msg = msg }

-- A handler that notes that it is called.
abbrev pub note : {T : Type 0} → Slot → Msg → List Call × Nonblocking T → List Call × Nonblocking T
note s msg (calls, z) = (calls ++ (call_of s msg ∷ []), z)

-- One call for each slot that is in use and wants the channel, in the order of the slots.
abbrev pub calls : Msg → List Slot → List Call
calls msg [] = []
calls msg (s ∷ ss) =
    let rest = calls msg ss in
    if s.in_use && should_dispatch s msg.channel then call_of s msg ∷ rest else rest

calls_unused : (msg : Msg) (ss : List Slot) → ((j : ℕ) → used ss j ≡ false) → calls msg ss ≡ []
calls_unused msg [] h = refl
calls_unused msg (s ∷ ss) h = rw (h 0) (calls_unused msg ss (λ j. h (suc j)))

used-drop : (ss : List Slot) (i j : ℕ) → used (drop i ss) j ≡ used ss (i + j)
used-drop ss zero j = ap (used ss) (omega arith)
used-drop [] (suc i) j = refl
used-drop (s ∷ ss) (suc i) j =
    used-drop ss i j ∙ ap (used (s ∷ ss)) {x = suc (i + j)} {y = suc i + j} (omega arith)

drop-get_or :
    (ss : List Slot) (i : ℕ) → i < length ss → drop i ss ≡ get_or ss i unused ∷ drop (i + 1) ss
drop-get_or [] i h = absurd (omega arith)
drop-get_or (s ∷ ss) zero h = refl
drop-get_or (s ∷ ss) (suc i) h =
    drop-get_or ss i (omega arith)
    ∙ ap (λ k. get_or ss i unused ∷ drop k (s ∷ ss)) {x = suc (i + 1)} {y = suc i + 1} (omega arith)

module _ {T : Type 0} (m : Methods T) where
  dispatch_loop_lem :
      (left i : ℕ) (msg : Msg) (log : List Call) (z : Nonblocking T)
      → Valid z
      → length z.subs ≤ i + left
      → dispatch_loop m note left i msg (log, z) ≡ (log ++ calls msg (drop i z.subs), z)
  unfolding dispatch_loop
  dispatch_loop_lem zero i msg log z v h =
      rw (drop_all i z.subs (omega arith)) (ap (λ l. (l, z)) (sym (append-nil log)))
  dispatch_loop_lem (suc left) i msg log z v h = elim (Bool-cases (ltb i z.sub_in_use_end)) [
    | inr e ↦
        let none_used : calls msg (drop i z.subs) ≡ [] =
          calls_unused msg (drop i z.subs)
            (λ j. used-drop z.subs i j ∙ v.behind_free (i + j) (omega (arith, ltb→ge _ _ e))) in
        rw (e, none_used) (ap (λ l. (l, z)) (sym (append-nil log)))
    | inl e ↦
        let s = get_or z.subs i unused in
        let next = drop-get_or z.subs i (omega (arith, ltb→lt _ _ e, v.within)) in
        elim (Bool-cases (s.in_use && should_dispatch s msg.channel)) [
          | inr d ↦ rw (e, next, d) (dispatch_loop_lem left (i + 1) msg log z v (omega arith))
          | inl d ↦
              rw (e, next, d)
                (dispatch_loop_lem left (i + 1) msg (log ++ (call_of s msg ∷ [])) z v (omega arith)
                  ∙ ap (λ l. (l, z))
                      (append_assoc log (call_of s msg ∷ []) (calls msg (drop (i + 1) z.subs))))
        ]
  ]

  pub dispatch_message_lem :
      (msg : Msg) (log : List Call) (z : Nonblocking T)
      → Valid z
      → dispatch_message m note msg (log, z) ≡ (log ++ calls msg z.subs, z)
  unfolding dispatch_message
  dispatch_message_lem msg log z v = dispatch_loop_lem (length z.subs) 0 msg log z v (omega arith)
