-- ===== src/Nonblocking/OverInproc.antt =====
-- zcm/nonblocking.c over zcm/transport/transport_inproc.cpp, with handlers that leave the core alone.
use zcm.Prelude.{
  ℕ, suc, ◌+◌, ◌-◌, ◌≤◌, ◌<◌, ◌≡◌, ◌∙◌, ap, ap₂, refl, sym, arith, List, [], ◌∷◌, ◌++◌,
  append_assoc, append-nil, some, length, All, ge→ltb,
}
use zcm.Transport.{eok, channel_maxlen, Msg}
use zcm.Inproc.{Inproc, mtu, inproc_methods, inproc_sendmsg, inproc_recvmsg}
use zcm.Nonblocking.{
  Slot, Nonblocking, nonblocking_publish, nonblocking_flush, flush_loop, dispatch_message,
}
use zcm.Nonblocking.Valid.{Valid}
use zcm.Nonblocking.Dispatch.{Call, note, calls, dispatch_message_lem}

-- What `zcm_nonblocking_publish` takes with it.
abbrev pub Sendable : Msg → Type 0
Sendable msg = (length msg.channel ≤ channel_maxlen) × (length msg.buf ≤ mtu)

module _ (clock : ℕ → ℕ) where
  abbrev pub Core : Type 0
  Core = Nonblocking (Inproc × ℕ)

  -- One call after the other; the message's `utime` is what the stack holds then.
  abbrev pub publish_all : Core → List Msg → Core
  publish_all z [] = z
  publish_all z (p ∷ ps) =
      publish_all (nonblocking_publish (inproc_methods clock) p.utime z p.channel p.buf).1 ps

  -- The calls for the messages, of which the first is received at the n-th reading of the clock.
  abbrev pub deliveries : ℕ → List Msg → List Slot → List Call
  deliveries n [] subs = []
  deliveries n (p ∷ ps) subs =
      calls (record p { utime = clock n }) subs ++ deliveries (suc n) ps subs

  abbrev with_msgs : Core → List Msg → Core
  with_msgs z ps = record z { zt = (record z.zt.0 { msgs = ps }, z.zt.1) }

  publish_lem :
      (z : Core) (p : Msg)
      → Sendable p
      → nonblocking_publish (inproc_methods clock) p.utime z p.channel p.buf
        ≡ (eok, with_msgs z (z.zt.0.msgs ++ (p ∷ [])))
  unfolding nonblocking_publish inproc_sendmsg
  publish_lem z p (c, b) = rw (ge→ltb _ _ c, ge→ltb _ _ b) refl

  publish_all_lem :
      (z : Core) (ps : List Msg)
      → All Sendable ps
      → publish_all z ps ≡ with_msgs z (z.zt.0.msgs ++ ps)
  publish_all_lem z [] s = ap (with_msgs z) (sym (append-nil z.zt.0.msgs))
  publish_all_lem z (p ∷ ps) (s, ss) =
      ap (λ r. publish_all r.1 ps) (publish_lem z p s)
      ∙ publish_all_lem (with_msgs z (z.zt.0.msgs ++ (p ∷ []))) ps ss
      ∙ ap (with_msgs z) (append_assoc z.zt.0.msgs (p ∷ []) ps)

  flush_loop_lem :
      (log : List Call) (z : Core) (ps : List Msg) (more : ℕ)
      → Valid z
      → (z' : Core) × (flush_loop
            (inproc_methods clock)
            note
            (suc (length ps + more))
            (log, with_msgs z ps)
          ≡ some (log ++ deliveries z.zt.1 ps z.subs, z'))
        × (z'.zt.0.msgs ≡ [])
  unfolding flush_loop inproc_recvmsg
  flush_loop_lem log z [] more v =
      (with_msgs z [], ap (λ l. some (l, with_msgs z [])) (sym (append-nil log)), refl)
  flush_loop_lem log z (p ∷ ps) more v =
      let m = inproc_methods clock in
      let msg : Msg = record p { utime = clock z.zt.1 } in
      let z1 : Core = record z {
        zt = (record z.zt.0 { msgs = ps; in_flight = some msg }, suc z.zt.1);
      } in
      let here = calls msg z.subs in
      let (z', go, empty) = flush_loop_lem (log ++ here) z1 ps more v in
      (
        z',
        ap (λ k. flush_loop m note k (dispatch_message m note msg (log, z1)))
              {x = suc (length ps) + more} {y = suc (length ps + more)} (omega arith)
            ∙ ap (flush_loop m note (suc (length ps + more))) (dispatch_message_lem m msg log z1 v)
            ∙ go
            ∙ ap (λ l. some (l, z')) (append_assoc log here (deliveries (suc z.zt.1) ps z.subs)),
        empty,
      )

  -- When messages whose channels have at most 32 bytes and whose data at most 2^28 are published, a
  -- flush with more rounds than messages ends, has called for each, those that were queued before
  -- first, each subscription that wants its channel, in order, and leaves no message.
  pub flush-publish_all :
      (log : List Call) (z : Core) (ps : List Msg) (fuel : ℕ)
      → Valid z
      → All Sendable ps
      → length (z.zt.0.msgs ++ ps) < fuel
      → (z' : Core) × (nonblocking_flush (inproc_methods clock) note fuel (log, publish_all z ps)
          ≡ some (log ++ deliveries z.zt.1 (z.zt.0.msgs ++ ps) z.subs, z'))
        × (z'.zt.0.msgs ≡ [])
  unfolding nonblocking_flush
  flush-publish_all log z ps fuel v s h =
      let queued = z.zt.0.msgs ++ ps in
      let more = fuel - suc (length queued) in
      let (z', go, empty) = flush_loop_lem log z queued more v in
      (
        z',
        ap₂ (λ k c. flush_loop (inproc_methods clock) note k (log, c)) {x = fuel}
              {y = suc (length queued + more)} (omega arith) (publish_all_lem z ps s)
            ∙ go,
        empty,
      )
