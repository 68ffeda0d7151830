-- ===== src/Inproc.antt =====
-- zcm/transport/transport_inproc.cpp: messages queued in the process. A call that takes the lock is
-- one step; a wait that times out has found the queue empty.
use zcm.Prelude.{
  ℕ, suc, ◌^◌, ◌⊎◌, inl, inr, List, [], ◌∷◌, ◌++◌, Option, none, some, if◌then◌else◌, ltb, length,
}
use zcm.Transport.{Retcode, eok, einvalid, eagain, channel_maxlen, Msg, ZcmType, Methods}

abbrev pub mtu : ℕ
mtu = 2 ^ 28

-- `TransportNonblockInproc`; the two `inFlight` pointers are one message.
pub record Inproc : Type 0 where
  pub trans_type : ZcmType
  pub msgs : List Msg
  pub in_flight : Option Msg

unfoldable pub new_inproc : ZcmType → Inproc
new_inproc type = record { trans_type = type; msgs = []; in_flight = none }

unfoldable pub inproc_sendmsg : Inproc → Msg → Retcode × Inproc
inproc_sendmsg z msg =
    if ltb channel_maxlen (length msg.channel)
    then (einvalid, z)
    else if ltb mtu (length msg.buf)
    then (einvalid, z)
    else (eok, record z { msgs = z.msgs ++ (msg ∷ []) })

-- The message that is received stays in flight until the next one.
abbrev pub steal : ℕ → Inproc → List Msg → (Retcode ⊎ Msg) × Inproc
steal utime z [] = (inl eagain, z)
steal utime z (front ∷ rest) =
    let msg = record front { utime = utime } in
    (inr msg, record z { msgs = rest; in_flight = some msg })

-- `utime` is the clock, read when there is a message.
unfoldable pub inproc_recvmsg : ℕ → Inproc → ℕ → (Retcode ⊎ Msg) × Inproc
inproc_recvmsg utime z timeout = steal utime z z.msgs

-- The transport with the number of the clock's readings, and the clock.
abbrev counted : ℕ → (Retcode ⊎ Msg) × Inproc → (Retcode ⊎ Msg) × (Inproc × ℕ)
counted n (inl rc, z) = (inl rc, (z, n))
counted n (inr msg, z) = (inr msg, (z, suc n))

abbrev with_count : ℕ → Retcode × Inproc → Retcode × (Inproc × ℕ)
with_count n (rc, z) = (rc, (z, n))

-- `methods`
abbrev pub inproc_methods : (ℕ → ℕ) → Methods (Inproc × ℕ)
inproc_methods clock = record {
  sendmsg = λ (z, n) msg. with_count n (inproc_sendmsg z msg);
  recvmsg_enable = λ t channel enable. (eok, t);
  recvmsg = λ (z, n) timeout. counted n (inproc_recvmsg (clock n) z timeout);
  update = λ t. (eok, t);
}
