-- ===== src/Blocking/Threads.antt =====
-- What the send thread of zcm/blocking.cpp does after a stop.
use zcm.Prelude.{ℕ, ◌≡◌, Bool, true, false, List, Option, none, some}
use zcm.Transport.{Msg, Methods}
use zcm.ThreadsafeQueue.{ThreadsafeQueue, pop, disable}
use zcm.Blocking.Dispatch.{Sub, Subs, blocking_subscribe, blocking_unsubscribe}
use zcm.Blocking.Quiet.{Quiet}
use zcm.Blocking.{
  Blocking, mode_none, stopped, halting, is_halting, blocking_publish, blocking_run,
  blocking_run_done, blocking_start, blocking_pause, blocking_resume, blocking_stop,
  start_recv_thread, sender_step,
}

-- A call of `publish`, `subscribe`, `unsubscribe`, `run` with its end, `start`, `pause` or `resume`,
-- the two parts of `handle` and `handle_nonblock`, to start the receive thread and to pop what has been
-- dispatched, or a round of the send thread; a call that a handler makes is a step of its own. Not
-- among the steps are `stop`, `flush` and `setQueueSize`, the last two of which enable the queue, and
-- the rounds of the receive thread.
pub data Step {T : Type 0} (m : Methods T) (z : Blocking T) : Blocking T → Type 0 where
  published :
      (utime : ℕ) (channel bytes : List ℕ) → Step m z (blocking_publish utime z channel bytes).1
  subscribed :
      (locked : Bool) (address : ℕ) (subs : Subs) (channel : List ℕ) (cb usr : ℕ)
      → Step m z
          (record z { zt = (blocking_subscribe m locked address subs z.zt channel cb usr).1.1 })
  unsubscribed :
      (locked : Bool) (sub : Sub) (subs : Subs)
      → Step m z (record z { zt = (blocking_unsubscribe m locked sub subs z.zt).1.1 })
  ran : Step m z (blocking_run z)
  run_ended : Step m z (blocking_run_done z)
  started : Step m z (blocking_start z)
  paused_by : Step m z (blocking_pause z)
  resumed : Step m z (blocking_resume z)
  handled : Step m z (start_recv_thread z).1
  dispatched :
      (q : ThreadsafeQueue Msg) → pop z.recv_queue ≡ some q → Step m z (record z { recv_queue = q })
  sent : {z' : Blocking T} (b : Bool) → sender_step m z ≡ some (b, z') → Step m z z'

pub data Steps {T : Type 0} (m : Methods T) (z : Blocking T) : Blocking T → Type 0 where
  here : Steps m z z
  next : {z' z'' : Blocking T} → Steps m z z' → Step m z' z'' → Steps m z z''

abbrev pub then_stop : {T : Type 0} → Option (Bool × Blocking T) → Option (Blocking T)
then_stop none = none
then_stop (some (b, z)) = some (blocking_stop z).1

-- `stop(false)`, a round of the send thread, and `stop(false)` again.
abbrev pub stop_and_join : {T : Type 0} → Methods T → Blocking T → Option (Blocking T)
stop_and_join m z = then_stop (sender_step m (blocking_stop z).1)

-- The queue is disabled and the thread will not be told to end.
record Starved {T : Type 0} (m : Methods T) (zt : T) (z : Blocking T) : Type 0 where
  disabled : z.send_queue.disabled ≡ true
  goes_on : is_halting z.send_state ≡ false
  unsent : Quiet m zt z.zt

module _ {T : Type 0} (m : Methods T) where
  abbrev told_to_end : Blocking T → Blocking T
  told_to_end z = record z { send_state = halting; send_queue = disable z.send_queue }

  abbrev without_sender : Blocking T → Blocking T
  without_sender z = record (told_to_end z) { recv_mode = mode_none; send_state = stopped }
