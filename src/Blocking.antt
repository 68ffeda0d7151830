-- ===== src/Blocking.antt =====
-- zcm/blocking.cpp: the core that runs a send, a receive and a handler thread. What a mutex protects
-- is one step; a thread that waits is a step that cannot be taken.
pub mod Dispatch
pub mod Quiet
pub mod Threads
use zcm.Prelude.{
  ℕ, zero, suc, ◌+◌, ◌-◌, Bool, true, false, not, ◌&&◌, ◌||◌, List, [], ◌∷◌, ◌++◌, Option, none,
  some, if◌then◌else◌, ltb, ◌==◌, length,
}
use zcm.Transport.{Retcode, eok, einvalid, eagain, channel_maxlen, Msg, Methods}
use zcm.ThreadsafeQueue
use zcm.ThreadsafeQueue.{ThreadsafeQueue, new_threadsafe}
use zcm.Queue
use zcm.Queue.{Queue}

-- `RecvMode_t` and `ThreadState_t`
pub data RecvMode : Type 0 where
  mode_none mode_run mode_spawn mode_handle : RecvMode

pub data ThreadState : Type 0 where
  stopped running halting halted : ThreadState

-- `zcm_blocking`, without the locks, the subscriptions and the topology.
pub record Blocking (T : Type 0) : Type 0 where
  pub zt : T
  pub mtu : ℕ
  pub send_queue : ThreadsafeQueue Msg
  pub recv_queue : ThreadsafeQueue Msg
  pub recv_mode : RecvMode
  pub send_state : ThreadState
  pub recv_state : ThreadState
  pub hndl_state : ThreadState
  pub paused : Bool

-- `QUEUE_SIZE`
abbrev pub queue_size : ℕ
queue_size = 16

abbrev pub is_halting : ThreadState → Bool
is_halting halting = true
is_halting _ = false

-- The blocks of `stop(false)` that join a thread if it has halted: `none` is `ZCM_EAGAIN`. A
-- `stop(true)` waits in them instead.
abbrev pub join : ThreadState → Option ThreadState
join stopped = some stopped
join running = some running
join halting = none
join halted = some stopped

module _ {T : Type 0} where
  unfoldable pub new_blocking : T → ℕ → Blocking T
  new_blocking zt mtu = record {
    zt = zt;
    mtu = mtu;
    send_queue = new_threadsafe Msg queue_size;
    recv_queue = new_threadsafe Msg queue_size;
    recv_mode = mode_none;
    send_state = stopped;
    recv_state = stopped;
    hndl_state = stopped;
    paused = false;
  }

  -- The send thread starts with the first message.
  abbrev pub spawn_sender : Blocking T → ThreadState → Blocking T
  spawn_sender z stopped = record z { send_state = running }
  spawn_sender z _ = z

  abbrev pub queued : Blocking T → Bool × ThreadsafeQueue Msg → Retcode × Blocking T
  queued z (true, q) = (eok, record z { send_queue = q })
  queued z (false, q) = (eagain, record z { send_queue = q })

  unfoldable pub blocking_publish : ℕ → Blocking T → List ℕ → List ℕ → Retcode × Blocking T
  blocking_publish utime z channel bytes =
      let z' = spawn_sender z z.send_state in
      let msg : Msg = record { utime = utime; channel = channel; buf = bytes } in
      if ltb z.mtu (length bytes)
      then (einvalid, z)
      else if ltb channel_maxlen (length channel)
      then (einvalid, z)
      else queued z' (ThreadsafeQueue.push_if_room z'.send_queue msg)

  -- `run` before `hndlThreadFunc`, and what it leaves behind; `start`.
  abbrev run_from : RecvMode → RecvMode → Blocking T → Blocking T
  run_from mode mode_none z = record z {
    recv_mode = mode;
    hndl_state = running;
    recv_queue = ThreadsafeQueue.enable z.recv_queue;
  }
  run_from mode _ z = z

  unfoldable pub blocking_run : Blocking T → Blocking T
  blocking_run z = run_from mode_run z.recv_mode z

  unfoldable pub blocking_run_done : Blocking T → Blocking T
  blocking_run_done z = record z { recv_mode = mode_none }

  unfoldable pub blocking_start : Blocking T → Blocking T
  blocking_start z = run_from mode_spawn z.recv_mode z

  unfoldable pub blocking_pause : Blocking T → Blocking T
  blocking_pause z = record z { paused = true }

  unfoldable pub blocking_resume : Blocking T → Blocking T
  blocking_resume z = record z { paused = false }

  -- The blocks of `stop` that halt a thread.
  abbrev halt_hndl_if : ThreadState → Blocking T → Blocking T
  halt_hndl_if running z = record z {
    hndl_state = halting;
    recv_queue = ThreadsafeQueue.disable z.recv_queue;
  }
  halt_hndl_if _ z = z

  abbrev halt_recv_if : ThreadState → Blocking T → Blocking T
  halt_recv_if running z = record z {
    recv_state = halting;
    recv_queue = ThreadsafeQueue.disable z.recv_queue;
  }
  halt_recv_if _ z = z

  abbrev halt_by_mode : RecvMode → Blocking T → Blocking T
  halt_by_mode mode_run z = halt_hndl_if z.hndl_state z
  halt_by_mode mode_spawn z = halt_hndl_if z.hndl_state z
  halt_by_mode mode_handle z = halt_recv_if z.recv_state z
  halt_by_mode mode_none z = z

  abbrev halt_send_if : ThreadState → Blocking T → Blocking T
  halt_send_if running z = record z {
    send_state = halting;
    send_queue = ThreadsafeQueue.disable z.send_queue;
  }
  halt_send_if _ z = z

  unfoldable pub halt_receiving : Blocking T → Blocking T
  halt_receiving z = halt_by_mode z.recv_mode z

  unfoldable pub halt_sending : Blocking T → Blocking T
  halt_sending z = halt_send_if z.send_state z

  abbrev join_by_mode : RecvMode → Blocking T → Option (Blocking T)
  join_by_mode mode_spawn z = elim (join z.hndl_state) [
    | none ↦ none
    | some s ↦ some (record z { hndl_state = s })
  ]
  join_by_mode mode_handle z = elim (join z.recv_state) [
    | none ↦ none
    | some s ↦ some (record z { recv_state = s })
  ]
  join_by_mode _ z = some z

  unfoldable pub join_receiving : Blocking T → Option (Blocking T)
  join_receiving z = join_by_mode z.recv_mode z

  unfoldable pub join_sending : Blocking T → Option (Blocking T)
  join_sending z = elim (join z.send_state) [
    | none ↦ none
    | some s ↦ some (record z { send_state = s })
  ]

  abbrev finished : Blocking T → Option (Blocking T) → Retcode × Blocking T
  finished z none = (eagain, z)
  finished z (some z') = (eok, record z' { recv_mode = mode_none })

  abbrev then_sending : Blocking T → Option (Blocking T) → Retcode × Blocking T
  then_sending z none = (eagain, z)
  then_sending z (some z') = finished z' (join_sending z')

  -- `stop(false)`
  unfoldable pub blocking_stop : Blocking T → Retcode × Blocking T
  blocking_stop z = let z' = halt_sending (halt_receiving z) in then_sending z' (join_receiving z')

  -- `startRecvThread`
  abbrev start_recv_from : RecvMode → Blocking T → Bool × Blocking T
  start_recv_from mode_none z = (
    true,
    record z {
      recv_mode = mode_handle;
      recv_state = running;
      recv_queue = ThreadsafeQueue.enable z.recv_queue;
    },
  )
  start_recv_from mode_handle z = (true, z)
  start_recv_from _ z = (false, z)

  unfoldable pub start_recv_thread : Blocking T → Bool × Blocking T
  start_recv_thread z = start_recv_from z.recv_mode z

  -- The predicates that `sendThreadFunc` and `hndlThreadFunc` wait for.
  unfoldable pub sender_ready : Blocking T → Bool
  sender_ready z =
      not z.paused && ThreadsafeQueue.is_enabled z.send_queue || is_halting z.send_state

  unfoldable pub handler_ready : Blocking T → Bool
  handler_ready z =
      not z.paused && ThreadsafeQueue.is_enabled z.recv_queue || is_halting z.hndl_state

  -- `setQueueSize`, which has taken the locks.
  unfoldable pub blocking_set_queue_size : Blocking T → ℕ → Blocking T
  blocking_set_queue_size z num_msgs =
      let resized : ThreadsafeQueue Msg → ThreadsafeQueue Msg = λ q.
        if q.queue.capacity == num_msgs
        then q
        else ThreadsafeQueue.enable
            (ThreadsafeQueue.set_capacity (ThreadsafeQueue.disable q) num_msgs) in
      record z { send_queue = resized z.send_queue; recv_queue = resized z.recv_queue }

module _ {T : Type 0} (m : Methods T) where
  abbrev popped_send : Blocking T → Option (ThreadsafeQueue Msg) → Option (Bool × Blocking T)
  popped_send z none = none
  popped_send z (some q) = some (true, record z { send_queue = q })

  abbrev pub send_top : Bool → Blocking T → Option (Option Msg) → Option (Bool × Blocking T)
  send_top return_if_paused z none = none
  send_top return_if_paused z (some none) = some (false, z)
  send_top return_if_paused z (some (some msg)) =
      if return_if_paused && (z.paused || is_halting z.send_state)
      then some (false, z)
      else popped_send (record z { zt = (m.sendmsg z.zt msg).1 }) (ThreadsafeQueue.pop z.send_queue)

  -- `none`: the caller waits for a message, or the assertion of `pop` fails.
  unfoldable pub send_one_message : Bool → Blocking T → Option (Bool × Blocking T)
  send_one_message return_if_paused z =
      send_top return_if_paused z (ThreadsafeQueue.top z.send_queue)

  abbrev rest_of :
      (Blocking T → Option (Blocking T)) → Option (Bool × Blocking T) → Option (Blocking T)
  rest_of go none = none
  rest_of go (some (b, z)) = go z

  -- The loop of `flush` over the messages to send.
  unfoldable pub send_all : ℕ → Blocking T → Option (Blocking T)
  send_all zero z = some z
  send_all (suc n) z = rest_of (send_all n) (send_one_message false z)

  -- One round of `sendThreadFunc`: the thread ends when it is to halt.
  abbrev sender_round : Blocking T → Option (Bool × Blocking T)
  sender_round z =
      if is_halting z.send_state
      then some (false, record z { send_state = halted })
      else send_one_message true z

  unfoldable pub sender_step : Blocking T → Option (Bool × Blocking T)
  sender_step z = if sender_ready z then sender_round z else none
