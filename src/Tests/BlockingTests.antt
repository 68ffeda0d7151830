-- ===== src/Tests/BlockingTests.antt =====
-- zcm/blocking.cpp over the in-process transport.
use zcm.Prelude.{ℕ, ◌≡◌, refl, arith, Bool, true, false, List, [], ◌∷◌, ◌++◌, some, none}
use zcm.Transport.{eok, Msg, Methods, blocking}
use zcm.Inproc.{Inproc, new_inproc, inproc_methods}
use zcm.ThreadsafeQueue.{ThreadsafeQueue}
use zcm.Queue
use zcm.Queue.Holds.{Holds}
use zcm.Blocking.{Blocking, running, stopped, mode_none, is_halting, blocking_publish}
use zcm.Blocking.Quiet.{Quiet}
use zcm.Blocking.Dispatch.{Sub, Subs, blocking_flush}
use zcm.Blocking.Dispatch.Flush.{note, sent_all, calls_of_all, flush_lem}

abbrev State : Type 0
State = Inproc × ℕ

abbrev m : Methods State
m = inproc_methods (λ n. n)

abbrev message : Msg
message = record { utime = 5; channel = 66 ∷ []; buf = 1 ∷ [] }

-- One message waits in each queue, and the send thread runs.
abbrev holding : ThreadsafeQueue Msg
holding = record {
  queue = record { slots = none ∷ some message ∷ none ∷ []; capacity = 3; front = 1; back = 2 };
  disabled = false;
}

abbrev sending : Blocking State
sending = record {
  zt = (new_inproc blocking, 0);
  mtu = 100;
  send_queue = holding;
  recv_queue = holding;
  recv_mode = mode_none;
  send_state = running;
  recv_state = stopped;
  hndl_state = stopped;
  paused = false;
}

holding-Holds : Holds holding.queue (message ∷ [])
unfolding Queue.num_messages
holding-Holds = record {
  in_range = record { block = refl; front_in = omega arith; back_in = omega arith };
  counts = refl;
  elements = refl;
}

-- The program stopped, and publishes once more.
abbrev ended : Blocking State
ended = record sending { send_state = stopped; send_queue = record holding { disabled = true } }

abbrev again : Blocking State
again = (blocking_publish 9 ended (66 ∷ []) (2 ∷ [])).1

abbrev no_regex : List ℕ → List ℕ → Bool
no_regex channel pattern = false

abbrev listener : Sub
listener = record {
  address = 1;
  channel = 66 ∷ [];
  callback = 2;
  usr = 3;
  regex = false;
  regexobj = [];
}

abbrev subs : Subs
subs = record { subs = (66 ∷ [], listener ∷ []) ∷ []; subs_regex = [] }

flush_lem_example :
    (z' : Blocking State) × (blocking_flush m no_regex subs note true true ([], sending)
      ≡ some (eok, ([] ++ calls_of_all no_regex subs (message ∷ []), z')))
    × (z'.zt ≡ sent_all m sending.zt (message ∷ []))
    × Holds z'.send_queue.queue []
    × Holds z'.recv_queue.queue []
flush_lem_example =
    flush_lem no_regex m subs [] sending (message ∷ []) (message ∷ []) holding-Holds holding-Holds

calls_test :
    calls_of_all no_regex subs (message ∷ []) ≡ record { callback = 2; usr = 3; msg = message } ∷ []
unfolding zcm.Blocking.Dispatch.find_subs
calls_test = refl
