-- ===== src/Tests/TrackerTests.antt =====
-- The theorems on zcm/message_tracker.hpp, at concrete messages.
use zcm.Prelude.{ℕ, ◌≡◌, refl, arith, inl, inr, [], ◌∷◌, none, some}
use zcm.Tracker.{
  Stored, Traits, Tracker, default_interpolate, get_at, get_msg_utime, search_utime, expire_before,
  get_range, uint64_max,
}
use zcm.Tracker.Nearest.{Nearest, get_at-Nearest}
use zcm.Tracker.Buffer.{receive_all, last_of, stored, receive_all-last}
use zcm.Dispatcher.{Dispatcher, partner, process_from, run}
use zcm.Dispatcher.Released.{Released, LastIsLatest, run-Released}

-- Messages that are their own utimes.
abbrev numbers : Traits ℕ
numbers = record { own_utime = none; msg_utime = λ m. m; interpolate = default_interpolate }

abbrev at : ℕ → Stored ℕ
at m = record { msg = m; host_utime = 0 }

abbrev two_messages : Tracker ℕ
two_messages = record {
  traits = numbers;
  max_time_err_us = 5;
  buf = at 10 ∷ at 20 ∷ [];
  buf_max = 2;
  last_host_utime = 0;
}

abbrev no_messages : Tracker ℕ
no_messages = record two_messages { buf = [] }

get_at-Nearest_example :
    Nearest (search_utime numbers) 5 13 (at 10 ∷ at 20 ∷ []) (get_at two_messages 13)
get_at-Nearest_example = get_at-Nearest two_messages 13 refl

get_at-Nearest_test : get_at two_messages 13 ≡ some 10
unfolding get_at zcm.Tracker.get_between zcm.Tracker.choose zcm.Tracker.search
    zcm.Tracker.bracket_step search_utime get_msg_utime
get_at-Nearest_test = refl

receive_all-last_example :
    (receive_all two_messages ((30, 1) ∷ (40, 2) ∷ [])).buf
    ≡ last_of 2 (at 10 ∷ at 20 ∷ stored (30, 1) ∷ stored (40, 2) ∷ [])
receive_all-last_example =
    receive_all-last two_messages ((30, 1) ∷ (40, 2) ∷ []) (omega arith) (omega arith)

abbrev dispatcher : Dispatcher ℕ ℕ
dispatcher = record { t1 = no_messages; t2 = no_messages }

-- The second message is behind all of the other type.
last-LastIsLatest :
    LastIsLatest (run dispatcher (inl (10, 0) ∷ inl (30, 0) ∷ inr (12, 0) ∷ [])).1.t2
unfolding run zcm.Dispatcher.handle zcm.Dispatcher.handle1 zcm.Tracker.new_msg
    zcm.Dispatcher.process zcm.Dispatcher.handle2 process_from partner get_msg_utime get_at
    zcm.Tracker.get_between zcm.Tracker.choose zcm.Tracker.search zcm.Tracker.bracket_step
    search_utime
last-LastIsLatest = (omega arith, tt)

run-Released_example : Released (run dispatcher (inl (10, 0) ∷ inl (30, 0) ∷ inr (12, 0) ∷ [])).1
run-Released_example =
    run-Released dispatcher (inl (10, 0) ∷ inl (30, 0) ∷ inr (12, 0) ∷ []) refl last-LastIsLatest

-- The message that waits is sent when a later one of the other type comes.
run_test : (run dispatcher (inl (10, 0) ∷ inr (12, 0) ∷ [])).0 ≡ ((at 10, 12) ∷ [])
unfolding run zcm.Dispatcher.handle zcm.Dispatcher.handle1 zcm.Tracker.new_msg
    zcm.Dispatcher.process zcm.Dispatcher.handle2 process_from partner get_msg_utime get_at
    zcm.Tracker.get_between zcm.Tracker.choose zcm.Tracker.search zcm.Tracker.bracket_step
    search_utime
run_test = refl
