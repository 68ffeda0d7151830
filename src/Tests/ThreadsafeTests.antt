-- ===== src/Tests/ThreadsafeTests.antt =====
-- Two pushes and a pop on a threadsafe queue of capacity 3.
use zcm.Prelude.{ℕ, refl, arith, [], ◌∷◌, false, none, some}
use zcm.Queue
use zcm.Queue.{Queue}
use zcm.Queue.Holds.{Holds}
use zcm.ThreadsafeQueue
use zcm.ThreadsafeQueue.{ThreadsafeQueue, new_threadsafe, Run, begin, pushed, peeked, popped}
use zcm.ThreadsafeQueue.Fifo.{Left, Run-Left}

abbrev fresh : ThreadsafeQueue ℕ
fresh = record {
  queue = record { slots = none ∷ none ∷ none ∷ []; capacity = 3; front = 0; back = 0 };
  disabled = false;
}

abbrev after_two : ThreadsafeQueue ℕ
after_two = record {
  queue = record { slots = some 4 ∷ some 5 ∷ none ∷ []; capacity = 3; front = 0; back = 2 };
  disabled = false;
}

abbrev after_pop : ThreadsafeQueue ℕ
after_pop = record {
  queue = record { slots = none ∷ some 5 ∷ none ∷ []; capacity = 3; front = 1; back = 2 };
  disabled = false;
}

fresh-Holds : Holds fresh.queue []
unfolding Queue.num_messages
fresh-Holds = record {
  in_range = record { block = refl; front_in = omega arith; back_in = omega arith };
  counts = refl;
  elements = refl;
}

two-Holds : Holds after_two.queue (4 ∷ 5 ∷ [])
unfolding Queue.num_messages
two-Holds = record {
  in_range = record { block = refl; front_in = omega arith; back_in = omega arith };
  counts = refl;
  elements = refl;
}

calls : Run fresh after_pop (4 ∷ 5 ∷ []) (4 ∷ []) none
unfolding ThreadsafeQueue.push ThreadsafeQueue.push_if_room ThreadsafeQueue.push_now
    ThreadsafeQueue.top ThreadsafeQueue.pop Queue.push Queue.top Queue.pop
calls =
    popped {t = after_two} {ins = 4 ∷ 5 ∷ []} {outs = []} 4
      (peeked {t = after_two} {ins = 4 ∷ 5 ∷ []} {outs = []} {held = none} 4
        (pushed {t' = after_two} {ins = 4 ∷ []} 5
          (pushed
            {t' = record {
              queue = record {
                slots = some 4 ∷ none ∷ none ∷ [];
                capacity = 3;
                front = 0;
                back = 1;
              };
              disabled = false;
            }}
            {ins = []} 4 begin refl)
          refl)
        refl)
      refl

Run-Left_example : Left after_pop (4 ∷ 5 ∷ []) (4 ∷ []) none
Run-Left_example = Run-Left fresh-Holds calls
