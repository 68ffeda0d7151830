-- ===== src/Tests/QueueTests.antt =====
-- A queue of capacity 4 that holds two numbers round its end.
use zcm.Prelude.{ℕ, ◌≡◌, refl, arith, [], ◌∷◌, length, true, none, some}
use zcm.Queue
use zcm.Queue.{Queue}
use zcm.Queue.Holds.{Holds}
use zcm.Queue.Refine.{Matches, spec_push, push_refines}
use zcm.Queue.Resize.{set_capacity-Holds, set_capacity_overflows, destroy-Holds}

abbrev two : Queue ℕ
two = record { slots = some 9 ∷ none ∷ none ∷ some 8 ∷ []; capacity = 4; front = 3; back = 1 }

two-Holds : Holds two (8 ∷ 9 ∷ [])
unfolding Queue.num_messages
two-Holds = record {
  in_range = record { block = refl; front_in = omega arith; back_in = omega arith };
  counts = refl;
  elements = refl;
}

push_refines_example : Matches 4 (Queue.push two 7) (spec_push 4 (8 ∷ 9 ∷ []) 7)
push_refines_example = push_refines 7 two-Holds

set_capacity-Holds_example : Holds (Queue.set_capacity two 3) (8 ∷ 9 ∷ [])
set_capacity-Holds_example = set_capacity-Holds (8 ∷ 9 ∷ []) 3 two-Holds (omega arith)

-- `setCapacity(2)` with two messages in the queue.
set_capacity_overflows_example :
    let q' = Queue.set_capacity two 2 in
    (q'.back ≡ length q'.slots) × (Queue.has_free_space q' ≡ true)
set_capacity_overflows_example = set_capacity_overflows (8 ∷ 9 ∷ []) 2 two-Holds (omega arith)

destroy-Holds_example : Holds (Queue.destroy (Queue.num_messages two) two) []
destroy-Holds_example = destroy-Holds (8 ∷ 9 ∷ []) two-Holds
