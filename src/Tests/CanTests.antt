-- ===== src/Tests/CanTests.antt =====
-- zcm/transport/transport_can.cpp: ten bytes, and a bus that fails at the second frame.
use zcm.Prelude.{ℕ, ◌==◌, ◌≡◌, refl, Bool, List, [], ◌∷◌}
use zcm.Can.{can_put, can_get}
use zcm.Can.Put.{Wrote, can_put-Wrote}

abbrev ten : List ℕ
ten = 1 ∷ 2 ∷ 3 ∷ 4 ∷ 5 ∷ 6 ∷ 7 ∷ 8 ∷ 9 ∷ 10 ∷ []

abbrev once : ℕ → Bool
once k = k == 0

can_put-Wrote_example : Wrote once 0 ten (can_put once ten)
can_put-Wrote_example = can_put-Wrote once ten

put_test : can_put once ten ≡ (8, (1 ∷ 2 ∷ 3 ∷ 4 ∷ 5 ∷ 6 ∷ 7 ∷ 8 ∷ []) ∷ [])
unfolding can_put zcm.Can.put_loop zcm.Can.send_frame
put_test = refl
