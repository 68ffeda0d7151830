-- ===== src/Tests/CircBufferTests.antt =====
-- A ring of four slots that holds two bytes round its end.
use zcm.Prelude.{
  ℕ, ◌≤◌, ◌≡◌, refl, arith, List, [], ◌∷◌, ◌++◌, length, take, drop, length-take, min,
}
use zcm.CircBuffer.{CircBuffer, cb_size, cb_front, cb_flush_out, cb_flush_in}
use zcm.CircBuffer.Contents.{IsValid, contents}
use zcm.CircBuffer.FlushOut.{flush_out_lem}
use zcm.CircBuffer.FlushIn.{flush_in_lem, Filled}

abbrev wrapped : CircBuffer
wrapped = record { mem = 9 ∷ 5 ∷ 6 ∷ 8 ∷ []; capacity = 4; front = 3; back = 1 }

abbrev wrapped-IsValid : IsValid wrapped
wrapped-IsValid = record { storage = refl; front_in = omega arith; back_in = omega arith }

contents-wrapped : contents wrapped ≡ 8 ∷ 9 ∷ []
unfolding contents cb_size cb_front
contents-wrapped = refl

-- A sink that takes at most two bytes at a time.
abbrev put_two : List ℕ → List ℕ → ℕ × List ℕ
put_two d w = (min 2 (length d), w ++ take (min 2 (length d)) d)

flush_out_example :
    let (n, cb', w') = cb_flush_out wrapped put_two [] in
    (n ≤ cb_size wrapped)
    × IsValid cb'
    × (contents cb' ≡ drop n (contents wrapped))
    × (w' ≡ [] ++ take n (contents wrapped))
flush_out_example =
    flush_out_lem put_two (λ w. w) (λ d w. omega arith) (λ d w. refl) wrapped [] wrapped-IsValid

-- A source: what it has given, and what it has left.
abbrev get_some : ℕ → List ℕ × List ℕ → List ℕ × (List ℕ × List ℕ)
get_some n (given, left) = (take n left, (given ++ take n left, drop n left))

flush_in_example :
    Filled get_some
      (λ w. w.0)
      (λ n w. omega (arith, length-take n w.1))
      (λ n w. refl)
      wrapped
      ([], 1 ∷ 2 ∷ [])
      (cb_flush_in wrapped get_some ([], 1 ∷ 2 ∷ []))
flush_in_example =
    flush_in_lem get_some (λ w. w.0) (λ n w. omega (arith, length-take n w.1)) (λ n w. refl) wrapped
      ([], 1 ∷ 2 ∷ []) wrapped-IsValid
