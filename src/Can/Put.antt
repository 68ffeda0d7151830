-- ===== src/Can/Put.antt =====
-- What `put` of zcm/transport/transport_can.cpp writes.
use zcm.Prelude.{
  ℕ, zero, suc, ◌+◌, ◌≤◌, ◌<◌, ◌≡◌, ◌∙◌, ◌⊎◌, inl, inr, ap, refl, sym, arith, Bool, false,
  Bool-cases, List, [], ◌∷◌, ◌++◌, length, take, drop, min, All, take-add, length-drop, length-take,
}
use zcm.Can.{can_max_dlen, send_frame, put_loop, can_put}

abbrev pub concat : List (List ℕ) → List ℕ
concat [] = []
concat (f ∷ fs) = f ++ concat fs

-- A frame carries one to eight bytes.
abbrev pub IsFrame : List ℕ → Type 0
IsFrame f = (0 < length f) × (length f ≤ can_max_dlen)

-- The frames carry the bytes that `put` says were written, in order; these are all, unless the
-- `write` behind the last of the frames failed. The first is the `start`-th.
pub record Wrote (written : ℕ → Bool) (start : ℕ) (bytes : List ℕ) (x : ℕ × List (List ℕ))
    : Type 0 where
  pub carried : concat x.1 ≡ take x.0 bytes
  pub framed : All IsFrame x.1
  pub whole : (x.0 ≡ length bytes) ⊎ (written (start + length x.1) ≡ false)

put_loop-Wrote :
    (fuel : ℕ) (written : ℕ → Bool) (k : ℕ) (bytes : List ℕ)
    → length bytes ≤ fuel
    → Wrote written k bytes (put_loop fuel written k bytes)
unfolding put_loop send_frame
put_loop-Wrote zero written k [] h = record { carried = refl; framed = tt; whole = inl refl }
put_loop-Wrote zero written k (b ∷ left) h = absurd (omega arith)
put_loop-Wrote (suc fuel) written k [] h = record { carried = refl; framed = tt; whole = inl refl }
put_loop-Wrote (suc fuel) written k (b ∷ left) h = elim (Bool-cases (written k)) [
  | inr e ↦ rw e (record {
    carried = refl;
    framed = tt;
    whole = inr (ap written {x = k + 0} {y = k} (omega arith) ∙ e);
  })
  | inl e ↦
      let n = min (length left) 7 in
      let one : min (length (b ∷ left)) can_max_dlen ≡ suc n = omega arith in
      let bytes : List ℕ = b ∷ left in
      let rest = drop (suc n) bytes in
      let size = length-drop (suc n) bytes in
      let w = put_loop-Wrote fuel written (k + 1) rest (omega arith) in
      rw (e, one)
        (record {
          carried =
              ap (λ t. take (suc n) bytes ++ t) w.carried
              ∙ sym (take-add (suc n) (put_loop fuel written (k + 1) rest).0 bytes);
          framed = (
            (omega (arith, length-take (suc n) bytes), omega (arith, length-take (suc n) bytes)),
            w.framed,
          );
          whole = elim w.whole [
            | inl all ↦ inl (omega (arith, size, all))
            | inr failed ↦
                let more = (put_loop fuel written (k + 1) rest).1 in
                inr (
                  ap written {x = k + suc (length more)} {y = k + 1 + length more} (omega arith)
                  ∙ failed)
          ];
        })
]

-- `put` ends; the data of its frames, of one to eight bytes each, is in order the part of the bytes that
-- it says it wrote, and that part is all of them unless the
-- `write` behind the last of these frames failed.
pub can_put-Wrote :
    (written : ℕ → Bool) (bytes : List ℕ) → Wrote written 0 bytes (can_put written bytes)
unfolding can_put
can_put-Wrote written bytes = put_loop-Wrote (length bytes) written 0 bytes (omega arith)
