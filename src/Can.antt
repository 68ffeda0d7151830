-- ===== src/Can.antt =====
-- zcm/transport/transport_can.cpp: the bytes of the serial transport in frames of eight bytes.
pub mod Put
use zcm.Prelude.{
  ℕ, zero, suc, ◌+◌, ◌-◌, Bool, List, [], ◌∷◌, ◌++◌, Option, none, some, if◌then◌else◌, length,
  take, drop, min,
}

-- `CAN_MAX_DLEN`
abbrev pub can_max_dlen : ℕ
can_max_dlen = 8

-- `get`: `none` is a `read` that gives no whole frame. What does not fit is thrown away.
unfoldable pub can_get : Option (List ℕ) → ℕ → List ℕ
can_get none n_data = []
can_get (some frame) n_data = take (min n_data (length frame)) frame

-- `sendFrame`: what it returns, and the data of the frame that was written. `written` says whether
-- `write` took the frame.
unfoldable pub send_frame : Bool → List ℕ → ℕ × List (List ℕ)
send_frame written bytes =
    let ret = min (length bytes) can_max_dlen in
    if written then (ret, take ret bytes ∷ []) else (0, [])

-- The loop of `put` over what is left; `written` is asked for each frame in turn. Each round that goes
-- on takes a byte.
abbrev pub go_on : (ℕ → List ℕ → ℕ × List (List ℕ)) → List ℕ → ℕ × List (List ℕ) → ℕ × List (List ℕ)
go_on again left (zero, frames) = (zero, [])
go_on again left (suc n, frames) =
    let (ret, more) = again (suc n) (drop (suc n) left) in (suc n + ret, frames ++ more)

unfoldable pub put_loop : ℕ → (ℕ → Bool) → ℕ → List ℕ → ℕ × List (List ℕ)
put_loop zero written k left = (0, [])
put_loop (suc fuel) written k [] = (0, [])
put_loop (suc fuel) written k (b ∷ left) =
    go_on (λ n. put_loop fuel written (k + 1)) (b ∷ left) (send_frame (written k) (b ∷ left))

unfoldable pub can_put : (ℕ → Bool) → List ℕ → ℕ × List (List ℕ)
can_put written bytes = put_loop (length bytes) written 0 bytes
