-- ===== src/Serial.antt =====
-- zcm/transport/generic_serial_transport.c and generic_serial_fletcher.h: messages as frames on a
-- byte stream. Ring positions and lengths are `size_t`, far from wrapping on a ring in memory.
pub mod Frame
pub mod Wrote
pub mod Send
pub mod Recv
use zcm.Prelude.{
  ℕ, zero, suc, ◌+◌, ◌-◌, ◌*◌, ◌/◌, ◌%◌, ◌^◌, Bool, true, false, not, ◌&&◌, ◌||◌, List, [], ◌∷◌,
  Option, none, some, if◌then◌else◌, ltb, ◌==◌, length,
}
use zcm.CircBuffer.{
  CircBuffer, cb_init, cb_size, cb_room, cb_push_back, cb_pop_back, cb_front, cb_pop_front,
  cb_flush_in, cb_flush_out,
}
use zcm.Transport.{Retcode, eok, einvalid, eagain, channel_maxlen, Msg}

-- `fletcherUpdate`, in `uint16_t`. After two reductions the low sum fits a byte, so `|` is `+`.
unfoldable pub fletcher_update : ℕ → ℕ → ℕ
fletcher_update b prev_sum =
    let low = (prev_sum % 256 + b) % 2 ^ 16 in
    let high = (prev_sum / 256 % 256 + low) % 2 ^ 16 in
    let low1 = low % 256 + low / 256 in
    let high1 = high % 256 + high / 256 in
    let low2 = low1 % 256 + low1 / 256 in
    let high2 = high1 % 256 + high1 / 256 in (high2 * 256 + low2) % 2 ^ 16

-- `ZCM_GENERIC_SERIAL_ESCAPE_CHAR` and `FRAME_BYTES`
abbrev pub escape : ℕ
escape = 0xcc

abbrev pub frame_bytes : ℕ
frame_bytes = 9

-- `zcm_trans_generic_serial_t`, less the callbacks, which are arguments of the functions that call
-- them, and the two scratch arrays that a received message points into.
pub record Serial : Type 0 where
  pub send_buffer : CircBuffer
  pub recv_buffer : CircBuffer
  pub mtu : ℕ

-- `zcm_trans_generic_serial_create`; the blocks are what `malloc` hands out for the two rings.
pub serial_create : Option (List ℕ) → Option (List ℕ) → ℕ → ℕ → Option Serial
serial_create block block' mtu buf_size =
    if mtu == 0 || ltb buf_size (frame_bytes + mtu)
    then none
    else both (cb_init block buf_size) (cb_init block' buf_size)
  where
    both : Option CircBuffer → Option CircBuffer → Option Serial
    both (some s) (some r) = some (record { send_buffer = s; recv_buffer = r; mtu = mtu })
    both _ _ = none

-- What the send loops keep: the ring, the bytes pushed so far, and the checksum.
pub record Out : Type 0 where
  pub ring : CircBuffer
  pub n_pushed : ℕ
  pub checksum : ℕ

unfoldable pub put : ℕ → Out → Out
put c o = record o { ring = cb_push_back o.ring c; n_pushed = o.n_pushed + 1 }

unfoldable pub put_all : List ℕ → Out → Out
put_all [] o = o
put_all (c ∷ cs) o = put_all cs (put c o)

-- The loop over the channel's bytes (`tail` is `msg.len + 1`) and that over the data's (`tail` is
-- 1): an escape character is doubled if there is room for it and all that follows. The list is what
-- the loop has not reached. The answer says whether the loop went through.
unfoldable pub send_bytes : ℕ → List ℕ → Out → Bool × Out
send_bytes tail [] o = (true, o)
send_bytes tail (c ∷ cs) o =
    let o1 = put c o in
    let escaped = c == escape in
    let o2 = if escaped then put c o1 else o1 in
    let rest = send_bytes tail cs (record o2 { checksum = fletcher_update c o2.checksum }) in
    if escaped && not (ltb (length (c ∷ cs) + tail) (cb_room o1.ring)) then (false, o1) else rest

-- `(uint32_t)len`, highest byte first.
abbrev pub len_bytes : ℕ → List ℕ
len_bytes len =
    let n = len % 2 ^ 32 in
    (n / 2 ^ 24 % 256) ∷ (n / 2 ^ 16 % 256) ∷ (n / 2 ^ 8 % 256) ∷ (n % 256) ∷ []

abbrev pub give_up : Serial → Out → Retcode × Serial
give_up zt o = (eagain, record zt { send_buffer = cb_pop_back o.ring o.n_pushed })

abbrev pub sum_bytes : ℕ → List ℕ
sum_bytes sum = (sum / 2 ^ 8 % 256) ∷ (sum % 256) ∷ []

-- The part of `serial_sendmsg` behind its guards.
unfoldable pub send_frame : Serial → Msg → Retcode × Serial
send_frame zt msg =
    let start : Out = record { ring = zt.send_buffer; n_pushed = 0; checksum = 0xffff } in
    let chan_len = length msg.channel in
    let header = put_all (escape ∷ 0x00 ∷ (chan_len % 256) ∷ len_bytes (length msg.buf)) start in
    let (chan_sent, o) = send_bytes (length msg.buf + 1) msg.channel header in
    let (data_sent, o') = send_bytes 1 msg.buf o in
    let done = put_all (sum_bytes o'.checksum) o' in
    if not chan_sent
    then give_up zt o
    else if not data_sent
    then give_up zt o'
    else (eok, record zt { send_buffer = done.ring })

unfoldable pub serial_sendmsg : Serial → Msg → Retcode × Serial
serial_sendmsg zt msg =
    let chan_len = length msg.channel in
    if ltb channel_maxlen chan_len
    then (einvalid, zt)
    else if ltb zt.mtu (length msg.buf)
    then (einvalid, zt)
    else if ltb (cb_room zt.send_buffer) (frame_bytes + chan_len + length msg.buf)
    then (eagain, zt)
    else send_frame zt msg
