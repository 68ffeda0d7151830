-- ===== src/Serial/Recv.antt =====
-- `serial_recvmsg` and the update functions of generic_serial_transport.c.
pub mod Reads
pub mod Decode
pub mod Accept
pub mod Loop
pub mod Delivery
use zcm.Prelude.{
  ℕ, zero, suc, ◌+◌, ◌*◌, ◌^◌, Bool, true, false, not, ◌&&◌, List, [], ◌∷◌, if◌then◌else◌, ltb,
  ◌==◌,
}
use zcm.CircBuffer.{CircBuffer, cb_size, cb_front, cb_pop_front, cb_flush_in, cb_flush_out}
use zcm.Transport.{Retcode, eok, channel_maxlen, Msg}
use zcm.Serial.{Serial, fletcher_update, escape, frame_bytes}

-- How a read loop ends: `return ZCM_EAGAIN`, `goto fail`, or the bytes with the position behind them
-- and the checksum.
pub data Read : Type 0 where
  again fail : Read
  bytes : List ℕ → ℕ → ℕ → Read

abbrev pub keep : ℕ → Read → Read
keep c again = again
keep c fail = fail
keep c (bytes cs k s) = bytes (c ∷ cs) k s

-- The loop over the channel (`after` is `msg->len + 2`) and that over the data (`after` is 2, and
-- `checks` is set), with the rounds left, `consumed` and `checksum`.
unfoldable pub recv_bytes : Bool → CircBuffer → ℕ → ℕ → ℕ → ℕ → ℕ → Read
recv_bytes checks r incoming after zero consumed sum = bytes [] consumed sum
recv_bytes checks r incoming after (suc n) consumed sum =
    let c = cb_front r consumed in
    let escaped = c == escape in
    let c' = cb_front r (consumed + 1) in
    let next = if escaped then consumed + 2 else consumed + 1 in
    let rest = recv_bytes checks r incoming after n next (fletcher_update c sum) in
    if checks && ltb incoming consumed
    then again
    else if escaped && ltb incoming (consumed + 1 + suc n + after)
    then again
    else if escaped && not (c' == escape)
    then fail
    else keep c rest

-- How one round from `serial_recvmsg_start` ends: `return ZCM_EAGAIN`, `fail:`, or a message and the
-- bytes that it took.
pub data Attempt : Type 0 where
  wait bad : Attempt
  got : Msg → ℕ → Attempt

-- The test of the checksum behind the data.
unfoldable pub finish : CircBuffer → ℕ → List ℕ → Read → Attempt
finish r utime chan again = wait
finish r utime chan fail = bad
finish r utime chan (bytes buf k sum) =
    if (cb_front r k * 2 ^ 8 + cb_front r (k + 1)) == sum
    then got (record { utime = utime; channel = chan; buf = buf }) (k + 2)
    else bad

-- The data loop, once the channel has been read.
unfoldable pub recv_data : CircBuffer → ℕ → ℕ → Read → Attempt
recv_data r utime len again = wait
recv_data r utime len fail = bad
recv_data r utime len (bytes chan k sum) =
    finish r utime chan (recv_bytes true r (cb_size r) 2 len k sum)

-- `msg->len` of the header: four bytes, the highest first.
abbrev pub header_len : CircBuffer → ℕ
header_len r = cb_front r 3 * 2 ^ 24 + cb_front r 4 * 2 ^ 16 + cb_front r 5 * 2 ^ 8 + cb_front r 6

unfoldable pub recv_frame : ℕ → CircBuffer → ℕ → Attempt
recv_frame mtu r utime =
    let incoming = cb_size r in
    let chan_len = cb_front r 2 in
    let len = header_len r in
    if ltb incoming frame_bytes
    then wait
    else if not (cb_front r 0 == escape)
    then bad
    else if not (cb_front r 1 == 0x00)
    then bad
    else if ltb channel_maxlen chan_len
    then bad
    else if ltb mtu len
    then bad
    else if ltb incoming (frame_bytes + chan_len + len)
    then wait
    else recv_data r utime len (recv_bytes false r incoming (len + 2) chan_len 7 0xffff)

-- The `do while` under `fail:`; each round takes a byte, so `cb_size` rounds are enough.
unfoldable pub resync : ℕ → CircBuffer → CircBuffer
resync zero r = r
resync (suc fuel) r =
    let r' = cb_pop_front r 1 in
    let rest = resync fuel r' in
    if not (cb_size r' == 0) && not (cb_front r' 0 == escape) then rest else r'

-- What `serial_recvmsg` leaves: a message with `ZCM_EOK`, or `ZCM_EAGAIN`, and the ring.
pub data Received : Type 0 where
  delivered : Msg → CircBuffer → Received
  waiting : CircBuffer → Received
  -- The fuel ran out; see `recv_total`.
  stuck : Received

-- `now k` is the k-th reading of the clock.
unfoldable pub recv_loop : ℕ → (ℕ → ℕ) → ℕ → ℕ → CircBuffer → Received
recv_loop zero now k mtu r = stuck
recv_loop (suc fuel) now k mtu r = elim (recv_frame mtu r (now k)) [
  | wait ↦ waiting r
  | bad ↦ recv_loop fuel now (k + 1) mtu (resync (cb_size r) r)
  | got m n ↦ delivered m (cb_pop_front r n)
]

unfoldable pub serial_recvmsg : Serial → (ℕ → ℕ) → Received
serial_recvmsg zt now = recv_loop (cb_size zt.recv_buffer + 1) now 0 zt.mtu zt.recv_buffer

module _ {W : Type 0} where
  pub serial_update_rx : Serial → (ℕ → W → List ℕ × W) → W → Retcode × Serial × W
  serial_update_rx zt get usr =
      let (n, r, usr') = cb_flush_in zt.recv_buffer get usr in
      (eok, record zt { recv_buffer = r }, usr')

  pub serial_update_tx : Serial → (List ℕ → W → ℕ × W) → W → Retcode × Serial × W
  serial_update_tx zt put usr =
      let (n, r, usr') = cb_flush_out zt.send_buffer put usr in
      (eok, record zt { send_buffer = r }, usr')
