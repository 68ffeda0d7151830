-- ===== src/Tests/SerialTests.antt =====
-- A transport with rings of 32 slots, and a message whose data holds the escape character.
use zcm.Prelude.{ℕ, ◌+◌, ◌/◌, ◌%◌, ◌^◌, ◌<◌, ◌≡◌, refl, arith, [], ◌∷◌, replicate}
use zcm.CircBuffer.{CircBuffer}
use zcm.CircBuffer.Contents.{IsValid}
use zcm.Transport.{Msg}
use zcm.Serial.{Serial, escape, fletcher_update, serial_sendmsg}
use zcm.Serial.Frame.{frame, fletcher_update_lem, stuff, fletcher_sum}
use zcm.Serial.Send.{expected, Answers, sendmsg_refines}
use zcm.Serial.Recv.Accept.{Fits}

abbrev empty_ring : CircBuffer
empty_ring = record { mem = replicate 32 0; capacity = 32; front = 0; back = 0 }

abbrev empty_ring-IsValid : IsValid empty_ring
empty_ring-IsValid = record { storage = refl; front_in = omega arith; back_in = omega arith }

abbrev port : Serial
port = record { send_buffer = empty_ring; recv_buffer = empty_ring; mtu = 16 }

abbrev msg : Msg
msg = record { utime = 0; channel = 0x41 ∷ []; buf = 1 ∷ escape ∷ [] }

abbrev clock : ℕ → ℕ
clock k = 100 + k

-- The frame, with its checksum worked out.
frame-msg : frame msg ≡ 0xcc ∷ 0 ∷ 1 ∷ 0 ∷ 0 ∷ 0 ∷ 2 ∷ 0x41 ∷ 1 ∷ 0xcc ∷ 0xcc ∷ 0x92 ∷ 0x0f ∷ []
unfolding frame stuff fletcher_sum fletcher_update
frame-msg = refl

fletcher_update_example :
    let s' = fletcher_update 204 0x8342 in
    (s' < 2 ^ 16)
    × (s' % 256 % 255 ≡ (0x8342 % 256 + 204) % 255)
    × (s' / 256 % 255 ≡ (0x8342 / 256 + (0x8342 % 256 + 204)) % 255)
fletcher_update_example = fletcher_update_lem 204 0x8342 (omega arith) (omega arith)

sendmsg_refines_example : Answers port (serial_sendmsg port msg) (expected port msg)
sendmsg_refines_example = sendmsg_refines port msg empty_ring-IsValid

-- A ring of 12 slots, which `serial_create` accepts for an MTU of 2 or 3.
abbrev tight : Serial
tight = record port {
  send_buffer = record { mem = replicate 12 0; capacity = 12; front = 3; back = 3 };
}

-- The frame of the message behind one byte of noise, with one byte after it.
abbrev noisy : CircBuffer
noisy = record {
  mem = 5 ∷ 0xcc ∷ 0 ∷ 1 ∷ 0 ∷ 0 ∷ 0 ∷ 2 ∷ 0x41 ∷ 1 ∷ 0xcc ∷ 0xcc ∷ 0x92 ∷ 0x0f ∷ 7 ∷ 0 ∷ [];
  capacity = 16;
  front = 0;
  back = 15;
}

abbrev noisy-IsValid : IsValid noisy
noisy-IsValid = record { storage = refl; front_in = omega arith; back_in = omega arith }

abbrev noisy_port : Serial
noisy_port = record port { recv_buffer = noisy }

abbrev msg-Fits : Fits 16 msg
msg-Fits = record { channel_fits = omega arith; buf_fits = omega arith; len_fits = omega arith }

-- The sender's ring after sending, carried over whole.
abbrev carried : Serial
carried = record port { recv_buffer = (serial_sendmsg port msg).1.send_buffer }
