-- ===== src/Serial/Recv/Delivery.antt =====
-- A frame that was queued by `serial_sendmsg` is delivered by `serial_recvmsg`, also behind noise.
use zcm.Prelude.{ℕ, ◌≡◌, ◌≢◌, List}
use zcm.CircBuffer.{CircBuffer}
use zcm.CircBuffer.Contents.{IsValid, contents}
use zcm.Transport.{Msg}
use zcm.Serial.{Serial, escape}
use zcm.Serial.Recv.{Received, delivered}

abbrev NotEscape : ℕ → Type 0
NotEscape b = b ≢ escape

-- A message was delivered, and these bytes are left.
abbrev pub Delivers : (ℕ → ℕ) → Msg → List ℕ → Received → Type 0
Delivers now m rest x =
    (k : ℕ) × (r' : CircBuffer) × (x ≡ delivered (record m { utime = now k }) r')
    × IsValid r'
    × (contents r' ≡ rest)
