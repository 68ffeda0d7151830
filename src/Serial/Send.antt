-- ===== src/Serial/Send.antt =====
-- `serial_sendmsg` writes a whole frame or nothing.
use zcm.Prelude.{
  ℕ, ◌+◌, ◌≤◌, ◌<◌, ◌≡◌, ◌∙◌, ap, sym, refl, arith, List, [], ◌∷◌, ◌++◌, length, true, false,
  if◌then◌else◌, ◌==◌, Bool-cases, inl, inr, ltb, lt→ltb, ltb→ge, ltb→lt,
}
use zcm.CircBuffer.{cb_room, cb_pop_back}
use zcm.CircBuffer.Contents.{IsValid, contents}
use zcm.Transport.{Retcode, eok, einvalid, eagain, channel_maxlen, Msg}
use zcm.Serial.{
  Serial, Out, put, put_all, send_bytes, send_frame, serial_sendmsg, fletcher_update, escape,
  sum_bytes, frame_bytes,
}
use zcm.Serial.Frame.{
  stuff, frame, length-frame, fletcher_sum, length-le-stuff, header, message_sum,
}
use zcm.Serial.Wrote.{
  Wrote, Wrote-nil, Wrote-append, Wrote-room, Wrote-checksum, put_lem, put_all_lem, undo,
}

checksum-put : (c : ℕ) (o : Out) → (put c o).checksum ≡ o.checksum
unfolding put
checksum-put c o = refl

checksum-put_all : (cs : List ℕ) (o : Out) → (put_all cs o).checksum ≡ o.checksum
unfolding put_all
checksum-put_all [] o = refl
checksum-put_all (c ∷ cs) o = checksum-put_all cs (put c o) ∙ checksum-put c o

abbrev summed : ℕ → Out → Out
summed c o = record o { checksum = fletcher_update c o.checksum }

put-summed :
    (c : ℕ) (o : Out) → IsValid o.ring → 0 < cb_room o.ring → Wrote o (summed c (put c o)) (c ∷ [])
put-summed c o v h = Wrote-checksum (put_lem c o v h) _

put_twice :
    (c : ℕ) (o : Out)
    → IsValid o.ring
    → 1 < cb_room o.ring
    → Wrote o (summed c (put c (put c o))) (c ∷ c ∷ [])
put_twice c o v h =
    let w = put_lem c o v (omega arith) in
    Wrote-append (c ∷ []) (c ∷ []) w
      (put-summed c (put c o) w.valid (omega (arith, Wrote-room v w)))

-- With room for all of its output and what follows, the loop goes through.
send_bytes_fits :
    (tail : ℕ) (cs : List ℕ) (o : Out)
    → IsValid o.ring
    → length (stuff cs) + tail < cb_room o.ring
    → let (sent, o') = send_bytes tail cs o in
      (sent ≡ true) × Wrote o o' (stuff cs) × (o'.checksum ≡ fletcher_sum cs o.checksum)
unfolding send_bytes stuff fletcher_sum
send_bytes_fits tail [] o v h = (refl, Wrote-nil o v, refl)
send_bytes_fits tail (c ∷ cs) o v h = elim (Bool-cases (c == escape)) [
  | inl e ↦
      let h' : length (c ∷ c ∷ stuff cs) + tail < cb_room o.ring = rw e at h in
      let longer = length-le-stuff cs in
      let w1 = put_lem c o v (omega arith) in
      let w2 = put_twice c o v (omega arith) in
      let go : ltb (length (c ∷ cs) + tail) (cb_room (put c o).ring) ≡ true =
        lt→ltb _ _ (omega (arith, Wrote-room v w1)) in
      let (t, w3, sum) =
        send_bytes_fits tail cs (summed c (put c (put c o))) w2.valid
          (omega (arith, Wrote-room v w2)) in
      rw (e, go)
        (
          t,
          Wrote-append (c ∷ c ∷ []) (stuff cs) w2 w3,
          sum
              ∙ ap (λ t. fletcher_sum cs (fletcher_update c t))
                  (checksum-put c (put c o) ∙ checksum-put c o),
        )
  | inr e ↦
      let h' : length (c ∷ stuff cs) + tail < cb_room o.ring = rw e at h in
      let w1 = put-summed c o v (omega arith) in
      let (t, w3, sum) =
        send_bytes_fits tail cs (summed c (put c o)) w1.valid (omega (arith, Wrote-room v w1)) in
      rw e (
        t,
        Wrote-append (c ∷ []) (stuff cs) w1 w3,
        sum ∙ ap (λ t. fletcher_sum cs (fletcher_update c t)) (checksum-put c o),
      )
]

-- With room for the plain bytes but not for the escaped ones, it stops, and what it wrote is counted.
send_bytes_short :
    (tail : ℕ) (cs : List ℕ) (o : Out)
    → IsValid o.ring
    → length cs + tail < cb_room o.ring
    → cb_room o.ring ≤ length (stuff cs) + tail
    → let (sent, o') = send_bytes tail cs o in
      (sent ≡ false) × (written : List ℕ) × Wrote o o' written
unfolding send_bytes stuff
send_bytes_short tail [] o v h k = absurd (omega arith)
send_bytes_short tail (c ∷ cs) o v h k = elim (Bool-cases (c == escape)) [
  | inl e ↦
      let w1 = put_lem c o v (omega arith) in
      let k' : cb_room o.ring ≤ length (c ∷ c ∷ stuff cs) + tail = rw e at k in
      elim (Bool-cases (ltb (length (c ∷ cs) + tail) (cb_room (put c o).ring))) [
        | inl go ↦
            let w2 = put_twice c o v (omega arith) in
            let (f, more, w3) =
              send_bytes_short tail cs (summed c (put c (put c o))) w2.valid
                (omega (arith, ltb→lt _ _ go, Wrote-room v w1, Wrote-room v w2))
                (omega (arith, Wrote-room v w2)) in
            rw (e, go) (f, (c ∷ c ∷ []) ++ more, Wrote-append (c ∷ c ∷ []) more w2 w3)
        | inr stop ↦ rw (e, stop) (refl, c ∷ [], w1)
      ]
  | inr e ↦
      let w1 = put-summed c o v (omega arith) in
      let k' : cb_room o.ring ≤ length (c ∷ stuff cs) + tail = rw e at k in
      let (f, more, w3) =
        send_bytes_short tail cs (summed c (put c o)) w1.valid (omega (arith, Wrote-room v w1))
          (omega (arith, Wrote-room v w1)) in
      rw e (f, (c ∷ []) ++ more, Wrote-append (c ∷ []) more w1 w3)
]

-- What `serial_sendmsg` is to do: its code, and the bytes that wait to be sent afterwards.
abbrev pub expected : Serial → Msg → Retcode × List ℕ
expected zt msg =
    let waiting = contents zt.send_buffer in
    if ltb channel_maxlen (length msg.channel)
    then (einvalid, waiting)
    else if ltb zt.mtu (length msg.buf)
    then (einvalid, waiting)
    else if ltb (cb_room zt.send_buffer) (length (frame msg))
    then (eagain, waiting)
    else (eok, waiting ++ frame msg)

-- The rest of the transport stays as it is.
abbrev pub Keeps : Serial → Serial → Type 0
Keeps zt zt' = IsValid zt'.send_buffer × (zt'.recv_buffer ≡ zt.recv_buffer) × (zt'.mtu ≡ zt.mtu)

-- A result of sending: its code and the bytes that then wait, and nothing else changed.
abbrev pub Answers : Serial → Retcode × Serial → Retcode × List ℕ → Type 0
Answers zt r answer =
    let seen : Retcode × List ℕ = (r.0, contents r.1.send_buffer) in (seen ≡ answer) × Keeps zt r.1

module _ (zt : Serial) (msg : Msg) (v : IsValid zt.send_buffer) where
  abbrev start : Out
  start = record { ring = zt.send_buffer; n_pushed = 0; checksum = 0xffff }

  abbrev headed : Out
  headed = put_all (header msg) start

  give_up_lem :
      {o : Out} {bytes : List ℕ}
      → Wrote start o bytes
      → let zt' : Serial = record zt { send_buffer = cb_pop_back o.ring o.n_pushed } in
        (contents zt'.send_buffer ≡ contents zt.send_buffer) × Keeps zt zt'
  give_up_lem w = let (v', e) = undo w refl in (e, (v', refl, refl))

  send_frame_fits :
      length (frame msg) ≤ cb_room zt.send_buffer
      → Answers zt (send_frame zt msg) (eok, contents zt.send_buffer ++ frame msg)
  unfolding send_frame frame
  send_frame_fits h =
      let l = length-frame msg in
      let w1 = put_all_lem (header msg) start v (omega arith) in
      let (t, w2, sum) =
        send_bytes_fits (length msg.buf + 1) msg.channel headed w1.valid
          (omega (arith, Wrote-room v w1, length-le-stuff msg.buf)) in
      let o = (send_bytes (length msg.buf + 1) msg.channel headed).1 in
      let (t', w3, sum') =
        send_bytes_fits 1 msg.buf o w2.valid
          (omega (arith, Wrote-room v w1, Wrote-room w1.valid w2)) in
      let o' = (send_bytes 1 msg.buf o).1 in
      let w4 =
        put_all_lem (sum_bytes o'.checksum) o' w3.valid
          (omega (arith, Wrote-room v w1, Wrote-room w1.valid w2, Wrote-room w2.valid w3)) in
      let total = Wrote-append _ _ w1 (Wrote-append _ _ w2 (Wrote-append _ _ w3 w4)) in
      let checked : o'.checksum ≡ message_sum msg =
        sum'
        ∙ ap (fletcher_sum msg.buf)
            (sum ∙ ap (fletcher_sum msg.channel) (checksum-put_all _ start)) in
      rw (t, t')
        (
          ap (λ bs. (eok, bs))
              (total.appended
                ∙ ap
                    (λ s.
                      contents zt.send_buffer
                      ++ (header msg ++ (stuff msg.channel ++ (stuff msg.buf ++ sum_bytes s))))
                    checked),
          (total.valid, refl, refl),
        )

  send_frame_short :
      frame_bytes + length msg.channel + length msg.buf ≤ cb_room zt.send_buffer
      → cb_room zt.send_buffer < length (frame msg)
      → Answers zt (send_frame zt msg) (eagain, contents zt.send_buffer)
  unfolding send_frame
  send_frame_short h k =
      let l = length-frame msg in
      let w1 = put_all_lem (header msg) start v (omega arith) in
      let room1 = Wrote-room v w1 in
      let o = (send_bytes (length msg.buf + 1) msg.channel headed).1 in
      elim (Bool-cases
        (ltb (length (stuff msg.channel) + (length msg.buf + 1)) (cb_room headed.ring))) [
          | inl fits ↦
              let (t, w2, _) =
                send_bytes_fits (length msg.buf + 1) msg.channel headed w1.valid
                  (ltb→lt _ _ fits) in
              let (t', written, w3) =
                send_bytes_short 1 msg.buf o w2.valid
                  (omega (arith, ltb→lt _ _ fits, Wrote-room w1.valid w2))
                  (omega (arith, Wrote-room w1.valid w2)) in
              let (e, keeps) = give_up_lem (Wrote-append _ _ w1 (Wrote-append _ _ w2 w3)) in
              rw (t, t') (ap (λ bs. (eagain, bs)) e, keeps)
          | inr short ↦
              let (t, written, w2) =
                send_bytes_short (length msg.buf + 1) msg.channel headed w1.valid (omega arith)
                  (ltb→ge _ _ short) in
              let (e, keeps) = give_up_lem (Wrote-append _ _ w1 w2) in
              rw t (ap (λ bs. (eagain, bs)) e, keeps)
        ]

  -- `serial_sendmsg` refuses a bad message, and otherwise queues its whole frame if that fits the
  -- room of the send ring, and nothing of it if not.
  pub sendmsg_refines : Answers zt (serial_sendmsg zt msg) (expected zt msg)
  unfolding serial_sendmsg
  sendmsg_refines =
      let l = length-frame msg in
      let longer = length-le-stuff msg.channel in
      let longer' = length-le-stuff msg.buf in
      elim (Bool-cases (ltb channel_maxlen (length msg.channel))) [
        | inl bad ↦ rw bad (refl, (v, refl, refl))
        | inr ok1 ↦ rw ok1 (elim (Bool-cases (ltb zt.mtu (length msg.buf))) [
          | inl bad ↦ rw bad (refl, (v, refl, refl))
          | inr ok2 ↦
              rw ok2
                (elim (Bool-cases (
                  ltb (cb_room zt.send_buffer)
                    (frame_bytes + length msg.channel + length msg.buf))) [
                      | inl full ↦
                          let short : ltb (cb_room zt.send_buffer) (length (frame msg)) ≡ true =
                            lt→ltb _ _ (omega (arith, ltb→lt _ _ full)) in
                          rw (full, short) (refl, (v, refl, refl))
                      | inr room ↦
                          rw room
                            (elim (Bool-cases (ltb (cb_room zt.send_buffer) (length (frame msg)))) [
                              | inl short ↦
                                  rw short (send_frame_short (ltb→ge _ _ room) (ltb→lt _ _ short))
                              | inr fits ↦ rw fits (send_frame_fits (ltb→ge _ _ fits))
                            ])
                    ])
        ])
      ]

-- `ZCM_EOK` means that the whole frame was queued, of a message within the limits.
pub sendmsg-eok :
    (zt : Serial) (m : Msg)
    → IsValid zt.send_buffer
    → (serial_sendmsg zt m).0 ≡ eok
    → (length m.channel ≤ channel_maxlen)
      × (length m.buf ≤ zt.mtu)
      × (contents (serial_sendmsg zt m).1.send_buffer ≡ contents zt.send_buffer ++ frame m)
sendmsg-eok zt m v h =
    let (e, _) = sendmsg_refines zt m v in
    let code : (expected zt m).0 ≡ eok = ap (λ t. t.0) (sym e) ∙ h in
    let bytes : contents (serial_sendmsg zt m).1.send_buffer ≡ (expected zt m).1 =
      ap (λ t. t.1) e in
    ground arith
