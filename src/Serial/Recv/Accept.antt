-- ===== src/Serial/Recv/Accept.antt =====
-- One round of `serial_recvmsg` accepts a frame at the front of the ring, and nothing else.
use zcm.Prelude.{
  ℕ, ◌+◌, ◌*◌, ◌^◌, ◌≤◌, ◌<◌, ◌≡◌, ◌∙◌, ap, sym, refl, arith, List, [], ◌++◌, length, length-append,
  true, false, ltb, ◌==◌, Bool-cases, inl, inr, ge→ltb, ltb→ge, ==_iff, All, All-get_or, take,
}
use zcm.CircBuffer.{CircBuffer, cb_size, cb_front}
use zcm.CircBuffer.Contents.{contents, length-contents, cb_front-eq}
use zcm.Transport.{Msg, channel_maxlen}
use zcm.Serial.{escape, sum_bytes, frame_bytes}
use zcm.Serial.Frame.{
  IsByte, stuff, frame, header, length-frame, fletcher_sum, message_sum, fletcher_sum-lt,
  length-le-stuff,
}
use zcm.Serial.Recv.{
  Read, again, fail, bytes, Attempt, wait, bad, got, recv_bytes, finish, recv_data, recv_frame,
  header_len,
}
use zcm.Serial.Recv.Reads.{Reads, Reads-at, Reads-split, Reads-join, Reads-of_contents, take-Reads}
use zcm.Serial.Recv.Decode.{recv_bytes-stuff, recv_bytes-Sound, Sound}

-- A message that the transport carries.
pub record Fits (mtu : ℕ) (m : Msg) : Type 0 where
  pub channel_fits : length m.channel ≤ channel_maxlen
  pub buf_fits : length m.buf ≤ mtu
  pub len_fits : length m.buf < 2 ^ 32

finish_sum :
    (r : CircBuffer) (t k s : ℕ) (chan buf : List ℕ)
    → Reads r k (sum_bytes s)
    → s < 2 ^ 16
    → finish r t chan (bytes buf k s)
      ≡ got (record { utime = t; channel = chan; buf = buf }) (k + 2)
unfolding finish
finish_sum r t k s chan buf (e, (f, _)) h = ground arith

-- The two loops and the sums, on what stands behind a header.
recv_data-stuff :
    (r : CircBuffer) (t : ℕ) (chan buf : List ℕ)
    → let sum = fletcher_sum buf (fletcher_sum chan 0xffff) in
      Reads r 7 (stuff chan)
      → Reads r (7 + length (stuff chan)) (stuff buf)
      → Reads r (7 + length (stuff chan) + length (stuff buf)) (sum_bytes sum)
      → 9 + length (stuff chan) + length (stuff buf) ≤ cb_size r
      → recv_data r t
          (length buf)
          (recv_bytes false r (cb_size r) (length buf + 2) (length chan) 7 0xffff)
        ≡ got
            (record { utime = t; channel = chan; buf = buf })
            (9 + length (stuff chan) + length (stuff buf))
unfolding recv_data
recv_data-stuff r t chan buf a b c h =
    let longer = length-le-stuff buf in
    let s = fletcher_sum chan 0xffff in
    let first =
      recv_bytes-stuff false r (cb_size r) (length buf + 2) chan 7 0xffff a (omega arith) in
    let second =
      recv_bytes-stuff true r (cb_size r) 2 buf (7 + length (stuff chan)) s b (omega arith) in
    let n : 7 + length (stuff chan) + length (stuff buf) + 2
        ≡ 9 + length (stuff chan) + length (stuff buf) =
      omega arith in
    rw (first, second)
      (finish_sum r t _ _ chan buf c
          (fletcher_sum-lt buf s (fletcher_sum-lt chan 0xffff (omega arith)))
        ∙ ap (got (record { utime = t; channel = chan; buf = buf })) n)

-- A frame at the front of the ring is accepted whole.
pub recv_frame-frame :
    (r : CircBuffer) (m : Msg) (rest : List ℕ) (mtu t : ℕ)
    → Fits mtu m
    → contents r ≡ frame m ++ rest
    → recv_frame mtu r t ≡ got (record m { utime = t }) (length (frame m))
unfolding recv_frame
recv_frame-frame r m rest mtu t h e =
    let chan = m.channel in
    let buf = m.buf in
    let sum = message_sum m in
    let all = Reads-of_contents r [] (frame m) rest 0 e refl in
    let (hd, body) =
      Reads-split r 0 (header m) (stuff chan ++ (stuff buf ++ sum_bytes sum))
        (unfold frame in all) in
    let (reads_chan, body') = Reads-split r 7 (stuff chan) (stuff buf ++ sum_bytes sum) body in
    let (reads_buf, reads_sum) = Reads-split r _ (stuff buf) (sum_bytes sum) body' in
    let size : cb_size r ≡ length (frame m) + length rest =
      sym (length-contents r) ∙ ap length e ∙ length-append (frame m) rest in
    let l = length-frame m in
    let longer = length-le-stuff chan in
    let longer' = length-le-stuff buf in
    let chan_len : cb_front r 2 ≡ length chan = omega arith in
    let len : header_len r ≡ length buf = omega arith in
    let t0 : ltb (cb_size r) frame_bytes ≡ false = ge→ltb _ _ (omega arith) in
    let t3 : ltb channel_maxlen (length chan) ≡ false = ge→ltb _ _ (omega arith) in
    let t4 : ltb mtu (length buf) ≡ false = ge→ltb _ _ (omega arith) in
    let t5 : ltb (cb_size r) (frame_bytes + length chan + length buf) ≡ false =
      ge→ltb _ _ (omega arith) in
    rw (t0, hd.0, hd.1.0, chan_len, len, t3, t4, t5)
      (recv_data-stuff r t chan buf reads_chan reads_buf reads_sum (omega arith)
        ∙ ap (got (record m { utime = t })) (sym l))

front-IsByte :
    (r : CircBuffer) (k : ℕ) → All IsByte (contents r) → k < cb_size r → cb_front r k < 256
front-IsByte r k h p =
    rw (cb_front-eq r k p) (All-get_or IsByte (contents r) k 0 h (omega (arith, length-contents r)))

-- What an accepted message is: its frame stands at the front of the ring.
abbrev pub Accepted : ℕ → CircBuffer → ℕ → Attempt → Type 0
Accepted mtu r t wait = Unit {0}
Accepted mtu r t bad = Unit {0}
Accepted mtu r t (got m n) =
    (m.utime ≡ t)
    × (length m.channel ≤ channel_maxlen)
    × (length m.buf ≤ mtu)
    × (n ≤ cb_size r)
    × (n ≡ length (frame m))
    × (take n (contents r) ≡ frame m)

module _ (mtu : ℕ) (r : CircBuffer) (t : ℕ) (are_bytes : All IsByte (contents r))
    (size : frame_bytes ≤ cb_size r) (sync : cb_front r 0 ≡ escape) (sync' : cb_front r 1 ≡ 0)
    (chan_fits : cb_front r 2 ≤ channel_maxlen) (buf_fits : header_len r ≤ mtu) where
  Reads-header :
      (m : Msg)
      → length m.channel ≡ cb_front r 2
      → length m.buf ≡ header_len r
      → Reads r 0 (header m)
  Reads-header m h k =
      let b3 = front-IsByte r 3 are_bytes (omega arith) in
      let b4 = front-IsByte r 4 are_bytes (omega arith) in
      let b5 = front-IsByte r 5 are_bytes (omega arith) in
      let b6 = front-IsByte r 6 are_bytes (omega arith) in
      (sync, (sync', (omega arith, (omega arith, (omega arith, (omega arith, (omega arith, tt)))))))

  finish-Accepted :
      (chan : List ℕ) (x : Read)
      → length chan ≡ cb_front r 2
      → Reads r 7 (stuff chan)
      → Sound true r
          (cb_size r)
          2
          (header_len r)
          (7 + length (stuff chan))
          (fletcher_sum chan 0xffff)
          x
      → Accepted mtu r t (finish r t chan x)
  unfolding finish frame
  finish-Accepted chan again e h s = tt
  finish-Accepted chan fail e h s = tt
  finish-Accepted chan (bytes buf k sum) e h (l, reads, at, total, within) =
      elim (Bool-cases ((cb_front r k * 2 ^ 8 + cb_front r (k + 1)) == sum)) [
        | inr differs ↦ rw differs tt
        | inl same ↦
            let m : Msg = record { utime = t; channel = chan; buf = buf } in
            let a = front-IsByte r k are_bytes (omega arith) in
            let b = front-IsByte r (k + 1) are_bytes (omega arith) in
            let eq = (==_iff _ _).0 same in
            let sums : Reads r k (sum_bytes sum) = (omega arith, (omega arith, tt)) in
            let sums' : Reads r (7 + length (stuff chan) + length (stuff buf))
                (sum_bytes (message_sum m)) =
              Reads-at r _ _ (sum_bytes (message_sum m)) at (rw total at sums) in
            let body = Reads-join r _ (stuff buf) (sum_bytes (message_sum m)) reads sums' in
            let whole : Reads r 0 (frame m) =
              Reads-join r 0 (header m) (stuff chan ++ (stuff buf ++ sum_bytes (message_sum m)))
                (Reads-header m e l)
                (Reads-join r 7 (stuff chan) (stuff buf ++ sum_bytes (message_sum m)) h body) in
            let len = length-frame m in
            let n : k + 2 ≡ length (frame m) = omega arith in
            rw same (
              refl,
              omega arith,
              omega arith,
              within,
              n,
              ap (λ j. take j (contents r)) n ∙ take-Reads r (frame m) whole (omega arith),
            )
      ]

  data-Accepted :
      (x : Read)
      → Sound false r (cb_size r) (header_len r + 2) (cb_front r 2) 7 0xffff x
      → Accepted mtu r t (recv_data r t (header_len r) x)
  unfolding recv_data
  data-Accepted again s = tt
  data-Accepted fail s = tt
  data-Accepted (bytes chan k sum) (l, reads, at, total, within) =
      rw (at, total)
        (finish-Accepted chan _ l reads
          (recv_bytes-Sound true r (cb_size r) 2 (header_len r) _ _ (omega arith)))

-- One round accepts a message only if its frame stands at the front of the ring.
pub recv_frame-Accepted :
    (mtu : ℕ) (r : CircBuffer) (t : ℕ)
    → All IsByte (contents r)
    → Accepted mtu r t (recv_frame mtu r t)
unfolding recv_frame
recv_frame-Accepted mtu r t h = elim (Bool-cases (ltb (cb_size r) frame_bytes)) [
  | inl a ↦ rw a tt
  | inr a ↦ rw a (elim (Bool-cases (cb_front r 0 == escape)) [
    | inr b ↦ rw b tt
    | inl b ↦ rw b (elim (Bool-cases (cb_front r 1 == 0)) [
      | inr c ↦ rw c tt
      | inl c ↦ rw c (elim (Bool-cases (ltb channel_maxlen (cb_front r 2))) [
        | inl d ↦ rw d tt
        | inr d ↦ rw d (elim (Bool-cases (ltb mtu (header_len r))) [
          | inl e ↦ rw e tt
          | inr e ↦
              rw e
                (elim (Bool-cases (ltb (cb_size r) (frame_bytes + cb_front r 2 + header_len r))) [
                  | inl f ↦ rw f tt
                  | inr f ↦ rw f (
                      data-Accepted mtu r t h (ltb→ge _ _ a) ((==_iff _ _).0 b) ((==_iff _ _).0 c)
                        (ltb→ge _ _ d) (ltb→ge _ _ e) _
                        (recv_bytes-Sound false r (cb_size r) (header_len r + 2) (cb_front r 2) 7
                          0xffff (omega (arith, ltb→ge _ _ f))))
                ])
        ])
      ])
    ])
  ])
]
