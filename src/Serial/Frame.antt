-- ===== src/Serial/Frame.antt =====
-- The frame of a message, as the comment at the top of generic_serial_transport.c lays it out.
use zcm.Prelude.{
  ℕ, ◌+◌, ◌/◌, ◌%◌, ◌^◌, ◌≤◌, ◌<◌, ◌≡◌, refl, arith, List, [], ◌∷◌, ◌++◌, length, length-append,
  if◌then◌else◌, ◌==◌,
}
use zcm.Transport.{Msg}
use zcm.Serial.{fletcher_update, escape, len_bytes, sum_bytes, frame_bytes}

abbrev pub IsByte : ℕ → Type 0
IsByte b = b < 256

-- The bytes with each escape character doubled.
unfoldable pub stuff : List ℕ → List ℕ
stuff [] = []
stuff (c ∷ cs) = let rest = stuff cs in if c == escape then c ∷ c ∷ rest else c ∷ rest

unfoldable pub fletcher_sum : List ℕ → ℕ → ℕ
fletcher_sum [] s = s
fletcher_sum (c ∷ cs) s = fletcher_sum cs (fletcher_update c s)

pub fletcher_sum-append :
    (xs ys : List ℕ) (s : ℕ) → fletcher_sum (xs ++ ys) s ≡ fletcher_sum ys (fletcher_sum xs s)
unfolding fletcher_sum
fletcher_sum-append [] ys s = refl
fletcher_sum-append (x ∷ xs) ys s = fletcher_sum-append xs ys (fletcher_update x s)

abbrev pub header : Msg → List ℕ
header m = escape ∷ 0x00 ∷ (length m.channel % 256) ∷ len_bytes (length m.buf)

abbrev pub message_sum : Msg → ℕ
message_sum m = fletcher_sum m.buf (fletcher_sum m.channel 0xffff)

unfoldable pub frame : Msg → List ℕ
frame m = header m ++ (stuff m.channel ++ (stuff m.buf ++ sum_bytes (message_sum m)))

pub length-frame :
    (m : Msg) → length (frame m) ≡ frame_bytes + length (stuff m.channel) + length (stuff m.buf)
unfolding frame
length-frame m = omega (
  arith,
  length-append (header m) (stuff m.channel ++ (stuff m.buf ++ sum_bytes (message_sum m))),
  length-append (stuff m.channel) (stuff m.buf ++ sum_bytes (message_sum m)),
  length-append (stuff m.buf) (sum_bytes (message_sum m)),
)

pub length-le-stuff : (cs : List ℕ) → length cs ≤ length (stuff cs)
unfolding stuff
length-le-stuff [] = omega arith
length-le-stuff (c ∷ cs) = ground (arith, length-le-stuff cs)

-- Both sums are reduced to a byte, to the residue that Fletcher's checksum defines modulo 255.
pub fletcher_update_lem :
    (b s : ℕ)
    → IsByte b
    → s < 2 ^ 16
    → let s' = fletcher_update b s in
      (s' < 2 ^ 16)
      × (s' % 256 % 255 ≡ (s % 256 + b) % 255)
      × (s' / 256 % 255 ≡ (s / 256 + (s % 256 + b)) % 255)
unfolding fletcher_update
fletcher_update_lem b s h k = omega arith

pub fletcher_sum-lt : (cs : List ℕ) (s : ℕ) → s < 2 ^ 16 → fletcher_sum cs s < 2 ^ 16
unfolding fletcher_sum fletcher_update
fletcher_sum-lt [] s h = h
fletcher_sum-lt (c ∷ cs) s h = fletcher_sum-lt cs (fletcher_update c s) (omega arith)

pub message_sum-lt : (m : Msg) → message_sum m < 2 ^ 16
message_sum-lt m = fletcher_sum-lt m.buf _ (fletcher_sum-lt m.channel 0xffff (omega arith))
