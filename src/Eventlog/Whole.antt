-- ===== src/Eventlog/Whole.antt =====
-- A whole log: all that was written is read back.
use zcm.Prelude.{
  ℕ, zero, suc, ◌+◌, ◌^◌, ◌%◌, ◌<◌, ◌≡◌, ◌∙◌, inl, inr, ap, refl, sym, arith, List, [], ◌∷◌, ◌++◌,
  append_assoc, append-nil, Option, some, length, All,
}
use zcm.Eventlog.{magic_word, Event, Eventlog, read_next_event, put32, event_bytes, write_event}
use zcm.Eventlog.Reads.{at, fields, Good, Follows}
use zcm.Eventlog.RoundTrip.{numbered, event_bytes-fields, read_next_event-at}

-- `zcm_eventlog_write_event` for one event after the other.
abbrev pub write_all : Eventlog → List Event → Eventlog
write_all l [] = l
write_all l (e ∷ es) = write_all (write_event l e) es

-- As many calls of `zcm_eventlog_read_next_event`.
abbrev pub read_all : ℕ → Eventlog → List (Option Event)
read_all zero l = []
read_all (suc n) l = let (e, l') = read_next_event l in e ∷ read_all n l'

-- A counter of 64 bits.
abbrev pub next_number : ℕ → ℕ
next_number n = (n + 1) % 2 ^ 64

-- The events with the numbers they are given from `n` on.
abbrev pub all_numbered : ℕ → List Event → List (Option Event)
all_numbered n [] = []
all_numbered n (e ∷ es) = some (numbered n e) ∷ all_numbered (next_number n) es

-- The events' numbers are the counter's.
abbrev pub Writable : Event → Type 0
Writable e = Good (numbered 0 e)

abbrev log_bytes : ℕ → List Event → List ℕ
log_bytes n [] = []
log_bytes n (e ∷ es) = event_bytes n e ++ log_bytes (next_number n) es

Good-numbered : (n : ℕ) (e : Event) → n < 2 ^ 64 → Writable e → Good (numbered n e)
Good-numbered n e h g = record {
  number = h;
  time = g.time;
  channel_length = g.channel_length;
  payload_length = g.payload_length;
  channel_positive = g.channel_positive;
  channel_short = g.channel_short;
  payload_short = g.payload_short;
}

log_bytes-Follows :
    (n : ℕ) (es : List Event) → n < 2 ^ 64 → All Writable es → Follows (log_bytes n es)
log_bytes-Follows n [] h g = inl refl
log_bytes-Follows n (e ∷ es) h (g, gs) =
    let rest = log_bytes (next_number n) es in
    inr (
      fields (numbered n e) [] ++ rest,
      ap (λ x. x ++ rest) (event_bytes-fields n e (Good-numbered n e h g))
          ∙ append_assoc (put32 magic_word) (fields (numbered n e) []) rest,
    )

bytes-write_all :
    (l : Eventlog) (es : List Event) → (write_all l es).bytes ≡ l.bytes ++ log_bytes l.eventcount es
unfolding write_event
bytes-write_all l [] = sym (append-nil l.bytes)
bytes-write_all l (e ∷ es) =
    bytes-write_all (write_event l e) es
    ∙ append_assoc l.bytes (event_bytes l.eventcount e) (log_bytes (next_number l.eventcount) es)

read_all-at :
    (before : List ℕ) (c n : ℕ) (es : List Event)
    → n < 2 ^ 64
    → All Writable es
    → read_all (length es) (at before (log_bytes n es) c) ≡ all_numbered n es
read_all-at before c n [] h g = refl
read_all-at before c n (e ∷ es) h (g, gs) =
    let next : next_number n < 2 ^ 64 = omega arith in
    ap (λ (x, l'). x ∷ read_all (length es) l')
      (read_next_event-at before (log_bytes (next_number n) es) c n e (Good-numbered n e h g)
        (log_bytes-Follows (next_number n) es next gs))
    ∙ ap (λ r. some (numbered n e) ∷ r)
        (read_all-at (before ++ event_bytes n e) c (next_number n) es next gs)

abbrev pub empty_log : Eventlog
empty_log = record { bytes = []; pos = 0; eventcount = 0 }

-- Events written to an empty log, whose integers fit, whose channel has 1 to 999 bytes and whose data
-- is shorter than 2^31, are all read back from its start, in order, numbered from 0.
pub read_all-write_all :
    (es : List Event)
    → All Writable es
    → read_all (length es) (record (write_all empty_log es) { pos = 0 }) ≡ all_numbered 0 es
read_all-write_all es g =
    ap
      (λ b.
        read_all (length es)
          (record { bytes = b; pos = 0; eventcount = (write_all empty_log es).eventcount }))
      (bytes-write_all empty_log es)
    ∙ read_all-at [] (write_all empty_log es).eventcount 0 es (omega arith) g
