-- ===== src/Eventlog.antt =====
-- zcm/eventlog.c and zcm/util/ioutils.h: a file of events, each behind a sync word. The disk has room
-- for what is written; of the doubles that seek to a timestamp nothing is modelled.
pub mod Reads
pub mod RoundTrip
pub mod Whole
use zcm.Prelude.{
  ℕ, zero, suc, ◌+◌, ◌-◌, ◌*◌, ◌/◌, ◌%◌, ◌^◌, Bool, true, false, not, ◌&&◌, ◌||◌, List, [], ◌∷◌,
  ◌++◌, Option, none, some, if◌then◌else◌, ltb, leb, ◌==◌, length, take, drop, get_or,
}
use zcm.Coretypes.Numbers.{put_be32, be32_at}

abbrev pub magic_word : ℕ
magic_word = 0xeda1da01

-- `zcm_eventlog_event_t`; an integer is its bit pattern.
pub record Event : Type 0 where
  pub eventnum : ℕ
  pub timestamp : ℕ
  pub channellen : ℕ
  pub datalen : ℕ
  pub channel : List ℕ
  pub payload : List ℕ

-- `zcm_eventlog_t`, with the bytes of the file and the position in it.
pub record Eventlog : Type 0 where
  pub bytes : List ℕ
  pub pos : ℕ
  pub eventcount : ℕ

-- `fread` of so many bytes: those that there are.
unfoldable pub fread : Eventlog → ℕ → List ℕ × Eventlog
fread l n = let bs = take n (drop l.pos l.bytes) in (bs, record l { pos = l.pos + length bs })

-- A reader fails, or answers, and moves the position either way.
abbrev pub Reader : Type 0 → Type 0
Reader A = Eventlog → Option A × Eventlog

abbrev pub go_on : {A B : Type 0} → (A → Reader B) → Option A × Eventlog → Option B × Eventlog
go_on f (none, l) = (none, l)
go_on f (some a, l) = f a l

infixl 5 ◌>>=◌ ◌>>◌
abbrev pub ◌>>=◌ : {A B : Type 0} → Reader A → (A → Reader B) → Reader B
◌>>=◌ m f l = go_on f (m l)

abbrev pub ◌>>◌ : {A B : Type 0} → Reader A → Reader B → Reader B
◌>>◌ m k l = go_on (λ _. k) (m l)

abbrev pub pure : {A : Type 0} → A → Reader A
pure a l = (some a, l)

abbrev pub check : Bool → Reader (Unit {0})
check true l = (some tt, l)
check false l = (none, l)

-- `fread` whose result is compared with the number asked for.
unfoldable pub fread_all : ℕ → Reader (List ℕ)
fread_all n l = let (bs, l') = fread l n in (if length bs == n then some bs else none, l')

unfoldable pub fgetc : Reader ℕ
fgetc l = let (bs, l') = fread l 1 in (if length bs == 1 then some (get_or bs 0 0) else none, l')

unfoldable pub fread32 : Reader ℕ
fread32 = do bs ← fread_all 4; pure (be32_at bs 0)

unfoldable pub fread64 : Reader ℕ
fread64 = do v1 ← fread32; v2 ← fread32; pure (v1 * 2 ^ 32 + v2)

abbrev pub sync_next : (Eventlog → ℕ → Bool × Eventlog) → ℕ → Option ℕ × Eventlog → Bool × Eventlog
sync_next again magic (none, l) = (false, l)
sync_next again magic (some r, l) =
    let magic' = (magic * 2 ^ 8 + r) % 2 ^ 32 in
    if magic' == magic_word then (true, l) else again l magic'

-- The loop of `sync_stream`; each round reads a byte.
unfoldable pub sync_loop : ℕ → Eventlog → ℕ → Bool × Eventlog
sync_loop zero l magic = (false, l)
sync_loop (suc fuel) l magic = sync_next (sync_loop fuel) magic (fgetc l)

-- The round that finds the end of the file is counted too.
unfoldable pub sync_stream : Eventlog → Bool × Eventlog
sync_stream l = sync_loop (length l.bytes - l.pos + 1) l 0

-- A byte that is missing gives 1, which the callers take for a success.
abbrev back_next : (Eventlog → ℕ → Bool × Eventlog) → ℕ → Option ℕ × Eventlog → Bool × Eventlog
back_next again magic (none, l) = (true, l)
back_next again magic (some r, l) =
    let magic' = (magic / 2 ^ 8 + r * 2 ^ 24) % 2 ^ 32 in
    if magic' == magic_word then (true, record l { pos = l.pos + 3 }) else again l magic'

-- The loop of `sync_stream_backwards`; each round moves one byte towards the start.
unfoldable pub back_loop : ℕ → Eventlog → ℕ → Bool × Eventlog
back_loop zero l magic = (false, l)
back_loop (suc fuel) l magic =
    if ltb l.pos 2
    then (false, l)
    else back_next (back_loop fuel) magic (fgetc (record l { pos = l.pos - 2 }))

unfoldable pub sync_stream_backwards : Eventlog → Bool × Eventlog
sync_stream_backwards l = back_loop l.pos l 0

-- The tests of the lengths, which are signed.
abbrev pub lengths_good : ℕ → ℕ → Bool
lengths_good channellen datalen = ltb 0 channellen && ltb channellen 1000 && ltb datalen (2 ^ 31)

abbrev pub judge : Eventlog → Option ℕ × Eventlog → Option (Unit {0}) × Eventlog
judge l (none, l') = (some tt, l')
judge l (some m, l') = if m == magic_word then (some tt, l) else (none, l')

-- What follows the data: the next sync word, which is left in the file, or less than four bytes.
unfoldable pub next_is_good : Reader (Unit {0})
next_is_good l = judge l (fread32 l)

-- `zcm_event_read_helper` before `done`.
unfoldable pub read_event : Reader Event
read_event = do
  n ← fread64
  t ← fread64
  c ← fread32
  d ← fread32
  check (lengths_good c d)
  channel ← fread_all c
  payload ← fread_all d
  next_is_good
  pure (record {
    eventnum = n;
    timestamp = t;
    channellen = c;
    datalen = d;
    channel = channel;
    payload = payload;
  })

-- `done`: the position goes back to the sync word, or to where the helper started if it failed.
abbrev pub settle : Eventlog → Bool → Option Event × Eventlog → Option Event × Eventlog
settle l true (le, l') = (le, record l' { pos = if ltb l.pos 4 then l'.pos else l.pos - 4 })
settle l false (none, l') = (none, record l' { pos = l.pos })
settle l false (some e, l') = (some e, l')

-- `zcm_event_read_helper`
unfoldable pub read_helper : Eventlog → Bool → Option Event × Eventlog
read_helper l rewind = settle l rewind (read_event l)

abbrev pub or_again :
    (Eventlog → Option Event × Eventlog) → Option Event × Eventlog → Option Event × Eventlog
or_again again (none, l) = again l
or_again again (some e, l) = (some e, l)

-- What the loops do with the answer of `sync_stream`.
abbrev pub if_synced :
    (Eventlog → Option Event × Eventlog) → Bool → Bool × Eventlog → Option Event × Eventlog
if_synced again rewind (false, l) = (none, l)
if_synced again rewind (true, l) = or_again again (read_helper l rewind)

-- The loop of `zcm_eventlog_read_next_event`; each round passes a sync word.
unfoldable pub next_loop : ℕ → Eventlog → Option Event × Eventlog
next_loop zero l = (none, l)
next_loop (suc fuel) l = if_synced (next_loop fuel) false (sync_stream l)

unfoldable pub read_next_event : Eventlog → Option Event × Eventlog
read_next_event l = next_loop (length l.bytes - l.pos + 1) l

-- The loop of `zcm_eventlog_read_prev_event`.
unfoldable pub prev_loop : ℕ → Eventlog → Option Event × Eventlog
prev_loop zero l = (none, l)
prev_loop (suc fuel) l = if_synced (prev_loop fuel) true (sync_stream_backwards l)

unfoldable pub read_prev_event : Eventlog → Option Event × Eventlog
read_prev_event l = prev_loop (l.pos + 1) l

unfoldable pub read_event_at_offset : Eventlog → ℕ → Option Event × Eventlog
read_event_at_offset l offset = read_next_event (record l { pos = offset })

-- `fwrite32` and `fwrite64`
unfoldable pub put32 : ℕ → List ℕ
put32 v = put_be32 v

unfoldable pub put64 : ℕ → List ℕ
put64 v = put32 (v / 2 ^ 32 % 2 ^ 32) ++ put32 (v % 2 ^ 32)

-- What `zcm_eventlog_write_event` writes.
unfoldable pub event_bytes : ℕ → Event → List ℕ
event_bytes eventcount le =
    put32 magic_word
    ++ (put64 eventcount
        ++ (put64 le.timestamp
            ++ (put32 le.channellen
                ++ (put32 le.datalen
                    ++ (take le.channellen le.channel ++ take le.datalen le.payload)))))

-- The file is written at its end; the return value is 0.
unfoldable pub write_event : Eventlog → Event → Eventlog
write_event l le = record l {
  bytes = l.bytes ++ event_bytes l.eventcount le;
  pos = length l.bytes + length (event_bytes l.eventcount le);
  eventcount = (l.eventcount + 1) % 2 ^ 64;
}
