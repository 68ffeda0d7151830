-- ===== src/Tests/EventlogTests.antt =====
-- The event log of zcm/eventlog.c, of two events.
use zcm.Prelude.{◌≡◌, refl, arith, [], ◌∷◌, some}
use zcm.Eventlog.{Event, Eventlog, write_event, read_next_event, read_prev_event}
use zcm.Eventlog.Whole.{write_all, read_all, Writable, all_numbered, empty_log, read_all-write_all}

abbrev first : Event
first = record {
  eventnum = 7;
  timestamp = 1000;
  channellen = 1;
  datalen = 2;
  channel = 65 ∷ [];
  payload = 1 ∷ 2 ∷ [];
}

abbrev second : Event
second = record {
  eventnum = 7;
  timestamp = 1001;
  channellen = 2;
  datalen = 0;
  channel = 65 ∷ 66 ∷ [];
  payload = [];
}

first-Writable : Writable first
first-Writable = record {
  number = omega arith;
  time = omega arith;
  channel_length = refl;
  payload_length = refl;
  channel_positive = omega arith;
  channel_short = omega arith;
  payload_short = omega arith;
}

second-Writable : Writable second
second-Writable = record {
  number = omega arith;
  time = omega arith;
  channel_length = refl;
  payload_length = refl;
  channel_positive = omega arith;
  channel_short = omega arith;
  payload_short = omega arith;
}

abbrev written : Eventlog
written = write_all empty_log (first ∷ second ∷ [])

read_all-write_all_example :
    read_all 2 (record written { pos = 0 }) ≡ all_numbered 0 (first ∷ second ∷ [])
read_all-write_all_example =
    read_all-write_all (first ∷ second ∷ []) (first-Writable, (second-Writable, tt))

-- From the end, the event before is the second.
prev_test : (read_prev_event written).0 ≡ some (record second { eventnum = 1 })
unfolding read_prev_event zcm.Eventlog.prev_loop zcm.Eventlog.sync_stream_backwards
    zcm.Eventlog.back_loop zcm.Eventlog.fgetc zcm.Eventlog.fread zcm.Eventlog.read_helper
    zcm.Eventlog.read_event zcm.Eventlog.fread64 zcm.Eventlog.fread32 zcm.Eventlog.fread_all
    zcm.Eventlog.next_is_good zcm.Eventlog.put32 zcm.Eventlog.put64 zcm.Eventlog.event_bytes
    write_event
prev_test = refl
