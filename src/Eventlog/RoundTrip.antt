-- ===== src/Eventlog/RoundTrip.antt =====
-- Events are read as they were written.
use zcm.Prelude.{
  ℕ, zero, suc, ◌+◌, ◌-◌, ◌≡◌, ◌∙◌, ap, refl, sym, arith, false, List, [], ◌∷◌, ◌++◌, append_assoc,
  append-nil, some, length, take,
}
use zcm.Eventlog.{
  magic_word, Event, settle, read_helper, or_again, if_synced, next_loop, read_next_event, put32,
  event_bytes,
}
use zcm.Eventlog.Reads.{at, fields, Good, Follows, read_event-at, sync_stream-magic}

take_exact : (n : ℕ) (xs : List ℕ) → n ≡ length xs → take n xs ≡ xs
take_exact zero [] h = refl
take_exact zero (x ∷ xs) h = absurd (omega arith)
take_exact (suc n) [] h = refl
take_exact (suc n) (x ∷ xs) h = ap (λ l. x ∷ l) (take_exact n xs (omega arith))

-- The event with the number that `zcm_eventlog_write_event` gives it.
abbrev pub numbered : ℕ → Event → Event
numbered n e = record e { eventnum = n }

fields-append : (e : Event) (behind : List ℕ) → fields e [] ++ behind ≡ fields e behind
fields-append e behind = simp (append_assoc, append-nil)

pub event_bytes-fields :
    (n : ℕ) (e : Event)
    → Good (numbered n e)
    → event_bytes n e ≡ put32 magic_word ++ fields (numbered n e) []
unfolding event_bytes
event_bytes-fields n e g =
    rw
      (
        take_exact e.channellen e.channel g.channel_length,
        take_exact e.datalen e.payload g.payload_length,
        append-nil e.payload,
      )
      refl

read_helper-at :
    (before behind : List ℕ) (c : ℕ) (e : Event)
    → Good e
    → Follows behind
    → read_helper (at before (fields e behind) c) false
      ≡ (some e, at (before ++ fields e []) behind c)
unfolding read_helper
read_helper-at before behind c e g h =
    let (b, same, r) = read_event-at before behind c e g h in
    ap (settle (at before (fields e behind) c) false) (r ∙ ap (λ x. (some e, at x behind c)) same)

-- An event at the position, behind which another one or nothing stands, is read as it was written,
-- with the number it was given; the position then stands behind it.
pub read_next_event-at :
    (before behind : List ℕ) (c n : ℕ) (e : Event)
    → Good (numbered n e)
    → Follows behind
    → read_next_event (at before (event_bytes n e ++ behind) c)
      ≡ (some (numbered n e), at (before ++ event_bytes n e) behind c)
unfolding read_next_event next_loop
read_next_event-at before behind c n e g h =
    let e' = numbered n e in
    let bytes = event_bytes-fields n e g in
    let regroup : event_bytes n e ++ behind ≡ put32 magic_word ++ fields e' behind =
      ap (λ x. x ++ behind) bytes
      ∙ append_assoc (put32 magic_word) (fields e' []) behind
      ∙ ap (λ x. put32 magic_word ++ x) (fields-append e' behind) in
    let fuel = length (before ++ (put32 magic_word ++ fields e' behind)) - length before in
    let next : fuel + 1 ≡ suc fuel = omega arith in
    ap (λ x. read_next_event (at before x c)) regroup
    ∙ ap (λ k. next_loop k (at before (put32 magic_word ++ fields e' behind) c)) next
    ∙ ap (if_synced (next_loop fuel) false) (sync_stream-magic before (fields e' behind) c)
    ∙ ap (or_again (next_loop fuel)) (read_helper-at (before ++ put32 magic_word) behind c e' g h)
    ∙ ap (λ x. (some e', at x behind c))
        (append_assoc before (put32 magic_word) (fields e' []) ∙ ap (λ x. before ++ x) (sym bytes))
