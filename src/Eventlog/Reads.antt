-- ===== src/Eventlog/Reads.antt =====
-- The readers of zcm/eventlog.c at a position where they find what they look for.
use zcm.Prelude.{
  ℕ, suc, ◌+◌, ◌-◌, ◌*◌, ◌/◌, ◌%◌, ◌^◌, ◌<◌, ◌≡◌, ◌∙◌, ◌⊎◌, inl, inr, ap, ap₂, refl, sym, arith,
  true, List, [], ◌∷◌, ◌++◌, append_assoc, append-nil, Option, none, some, if◌then◌else◌, ◌==◌,
  length, length-append, take, drop, take-length_append, drop-length_append, lt→ltb, ==_iff,
  nil-take,
}
use native.Mathlib.Nat.{add-zero}
use zcm.Coretypes.Numbers.{be32_at}
use zcm.Coretypes.RoundTrip.{be32-Faithful}
use zcm.Eventlog.{
  magic_word, Event, Eventlog, fread, fread32, fread64, sync_next, sync_loop, sync_stream,
  lengths_good, next_is_good, fgetc, fread_all, Reader, go_on, judge, check, pure, ◌>>=◌,
  read_event, put32, put64,
}

-- A log whose position stands between `before` and `rest`.
abbrev pub at : List ℕ → List ℕ → ℕ → Eventlog
at before rest c = record { bytes = before ++ rest; pos = length before; eventcount = c }

fread-at :
    (before bs rest : List ℕ) (c n : ℕ)
    → n ≡ length bs
    → fread (at before (bs ++ rest) c) n ≡ (bs, at (before ++ bs) rest c)
unfolding fread
fread-at before bs rest c n e =
    let there : take n (drop (length before) (before ++ (bs ++ rest))) ≡ bs =
      ap (take n) (drop-length_append before (bs ++ rest) (length before) refl)
      ∙ take-length_append bs rest n e in
    rw there (
      ap₂ (λ p b. (bs, record { bytes = b; pos = p; eventcount = c }))
        (sym (length-append before bs)) (sym (append_assoc before bs rest)))

length-put32 : (v : ℕ) → length (put32 v) ≡ 4
unfolding put32
length-put32 v = refl

be32_at-put32 : (v : ℕ) → v < 2 ^ 32 → be32_at (put32 v) 0 ≡ v
unfolding put32
be32_at-put32 v h = be32-Faithful.get-put v h

fread_all-at :
    (before bs rest : List ℕ) (c n : ℕ)
    → n ≡ length bs
    → fread_all n (at before (bs ++ rest) c) ≡ (some bs, at (before ++ bs) rest c)
unfolding fread_all
fread_all-at before bs rest c n e =
    let all : (length bs == n) ≡ true = (==_iff _ _).1 (sym e) in
    rw (fread-at before bs rest c n e, all) refl

fread32-at :
    (before rest : List ℕ) (c v : ℕ)
    → v < 2 ^ 32
    → fread32 (at before (put32 v ++ rest) c) ≡ (some v, at (before ++ put32 v) rest c)
unfolding fread32
fread32-at before rest c v h =
    ap (go_on (λ bs. pure (be32_at bs 0)))
      (fread_all-at before (put32 v) rest c 4 (sym (length-put32 v)))
    ∙ ap (λ w. (some w, at (before ++ put32 v) rest c)) (be32_at-put32 v h)

fread64-at :
    (before rest : List ℕ) (c v : ℕ)
    → v < 2 ^ 64
    → fread64 (at before (put64 v ++ rest) c) ≡ (some v, at (before ++ put64 v) rest c)
unfolding fread64 put64
fread64-at before rest c v h =
    let hi = v / 2 ^ 32 % 2 ^ 32 in
    let lo = v % 2 ^ 32 in
    let whole : hi * 2 ^ 32 + lo ≡ v = omega arith in
    ap (λ r. fread64 (at before r c)) (append_assoc (put32 hi) (put32 lo) rest)
    ∙ ap (go_on (λ v1. fread32 >>= λ v2. pure (v1 * 2 ^ 32 + v2)))
        (fread32-at before (put32 lo ++ rest) c hi (omega arith))
    ∙ ap (go_on (λ v2. pure (hi * 2 ^ 32 + v2)))
        (fread32-at (before ++ put32 hi) rest c lo (omega arith))
    ∙ ap₂ (λ w b. (some w, at b rest c)) whole (append_assoc before (put32 hi) (put32 lo))

fgetc-at :
    (before rest : List ℕ) (c r : ℕ)
    → fgetc (at before (r ∷ rest) c) ≡ (some r, at (before ++ (r ∷ [])) rest c)
unfolding fgetc
fgetc-at before rest c r = rw (fread-at before (r ∷ []) rest c 1 refl) refl

sync_loop_step :
    (fuel : ℕ) (before rest : List ℕ) (c r magic : ℕ)
    → sync_loop (suc fuel) (at before (r ∷ rest) c) magic ≡ (
        if ((magic * 2 ^ 8 + r) % 2 ^ 32) == magic_word
        then (true, at (before ++ (r ∷ [])) rest c)
        else sync_loop fuel (at (before ++ (r ∷ [])) rest c) ((magic * 2 ^ 8 + r) % 2 ^ 32))
unfolding sync_loop
sync_loop_step fuel before rest c r magic =
    ap (sync_next (sync_loop fuel) magic) (fgetc-at before rest c r)

four_bytes :
    (xs : List ℕ) (a b c d : ℕ)
    → (((xs ++ (a ∷ [])) ++ (b ∷ [])) ++ (c ∷ [])) ++ (d ∷ []) ≡ xs ++ (a ∷ b ∷ c ∷ d ∷ [])
four_bytes xs a b c d = simp (append_assoc)

sync_loop-magic :
    (fuel : ℕ) (before rest : List ℕ) (c : ℕ)
    → sync_loop (suc (suc (suc (suc fuel)))) (at before (put32 magic_word ++ rest) c) 0
      ≡ (true, at (before ++ put32 magic_word) rest c)
unfolding put32
sync_loop-magic fuel before rest c =
    sync_loop_step (suc (suc (suc fuel))) before (161 ∷ 218 ∷ 1 ∷ rest) c 237 0
    ∙ sync_loop_step (suc (suc fuel)) (before ++ (237 ∷ [])) (218 ∷ 1 ∷ rest) c 161 237
    ∙ sync_loop_step (suc fuel) ((before ++ (237 ∷ [])) ++ (161 ∷ [])) (1 ∷ rest) c 218 60833
    ∙ sync_loop_step fuel (((before ++ (237 ∷ [])) ++ (161 ∷ [])) ++ (218 ∷ [])) rest c 1 15573466
    ∙ ap (λ b. (true, at b rest c)) (four_bytes before 237 161 218 1)

-- The sync word at the position is found at once.
pub sync_stream-magic :
    (before rest : List ℕ) (c : ℕ)
    → sync_stream (at before (put32 magic_word ++ rest) c)
      ≡ (true, at (before ++ put32 magic_word) rest c)
unfolding sync_stream
sync_stream-magic before rest c =
    let l = length-append before (put32 magic_word ++ rest) in
    let l' = length-append (put32 magic_word) rest in
    let four = length-put32 magic_word in
    let fuel : length (before ++ (put32 magic_word ++ rest)) - length before + 1
        ≡ suc (suc (suc (suc (length rest + 1)))) =
      omega arith in
    ap (λ n. sync_loop n (at before (put32 magic_word ++ rest) c) 0) fuel
    ∙ sync_loop-magic (length rest + 1) before rest c

-- What stands behind an event: nothing, or another one.
abbrev pub Follows : List ℕ → Type 0
Follows behind = (behind ≡ []) ⊎ ((rest : List ℕ) × (behind ≡ put32 magic_word ++ rest))

fread_end : (before : List ℕ) (c n : ℕ) → fread (at before [] c) n ≡ ([], at before [] c)
unfolding fread
fread_end before c n =
    let there : take n (drop (length before) (before ++ [])) ≡ [] =
      ap (take n) (drop-length_append before [] (length before) refl) ∙ sym (nil-take n) in
    rw there (
      ap (λ p. ([], record { bytes = before ++ []; pos = p; eventcount = c }))
        (add-zero (length before)))

fread32_end : (before : List ℕ) (c : ℕ) → fread32 (at before [] c) ≡ (none, at before [] c)
unfolding fread32 fread_all
fread32_end before c = rw (fread_end before c 4) refl

next_is_good-at :
    (before behind : List ℕ) (c : ℕ)
    → Follows behind
    → next_is_good (at before behind c) ≡ (some tt, at before behind c)
unfolding next_is_good
next_is_good-at before behind c (inl e) = rw e (ap (judge (at before [] c)) (fread32_end before c))
next_is_good-at before behind c (inr (rest, e)) = rw e (
    ap (judge (at before (put32 magic_word ++ rest) c))
      (fread32-at before rest c magic_word (omega arith)))

go_on_to :
    {A B : Type 0} (f : A → Reader B) (x : Option A × Eventlog) (a : A) (l : Eventlog)
    (r : Option B × Eventlog)
    → x ≡ (some a, l)
    → f a l ≡ r
    → go_on f x ≡ r
go_on_to f x a l r e h = rw e h

-- The header and the rest of an event behind its sync word.
abbrev pub fields : Event → List ℕ → List ℕ
fields e behind =
    put64 e.eventnum
    ++ (put64 e.timestamp
        ++ (put32 e.channellen ++ (put32 e.datalen ++ (e.channel ++ (e.payload ++ behind)))))

-- An event whose lengths are those of its channel and data, and are accepted.
pub record Good (e : Event) : Type 0 where
  pub number : e.eventnum < 2 ^ 64
  pub time : e.timestamp < 2 ^ 64
  pub channel_length : e.channellen ≡ length e.channel
  pub payload_length : e.datalen ≡ length e.payload
  pub channel_positive : 0 < e.channellen
  pub channel_short : e.channellen < 1000
  pub payload_short : e.datalen < 2 ^ 31

pub read_event-at :
    (before behind : List ℕ) (c : ℕ) (e : Event)
    → Good e
    → Follows behind
    → (b : List ℕ) × (b ≡ before ++ fields e [])
      × (read_event (at before (fields e behind) c) ≡ (some e, at b behind c))
unfolding read_event
read_event-at before behind c e g h =
    let b1 = before ++ put64 e.eventnum in
    let b2 = b1 ++ put64 e.timestamp in
    let b3 = b2 ++ put32 e.channellen in
    let b4 = b3 ++ put32 e.datalen in
    let b5 = b4 ++ e.channel in
    let b6 = b5 ++ e.payload in
    let good : lengths_good e.channellen e.datalen ≡ true =
      rw (lt→ltb _ _ g.channel_positive, lt→ltb _ _ g.channel_short, lt→ltb _ _ g.payload_short)
        refl in
    (
      b6,
      simp (append_assoc, append-nil),
      go_on_to _ _ _ _ _ (fread64-at before _ c e.eventnum g.number) (
          go_on_to _ _ _ _ _ (fread64-at b1 _ c e.timestamp g.time) (
            go_on_to _ _ _ _ _ (fread32-at b2 _ c e.channellen (omega (arith, g.channel_short))) (
              go_on_to _ _ _ _ _ (fread32-at b3 _ c e.datalen (omega (arith, g.payload_short))) (
                go_on_to _ _ _ _ _
                  (ap (λ t. check t (at b4 (e.channel ++ (e.payload ++ behind)) c)) good)
                  (go_on_to _ _ _ _ _
                    (fread_all-at b4 e.channel (e.payload ++ behind) c e.channellen
                      g.channel_length)
                    (go_on_to _ _ _ _ _
                      (fread_all-at b5 e.payload behind c e.datalen g.payload_length)
                      (go_on_to _ _ _ _ _ (next_is_good-at b6 behind c h) refl))))))),
    )
