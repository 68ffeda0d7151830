-- ===== src/Tests/NonblockingTests.antt =====
-- zcm/nonblocking.c with three slots, over the in-process transport.
use zcm.Prelude.{ℕ, ◌+◌, ◌≡◌, ◌↔◌, refl, arith, true, List, [], ◌∷◌, ◌++◌, some, replicate}
use zcm.Transport.{Msg, nonblocking}
use zcm.Inproc.{new_inproc, inproc_methods}
use zcm.Nonblocking.{
  Slot, Nonblocking, unused, try_create, nonblocking_subscribe, nonblocking_unsubscribe,
  nonblocking_flush, should_dispatch,
}
use zcm.Nonblocking.Valid.{
  Fits, Valid, ValidAfter, Op, publish, subscribe, unsubscribe, handle, flush, steps,
  subscribe-Valid, try_create-Valid,
}
use zcm.Nonblocking.Match.{Wants, should_dispatch_lem}
use zcm.Nonblocking.Dispatch.{note}
use zcm.Nonblocking.OverInproc.{Core, publish_all, deliveries, flush-publish_all}

abbrev clock : ℕ → ℕ
clock n = n + 100

abbrev created : Core clock
created = record { zt = (new_inproc nonblocking, 0); subs = replicate 3 unused; sub_in_use_end = 0 }

-- A handler that subscribes to the channel of its message.
abbrev curious : Slot → Msg → ℕ × Core clock → ℕ × Core clock
curious s msg (w, z) = (w + 1, (nonblocking_subscribe (inproc_methods clock) z msg.channel 9 9).1)

-- `A`, `B.*`, and a message on `Bc` while the first is unsubscribed.
abbrev ops : List Op
ops =
    subscribe (65 ∷ []) 1 10
    ∷ subscribe (66 ∷ 46 ∷ 42 ∷ []) 2 20
    ∷ unsubscribe 0
    ∷ publish 0 (66 ∷ 99 ∷ []) (5 ∷ [])
    ∷ handle
    ∷ publish 0 (66 ∷ 99 ∷ []) (6 ∷ [])
    ∷ flush 3
    ∷ []

try_create-Valid_example : ValidAfter (steps (inproc_methods clock) curious ops (0, created))
unfolding try_create
try_create-Valid_example =
    try_create-Valid (inproc_methods clock) curious
      (λ s msg w v. subscribe-Valid (inproc_methods clock) w.1 msg.channel 9 9 v) 3
      (new_inproc nonblocking, 0) 0 created ops refl

abbrev b_star : Slot
b_star = record {
  channel = 66 ∷ 46 ∷ 42 ∷ [];
  callback = 2;
  usr = 20;
  in_use = true;
  is_regex = true;
}

b_star-Fits : Fits b_star
unfolding zcm.Nonblocking.is_regex_channel zcm.Nonblocking.is_supported_regex
    zcm.Nonblocking.all_plain
b_star-Fits = record { short = omega arith; regex = refl; supported = refl }

should_dispatch_example :
    (should_dispatch b_star (66 ∷ 99 ∷ []) ≡ true) ↔ Wants (66 ∷ 46 ∷ 42 ∷ []) (66 ∷ 99 ∷ [])
should_dispatch_example = should_dispatch_lem b_star (66 ∷ 99 ∷ []) b_star-Fits (omega arith)

created-Valid : Valid created
unfolding try_create
created-Valid =
    try_create-Valid (inproc_methods clock) note (λ s msg w v. v) 3 (new_inproc nonblocking, 0) []
      created [] refl

abbrev listening : Core clock
listening = (nonblocking_subscribe (inproc_methods clock) created (66 ∷ 46 ∷ 42 ∷ []) 2 20).1

abbrev message : Msg
message = record { utime = 0; channel = 66 ∷ 99 ∷ []; buf = 5 ∷ [] }

flush-publish_all_example :
    (z' : Core clock) × (nonblocking_flush
        (inproc_methods clock)
        note
        2
        ([], publish_all clock listening (message ∷ []))
      ≡ some (
        []
            ++ deliveries clock listening.zt.1
                (listening.zt.0.msgs ++ (message ∷ []))
                listening.subs,
        z',
      ))
    × (z'.zt.0.msgs ≡ [])
unfolding new_inproc nonblocking_subscribe zcm.Nonblocking.first_free
    zcm.Nonblocking.is_regex_channel zcm.Nonblocking.is_supported_regex zcm.Nonblocking.all_plain
flush-publish_all_example =
    flush-publish_all clock [] listening (message ∷ []) 2
      (subscribe-Valid (inproc_methods clock) created (66 ∷ 46 ∷ 42 ∷ []) 2 20 created-Valid)
      ((omega arith, omega arith), tt) (omega arith)

deliveries_test :
    deliveries clock 0 (message ∷ []) listening.subs
    ≡ record { callback = 2; usr = 20; msg = record message { utime = 100 } } ∷ []
unfolding should_dispatch nonblocking_subscribe zcm.Nonblocking.same_prefix
    zcm.Nonblocking.is_regex_channel zcm.Nonblocking.is_supported_regex zcm.Nonblocking.all_plain
    zcm.Nonblocking.first_free
deliveries_test = refl
