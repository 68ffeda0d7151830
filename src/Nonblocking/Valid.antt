-- ===== src/Nonblocking/Valid.antt =====
-- What every operation of zcm/nonblocking.c keeps of the slots.
use zcm.Prelude.{
  ℕ, zero, suc, ◌+◌, ◌-◌, ◌≤◌, ◌<◌, ◌≡◌, ◌≢◌, ◌∙◌, ◌⊎◌, inl, inr, ap, refl, sym, subst, arith, true,
  false, not, ◌&&◌, Bool-cases, List, [], ◌∷◌, Option, none, some, if◌then◌else◌, ltb, ◌==◌, length,
  take, replicate, get_or, set, length-take, length-set, get_or-set_self, get_or-set_ne, ltb→lt,
  ==_iff,
}
use zcm.Transport.{
  Retcode, eok, einvalid, eagain, econnect, eintr, eunknown, ememory, eunimpl, channel_maxlen, Msg,
  nonblocking, Methods,
}
use zcm.Nonblocking.{
  Slot, Nonblocking, unused, is_regex_channel, is_supported_regex, first_free, shrink,
  should_dispatch, with_zt, occupy, if_enabled, vacate, nonblocking_publish, nonblocking_subscribe,
  nonblocking_unsubscribe, last_chan_sub, dispatch_loop, dispatch_message, handle_received,
  handle_nonblock, flush_received, flush_loop, nonblocking_flush, try_create,
}
use zcm.Nonblocking.Slots.{used, first_free-some, shrink_lem}

-- A subscription that `dispatch_message` understands.
pub record Fits (s : Slot) : Type 0 where
  pub short : length s.channel ≤ channel_maxlen
  pub regex : s.is_regex ≡ is_regex_channel s.channel
  pub supported : is_supported_regex s.channel ≡ true

-- The slots behind the end are free, the last one before it is not, and the used ones fit.
pub record IsValid (ss : List Slot) (end : ℕ) : Type 0 where
  pub within : end ≤ length ss
  pub behind_free : (i : ℕ) → end ≤ i → used ss i ≡ false
  pub last_used : (i : ℕ) → suc i ≡ end → used ss i ≡ true
  pub fit : (i : ℕ) → used ss i ≡ true → Fits (get_or ss i unused)

abbrev pub Valid : {T : Type 0} → Nonblocking T → Type 0
Valid z = IsValid z.subs z.sub_in_use_end

-- What a call leaves is valid, if it returns.
abbrev pub ValidAfter : {T W : Type 0} → Option (W × Nonblocking T) → Type 0
ValidAfter none = Unit {0}
ValidAfter (some w) = Valid w.1

get_or-replicate : (n i : ℕ) → get_or (replicate n unused) i unused ≡ unused
get_or-replicate zero i = refl
get_or-replicate (suc n) zero = refl
get_or-replicate (suc n) (suc i) = get_or-replicate n i

replicate-IsValid : (n : ℕ) → IsValid (replicate n unused) 0
replicate-IsValid n = record {
  within = omega arith;
  behind_free = λ i h. ap (λ s. s.in_use) (get_or-replicate n i);
  last_used = λ i h. absurd (omega arith);
  fit = λ i h. absurd (ground (arith, h, ap (λ s. s.in_use) (get_or-replicate n i)));
}

-- What holds of the slot that is written and of the others holds of all.
set_split :
    (P : Slot → Type 0) (ss : List Slot) (k i : ℕ) (s : Slot)
    → k < length ss
    → (i ≡ k → P s)
    → (i ≢ k → P (get_or ss i unused))
    → P (get_or (set ss k s) i unused)
set_split P ss k i s l here away = elim (Bool-cases (i == k)) [
  | inl e ↦
      let same : i ≡ k = (==_iff i k).0 e in
      subst P (sym (ap (λ j. get_or (set ss k s) j unused) same ∙ get_or-set_self ss k s unused l))
        (here same)
  | inr e ↦
      let other : i ≢ k = λ q. absurd (ground (arith, e, (==_iff i k).1 q)) in
      subst P (sym (get_or-set_ne ss k i s unused (λ q. other (sym q)))) (away other)
]

-- A free slot before the new end is taken.
occupied :
    (ss : List Slot) (end end' k : ℕ) (s : Slot)
    → IsValid ss end
    → k < end'
    → end ≤ end'
    → end' ≤ length ss
    → ((i : ℕ) → suc i ≡ end' → i ≢ k → suc i ≡ end)
    → s.in_use ≡ true
    → Fits s
    → IsValid (set ss k s) end'
occupied ss end end' k s v h g l last u f = record {
  within = omega (arith, length-set ss k s);
  behind_free = λ i b.
      set_split (λ t. t.in_use ≡ false) ss k i s (omega arith) (λ q. absurd (omega arith))
        (λ n. v.behind_free i (omega arith));
  last_used = λ i e.
      set_split (λ t. t.in_use ≡ true) ss k i s (omega arith) (λ q. u)
        (λ n. v.last_used i (last i e n));
  fit = λ i.
      set_split (λ t. t.in_use ≡ true → Fits t) ss k i s (omega arith) (λ q w. f) (λ n. v.fit i);
}

-- A free slot within the end or just behind it is taken.
occupied-IsValid :
    (ss : List Slot) (end k : ℕ) (s : Slot)
    → IsValid ss end
    → k < length ss
    → k ≤ end
    → s.in_use ≡ true
    → Fits s
    → IsValid (set ss k s) (if k == end then end + 1 else end)
occupied-IsValid ss end k s v l h u f = elim (Bool-cases (k == end)) [
  | inl e ↦
      let same : k ≡ end = (==_iff k end).0 e in
      rw e (
        occupied ss end (end + 1) k s v (omega arith) (omega arith) (omega arith)
          (λ i q n. absurd (n (omega arith))) u f)
  | inr e ↦
      let other : k ≢ end = λ q. absurd (ground (arith, e, (==_iff k end).1 q)) in
      rw e (occupied ss end end k s v (ground arith) (omega arith) v.within (λ i q n. q) u f)
]

-- A slot is freed and the end moves to the last one that is used.
vacated-IsValid :
    (ss : List Slot) (end k : ℕ) (s : Slot)
    → IsValid ss end
    → k < end
    → s.in_use ≡ false
    → IsValid (set ss k s) (shrink (set ss k s) end)
vacated-IsValid ss end k s v h u =
    let c = shrink_lem (set ss k s) end in
    let l : k < length ss = omega (arith, v.within) in
    record {
      within = omega (arith, length-set ss k s, v.within, c.at_most);
      behind_free = λ i b. elim (Bool-cases (ltb i end)) [
        | inl e ↦ c.behind i b (ltb→lt i end e)
        | inr e ↦
            set_split (λ t. t.in_use ≡ false) ss k i s l (λ q. u)
              (λ n. v.behind_free i (ground arith))
      ];
      last_used = c.before;
      fit = λ i.
          set_split (λ t. t.in_use ≡ true → Fits t) ss k i s l
            (λ q w. absurd (ground (arith, u, w))) (λ n. v.fit i);
    }

-- A free slot is written and stays free.
refused-IsValid :
    (ss : List Slot) (end k : ℕ) (s : Slot)
    → IsValid ss end
    → k < length ss
    → used ss k ≡ false
    → s.in_use ≡ false
    → IsValid (set ss k s) end
refused-IsValid ss end k s v l free u = record {
  within = omega (arith, length-set ss k s, v.within);
  behind_free =
      λ i b. set_split (λ t. t.in_use ≡ false) ss k i s l (λ q. u) (λ n. v.behind_free i b);
  last_used = λ i e.
      set_split (λ t. t.in_use ≡ true) ss k i s l
        (λ q. absurd (ground (arith, v.last_used i e, ap (used ss) q, free)))
        (λ n. v.last_used i e);
  fit = λ i.
      set_split (λ t. t.in_use ≡ true → Fits t) ss k i s l (λ q w. absurd (ground (arith, u, w)))
        (λ n. v.fit i);
}

no_regex-supported : (c : List ℕ) → is_regex_channel c ≡ false → is_supported_regex c ≡ true
unfolding is_supported_regex
no_regex-supported c h = rw h refl

supported_if :
    (c : List ℕ)
    → (is_regex_channel c && not (is_supported_regex c)) ≡ false
    → is_supported_regex c ≡ true
supported_if c h = elim (Bool-cases (is_regex_channel c)) [
  | inl e ↦ elim (Bool-cases (is_supported_regex c)) [
    | inl r ↦ r
    | inr r ↦ absurd (ground (arith, rw (e, r) at h))
  ]
  | inr e ↦ no_regex-supported c e
]

module _ {T : Type 0} (m : Methods T) where
  occupy-Valid :
      (z : Nonblocking T) (channel : List ℕ) (cb usr : ℕ) (o : Option ℕ)
      → Valid z
      → first_free z.subs 0 z.sub_in_use_end ≡ o
      → Valid (occupy m z channel cb usr o).1
  occupy-Valid z channel cb usr none v e = v
  occupy-Valid z channel cb usr (some i) v e =
      let name = take channel_maxlen channel in
      let f = first_free-some z.subs 0 z.sub_in_use_end i e in
      let free : used z.subs i ≡ false =
        ap (used z.subs) {x = i} {y = i - 0} (omega arith) ∙ f.unoccupied in
      let inside : i < length z.subs = omega (arith, f.within) in
      let slot : Slot = record {
        channel = name;
        callback = cb;
        usr = usr;
        in_use = true;
        is_regex = is_regex_channel name;
      } in
      elim (Bool-cases (is_regex_channel name && not (is_supported_regex name))) [
        | inl r ↦ rw r (
            refused-IsValid z.subs z.sub_in_use_end i (record slot { in_use = false }) v inside free
              refl)
        | inr r ↦ rw r (
            occupied-IsValid z.subs z.sub_in_use_end i slot v inside f.at_most refl (record {
              short = omega (arith, length-take channel_maxlen channel);
              regex = refl;
              supported = supported_if name r;
            }))
      ]

  if_enabled-Valid :
      (channel : List ℕ) (cb usr : ℕ) (r : Retcode) (z : Nonblocking T)
      → Valid z
      → Valid (if_enabled m channel cb usr (r, z)).1
  if_enabled-Valid channel cb usr eok z v = occupy-Valid z channel cb usr _ v refl
  if_enabled-Valid channel cb usr einvalid z v = v
  if_enabled-Valid channel cb usr eagain z v = v
  if_enabled-Valid channel cb usr econnect z v = v
  if_enabled-Valid channel cb usr eintr z v = v
  if_enabled-Valid channel cb usr eunknown z v = v
  if_enabled-Valid channel cb usr ememory z v = v
  if_enabled-Valid channel cb usr eunimpl z v = v

  pub subscribe-Valid :
      (z : Nonblocking T) (channel : List ℕ) (cb usr : ℕ)
      → Valid z
      → Valid (nonblocking_subscribe m z channel cb usr).1
  unfolding nonblocking_subscribe
  subscribe-Valid z channel cb usr v = if_enabled-Valid channel cb usr _ _ v

  vacate-Valid :
      (i : ℕ) (x : Retcode × Nonblocking T)
      → i < x.1.sub_in_use_end
      → Valid x.1
      → Valid (vacate m i x).1
  vacate-Valid i (rc, z) h v = vacated-IsValid z.subs z.sub_in_use_end i _ v h refl

  pub unsubscribe-Valid :
      (z : Nonblocking T) (i : ℕ) → Valid z → Valid (nonblocking_unsubscribe m z i).1
  unfolding nonblocking_unsubscribe
  unsubscribe-Valid z i v = elim (Bool-cases (ltb i z.sub_in_use_end)) [
    | inr e ↦ rw e v
    | inl e ↦ elim (Bool-cases (used z.subs i)) [
      | inr u ↦ rw (e, u) v
      | inl u ↦
          let name = (get_or z.subs i unused).channel in
          elim (Bool-cases (last_chan_sub z.subs 0 z.sub_in_use_end i name)) [
            | inl c ↦
                rw (e, u, c)
                  (vacate-Valid i (with_zt m z (m.recvmsg_enable z.zt name false)) (ltb→lt _ _ e) v)
            | inr c ↦ rw (e, u, c) (vacate-Valid i (eok, z) (ltb→lt _ _ e) v)
          ]
    ]
  ]

  module _ {W : Type 0} (call : Slot → Msg → W × Nonblocking T → W × Nonblocking T)
      (keeps : (s : Slot) (msg : Msg) (w : W × Nonblocking T)
        → Valid w.1
        → Valid (call s msg w).1) where
    dispatch_loop-Valid :
        (left i : ℕ) (msg : Msg) (w : W × Nonblocking T)
        → Valid w.1
        → Valid (dispatch_loop m call left i msg w).1
    unfolding dispatch_loop
    dispatch_loop-Valid zero i msg w v = v
    dispatch_loop-Valid (suc left) i msg w v =
        let s = get_or w.1.subs i unused in
        elim (Bool-cases (ltb i w.1.sub_in_use_end)) [
          | inr e ↦ rw e v
          | inl e ↦ elim (Bool-cases (s.in_use && should_dispatch s msg.channel)) [
            | inl d ↦
                rw (e, d) (dispatch_loop-Valid left (i + 1) msg (call s msg w) (keeps s msg w v))
            | inr d ↦ rw (e, d) (dispatch_loop-Valid left (i + 1) msg w v)
          ]
        ]

    handle_received-Valid :
        (r : Retcode ⊎ Msg) (w : W × Nonblocking T)
        → Valid w.1
        → Valid (handle_received m call (r, w)).1.1
    unfolding dispatch_message
    handle_received-Valid (inl rc) w v = v
    handle_received-Valid (inr msg) w v = dispatch_loop-Valid (length w.1.subs) 0 msg w v

    handle_nonblock-Valid :
        (w : W × Nonblocking T) → Valid w.1 → Valid (handle_nonblock m call w).1.1
    unfolding handle_nonblock
    handle_nonblock-Valid w v = handle_received-Valid _ _ v

    flush_received-Valid :
        (again : W × Nonblocking T → Option (W × Nonblocking T))
        (r : (Retcode ⊎ Msg) × (W × Nonblocking T))
        → ((w : W × Nonblocking T) → Valid w.1 → ValidAfter (again w))
        → Valid r.1.1
        → ValidAfter (flush_received m call again r)
    unfolding dispatch_message
    flush_received-Valid again (inl rc, w) further v = v
    flush_received-Valid again (inr msg, w) further v =
        further (dispatch_message m call msg w) (dispatch_loop-Valid (length w.1.subs) 0 msg w v)

    flush_loop-Valid :
        (rounds : ℕ) (w : W × Nonblocking T) → Valid w.1 → ValidAfter (flush_loop m call rounds w)
    unfolding flush_loop
    flush_loop-Valid zero w v = tt
    flush_loop-Valid (suc rounds) w v =
        flush_received-Valid (flush_loop m call rounds) _ (flush_loop-Valid rounds) v

-- What follows a call.
abbrev if_returned : {S : Type 0} → (S → Option S) → Option S → Option S
if_returned further none = none
if_returned further (some w) = further w

if_returned-Valid :
    {T W : Type 0} (further : W × Nonblocking T → Option (W × Nonblocking T))
    (r : Option (W × Nonblocking T))
    → ((w : W × Nonblocking T) → Valid w.1 → ValidAfter (further w))
    → ValidAfter r
    → ValidAfter (if_returned further r)
if_returned-Valid further none k v = tt
if_returned-Valid further (some w) k v = k w v

-- A call of the program; a flush with a bound on the rounds of its loop.
pub data Op : Type 0 where
  publish : ℕ → List ℕ → List ℕ → Op
  subscribe : List ℕ → ℕ → ℕ → Op
  unsubscribe : ℕ → Op
  handle : Op
  flush : ℕ → Op

module _ {T : Type 0} (m : Methods T) {W : Type 0}
    (call : Slot → Msg → W × Nonblocking T → W × Nonblocking T) where
  -- `none`: a flush does not end within its bound, since handlers publish.
  abbrev pub step : Op → W × Nonblocking T → Option (W × Nonblocking T)
  step (publish junk channel bytes) (w, z) =
      some (w, (nonblocking_publish m junk z channel bytes).1)
  step (subscribe channel cb usr) (w, z) = some (w, (nonblocking_subscribe m z channel cb usr).1)
  step (unsubscribe i) (w, z) = some (w, (nonblocking_unsubscribe m z i).1)
  step handle w = some (handle_nonblock m call w).1
  step (flush rounds) w = nonblocking_flush m call rounds w

  abbrev pub steps : List Op → W × Nonblocking T → Option (W × Nonblocking T)
  steps [] w = some w
  steps (o ∷ os) w = if_returned (steps os) (step o w)

module _ {T : Type 0} (m : Methods T) {W : Type 0}
    (call : Slot → Msg → W × Nonblocking T → W × Nonblocking T)
    (keeps : (s : Slot) (msg : Msg) (w : W × Nonblocking T)
      → Valid w.1
      → Valid (call s msg w).1) where
  step-Valid : (o : Op) (w : W × Nonblocking T) → Valid w.1 → ValidAfter (step m call o w)
  unfolding nonblocking_publish nonblocking_flush
  step-Valid (publish junk channel bytes) w v = v
  step-Valid (subscribe channel cb usr) w v = subscribe-Valid m w.1 channel cb usr v
  step-Valid (unsubscribe i) w v = unsubscribe-Valid m w.1 i v
  step-Valid handle w v = handle_nonblock-Valid m call keeps w v
  step-Valid (flush rounds) w v = flush_loop-Valid m call keeps rounds _ v

  steps-Valid : (os : List Op) (w : W × Nonblocking T) → Valid w.1 → ValidAfter (steps m call os w)
  steps-Valid [] w v = v
  steps-Valid (o ∷ os) w v =
      if_returned-Valid (steps m call os) (step m call o w) (steps-Valid os) (step-Valid o w v)

  -- After any calls that return, flushes among them, on a core that was just created, the end lies
  -- behind the last slot in use, and each slot in use has a channel that fits and is supported. The
  -- handlers may call back, as long as each leaves the slots so if it finds them so.
  pub try_create-Valid :
      (subs_max : ℕ) (zt : T) (w : W) (z : Nonblocking T) (os : List Op)
      → try_create subs_max true nonblocking zt ≡ (eok, some z)
      → ValidAfter (steps m call os (w, z))
  unfolding try_create
  try_create-Valid subs_max zt w z os e =
      let created : Nonblocking T = record {
        zt = zt;
        subs = replicate subs_max unused;
        sub_in_use_end = 0;
      } in
      let same : created ≡ z = cc e in
      steps-Valid os (w, z) (subst Valid same (replicate-IsValid subs_max))
