-- ===== src/Comm/Ioman/Cache.antt =====
-- The sets of src/comm/ioman.c that are kept from one round to the next.
pub mod Writing
pub mod Sending
pub mod Message
pub mod Reading
pub mod Rounds
use dlfree.Base.{
  ℕ, zero, suc, ◌+◌, ◌<◌, ◌≡◌, ◌≢◌, ◌⊎◌, refl, ap, sym, ◌∙◌, Bool, true, false, ◌||◌, Option, none,
  some, List, [], ◌∷◌, ◌++◌, ltb, ◌==◌, if◌then◌else◌, length, inl, inr, arith, Bool-cases,
  Option-cases, none_ne_some, some_injective,
}
use dlfree.Std.Bytes.{Endian, ◌>>=◌}
use dlfree.Comm.Msg.{MsgBuff}
use dlfree.Comm.Channel.{
  Channel, Channels, State, initial, setup, active, blocking, put_channel, is_active, is_setup,
  channel_is_readable, channel_is_writable,
}
use dlfree.Comm.Channel.Waiting.{queue_of, state_of}
use dlfree.Comm.Channel.Change.{Quiet}
use dlfree.Comm.Ioman.{
  Ioman, Net, Event, FdSets, set_readable, set_writable, set_channel, set_channels, own_fds,
  current_fds,
}

-- Whether the queue holds something.
abbrev pub has_buff : List MsgBuff → Bool
has_buff [] = false
has_buff (_ ∷ _) = true

-- What `select` is to look at: whether there is a channel, its state, and whether it has something
-- to send.
abbrev pub Seen : Type 0
Seen = Bool × State × Bool

abbrev pub seen : Option Channel → Seen
seen none = (false, initial, false)
seen (some chan) = (true, chan.state, has_buff chan.buff_queue)

abbrev pub SameSeen : Channels → Channels → Type 0
SameSeen chans chans' = (fd : ℕ) → seen (chans' fd) ≡ seen (chans fd)

-- The sets are made from what is seen.
abbrev seen_writable : Seen → Bool
seen_writable (_, st, has) = has || is_setup st

abbrev seen_readable : Seen → Bool
seen_readable (_, st, _) = is_active st

set_seen : (fd : ℕ) → Seen → FdSets → FdSets
set_seen fd v s =
    let s₁ = if seen_readable v then set_readable fd s else s in
    if seen_writable v then set_writable fd s₁ else s₁

some_left : (q : List MsgBuff) → ltb 0 (length q) ≡ has_buff q
some_left [] = refl
some_left (b ∷ q) = ground arith

set_channel-seen :
    (fd : ℕ) (chan : Channel) (s : FdSets)
    → set_channel fd chan s ≡ set_seen fd (seen (some chan)) s
unfolding set_seen channel_is_readable channel_is_writable
set_channel-seen fd chan s = rw (some_left chan.buff_queue) (by_left (has_buff chan.buff_queue))
  where
    by_left :
        (h : Bool)
        → (let s₁ = if is_active chan.state then set_readable fd s else s in
            if (if h then true else is_setup chan.state) then set_writable fd s₁ else s₁)
          ≡ (let s₁ = if is_active chan.state then set_readable fd s else s in
              if h || is_setup chan.state then set_writable fd s₁ else s₁)
    by_left true = refl
    by_left false = refl

-- Two states of a channel that look alike are both there or both missing.
seen-cases :
    (c c' : Option Channel)
    → seen c' ≡ seen c
    → ((c ≡ none) × (c' ≡ none))
      ⊎ ((chan : Channel) × (chan' : Channel) × (c ≡ some chan) × (c' ≡ some chan'))
seen-cases none none e = inl (refl, refl)
seen-cases none (some chan') e = absurd (let clash : true ≡ false = ap (λ p. p.0) e in ground arith)
seen-cases (some chan) none e = absurd (let clash : false ≡ true = ap (λ p. p.0) e in ground arith)
seen-cases (some chan) (some chan') e = inr (chan, chan', refl, refl)

set_channels-same :
    (chans chans' : Channels)
    → SameSeen chans chans'
    → (fds : List ℕ) (s : FdSets) → set_channels chans' fds s ≡ set_channels chans fds s
unfolding set_channels
set_channels-same chans chans' same [] s = refl
set_channels-same chans chans' same (fd ∷ fds) s =
    elim (seen-cases (chans fd) (chans' fd) (same fd)) [
      | inl (e, e') ↦ rw (e, e') refl
      | inr (chan, chan', e, e') ↦
          let alike : seen (some chan') ≡ seen (some chan) = rw (e, e') at (same fd) in
          let alike' =
            set_channel-seen fd chan' s
            ∙ (ap (λ (v : Seen). set_seen fd v s) alike ∙ sym (set_channel-seen fd chan s)) in
          rw (e, e')
            (ap (λ (t : FdSets). set_channels chans' fds t) alike'
              ∙ set_channels-same chans chans' same fds (set_channel fd chan s))
    ]

-- The sets of two managers whose channels look alike.
abbrev pub put_parts : {N : Type 0} → Ioman N → Channels → N → Net → (ℕ → Option ℕ) → Ioman N
put_parts man chans node net map = record man {
  chans = chans;
  node = node;
  net = net;
  channel_map = map;
}

current_fds-same :
    {N : Type 0} (man : Ioman N) (chans : Channels) (node : N) (net : Net) (map : ℕ → Option ℕ)
    → SameSeen man.chans chans
    → current_fds (put_parts man chans node net map) ≡ current_fds man
unfolding current_fds channel_is_readable
current_fds-same man chans node net map same =
    elim (seen-cases (man.chans man.local_chan) (chans man.local_chan) (same man.local_chan)) [
      | inl (e, e') ↦ rw (e, e') refl
      | inr (chan, chan', e, e') ↦
          let alike : seen (some chan') ≡ seen (some chan) = rw (e, e') at (same man.local_chan) in
          let state : chan'.state ≡ chan.state = ap (λ (v : Seen). v.1) alike in
          rw (e, e', state) (set_channels-same man.chans chans same man.channels _)
    ]

abbrev pub has_event : List Event → Bool
has_event [] = false
has_event (_ ∷ _) = true

-- The sets are made anew before the next wait, or an event ends it.
abbrev pub Settled : {N : Type 0} → Ioman N → Type 0
Settled man = (man.fdset_valid ≡ false) ⊎ (has_event man.events ≡ true)

-- The sets that are kept are those of the channels, if they are to be used without an event that
-- ends the wait.
abbrev pub IsFresh : {N : Type 0} → Ioman N → Type 0
IsFresh man = Settled man ⊎ (current_fds man ≡ some man.cache)

pub record Same {N : Type 0} (man man' : Ioman N) : Type 0 where
  pub valid : man'.fdset_valid ≡ man.fdset_valid
  pub events : man'.events ≡ man.events
  pub cache : man'.cache ≡ man.cache
  pub channels : man'.channels ≡ man.channels
  pub fds : current_fds man' ≡ current_fds man

abbrev pub Keeps : {N : Type 0} → Ioman N → Ioman N → Type 0
Keeps man man' = Settled man' ⊎ Same man man'

pub Same-Settled : {N : Type 0} (man man' : Ioman N) → Same man man' → Settled man → Settled man'
Same-Settled man man' s (inl invalid) = inl (s.valid ∙ invalid)
Same-Settled man man' s (inr event) = inr (ap has_event s.events ∙ event)

pub Keeps-trans : {N : Type 0} (a b c : Ioman N) → Keeps a b → Keeps b c → Keeps a c
Keeps-trans a b c k (inl settled) = inl settled
Keeps-trans a b c (inl settled) (inr s) = inl (Same-Settled b c s settled)
Keeps-trans a b c (inr s) (inr t) = inr (record {
  valid = t.valid ∙ s.valid;
  events = t.events ∙ s.events;
  cache = t.cache ∙ s.cache;
  channels = t.channels ∙ s.channels;
  fds = t.fds ∙ s.fds;
})

pub Keeps-self : {N : Type 0} (man : Ioman N) → Keeps man man
Keeps-self man =
    inr (record { valid = refl; events = refl; cache = refl; channels = refl; fds = refl })

pub Keeps-IsFresh : {N : Type 0} (man man' : Ioman N) → Keeps man man' → IsFresh man → IsFresh man'
Keeps-IsFresh man man' (inl settled) f = inl settled
Keeps-IsFresh man man' (inr s) (inl settled) = inl (Same-Settled man man' s settled)
Keeps-IsFresh man man' (inr s) (inr e) =
    inr (s.fds ∙ (e ∙ ap (λ (c : FdSets). some c) (sym s.cache)))

-- Other parts may change where the channels look as before.
pub alike-Keeps :
    {N : Type 0} (man : Ioman N) (chans : Channels) (node : N) (net : Net) (map : ℕ → Option ℕ)
    → SameSeen man.chans chans
    → Keeps man (put_parts man chans node net map)
alike-Keeps man chans node net map same = inr (record {
  valid = refl;
  events = refl;
  cache = refl;
  channels = refl;
  fds = current_fds-same man chans node net map same;
})

pub Quiet-SameSeen :
    (chans : Channels) (fd : ℕ) (chan chan' : Channel)
    → chans fd ≡ some chan
    → Quiet chan chan'
    → SameSeen chans (put_channel chans fd chan')
Quiet-SameSeen chans fd chan chan' at q i = elim (Bool-cases (i == fd)) [
  | inr other ↦ rw other refl
  | inl here ↦
      let e : i ≡ fd = ground (arith, here) in
      let same_queue = q.queue in
      let same_state = q.state in
      rw (here, e, at)
        (looks chan.state chan'.state chan.buff_queue chan'.buff_queue same_state same_queue)
]
  where
    looks :
        (st st' : State) (bs bs' : List MsgBuff)
        → st' ≡ st
        → bs' ≡ bs
        → ◌≡◌ {A = Seen} (true, st', has_buff bs') (true, st, has_buff bs)
    looks st st' bs bs' e e' = rw (e, e') refl

pub has_event-append : (es : List Event) (ev : Event) → has_event (es ++ ev ∷ []) ≡ true
has_event-append [] ev = refl
has_event-append (x ∷ es) ev = refl
