-- ===== src/Comm/Channel/System/Sound.antt =====
-- What every call leaves of the order of the channels.
use dlfree.Base.{
  has, distinct, ℕ, ◌≡◌, ◌≢◌, ◌⊎◌, refl, ap, sym, ◌∙◌, Bool, true, false, Option, none, some, [],
  ◌==◌, if◌then◌else◌, inl, inr, arith, Bool-cases, none_ne_some, some_injective,
}
use dlfree.Std.Bytes.{Endian}
use dlfree.Comm.Channel.{
  ConnectState, in_progress, Channel, Channels, put_channel, State, initial, active, setup,
  blocking, is_active, is_setup, queue_limit, channel_is_readable, channel_make_active,
  channel_make_established, channel_active_create, channel_setup_create, base_channel_create,
  channel_pipeline_chunk,
}
use dlfree.Comm.Channel
use dlfree.Comm.Channel.Waiting.{
  wait_of, queue_of, curr_of, AllBuffs, no_buffs, Holds, IsOrderly, IsFull, AllFull,
}
use dlfree.Comm.Channel.Keep.{channel_read_header-Kept}
use dlfree.Comm.Channel.Change.{
  Fits, Changed, Kept-Changed, channel_read_chunk-Changed, channel_read_msg-Changed,
  channel_setup_chunk-Changed, channel_setup_chunk_with_buff-Changed, channel_setup_msg-Changed,
  channel_send_msg-Changed,
}
use dlfree.Comm.Channel.System.{
  Change, activated, established, header, set_up_chunk, set_up_with_buff, set_up_msg, read_msg,
  read_chunk, sent, registered, handled,
}

-- What a channel has at hand is a buffer, and the channels that wait are as `channel_write` needs
-- them.
pub record IsSound (chans : Channels) : Type 0 where
  pub orderly : IsOrderly chans
  pub full : AllFull chans
  pub fit : (id : ℕ) → Fits (curr_of (chans id))

abbrev put_at : Channels → ℕ → Option Channel → Channels
put_at chans id c j = if j == id then c else chans j

-- One place of the store has another content, for which no others wait.
module _ (chans : Channels) (id : ℕ) (c : Option Channel) (s : IsSound chans)
    (fewer : (w : ℕ) → has w (wait_of c) ≡ true → has w (wait_of (chans id)) ≡ true)
    (once' : distinct (wait_of c) ≡ true) (buffs' : AllBuffs (queue_of c))
    (holds' : (j : ℕ) → has id (wait_of (chans j)) ≡ true → Holds c) (full' : IsFull c)
    (fits' : Fits (curr_of c)) where
  -- A property of each content holds of the new one.
  placed-all :
      (P : ℕ → Option Channel → Type 0)
      → P id c
      → ((j : ℕ) → P j (chans j))
      → (j : ℕ) → P j (put_at chans id c j)
  placed-all P mine others j = elim (Bool-cases (j == id)) [
    | inl here ↦ let e : j ≡ id = ground (arith, here) in rw here (rw e mine)
    | inr there ↦ rw there (others j)
  ]

  placed-has :
      (j w : ℕ) → has w (wait_of (put_at chans id c j)) ≡ true → has w (wait_of (chans j)) ≡ true
  placed-has j w =
      placed-all (λ i x. has w (wait_of x) ≡ true → has w (wait_of (chans i)) ≡ true) (fewer w)
        (λ i h. h) j

  placed-Holds : (i j : ℕ) → has i (wait_of (chans j)) ≡ true → Holds (put_at chans id c i)
  placed-Holds i j =
      placed-all (λ k x. has k (wait_of (chans j)) ≡ true → Holds x) (holds' j)
        (λ k h. s.orderly.holds j k h) i

  placed-others : (j : ℕ) → has j (wait_of (put_at chans id c j)) ≡ false
  placed-others j = elim (Bool-cases (has j (wait_of (put_at chans id c j)))) [
    | inr fine ↦ fine
    | inl clash ↦ let old = placed-has j j clash in let not_old = s.orderly.others j in cc
  ]

  pub placed-IsSound : IsSound (put_at chans id c)
  placed-IsSound = record {
    orderly = record {
      buffs = placed-all (λ _ x. AllBuffs (queue_of x)) buffs' s.orderly.buffs;
      holds = λ j w h. placed-Holds w j (placed-has j w h);
      once = placed-all (λ _ x. distinct (wait_of x) ≡ true) once' s.orderly.once;
      one_place = λ j j' w h h'. s.orderly.one_place j j' w (placed-has j w h) (placed-has j' w h');
      others = placed-others;
    };
    full = placed-all (λ _ x. IsFull x) full' s.full;
    fit = placed-all (λ _ x. Fits (curr_of x)) fits' s.fit;
  }

-- A channel of its own, or none, in a place where nobody waits.
module _ (chans : Channels) (id : ℕ) (c : Option Channel) (s : IsSound chans)
    (unblocked : (j : ℕ) → has id (wait_of (chans j)) ≡ false) where
  pub fresh-IsSound :
      wait_of c ≡ [] → queue_of c ≡ [] → curr_of c ≡ none → IsSound (put_at chans id c)
  fresh-IsSound nobody nothing free =
      placed-IsSound chans id c s
        (λ w h. let h' : false ≡ true = rw nobody at h in absurd (ground arith)) (rw nobody refl)
        (rw nothing no_buffs)
        (λ j h.
          let no = unblocked j in absurd (let clash : true ≡ false = sym h ∙ no in ground arith))
        (inl nobody) (λ b e. absurd (none_ne_some (sym free ∙ e)))

-- A channel that is free to go on, or that only gets more to send.
module _ (chans : Channels) (id : ℕ) (chan chan' : Channel) (s : IsSound chans)
    (at : chans id ≡ some chan) (ch : Changed chan chan')
    (holds' : Holds (some chan) → Holds (some chan')) where
  pub changed-IsSound : IsSound (put_channel chans id chan')
  changed-IsSound =
      placed-IsSound chans id (some chan') s (λ w h. rw (at, ← ch.wait) h)
        (rw ch.wait (rw at at (s.orderly.once id))) (ch.buffs (rw at at (s.orderly.buffs id)))
        (λ j h. holds' (rw at at (s.orderly.holds j id h)))
        (elim old_full [
          | inl nobody ↦ inl (ch.wait ∙ nobody)
          | inr much ↦ let more = ch.longer in inr (omega (arith, much, more))
        ])
        (ch.fits (rw at at (s.fit id)))
    where
      old_full : IsFull (some chan)
      old_full = rw at at (s.full id)

ConnectState-cases : (c : ConnectState) → (c ≡ in_progress) ⊎ (c ≡ Channel.established)
ConnectState-cases in_progress = inl refl
ConnectState-cases Channel.established = inr refl

pub is_active-eq : (st : State) → is_active st ≡ true → st ≡ active
is_active-eq active h = refl
is_active-eq initial h = absurd (ground arith)
is_active-eq setup h = absurd (ground arith)
is_active-eq blocking h = absurd (ground arith)

is_setup-eq : (st : State) → is_setup st ≡ true → st ≡ setup
is_setup-eq setup h = refl
is_setup-eq initial h = absurd (ground arith)
is_setup-eq active h = absurd (ground arith)
is_setup-eq blocking h = absurd (ground arith)

pub active_ne_blocking : active ≢ blocking
active_ne_blocking e =
    absurd (let h : is_active active ≡ is_active blocking = ap is_active e in ground (arith, h))

setup_ne_blocking : setup ≢ blocking
setup_ne_blocking e =
    absurd (let h : is_setup setup ≡ is_setup blocking = ap is_setup e in ground (arith, h))

-- A channel that is read from does not wait.
pub readable-free : (chan : Channel) → channel_is_readable chan ≡ true → Holds (some chan) → ⊥
unfolding channel_is_readable
readable-free chan h r = active_ne_blocking (sym (is_active-eq chan.state h) ∙ r.blocked)

same-Changed : (chan : Channel) → Changed chan chan
same-Changed chan = record {
  wait = refl;
  buffs = λ all. all;
  longer = omega arith;
  fits = λ fits. fits;
}

activated-IsSound :
    (connected : Bool) (chans : Channels) (id : ℕ) (chan chan' : Channel)
    → IsSound chans
    → chans id ≡ some chan
    → (done : Bool) → channel_make_active connected chan ≡ some (done, chan')
    → IsSound (put_channel chans id chan')
unfolding channel_make_active
activated-IsSound connected chans id chan chan' s at done run =
    elim (Bool-cases (is_setup chan.state)) [
      | inr other ↦ absurd (none_ne_some (rw (channel_make_active, other) at run))
      | inl fresh ↦
          by_result connected (rw (channel_make_active, fresh) at run)
            (λ r. absurd (setup_ne_blocking (sym (is_setup-eq chan.state fresh) ∙ r.blocked)))
    ]
  where
    by_result :
        (connected : Bool)
        → ◌≡◌ {A = Option (Bool × Channel)}
            (some (if connected then (true, record chan { state = active }) else (false, chan)))
            (some (done, chan'))
        → (Holds (some chan) → ⊥)
        → IsSound (put_channel chans id chan')
    by_result true e free =
        let same : record chan { state = active } ≡ chan' = ap (λ p. p.1) (some_injective e) in
        rw (← same) (
          changed-IsSound chans id chan (record chan { state = active }) s at
            (record { wait = refl; buffs = λ all. all; longer = omega arith; fits = λ fits. fits })
            (λ r. absurd (free r)))
    by_result false e free =
        let same : chan ≡ chan' = ap (λ p. p.1) (some_injective e) in
        rw (← same) (changed-IsSound chans id chan chan s at (same-Changed chan) (λ r. r))

established-IsSound :
    (chans : Channels) (id : ℕ) (chan chan' : Channel)
    → IsSound chans
    → chans id ≡ some chan
    → channel_make_established chan ≡ some chan'
    → IsSound (put_channel chans id chan')
unfolding channel_make_established
established-IsSound chans id chan chan' s at run = elim (ConnectState-cases chan.connect_state) [
  | inr was ↦ absurd (none_ne_some (rw (channel_make_established, was) at run))
  | inl was ↦
      let same : record chan { connect_state = Channel.established } ≡ chan' =
        some_injective (rw (channel_make_established, was) at run) in
      rw (← same) (
        changed-IsSound chans id chan (record chan { connect_state = Channel.established }) s at
          (record { wait = refl; buffs = λ all. all; longer = omega arith; fits = λ fits. fits })
          (λ r. record {
            blocked = r.blocked;
            chunk = r.chunk;
            held = r.held;
            chunk_fits = r.chunk_fits;
          }))
]

pub Change-IsSound :
    (e : Endian) (chans : Channels) (id : ℕ) (chan chan' : Channel)
    → IsSound chans
    → chans id ≡ some chan
    → Change e chan chan'
    → IsSound (put_channel chans id chan')
Change-IsSound e chans id chan chan' s at (header rx readable run) =
    changed-IsSound chans id chan chan' s at
      (Kept-Changed (channel_read_header-Kept e chan chan' rx _ _ run))
      (λ r. absurd (readable-free chan readable r))
Change-IsSound e chans id chan chan' s at (read_msg rx readable run) =
    changed-IsSound chans id chan chan' s at (channel_read_msg-Changed chan chan' rx _ _ _ run).0
      (λ r. absurd (readable-free chan readable r))
Change-IsSound e chans id chan chan' s at (read_chunk rx readable run) =
    changed-IsSound chans id chan chan' s at (channel_read_chunk-Changed chan chan' rx _ _ _ run).0
      (λ r. absurd (readable-free chan readable r))
Change-IsSound e chans id chan chan' s at (set_up_chunk fresh run) =
    let (free, ch, _) = channel_setup_chunk-Changed fresh chan chan' run in
    changed-IsSound chans id chan chan' s at ch (λ r. absurd (none_ne_some (sym free ∙ r.held)))
Change-IsSound e chans id chan chan' s at (set_up_with_buff buff run) =
    let (free, ch, _) = channel_setup_chunk_with_buff-Changed chan chan' buff run in
    changed-IsSound chans id chan chan' s at ch (λ r. absurd (none_ne_some (sym free ∙ r.held)))
Change-IsSound e chans id chan chan' s at (set_up_msg fresh run) =
    let (free, ch, _) = channel_setup_msg-Changed fresh chan chan' run in
    changed-IsSound chans id chan chan' s at ch (λ r. absurd (none_ne_some (sym free ∙ r.held)))
Change-IsSound e chans id chan chan' s at (sent minfo buff len run) =
    let (ch, same_curr, same_state) = channel_send_msg-Changed e chan chan' minfo buff len run in
    changed-IsSound chans id chan chan' s at ch (λ r. record {
      blocked = same_state ∙ r.blocked;
      chunk = r.chunk;
      held = same_curr ∙ r.held;
      chunk_fits = r.chunk_fits;
    })
Change-IsSound e chans id chan chan' s at (activated connected run) =
    activated-IsSound connected chans id chan chan' s at _ run
Change-IsSound e chans id chan chan' s at (established run) =
    established-IsSound chans id chan chan' s at run
Change-IsSound e chans id chan chan' s at (registered dst_id same) = rw same (
    changed-IsSound chans id chan (record chan { peer_id = some dst_id }) s at
      (record { wait = refl; buffs = λ all. all; longer = omega arith; fits = λ fits. fits })
      (λ r. record {
        blocked = r.blocked;
        chunk = r.chunk;
        held = r.held;
        chunk_fits = r.chunk_fits;
      }))
Change-IsSound e chans id chan chan' s at (handled readable same) = rw same (
    changed-IsSound chans id chan (record chan { curr_buff = none }) s at
      (record {
        wait = refl;
        buffs = λ all. all;
        longer = omega arith;
        fits = λ fits b e. absurd (none_ne_some e);
      })
      (λ r. absurd (readable-free chan readable r)))
