-- ===== src/Comm/Channel/System/Keeps.antt =====
-- Every step of the channels keeps them in order.
use dlfree.Base.{
  has, ℕ, ◌≡◌, ◌≢◌, refl, ap, sym, ◌∙◌, Bool, true, false, Option, none, some, ltb, ◌==◌, length,
  inl, inr, arith, Bool-cases, none_ne_some, some_injective,
}
use dlfree.Std.Bytes.{Endian}
use dlfree.Comm.Msg.{MsgBuff}
use dlfree.Comm.Channel.{
  Channel, Channels, queue_limit, channel_is_readable, channel_active_create, channel_setup_create,
  base_channel_create, channel_pipeline_chunk,
}
use dlfree.Comm.Channel.Write.{WriteStatus, Out, channel_write}
use dlfree.Comm.Channel.Write.Unblock.{Freed}
use dlfree.Comm.Channel.Write.Total.{channel_write-IsOrderly}
use dlfree.Comm.Channel.Pipeline.{
  pushed, blocked, pipeline-pushed, pipeline-blocked, pushed-IsOrderly, blocked-IsOrderly,
  pushed-AllFull, blocked-AllFull,
}
use dlfree.Comm.Channel.Waiting.{wait_of, curr_of, IsBuff, no_buffs, Holds, IsOrderly}
use dlfree.Comm.Channel.Keep.{bind_some}
use dlfree.Comm.Channel.Change.{Fits}
use dlfree.Comm.Channel.Local.{channel_local_create}
use dlfree.Comm.Channel.System.ToSelf.{local_pushed-IsSound, local_popped-IsSound}
use dlfree.Comm.Channel.System.Sound.{IsSound, fresh-IsSound, Change-IsSound, readable-free}
use dlfree.Comm.Channel.System.{
  Step, accepted, connecting, local_created, local_pushed, local_popped, read_failed, removed,
  changed, passed, wrote, Reach, start, step, no_channels,
}

-- What `passed` leaves at hand.
module _ (chans : Channels) (id next : ℕ) (chan target : Channel) (buff : MsgBuff)
    (s : IsSound chans) (at : chans id ≡ some chan) (there : chans next ≡ some target)
    (apart : id ≢ next) (holds_chunk : chan.curr_buff ≡ some buff) (fits : IsBuff buff)
    (unblocked : (j : ℕ) → has id (wait_of (chans j)) ≡ false) where
  abbrev after_pushed : Channels
  after_pushed =
      pushed chans id next chan target buff s.orderly at there apart holds_chunk fits unblocked

  abbrev after_blocked : Channels
  after_blocked =
      blocked chans id next chan target buff s.orderly at there apart holds_chunk fits unblocked

  pushed-fit : (j : ℕ) → Fits (curr_of (after_pushed j))
  pushed-fit j = elim (Bool-cases (j == next)) [
    | inl here ↦ rw here (rw there at (s.fit next))
    | inr other ↦ elim (Bool-cases (j == id)) [
      | inl self ↦ rw (other, self) (λ b e. absurd (none_ne_some e))
      | inr out ↦ rw (other, out) (s.fit j)
    ]
  ]

  blocked-fit : (j : ℕ) → Fits (curr_of (after_blocked j))
  blocked-fit j = elim (Bool-cases (j == next)) [
    | inl here ↦ rw here (rw there at (s.fit next))
    | inr other ↦ elim (Bool-cases (j == id)) [
      | inl self ↦ rw (other, self) (rw at at (s.fit id))
      | inr out ↦ rw (other, out) (s.fit j)
    ]
  ]

  passed-IsSound :
      (p : Bool) (chans' : Channels)
      → channel_pipeline_chunk id next chans ≡ some (p, chans')
      → IsSound chans'
  passed-IsSound p chans' run = elim (Bool-cases (ltb (length target.buff_queue) queue_limit)) [
    | inl room ↦
        let e =
          pipeline-pushed chans id next chan target buff s.orderly at there apart holds_chunk fits
            unblocked room in
        let same : after_pushed ≡ chans' = ap (λ p. p.1) (some_injective (sym e ∙ run)) in
        rw (← same) (record {
          orderly =
              pushed-IsOrderly chans id next chan target buff s.orderly at there apart holds_chunk
                fits unblocked;
          full =
              pushed-AllFull chans id next chan target buff s.orderly at there apart holds_chunk
                fits unblocked room s.full;
          fit = pushed-fit;
        })
    | inr no_room ↦
        let e =
          pipeline-blocked chans id next chan target buff s.orderly at there apart holds_chunk fits
            unblocked no_room in
        let same : after_blocked ≡ chans' = ap (λ p. p.1) (some_injective (sym e ∙ run)) in
        rw (← same) (record {
          orderly =
              blocked-IsOrderly chans id next chan target buff s.orderly at there apart holds_chunk
                fits unblocked;
          full =
              blocked-AllFull chans id next chan target buff s.orderly at there apart holds_chunk
                fits unblocked no_room s.full;
          fit = blocked-fit;
        })
  ]

-- A channel that may be read from waits nowhere.
active-unblocked :
    (chans : Channels) (id : ℕ) (chan : Channel)
    → IsSound chans
    → chans id ≡ some chan
    → channel_is_readable chan ≡ true
    → (j : ℕ) → has id (wait_of (chans j)) ≡ false
active-unblocked chans id chan s at readable j = elim (Bool-cases (has id (wait_of (chans j)))) [
  | inr fine ↦ fine
  | inl waits ↦ absurd (readable-free chan readable (rw at at (s.orderly.holds j id waits)))
]

-- Nobody waits in an empty place.
none-unblocked :
    (chans : Channels) (id : ℕ)
    → IsSound chans
    → chans id ≡ none
    → (j : ℕ) → has id (wait_of (chans j)) ≡ false
none-unblocked chans id s at j = elim (Bool-cases (has id (wait_of (chans j)))) [
  | inr fine ↦ fine
  | inl waits ↦
      let h : Holds none = rw at at (s.orderly.holds j id waits) in absurd (none_ne_some h.held)
]

pipeline-parts :
    (chans chans' : Channels) (id next : ℕ) (chan : Channel) (p : Bool)
    → chans id ≡ some chan
    → channel_pipeline_chunk id next chans ≡ some (p, chans')
    → (buff : MsgBuff) × (target : Channel) × (chan.curr_buff ≡ some buff)
      × (chans next ≡ some target)
unfolding channel_pipeline_chunk
pipeline-parts chans chans' id next chan p at run =
    let (c, e_c, run₁) = bind_some (chans id) _ _ run in
    let (buff, e_buff, run₂) = bind_some c.curr_buff _ _ run₁ in
    let (target, e_target, _) = bind_some (chans next) _ _ run₂ in
    let same : c ≡ chan = some_injective (sym e_c ∙ at) in
    (buff, target, sym (ap (λ (x : Channel). x.curr_buff) same) ∙ e_buff, e_target)

write-parts :
    (chans chans' : Channels) (id : ℕ) (stat : WriteStatus) (u : Bool) (out out' : Out)
    → channel_write id chans out ≡ some (stat, u, chans', out')
    → (chan : Channel) × (chans id ≡ some chan)
unfolding channel_write
write-parts chans chans' id stat u out out' run =
    let (c, e, _) = bind_some (chans id) _ _ run in (c, e)

Holds-Fits : (c : Option Channel) → Holds c → Fits (curr_of c)
Holds-Fits c h b e = rw (some_injective (sym e ∙ h.held)) h.chunk_fits

wrote-IsSound :
    (chans chans' : Channels) (id : ℕ) (stat : WriteStatus) (u : Bool) (out out' : Out)
    → IsSound chans
    → channel_write id chans out ≡ some (stat, u, chans', out')
    → IsSound chans'
wrote-IsSound chans chans' id stat u out out' s run =
    let (chan, at) = write-parts chans chans' id stat u out out' run in
    let (_, _, chans₁, _, run₁, o, full, freed, own, _, frame, _) =
      channel_write-IsOrderly id chans chan out s.orderly s.full at in
    let same : chans₁ ≡ chans' = ap (λ p. p.2) (some_injective (sym run₁ ∙ run)) in
    rw (← same) (record { orderly = o; full = full; fit = fit_after chans₁ o freed own frame })
  where
    fit_after :
        (chans₁ : Channels)
        → IsOrderly chans₁
        → ((j : ℕ) → has j (wait_of (chans id)) ≡ true → Freed chans₁ id j)
        → curr_of (chans₁ id) ≡ curr_of (chans id)
        → ((j : ℕ) → j ≢ id → has j (wait_of (chans id)) ≡ false → chans₁ j ≡ chans j)
        → (j : ℕ) → Fits (curr_of (chans₁ j))
    fit_after chans₁ o freed own frame j = elim (Bool-cases (has j (wait_of (chans id)))) [
      | inl waited ↦ elim (freed j waited) [
        | inl waits ↦ Holds-Fits (chans₁ j) (o.holds id j waits)
        | inr (free, _) ↦ rw free (λ b e. absurd (none_ne_some e))
      ]
      | inr out ↦ elim (Bool-cases (j == id)) [
        | inl here ↦ let e : j ≡ id = ground (arith, here) in rw (e, own) (s.fit id)
        | inr there ↦ rw (frame j (λ e. absurd (ground (arith, there, e))) out) (s.fit j)
      ]
    ]

Step-IsSound :
    (e : Endian) (chans chans' : Channels) → IsSound chans → Step e chans chans' → IsSound chans'
unfolding channel_active_create channel_setup_create base_channel_create channel_local_create
Step-IsSound e chans chans' s (accepted id fresh at) =
    fresh-IsSound chans id (some (channel_active_create fresh)) s (none-unblocked chans id s at)
      refl refl refl
Step-IsSound e chans chans' s (connecting id fresh at) =
    fresh-IsSound chans id (some (channel_setup_create fresh)) s (none-unblocked chans id s at) refl
      refl refl
Step-IsSound e chans chans' s (local_created id fresh local_pid at) =
    fresh-IsSound chans id (some (channel_local_create fresh local_pid).chan) s
      (none-unblocked chans id s at) refl refl refl
Step-IsSound e chans chans' s (local_pushed id chan pipe l minfo buff len at run) =
    local_pushed-IsSound e chans id chan pipe s at l minfo buff len run
Step-IsSound e chans chans' s (local_popped id chan pipe chunk l nobody at readable run) =
    local_popped-IsSound e chans id chan pipe s at chunk l nobody readable run
Step-IsSound e chans chans' s (read_failed id chan at readable) =
    fresh-IsSound chans id none s (active-unblocked chans id chan s at readable) refl refl refl
Step-IsSound e chans chans' s (removed id unblocked) =
    fresh-IsSound chans id none s unblocked refl refl refl
Step-IsSound e chans chans' s (changed id chan chan' at ch) =
    Change-IsSound e chans id chan chan' s at ch
Step-IsSound e chans chans' s (passed id next chan p apart at readable run) =
    let (buff, target, holds_chunk, there) = pipeline-parts chans chans' id next chan p at run in
    passed-IsSound chans id next chan target buff s at there apart holds_chunk
      (s.fit id buff (ap curr_of at ∙ holds_chunk)) (active-unblocked chans id chan s at readable) p
      chans' run
Step-IsSound e chans chans' s (wrote id stat u out out' run) =
    wrote-IsSound chans chans' id stat u out out' s run

empty-IsSound : IsSound no_channels
empty-IsSound = record {
  orderly = record {
    buffs = λ id. no_buffs;
    holds = λ id w h. absurd (ground (arith, h));
    once = λ id. refl;
    one_place = λ id id' w h h'. absurd (ground (arith, h));
    others = λ id. refl;
  };
  full = λ id. inl refl;
  fit = λ id b e. absurd (none_ne_some e);
}

-- As long as only channels that are readable are read from, a new channel takes a place that is
-- free, no channel is removed while it waits for another, no chunk is passed back to the channel
-- that it came from, and no channel waits for the local one when a chunk is taken from it, the
-- conditions of a write hold, whatever else the channels of a node are used for: who waits is
-- blocked with a chunk in its hands, and waits at one place, once, and not at itself; nobody waits
-- for a channel that has room; the chunks of the queues and at hand end within their memory. A
-- channel whose read has failed may be removed in any case.
pub Reach-IsSound : (e : Endian) (chans : Channels) → Reach e chans → IsSound chans
Reach-IsSound e chans start = empty-IsSound
Reach-IsSound e chans' (step {chans} r st) =
    Step-IsSound e chans chans' (Reach-IsSound e chans r) st
