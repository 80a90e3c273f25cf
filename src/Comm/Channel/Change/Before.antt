-- ===== src/Comm/Channel/Change/Before.antt =====
-- What an operation on a channel leaves alone.
use dlfree.Base.{◌≤◌, ◌≡◌, Option, none, some, length, arith, none_ne_some, some_injective}
use dlfree.Comm.Msg.{MsgBuff}
use dlfree.Comm.Channel.{Channel}
use dlfree.Comm.Channel.Waiting.{IsBuff, AllBuffs}
use dlfree.Comm.Channel.Keep.{Kept}

abbrev pub Fits : Option MsgBuff → Type 0
Fits curr = (b : MsgBuff) → curr ≡ some b → IsBuff b

-- The queue has lost no chunk, and buffers are buffers still.
pub record Changed (chan chan' : Channel) : Type 0 where
  pub wait : chan'.wait_queue ≡ chan.wait_queue
  pub buffs : AllBuffs chan.buff_queue → AllBuffs chan'.buff_queue
  pub longer : length chan.buff_queue ≤ length chan'.buff_queue
  pub fits : Fits chan.curr_buff → Fits chan'.curr_buff

-- What `select` is to look at is as before.
pub record Quiet (chan chan' : Channel) : Type 0 where
  pub queue : chan'.buff_queue ≡ chan.buff_queue
  pub state : chan'.state ≡ chan.state

pub Kept-but :
    {chan c : Channel} (k : Kept chan c) (curr : Option MsgBuff)
    → (Fits chan.curr_buff → Fits curr)
    → Changed chan (record c { curr_buff = curr }) × Quiet chan (record c { curr_buff = curr })
Kept-but k curr fits = (
  record {
    wait = k.wait;
    buffs = λ all. rw k.queue all;
    longer = rw k.queue (omega arith);
    fits = fits;
  },
  record { queue = k.queue; state = k.state },
)

pub Kept-Changed : {chan c : Channel} → Kept chan c → Changed chan c
Kept-Changed k = record {
  wait = k.wait;
  buffs = λ all. rw k.queue all;
  longer = rw k.queue (omega arith);
  fits = λ fits. rw k.curr fits;
}

pub no_chunk : Fits none
no_chunk x e = absurd (none_ne_some e)

pub Fits-some : (b : MsgBuff) → IsBuff b → Fits (some b)
Fits-some b h x e = rw (← some_injective e) h
