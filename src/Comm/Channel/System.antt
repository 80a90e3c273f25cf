-- ===== src/Comm/Channel/System.antt =====
-- The channels of one node over time: the calls of src/comm/channel.c that the I/O thread makes, in
-- any order and with any outcome of the sockets.
pub mod Sound
pub mod ToSelf
pub mod Keeps
use dlfree.Base.{
  has, ℕ, ◌≡◌, ◌≢◌, Bool, true, false, Option, none, some, List, [], ◌∷◌, ◌==◌, if◌then◌else◌,
}
use dlfree.Std.Bytes.{Endian}
use dlfree.Comm.Msg.{MsgInfo, MsgBuff}
use dlfree.Comm.Sock.{Arrival}
use dlfree.Comm.Channel.{
  Channel, Channels, put_channel, ReadStatus, channel_active_create, channel_setup_create,
  channel_is_readable, channel_make_active, channel_make_established, channel_read_header,
  channel_setup_chunk, channel_setup_chunk_with_buff, channel_setup_msg, channel_read_msg,
  channel_read_chunk, channel_send_msg, channel_pipeline_chunk,
}
use dlfree.Comm.Channel.Local.{
  Local, channel_local_create, channel_local_push_chunk, channel_local_pop_chunk,
}
use dlfree.Comm.Channel.Waiting.{wait_of}
use dlfree.Comm.Channel.Write.{WriteStatus, Out, channel_write}

-- The calls that change one channel, and what src/comm/ioman.c writes to it: `registered` its peer,
-- and `handled` that the node has taken its chunk. Only a readable channel is read from.
pub data Change (e : Endian) (chan chan' : Channel) : Type 0 where
  activated :
      {done : Bool} (connected : Bool)
      → channel_make_active connected chan ≡ some (done, chan')
      → Change e chan chan'
  established : channel_make_established chan ≡ some chan' → Change e chan chan'
  header :
      {stat : ReadStatus} {rx' : List Arrival} (rx : List Arrival)
      → channel_is_readable chan ≡ true
      → channel_read_header e chan rx ≡ some (stat, chan', rx')
      → Change e chan chan'
  set_up_chunk :
      (fresh : List ℕ) → channel_setup_chunk fresh chan ≡ some chan' → Change e chan chan'
  set_up_with_buff :
      (buff : List ℕ) → channel_setup_chunk_with_buff chan buff ≡ some chan' → Change e chan chan'
  set_up_msg : (fresh : List ℕ) → channel_setup_msg fresh chan ≡ some chan' → Change e chan chan'
  read_msg :
      {stat : ReadStatus} {msg : Option MsgBuff} {rx' : List Arrival} (rx : List Arrival)
      → channel_is_readable chan ≡ true
      → channel_read_msg chan rx ≡ some (stat, msg, chan', rx')
      → Change e chan chan'
  read_chunk :
      {stat : ReadStatus} {chunk : Option MsgBuff} {rx' : List Arrival} (rx : List Arrival)
      → channel_is_readable chan ≡ true
      → channel_read_chunk chan rx ≡ some (stat, chunk, chan', rx')
      → Change e chan chan'
  sent :
      (minfo : MsgInfo) (buff : List ℕ) (len : ℕ)
      → channel_send_msg e chan minfo buff len ≡ some chan'
      → Change e chan chan'
  registered : (dst_id : ℕ) → chan' ≡ record chan { peer_id = some dst_id } → Change e chan chan'
  handled :
      channel_is_readable chan ≡ true
      → chan' ≡ record chan { curr_buff = none }
      → Change e chan chan'

abbrev pub remove_channel : Channels → ℕ → Channels
remove_channel chans id j = if j == id then none else chans j

-- A channel is removed after a read of it failed, or, for other reasons, while it does not wait. A
-- chunk is passed on to another channel than the one that it came from. A chunk is taken out of a
-- local channel while no other waits for it, since `channel_map` does not lead there.
pub data Step (e : Endian) (chans : Channels) : Channels → Type 0 where
  accepted :
      (id : ℕ) (fresh : List ℕ)
      → chans id ≡ none
      → Step e chans (put_channel chans id (channel_active_create fresh))
  connecting :
      (id : ℕ) (fresh : List ℕ)
      → chans id ≡ none
      → Step e chans (put_channel chans id (channel_setup_create fresh))
  local_created :
      (id : ℕ) (fresh : List ℕ) (local_pid : ℕ)
      → chans id ≡ none
      → Step e chans (put_channel chans id (channel_local_create fresh local_pid).chan)
  local_pushed :
      (id : ℕ) (chan : Channel) (pipe : ℕ) (l : Local) (minfo : MsgInfo) (buff : List ℕ) (len : ℕ)
      → chans id ≡ some chan
      → channel_local_push_chunk e (record { chan = chan; pipe = pipe }) minfo buff len
        ≡ some (some l)
      → Step e chans (put_channel chans id l.chan)
  local_popped :
      (id : ℕ) (chan : Channel) (pipe : ℕ) (chunk : MsgBuff) (l : Local)
      → chan.wait_queue ≡ []
      → chans id ≡ some chan
      → channel_is_readable chan ≡ true
      → channel_local_pop_chunk e (record { chan = chan; pipe = pipe }) ≡ some (some (chunk, l))
      → Step e chans (put_channel chans id (record l.chan { curr_buff = some chunk }))
  read_failed :
      (id : ℕ) (chan : Channel)
      → chans id ≡ some chan
      → channel_is_readable chan ≡ true
      → Step e chans (remove_channel chans id)
  removed :
      (id : ℕ)
      → ((j : ℕ) → has id (wait_of (chans j)) ≡ false)
      → Step e chans (remove_channel chans id)
  changed :
      (id : ℕ) (chan chan' : Channel)
      → chans id ≡ some chan
      → Change e chan chan'
      → Step e chans (put_channel chans id chan')
  passed :
      {chans' : Channels} (id next : ℕ) (chan : Channel) (pushed : Bool)
      → id ≢ next
      → chans id ≡ some chan
      → channel_is_readable chan ≡ true
      → channel_pipeline_chunk id next chans ≡ some (pushed, chans')
      → Step e chans chans'
  wrote :
      {chans' : Channels} (id : ℕ) (stat : WriteStatus) (unblock : Bool) (out out' : Out)
      → channel_write id chans out ≡ some (stat, unblock, chans', out')
      → Step e chans chans'

abbrev pub no_channels : Channels
no_channels _ = none

-- The states that the channels can come to.
pub data Reach (e : Endian) : Channels → Type 0 where
  start : Reach e no_channels
  step : {chans chans' : Channels} → Reach e chans → Step e chans chans' → Reach e chans'
