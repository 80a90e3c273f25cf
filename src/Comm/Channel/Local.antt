-- ===== src/Comm/Channel/Local.antt =====
-- The channel of a node to itself, of src/comm/channel.c: the sending threads put their chunks into
-- its queue, and the I/O thread takes them out. The pipe holds one number for each chunk.
use dlfree.Base.{
  ℕ, ◌+◌, ◌-◌, Option, none, some, List, [], ◌∷◌, ◌++◌, ltb, ◌==◌, if◌then◌else◌, length, drop,
}
use dlfree.Base.Int.{pos}
use dlfree.Std.Bytes.{Endian, ◌>>=◌}
use dlfree.Comm.Msg.{MsgInfo, MsgBuff, msg_info_unpack}
use dlfree.Comm.Channel.{Channel, active, queue_limit, base_channel_create, channel_pack_buff}

pub record Local : Type 0 where
  pub chan : Channel
  pub pipe : ℕ

unfoldable pub channel_local_create : (fresh : List ℕ) → (local_pid : ℕ) → Local
channel_local_create fresh local_pid = record {
  chan = record (base_channel_create fresh) { state = active; peer_id = some local_pid };
  pipe = 0;
}

-- The outer `none` is a fault, the inner one a thread that waits.
unfoldable pub channel_local_push_chunk :
    Endian → Local → MsgInfo → (buff : List ℕ) → (len : ℕ) → Option (Option Local)
channel_local_push_chunk e l minfo buff len = do
  chunk ← channel_pack_buff e minfo buff len
  some (
      if ltb (length l.chan.buff_queue) queue_limit
      then some (record {
        chan = record l.chan { buff_queue = l.chan.buff_queue ++ chunk ∷ [] };
        pipe = l.pipe + 1;
      })
      else none)

-- The chunk is taken as a whole, so that nothing of it remains to be read.
unfoldable pub channel_local_pop_chunk : Endian → Local → Option (Option (MsgBuff × Local))
channel_local_pop_chunk e l = if l.pipe == 0 then some none else (elim l.chan.buff_queue [
  | [] ↦ none
  | chunk ∷ queue ↦ (do
    (msg_info, _) ← msg_info_unpack e l.chan.msg_info (drop chunk.head chunk.bytes)
    some (
        some (
          chunk,
          record {
            chan = record l.chan {
              buff_queue = queue;
              msg_info = record msg_info { remain = pos 0 };
            };
            pipe = l.pipe - 1;
          },
        )))
])
