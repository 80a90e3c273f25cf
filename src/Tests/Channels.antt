-- ===== src/Tests/Channels.antt =====
-- The channels of a node on small inputs.
use dlfree.Base.{
  has, ℕ, zero, suc, ◌≡◌, ◌≢◌, ◌⊎◌, refl, Bool, true, false, some, List, [], ◌∷◌, ◌++◌, length, ◌<◌,
  replicate, arith,
}
use dlfree.Base.Int.{pos}
use dlfree.Std.Bytes.{Endian, little}
use dlfree.Comm.Msg.{
  MsgInfo, MsgBuff, msg_info_create, msg_info_pack, msg_buff_create, msg_buff_create_on_buff,
}
use dlfree.Comm.Sock.{Arrival, bytes, room, send_again, sock_try_recv_n}
use dlfree.Comm.Channel.{
  read_ok, read_done, channel_setup_chunk, channel_setup_buff, channel_read_chunk,
  channel_read_to_buff, read_loop, channel_is_readable, Channel, Channels, put_channel, blocking,
  base_channel_create, channel_active_create, channel_read_header, channel_send_msg,
  channel_pack_buff, channel_pipeline_chunk,
}
use dlfree.Comm.Channel.Waiting.{wait_of, queue_of, curr_of, state_of, IsOrderly, AllFull, pending}
use dlfree.Comm.Channel.Write.{WriteStatus, write_ok, write_eagain, write_err, Out, channel_write}
use dlfree.Comm.Channel.System.{
  sent, header, set_up_chunk, read_chunk, accepted, changed, passed, Reach, start, step,
  no_channels,
}
use dlfree.Comm.Channel.System.Sound.{IsSound}
use dlfree.Comm.Channel.System.Keeps.{Reach-IsSound}
use dlfree.Comm.Channel.Write.Unblock.{Freed}
use dlfree.Comm.Channel.Write.Total.{channel_write-order, channel_write-IsOrderly}

abbrev memory : List ℕ
memory = replicate 100 7

-- A header, and five bytes behind it.
abbrev to_send : MsgInfo
to_send = record msg_info_create { kind = pos 6; len = pos 3 }

abbrev hello : List ℕ
hello = 104 ∷ 105 ∷ 33 ∷ []

-- The channel 1, with `n` messages to send.
abbrev msg : MsgBuff
msg = record (msg_buff_create (msg_info_pack little to_send [] ++ replicate 68 0 ++ hello) 103) {
  tail = 103;
}

packed : channel_pack_buff little to_send hello 3 ≡ some msg
unfolding channel_pack_buff msg_buff_create msg_buff_create_on_buff msg_info_pack
    dlfree.Std.Bytes.pack_int dlfree.Std.Bytes.pack_uint64 dlfree.Std.Bytes.store32
    dlfree.Std.Bytes.store64
packed = refl

abbrev loaded : ℕ → Channel
loaded zero = channel_active_create memory
loaded (suc n) = record (loaded n) { buff_queue = (loaded n).buff_queue ++ msg ∷ [] }

abbrev one_loaded : ℕ → Channels
one_loaded zero = put_channel no_channels 1 (loaded 0)
one_loaded (suc n) = put_channel (one_loaded n) 1 (loaded (suc n))

one_loaded-at : (n : ℕ) → one_loaded n 1 ≡ some (loaded n)
one_loaded-at zero = refl
one_loaded-at (suc n) = refl

load-sent : (n : ℕ) → channel_send_msg little (loaded n) to_send hello 3 ≡ some (loaded (suc n))
unfolding channel_send_msg
load-sent n = rw packed refl

one_loaded-Reach : (n : ℕ) → Reach little (one_loaded n)
one_loaded-Reach zero = step start (accepted 1 memory refl)
one_loaded-Reach (suc n) =
    step (one_loaded-Reach n)
      (changed 1 (loaded n) (loaded (suc n)) (one_loaded-at n) (sent to_send hello 3 (load-sent n)))

-- The channel 0 has read a message of three bytes that is for another node.
abbrev incoming : List Arrival
incoming = bytes (msg_info_pack little to_send [] ++ replicate 68 0 ++ hello) ∷ []

abbrev opened : ℕ → Channels
opened n = put_channel (one_loaded n) 0 (channel_active_create memory)

-- The memory that is read into is fresh.
abbrev after_header : Channel
after_header = record (channel_active_create memory) {
  header_buff = msg_info_pack little to_send [] ++ replicate 68 0;
  msg_info = record to_send { remain = pos 3 };
}

abbrev body : List ℕ
body = replicate 103 0

abbrev ready : Channel
ready = record after_header {
  curr_buff =
      some
        (record (msg_buff_create
          (msg_info_pack little to_send [] ++ replicate 68 0 ++ 0 ∷ 0 ∷ 0 ∷ []) 103) {
            tail = 100;
          });
}

abbrev holding : Channel
holding = record after_header {
  curr_buff = some msg;
  msg_info = record to_send { remain = pos 0 };
  rx_count = 3;
}

read-header :
    channel_read_header little (channel_active_create memory) incoming
    ≡ some (read_ok, after_header, bytes hello ∷ [])
unfolding channel_read_header channel_active_create base_channel_create sock_try_recv_n
    msg_info_pack dlfree.Std.Bytes.pack_int dlfree.Std.Bytes.pack_uint64 dlfree.Std.Bytes.store32
    dlfree.Comm.Data.write_at dlfree.Std.Bytes.store64 dlfree.Comm.Msg.msg_info_unpack
    dlfree.Std.Bytes.unpack_int dlfree.Std.Bytes.load32 dlfree.Std.Bytes.unpack_uint64
    dlfree.Std.Bytes.load64 dlfree.Std.Bytes.int32 dlfree.Std.Bytes.htonl dlfree.Std.Bytes.swap32
    dlfree.Std.Bytes.join32 dlfree.Std.Bytes.word32 dlfree.Std.Bytes.htonll dlfree.Std.Bytes.join64
    dlfree.Std.Bytes.ntohll dlfree.Std.Bytes.word64
read-header = refl

set-up : channel_setup_chunk body after_header ≡ some ready
unfolding channel_setup_chunk channel_setup_buff msg_buff_create_on_buff channel_active_create
    base_channel_create msg_info_pack dlfree.Std.Bytes.pack_int dlfree.Std.Bytes.pack_uint64
    dlfree.Std.Bytes.store32 dlfree.Std.Bytes.store64 dlfree.Comm.Data.write_at msg_buff_create
set-up = refl

read-body : channel_read_chunk ready (bytes hello ∷ []) ≡ some (read_done, some msg, holding, [])
unfolding channel_read_chunk channel_read_to_buff read_loop dlfree.Comm.Msg.msg_buff_recv_len
    msg_buff_create sock_try_recv_n dlfree.Comm.Data.write_at msg_info_pack
    dlfree.Std.Bytes.pack_int dlfree.Std.Bytes.pack_uint64 dlfree.Std.Bytes.store32
    dlfree.Std.Bytes.store64 channel_active_create base_channel_create
read-body = refl

abbrev after_read : Channels
after_read =
    put_channel
      (put_channel
        (put_channel (put_channel (one_loaded 100) 0 (channel_active_create memory)) 0 after_header)
        0 ready)
      0 holding

after_read-Reach : Reach little after_read
unfolding channel_is_readable channel_active_create
after_read-Reach =
    step
      (step
        (step (step (one_loaded-Reach 100) (accepted 0 memory refl)) (
          changed 0 (channel_active_create memory) after_header refl
            (header incoming refl read-header)))
        (changed 0 after_header ready refl (set_up_chunk body set-up)))
      (changed 0 ready holding refl (read_chunk (bytes hello ∷ []) refl read-body))

abbrev waiting_channels : Channels
waiting_channels =
    put_channel (put_channel after_read 0 (record holding { state = blocking })) 1
      (record (loaded 100) { wait_queue = 0 ∷ [] })

waits-passed : channel_pipeline_chunk 0 1 after_read ≡ some (false, waiting_channels)
unfolding channel_pipeline_chunk channel_active_create base_channel_create
waits-passed = refl

waiting-Reach : Reach little waiting_channels
unfolding channel_is_readable channel_active_create
waiting-Reach =
    step after_read-Reach
      (passed 0 1 holding false (λ e. absurd (omega (arith, e))) refl refl waits-passed)

Reach-IsSound_example : IsSound waiting_channels
Reach-IsSound_example = Reach-IsSound little waiting_channels waiting-Reach

abbrev out : Out
out = record { tx = room 59 ∷ room 200 ∷ room 5 ∷ send_again ∷ []; sent = [] }

channel_write-order_example :
    (stat : WriteStatus) × (u : Bool) × (chans' : Channels) × (out' : Out) × (channel_write 1
        waiting_channels out
      ≡ some (stat, u, chans', out'))
    × (out'.sent ++ pending chans' 1 ≡ out.sent ++ pending waiting_channels 1)
    × (((stat ≡ write_ok) × (queue_of (chans' 1) ≡ []))
        ⊎ (((stat ≡ write_eagain) ⊎ (stat ≡ write_err)) × (0 < length (queue_of (chans' 1)))))
channel_write-order_example =
    channel_write-order 1 waiting_channels (record (loaded 100) { wait_queue = 0 ∷ [] }) out
      Reach-IsSound_example.orderly refl

channel_write-IsOrderly_example :
    (stat : WriteStatus) × (u : Bool) × (chans' : Channels) × (out' : Out) × (channel_write 1
        waiting_channels out
      ≡ some (stat, u, chans', out'))
    × IsOrderly chans'
    × AllFull chans'
    × ((j : ℕ) → has j (wait_of (waiting_channels 1)) ≡ true → Freed chans' 1 j)
    × (curr_of (chans' 1) ≡ curr_of (waiting_channels 1))
    × (stat ≡ write_ok → wait_of (chans' 1) ≡ [])
    × ((j : ℕ)
        → j ≢ 1
        → has j (wait_of (waiting_channels 1)) ≡ false
        → chans' j ≡ waiting_channels j)
    × (u ≡ false → (j : ℕ) → state_of (chans' j) ≡ state_of (waiting_channels j))
channel_write-IsOrderly_example =
    channel_write-IsOrderly 1 waiting_channels (record (loaded 100) { wait_queue = 0 ∷ [] }) out
      Reach-IsSound_example.orderly Reach-IsSound_example.full refl
