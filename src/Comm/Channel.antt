-- ===== src/Comm/Channel.antt =====
-- src/comm/channel.c: the channels between neighbours. Channels are known by a number, and stand in
-- a store, since one waits for another. A failed assertion, a missing pointer and an access out of
-- bounds are `none`.
pub mod Waiting
pub mod Keep
pub mod Change
pub mod Pipeline
pub mod Write
pub mod Local
pub mod System
use dlfree.Base.{
  ℕ, zero, suc, ◌+◌, ◌-◌, Bool, true, false, ◌&&◌, Option, none, some, List, [], ◌∷◌, ◌++◌, ltb,
  leb, ◌==◌, if◌then◌else◌, length, take, drop, replicate,
}
use dlfree.Base.Int.{ℤ, pos, negsuc}
use dlfree.Std.Bytes.{Endian, ◌>>=◌}
use dlfree.Comm.Msg.{
  MsgInfo, MsgBuff, msg_info_create, msg_info_pack, msg_info_unpack, msg_buff_create_on_buff,
  msg_buff_create, msg_buff_send_len, msg_buff_recv_len,
}
use dlfree.Comm.Data.{write_at}
use dlfree.Comm.Sock.{
  Arrival, RecvStatus, recv_ok, recv_eagain, recv_eof, recv_err, sock_try_recv_n, Departure,
  SendStatus, send_ok, send_eagain, send_err, sock_try_send_n,
}

-- `CHANNEL_MSG_HEADERLEN` and `CHANNEL_MSG_QUEUE_LIMIT`
abbrev pub header_len : ℕ
header_len = 100

abbrev pub queue_limit : ℕ
queue_limit = 100

pub data ConnectState : Type 0 where
  in_progress established : ConnectState

pub data State : Type 0 where
  initial setup active blocking : State

-- The numbers in `wait_queue` are channels that wait for room in `buff_queue`. An unknown peer is
-- `none`.
pub record Channel : Type 0 where
  pub connect_state : ConnectState
  pub peer_id : Option ℕ
  pub header_buff : List ℕ
  pub header_off : ℕ
  pub buff_queue : List MsgBuff
  pub msg_info : MsgInfo
  pub curr_buff : Option MsgBuff
  pub state : State
  pub wait_queue : List ℕ
  pub rx_count : ℕ
  pub tx_count : ℕ

abbrev pub Channels : Type 0
Channels = ℕ → Option Channel

abbrev pub put_channel : Channels → ℕ → Channel → Channels
put_channel chans id chan j = if j == id then some chan else chans j

-- `fresh` is the memory from `malloc`.
unfoldable pub base_channel_create : (fresh : List ℕ) → Channel
base_channel_create fresh = record {
  connect_state = established;
  peer_id = none;
  header_buff = fresh;
  header_off = 0;
  buff_queue = [];
  msg_info = msg_info_create;
  curr_buff = none;
  state = initial;
  wait_queue = [];
  rx_count = 0;
  tx_count = 0;
}

unfoldable pub channel_active_create : (fresh : List ℕ) → Channel
channel_active_create fresh = record (base_channel_create fresh) { state = active }

unfoldable pub channel_setup_create : (fresh : List ℕ) → Channel
channel_setup_create fresh = record (base_channel_create fresh) {
  state = setup;
  connect_state = in_progress;
}

abbrev pub is_active : State → Bool
is_active active = true
is_active _ = false

abbrev pub is_setup : State → Bool
is_setup setup = true
is_setup _ = false

unfoldable pub channel_is_readable : Channel → Bool
channel_is_readable chan = is_active chan.state

unfoldable pub channel_is_writable : Channel → Bool
channel_is_writable chan = if ltb 0 (length chan.buff_queue) then true else is_setup chan.state

-- `connected` says that the connection of the socket has succeeded. The result is whether the
-- channel was activated.
unfoldable pub channel_make_active : (connected : Bool) → Channel → Option (Bool × Channel)
channel_make_active connected chan =
    if is_setup chan.state
    then some (if connected then (true, record chan { state = active }) else (false, chan))
    else none

unfoldable pub channel_make_established : Channel → Option Channel
channel_make_established chan = elim chan.connect_state [
  | in_progress ↦ some (record chan { connect_state = established })
  | established ↦ none
]

-- Whether the chunk of `id` was pushed onto the queue of `next`; if not, `id` waits there.
unfoldable pub channel_pipeline_chunk : (id next : ℕ) → Channels → Option (Bool × Channels)
channel_pipeline_chunk id next chans = do
  chan ← chans id
  buff ← chan.curr_buff
  target ← chans next
  (if ltb (length target.buff_queue) queue_limit
      then (do
        let chans₁ = put_channel chans id (record chan { state = active; curr_buff = none })
        target₁ ← chans₁ next
        some (
          true,
          put_channel chans₁ next (record target₁ { buff_queue = target₁.buff_queue ++ buff ∷ [] }),
        ))
      else (do
        let chans₁ = put_channel chans id (record chan { state = blocking })
        target₁ ← chans₁ next
        some (
          false,
          put_channel chans₁ next (record target₁ { wait_queue = target₁.wait_queue ++ id ∷ [] }),
        )))

-- The results of reading: `CHANNEL_READ_OK`, `DONE`, `ERR` and `EAGAIN`.
pub data ReadStatus : Type 0 where
  read_ok read_done read_err read_eagain : ReadStatus

-- A header of the kind `MSG_TYPE_ERR`, which is 0, fails the assertion.
abbrev pub is_err_kind : ℤ → Bool
is_err_kind (pos zero) = true
is_err_kind _ = false

-- The message kind is in `msg_info` of the result.
unfoldable pub channel_read_header :
    Endian → Channel → List Arrival → Option (ReadStatus × Channel × List Arrival)
channel_read_header e chan rx =
    let (stat, rx') = sock_try_recv_n (header_len - chan.header_off) rx in
    elim stat [
      | recv_err ↦ some (read_err, chan, rx')
      | recv_eof ↦ some (read_err, chan, rx')
      | recv_eagain ↦ some (read_eagain, chan, rx')
      | recv_ok got ↦ (do
        header_buff ← write_at chan.header_buff chan.header_off got
        let off = chan.header_off + length got
        (if off == header_len
            then (do
              (msg_info, _) ← msg_info_unpack e chan.msg_info header_buff
              (if is_err_kind msg_info.kind
                  then none
                  else some (
                    read_ok,
                    record chan { header_buff = header_buff; header_off = 0; msg_info = msg_info },
                    rx',
                  )))
            else some
                (read_eagain, record chan { header_buff = header_buff; header_off = off }, rx')))
    ]

-- `_channel_setup_chunk`: a buffer on memory that is given, or else on fresh memory.
unfoldable pub channel_setup_buff :
    (fresh : List ℕ) → Channel → ℕ → Option (List ℕ) → Option Channel
channel_setup_buff fresh chan size buff = elim chan.curr_buff [
  | some _ ↦ none
  | none ↦ some (record chan { curr_buff = some (msg_buff_create_on_buff fresh size buff) })
]

-- The length of a message: a negative one is no size of memory.
abbrev pub size_of_len : ℤ → Option ℕ
size_of_len (pos n) = some n
size_of_len (negsuc _) = none

-- The first `n` bytes, which must be there.
abbrev pub front_of : ℕ → List ℕ → Option (List ℕ)
front_of n mem = if leb n (length mem) then some (take n mem) else none

-- The header goes in front of the chunk.
unfoldable pub channel_setup_chunk : (fresh : List ℕ) → Channel → Option Channel
channel_setup_chunk fresh chan = do
  len ← size_of_len chan.msg_info.len
  (if ltb 0 len
      then (do
        chan' ← channel_setup_buff fresh chan (len + header_len) none
        buff ← chan'.curr_buff
        header ← front_of header_len chan.header_buff
        mem ← write_at buff.bytes buff.tail header
        some (record chan' {
          curr_buff = some (record buff { bytes = mem; tail = buff.tail + header_len });
        }))
      else none)

unfoldable pub channel_setup_chunk_with_buff : Channel → List ℕ → Option Channel
channel_setup_chunk_with_buff chan buff = do
  len ← size_of_len chan.msg_info.len
  (if ltb 0 len then channel_setup_buff [] chan len (some buff) else none)

unfoldable pub channel_setup_msg : (fresh : List ℕ) → Channel → Option Channel
channel_setup_msg fresh chan = do
  len ← size_of_len chan.msg_info.len
  channel_setup_buff fresh chan len none

-- `remain -= n`, which must not fall below 0.
abbrev pub spend : ℤ → ℕ → Option ℤ
spend (pos r) n = if leb n r then some (pos (r - n)) else none
spend (negsuc _) n = none

-- The loop of `channel_read_to_buff`, with the bytes that are still wanted. Each round but the last
-- reads a byte at least, so `len` rounds are enough.
unfoldable pub read_loop :
    (fuel : ℕ)
    → Channel
    → MsgBuff
    → (len : ℕ) → List Arrival
    → Option (ReadStatus × ℕ × Channel × MsgBuff × List Arrival)
read_loop zero chan buff len rx = if len == 0 then some (read_ok, len, chan, buff, rx) else none
read_loop (suc fuel) chan buff len rx =
    if len == 0
    then some (read_ok, len, chan, buff, rx)
    else (let (stat, rx') = sock_try_recv_n len rx in
        elim stat [
          | recv_eagain ↦ some (read_ok, len, chan, buff, rx')
          | recv_eof ↦ some (read_err, len, chan, buff, rx')
          | recv_err ↦ some (read_err, len, chan, buff, rx')
          | recv_ok got ↦ (do
            mem ← write_at buff.bytes buff.tail got
            remain ← spend chan.msg_info.remain (length got)
            read_loop fuel
                (record chan {
                  rx_count = chan.rx_count + length got;
                  msg_info = record chan.msg_info { remain = remain };
                })
                (record buff { bytes = mem; tail = buff.tail + length got }) (len - length got) rx')
        ])

unfoldable pub channel_read_to_buff :
    Channel
    → MsgBuff
    → (len : ℕ) → List Arrival
    → Option (ReadStatus × ℕ × Channel × MsgBuff × List Arrival)
channel_read_to_buff chan buff len rx = read_loop len chan buff len rx

-- The buffer, where the message is there as a whole.
unfoldable pub channel_read_msg :
    Channel → List Arrival → Option (ReadStatus × Option MsgBuff × Channel × List Arrival)
channel_read_msg chan rx = do
  buff ← chan.curr_buff
  remain ← size_of_len chan.msg_info.remain
  (stat, left, chan', buff', rx') ← channel_read_to_buff chan buff remain rx
  some (
      if left == 0
      then (read_done, some buff', record chan' { curr_buff = none }, rx')
      else (stat, none, record chan' { curr_buff = some buff' }, rx'))

unfoldable pub channel_read_chunk :
    Channel → List Arrival → Option (ReadStatus × Option MsgBuff × Channel × List Arrival)
channel_read_chunk chan rx = do
  buff ← chan.curr_buff
  most ← size_of_len chan.msg_info.remain
  (if leb (msg_buff_recv_len buff) most
      then (do
        (stat, left, chan', buff', rx') ← channel_read_to_buff chan buff (msg_buff_recv_len buff) rx
        let chan'' = record chan' { curr_buff = some buff' }
        some
            (if left == 0 then (read_done, some buff', chan'', rx') else (stat, none, chan'', rx')))
      else none)

-- The bytes of a header end within the 100 that are kept for it; the rest of these is 0.
unfoldable pub channel_pack_buff : Endian → MsgInfo → (buff : List ℕ) → (len : ℕ) → Option MsgBuff
channel_pack_buff e minfo buff len =
    let header = msg_info_pack e minfo [] in
    if leb (length header) header_len && leb len (length buff)
    then some
        (record (msg_buff_create
          (header ++ replicate (header_len - length header) 0 ++ take len buff)
          (header_len + len)) { tail = header_len + len })
    else none

unfoldable pub channel_send_msg :
    Endian → Channel → MsgInfo → (buff : List ℕ) → (len : ℕ) → Option Channel
channel_send_msg e chan minfo buff len = do
  msg ← channel_pack_buff e minfo buff len
  some (record chan { buff_queue = chan.buff_queue ++ msg ∷ [] })
