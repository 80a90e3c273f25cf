-- ===== src/Comm/Ioman/Read.antt =====
-- The reading of src/comm/ioman.c, and what the node of src/comm/comm.c does with a message.
use dlfree.Base.{
  ℕ, Bool, true, false, ◌||◌, Option, none, some, List, [], ◌==◌, drop, if◌then◌else◌,
}
use dlfree.Base.Int.{ℤ, pos}
use dlfree.Std.Bytes.{Endian, ◌>>=◌}
use dlfree.Comm.Msg.{MsgInfo, MsgBuff}
use dlfree.Comm.Data.{msg_type_data, eqb_ℤ}
use dlfree.Comm.Sock.{Arrival}
use dlfree.Comm.Channel.{
  Channel, ReadStatus, read_ok, read_err, read_eagain, read_done, put_channel, size_of_len,
  front_of, channel_make_established, channel_read_header, channel_setup_chunk,
  channel_setup_chunk_with_buff, channel_setup_msg, channel_read_chunk, channel_read_msg,
  channel_pipeline_chunk,
}
use dlfree.Comm.Channel.Local.{channel_local_pop_chunk}
use dlfree.Comm.Ioman.{
  Ioman, ioman_register_channel, ioman_send_msg, ioman_bcast_msg, ioman_handle_event,
  accept_channel,
}
use dlfree.Comm.Ioman.Write.{handle_loop, msg_type_ping0}

-- The calls of the I/O thread to its node that leave the channels alone: `comm_node_lookup_rt`,
-- `comm_node_setup_chunk` with the memory that it gives, `comm_node_handle_chunk`,
-- `comm_node_rtt_measure_start` and `comm_node_rtt_measure_end`, and `comm_node_register_rt` with
-- its answer.
pub record Upcalls (N : Type 0) : Type 0 where
  pub lookup_rt : N → (src_id dst_id : ℤ) → Option ℕ
  pub setup_chunk : N → MsgInfo → Option (List ℕ × N)
  pub handle_chunk : N → MsgInfo → MsgBuff → Option N
  pub rtt_measure_start : N → ℕ → Option N
  pub rtt_measure_end : N → ℕ → Option N
  pub register_rt : N → List ℕ → Option (Bool × N)

abbrev pub put_rx : (ℕ → List Arrival) → ℕ → List Arrival → ℕ → List Arrival
put_rx rxs fd rx i = if i == fd then rx else rxs i

-- The channel `fd` and its socket after a read.
abbrev pub put_read : {N : Type 0} → Ioman N → ℕ → Channel → List Arrival → Ioman N
put_read man fd chan rx = record man {
  chans = put_channel man.chans fd chan;
  net = record man.net { rx = put_rx man.net.rx fd rx };
}

-- The kinds of a message that `comm_node_handle_msg` knows.
pub data MsgKind : Type 0 where
  ping0 ping1 pong0 pong1 rt unknown : MsgKind

abbrev pub msg_kind : ℤ → MsgKind
msg_kind k =
    if eqb_ℤ k (pos 2)
    then ping0
    else if eqb_ℤ k (pos 3)
    then ping1
    else if eqb_ℤ k (pos 4)
    then pong0
    else if eqb_ℤ k (pos 5)
    then pong1
    else if eqb_ℤ k (pos 6)
    then rt
    else unknown

module _ {N : Type 0} (up : Upcalls N) (e : Endian) (fresh : List ℕ) where
  -- A peer is registered, and is answered with a message of the given kind.
  unfoldable pub register_and_send : Ioman N → (fd src_id : ℕ) → ℤ → Option (Ioman N)
  register_and_send man fd src_id kind = do
    man₁ ← ioman_register_channel man src_id fd
    node ← up.rtt_measure_start man₁.node src_id
    ioman_send_msg e (record man₁ { node = node }) kind src_id [] 0

  unfoldable pub comm_node_handle_msg : Ioman N → (fd : ℕ) → MsgInfo → MsgBuff → Option (Ioman N)
  comm_node_handle_msg man fd info buff = elim (msg_kind info.kind) [
    | ping0 ↦ (do src_id ← size_of_len info.src_id; register_and_send man fd src_id (pos 3))
    | ping1 ↦ (do src_id ← size_of_len info.src_id; register_and_send man fd src_id (pos 4))
    | pong0 ↦ (do
      src_id ← size_of_len info.src_id
      node ← up.rtt_measure_end man.node src_id
      ioman_send_msg e (record man { node = node }) (pos 5) src_id [] 0)
    | pong1 ↦ (do
      src_id ← size_of_len info.src_id
      node ← up.rtt_measure_end man.node src_id
      chan ← man.chans fd
      chan' ← channel_make_established chan
      some (record man { node = node; chans = put_channel man.chans fd chan' }))
    | rt ↦ (do
      (updated, node) ← up.register_rt man.node (drop buff.head buff.bytes)
      (if updated
          then (do
            copy ← front_of buff.len (drop buff.head buff.bytes)
            some (ioman_bcast_msg (record man { node = node }) (pos 6) copy buff.len))
          else some (record man { node = node })))
    | unknown ↦ none
  ]

  -- Where to a chunk is passed.
  unfoldable pub ioman_get_nexthop_channel : Ioman N → MsgInfo → Option ℕ
  ioman_get_nexthop_channel man info = do
    next ← up.lookup_rt man.node info.src_id info.dst_id
    man.channel_map next

  unfoldable pub pass_chunk : Ioman N → (fd : ℕ) → MsgInfo → Option (Ioman N)
  pass_chunk man fd info = do
    next ← ioman_get_nexthop_channel man info
    (_, chans) ← channel_pipeline_chunk fd next man.chans
    some (record man { chans = chans; fdset_valid = false })

  -- A local chunk is waited for where none is there.
  unfoldable pub ioman_process_local_channel_read : Ioman N → Option (Ioman N)
  ioman_process_local_channel_read man = do
    chan ← man.chans man.local_chan
    popped ← channel_local_pop_chunk e (record { chan = chan; pipe = man.pipe })
    (chunk, after) ← popped
    let chan' = record after.chan { curr_buff = some chunk }
    (if eqb_ℤ chan'.msg_info.src_id chan'.msg_info.dst_id
        then none
        else pass_chunk
            (record man { chans = put_channel man.chans man.local_chan chan'; pipe = after.pipe })
            man.local_chan chan'.msg_info)

  abbrev pub to_self : Ioman N → MsgInfo → Bool
  to_self man info = eqb_ℤ info.dst_id (pos man.node_id)

  -- The buffer for the body of a message whose header has been read.
  unfoldable pub setup_body : Ioman N → (fd : ℕ) → Channel → Option (Ioman N)
  setup_body man fd chan =
      if eqb_ℤ chan.msg_info.kind msg_type_data
      then (if to_self man chan.msg_info
          then (do
            (mem, node) ← up.setup_chunk man.node chan.msg_info
            chan' ← channel_setup_chunk_with_buff chan mem
            some (record man { node = node; chans = put_channel man.chans fd chan' }))
          else (do
            chan' ← channel_setup_chunk fresh chan
            some (record man { chans = put_channel man.chans fd chan' })))
      else (do
        chan' ← channel_setup_msg fresh chan
        some (record man { chans = put_channel man.chans fd chan' }))

  -- The result before the body is read, if there is one: whether the channel lives on.
  unfoldable pub read_head : Ioman N → (fd : ℕ) → Option (Option Bool × Ioman N)
  read_head man fd = do
    chan ← man.chans fd
    elim chan.curr_buff [
      | some _ ↦ some (none, man)
      | none ↦ (do
        (stat, chan', rx) ← channel_read_header e chan (man.net.rx fd)
        let man' = put_read man fd chan' rx
        elim stat [
          | read_err ↦ some (some false, man')
          | read_eagain ↦ some (some true, man')
          | read_ok ↦ (do man'' ← setup_body man' fd chan'; some (none, man''))
          | read_done ↦ none
        ])
    ]

  -- A chunk that is there as a whole is for the node itself, or is passed on.
  unfoldable pub take_chunk : Ioman N → (fd : ℕ) → Channel → MsgBuff → Option (Ioman N)
  take_chunk man fd chan chunk =
      if to_self man chan.msg_info
      then (do
        node ← up.handle_chunk man.node chan.msg_info chunk
        some (record man {
          node = node;
          chans = put_channel man.chans fd (record chan { curr_buff = none });
        }))
      else pass_chunk man fd chan.msg_info

  abbrev pub lives : ReadStatus → Bool
  lives read_err = false
  lives _ = true

  abbrev pub is_zero : ℤ → Bool
  is_zero z = eqb_ℤ z (pos 0)

  unfoldable pub read_body : Ioman N → (fd : ℕ) → Option (Bool × Ioman N)
  read_body man fd = do
    chan ← man.chans fd
    (if eqb_ℤ chan.msg_info.kind msg_type_data
        then (do
          (stat, whole, chan', rx) ← channel_read_chunk chan (man.net.rx fd)
          elim whole [
            | none ↦ some (lives stat, put_read man fd chan' rx)
            | some chunk ↦ (do
              man' ← take_chunk (put_read man fd chan' rx) fd chan' chunk
              (if is_zero chan'.msg_info.remain then some (true, man') else none))
          ])
        else (do
          (stat, whole, chan', rx) ← channel_read_msg chan (man.net.rx fd)
          elim whole [
            | none ↦ some (lives stat, put_read man fd chan' rx)
            | some msg ↦
                if to_self man chan'.msg_info || eqb_ℤ chan'.msg_info.kind msg_type_ping0
                then (do
                  man' ← comm_node_handle_msg (put_read man fd chan' rx) fd chan'.msg_info msg
                  some (true, man'))
                else none
          ]))

  unfoldable pub ioman_process_channel_read : Ioman N → (fd : ℕ) → Option (Bool × Ioman N)
  ioman_process_channel_read man fd = do
    (over, man') ← read_head man fd
    elim over [ some alive ↦ some (alive, man') | none ↦ read_body man' fd ]

  -- The branches before the loop: an event, a new channel, a local chunk. `accepted` is the socket
  -- from `accept`.
  unfoldable pub handle_own :
      (r_fds : ℕ → Bool) → (accepted : ℕ) → Ioman N → Option (Bool × Ioman N)
  handle_own r_fds accepted man = do
    (stop, man₁) ← (if r_fds man.notify_fd then ioman_handle_event e man else some (false, man))
    (if stop then some (true, man₁) else (do
      let man₂ = if r_fds man₁.lsock_fd then accept_channel man₁ accepted fresh else man₁
      man₃ ← (if r_fds man₂.local_chan then ioman_process_local_channel_read man₂ else some man₂)
      some (false, man₃)))

  -- Whether the thread is to end.
  unfoldable pub ioman_handle_readables :
      (r_fds : ℕ → Bool) → (accepted : ℕ) → Ioman N → Option (Bool × Ioman N)
  ioman_handle_readables r_fds accepted man = do
    (stop, man₁) ← handle_own r_fds accepted man
    (if stop then some (true, man₁) else (do
      (channels, man₂) ← handle_loop ioman_process_channel_read r_fds man₁.channels man₁
      some (false, record man₂ { channels = channels })))
