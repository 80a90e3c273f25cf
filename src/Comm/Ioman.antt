-- ===== src/Comm/Ioman.antt =====
-- src/comm/ioman.c: the I/O manager of a node, one thread that serves all channels with `select`. A
-- channel is known by the file descriptor of its socket. What the sockets do is a part of the state.
-- A failed assertion, a missing pointer and an access out of bounds are `none`.
pub mod Read
pub mod Write
pub mod Cache
pub mod Rounds
pub mod Sets
use dlfree.Base.{
  ℕ, zero, suc, ◌+◌, ◌-◌, Bool, true, false, ◌||◌, Option, none, some, List, [], ◌∷◌, ◌++◌, max,
  ltb, ◌==◌, if◌then◌else◌, length,
}
use dlfree.Base.Int.{ℤ, pos, negsuc}
use dlfree.Std.Bytes.{Endian, ◌>>=◌}
use dlfree.Comm.Msg.{MsgInfo, MsgBuff, msg_info_create}
use dlfree.Comm.Data.{chunk_info}
use dlfree.Comm.Sock.{Arrival}
use dlfree.Comm.Channel.{
  Channel, Channels, put_channel, channel_is_readable, channel_is_writable, channel_active_create,
  channel_setup_create, channel_send_msg,
}
use dlfree.Comm.Channel.Local.{Local, channel_local_create, channel_local_push_chunk}
use dlfree.Comm.Channel.Write.{Out}

-- `enum ioman_event_type`, with what follows it in the pipe.
pub data Event : Type 0 where
  newchan : ℕ → Event
  newmsg finalize : Event
  bcastmsg : (kind : ℤ) → (buff : List ℕ) → (len : ℕ) → Event

-- The sets of file descriptors for `select`.
pub record FdSets : Type 0 where
  pub r_fds : ℕ → Bool
  pub w_fds : ℕ → Bool
  pub maxfd : ℕ

-- What the sockets will do.
pub record Net : Type 0 where
  pub rx : ℕ → List Arrival
  pub out : ℕ → Out
  pub connected : ℕ → Bool

-- `node` is the state of the communication node; `pipe` is the number of chunks that the local
-- channel signals.
pub record Ioman (N : Type 0) : Type 0 where
  pub node_id : ℕ
  pub node : N
  pub notify_fd : ℕ
  pub lsock_fd : ℕ
  pub events : List Event
  pub chans : Channels
  pub channels : List ℕ
  pub channel_map : ℕ → Option ℕ
  pub maxpeers : ℕ
  pub local_chan : ℕ
  pub pipe : ℕ
  pub net : Net
  pub cache : FdSets
  pub fdset_valid : Bool

abbrev pub no_fds : ℕ → Bool
no_fds _ = false

-- `ioman_create` and the listening socket of `ioman_start`, on given descriptors. `maxfd` is `-1` in
-- the code until the sets are made.
unfoldable pub ioman_create :
    {N : Type 0}
    → (node_id : ℕ) → (node : N) → (maxpeers : ℕ) → (notify_fd lsock_fd local_chan : ℕ)
    → (fresh : List ℕ) → Net
    → Ioman N
ioman_create node_id node maxpeers notify_fd lsock_fd local_chan fresh net = record {
  node_id = node_id;
  node = node;
  notify_fd = notify_fd;
  lsock_fd = lsock_fd;
  events = [];
  chans = put_channel (λ _. none) local_chan (channel_local_create fresh node_id).chan;
  channels = [];
  channel_map = λ _. none;
  maxpeers = maxpeers;
  local_chan = local_chan;
  pipe = (channel_local_create fresh node_id).pipe;
  net = net;
  cache = record { r_fds = no_fds; w_fds = no_fds; maxfd = 0 };
  fdset_valid = false;
}

abbrev pub fd_set : ℕ → (ℕ → Bool) → ℕ → Bool
fd_set fd fds i = if i == fd then true else fds i

abbrev pub set_readable : ℕ → FdSets → FdSets
set_readable fd s = record s { r_fds = fd_set fd s.r_fds; maxfd = max s.maxfd fd }

abbrev pub set_writable : ℕ → FdSets → FdSets
set_writable fd s = record s { w_fds = fd_set fd s.w_fds; maxfd = max s.maxfd fd }

abbrev pub set_channel : (fd : ℕ) → Channel → FdSets → FdSets
set_channel fd chan s =
    let s₁ = if channel_is_readable chan then set_readable fd s else s in
    if channel_is_writable chan then set_writable fd s₁ else s₁

-- The loop over the channels.
unfoldable pub set_channels : Channels → List ℕ → FdSets → Option FdSets
set_channels chans [] s = some s
set_channels chans (fd ∷ fds) s = do chan ← chans fd; set_channels chans fds (set_channel fd chan s)

-- The pipe for events and the listening socket.
abbrev pub own_fds : (notify_fd lsock_fd : ℕ) → FdSets
own_fds notify_fd lsock_fd =
    set_readable lsock_fd
      (record { r_fds = fd_set notify_fd (λ _. false); w_fds = λ _. false; maxfd = notify_fd })

-- The sets from the channels as they are.
unfoldable pub current_fds : {N : Type 0} → Ioman N → Option FdSets
current_fds man = do
  chan ← man.chans man.local_chan
  set_channels man.chans man.channels (
      if channel_is_readable chan
      then set_readable man.local_chan (own_fds man.notify_fd man.lsock_fd)
      else own_fds man.notify_fd man.lsock_fd)

unfoldable pub ioman_set_fds : {N : Type 0} → Ioman N → Option (FdSets × Ioman N)
ioman_set_fds man =
    if man.fdset_valid
    then some (man.cache, man)
    else (do s ← current_fds man; some (s, record man { cache = s; fdset_valid = true }))

abbrev pub is_none : {A : Type 0} → Option A → Bool
is_none none = true
is_none (some _) = false

abbrev pub put_peer : (ℕ → Option ℕ) → ℕ → Option ℕ → ℕ → Option ℕ
put_peer map dst fd i = if i == dst then fd else map i

unfoldable pub ioman_register_channel : {N : Type 0} → Ioman N → (dst_id fd : ℕ) → Option (Ioman N)
ioman_register_channel man dst_id fd = do
  chan ← man.chans fd
  (if ltb dst_id man.maxpeers
      then (elim (man.channel_map dst_id) [
        | some _ ↦ none
        | none ↦ elim chan.peer_id [
          | some _ ↦ none
          | none ↦ some (record man {
            channel_map = put_peer man.channel_map dst_id (some fd);
            chans = put_channel man.chans fd (record chan { peer_id = some dst_id });
          })
        ]
      ])
      else none)

abbrev pub drop_channel : Channels → ℕ → Channels
drop_channel chans fd i = if i == fd then none else chans i

abbrev pub maps_to : Option ℕ → ℕ → Bool
maps_to none fd = false
maps_to (some i) fd = i == fd

unfoldable pub ioman_delete_channel : {N : Type 0} → Ioman N → (fd : ℕ) → Option (Ioman N)
ioman_delete_channel man fd = do
  chan ← man.chans fd
  let deleted = record man { chans = drop_channel man.chans fd; fdset_valid = false }
  elim chan.peer_id [
    | none ↦ some deleted
    | some dst ↦
        if maps_to (man.channel_map dst) fd
        then some (record deleted { channel_map = put_peer man.channel_map dst none })
        else none
  ]

-- Over the peers from `dst` on, a sum of what is read of their channels.
unfoldable pub sum_peers : {N : Type 0} → Ioman N → (Channel → ℕ) → (fuel dst : ℕ) → Option ℕ
sum_peers man count zero dst = some 0
sum_peers man count (suc fuel) dst = do
  more ← sum_peers man count fuel (dst + 1)
  elim (man.channel_map dst) [
    | none ↦ some more
    | some fd ↦ (do chan ← man.chans fd; some (count chan + more))
  ]

unfoldable pub ioman_get_traffic_info : {N : Type 0} → Ioman N → Option (ℕ × ℕ)
ioman_get_traffic_info man = do
  rx ← sum_peers man (λ chan. chan.rx_count) man.maxpeers 0
  tx ← sum_peers man (λ chan. chan.tx_count) man.maxpeers 0
  some (rx, tx)

unfoldable pub ioman_get_send_buffer_info : {N : Type 0} → Ioman N → Option ℕ
ioman_get_send_buffer_info man = sum_peers man (λ chan. length chan.buff_queue) man.maxpeers 0

unfoldable pub ioman_sys_send_msg :
    {N : Type 0}
    → Endian
    → Ioman N
    → (fd : ℕ) → (kind : ℤ) → (dst_id : ℕ) → (buff : List ℕ) → (len : ℕ) → Option (Ioman N)
ioman_sys_send_msg e man fd kind dst_id buff len = do
  chan ← man.chans fd
  chan' ←
      channel_send_msg e chan
        (record msg_info_create {
          kind = kind;
          dst_id = pos dst_id;
          src_id = pos man.node_id;
          len = pos len;
        })
        buff len
  some (record man { chans = put_channel man.chans fd chan' })

unfoldable pub ioman_send_msg :
    {N : Type 0}
    → Endian
    → Ioman N
    → (kind : ℤ) → (dst_id : ℕ) → (buff : List ℕ) → (len : ℕ) → Option (Ioman N)
ioman_send_msg e man kind dst_id buff len = do
  fd ← man.channel_map dst_id
  man' ← ioman_sys_send_msg e man fd kind dst_id buff len
  some (record man' { events = man'.events ++ newmsg ∷ [] })

-- A chunk of data goes into the queue of the local channel. The inner `none` is a thread that waits
-- for room there.
unfoldable pub ioman_send_chunk :
    {N : Type 0}
    → Endian
    → Ioman N
    → (dst_id sid tot_len seq : ℕ) → (buff : List ℕ) → (len : ℕ) → Option (Option (Ioman N))
ioman_send_chunk e man dst_id sid tot_len seq buff len = do
  chan ← man.chans man.local_chan
  pushed ←
      channel_local_push_chunk e (record { chan = chan; pipe = man.pipe })
        (chunk_info (pos man.node_id) (pos dst_id) sid tot_len seq len) buff len
  some (elim pushed [
    | none ↦ none
    | some l ↦ some (record man {
      chans = put_channel man.chans man.local_chan l.chan;
      pipe = l.pipe;
      events = man.events ++ newmsg ∷ [];
    })
  ])

unfoldable pub ioman_notify_finalize : {N : Type 0} → Ioman N → Ioman N
ioman_notify_finalize man = record man { events = man.events ++ finalize ∷ [] }

unfoldable pub ioman_bcast_msg :
    {N : Type 0} → Ioman N → (kind : ℤ) → (buff : List ℕ) → (len : ℕ) → Ioman N
ioman_bcast_msg man kind buff len = record man {
  events = man.events ++ bcastmsg kind buff len ∷ [];
}

-- A connection is being made on the socket `fd`, which is new.
unfoldable pub ioman_new_connection : {N : Type 0} → Ioman N → (fd : ℕ) → (fresh : List ℕ) → Ioman N
ioman_new_connection man fd fresh = record man {
  chans = put_channel man.chans fd (channel_setup_create fresh);
  events = man.events ++ newchan fd ∷ [];
}

-- The loop of `ioman_handle_event_bcastmsg`, from the peer `pid` on.
unfoldable pub bcast_loop :
    {N : Type 0}
    → Endian
    → Ioman N
    → (kind : ℤ) → (buff : List ℕ) → (len fuel pid : ℕ) → Option (Ioman N)
bcast_loop e man kind buff len zero pid = some man
bcast_loop e man kind buff len (suc fuel) pid = do
  man' ← (elim (man.channel_map pid) [
    | none ↦ some man
    | some fd ↦ ioman_sys_send_msg e man fd kind pid buff len
  ])
  bcast_loop e man' kind buff len fuel (pid + 1)

-- The first event of the pipe; whether it was the last one, `finalize`. An empty pipe blocks.
unfoldable pub ioman_handle_event : {N : Type 0} → Endian → Ioman N → Option (Bool × Ioman N)
ioman_handle_event e man = elim man.events [
  | [] ↦ none
  | newchan fd ∷ events ↦ some (
    false,
    record man { events = events; channels = man.channels ++ fd ∷ []; fdset_valid = false },
  )
  | newmsg ∷ events ↦ some (false, record man { events = events; fdset_valid = false })
  | finalize ∷ events ↦ some (true, record man { events = events })
  | bcastmsg kind buff len ∷ events ↦ (do
    man' ← bcast_loop e (record man { events = events }) kind buff len man.maxpeers 0
    some (false, record man' { fdset_valid = false }))
]

-- The branch for the listening socket: `fd` is the socket that `accept` returns.
unfoldable pub accept_channel : {N : Type 0} → Ioman N → (fd : ℕ) → (fresh : List ℕ) → Ioman N
accept_channel man fd fresh = record man {
  chans = put_channel man.chans fd (channel_active_create fresh);
  channels = man.channels ++ fd ∷ [];
  fdset_valid = false;
}
