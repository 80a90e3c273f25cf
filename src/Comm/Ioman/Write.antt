-- ===== src/Comm/Ioman/Write.antt =====
-- The writing of src/comm/ioman.c.
use dlfree.Base.{ℕ, Bool, true, false, ◌||◌, Option, none, some, List, [], ◌∷◌, ◌==◌, if◌then◌else◌}
use dlfree.Base.Int.{ℤ, pos, negsuc}
use dlfree.Std.Bytes.{Endian, ◌>>=◌}
use dlfree.Comm.Msg.{msg_info_create}
use dlfree.Comm.Channel.{
  Channel, initial, setup, active, blocking, put_channel, channel_make_active, channel_send_msg,
}
use dlfree.Comm.Channel.Write.{WriteStatus, write_ok, write_err, Out, channel_write}
use dlfree.Comm.Ioman.{Ioman, ioman_delete_channel}

-- `MSG_TYPE_PING0`
abbrev pub msg_type_ping0 : ℤ
msg_type_ping0 = pos 2

-- `comm_node_notify_connect` of src/comm/comm.c: the first ping. The peer is not known yet.
unfoldable pub comm_node_notify_connect : Endian → (node_id : ℕ) → Channel → Option Channel
comm_node_notify_connect e node_id chan =
    channel_send_msg e chan
      (record msg_info_create {
        kind = msg_type_ping0;
        dst_id = negsuc 0;
        src_id = pos node_id;
        len = pos 0;
      })
      [] 0

abbrev pub put_out : (ℕ → Out) → ℕ → Out → ℕ → Out
put_out outs fd out i = if i == fd then out else outs i

abbrev pub is_ok : WriteStatus → Bool
is_ok write_ok = true
is_ok _ = false

abbrev pub is_write_err : WriteStatus → Bool
is_write_err write_err = true
is_write_err _ = false

-- `ioman_process_channel_write` of a channel that is set up: `channel_write`, and the sets are
-- made anew where the queue is empty or a channel was unblocked. Whether the channel lives on.
unfoldable pub write_active : {N : Type 0} → Ioman N → (fd : ℕ) → Option (Bool × Ioman N)
write_active man fd = do
  (stat, unblock, chans, out) ← channel_write fd man.chans (man.net.out fd)
  let man' = record man { chans = chans; net = record man.net { out = put_out man.net.out fd out } }
  some (
      if is_write_err stat
      then (false, man')
      else (if is_ok stat || unblock
          then (true, record man' { fdset_valid = false })
          else (true, man')))

-- A channel whose connection is being made. A failure is told to those who wait for the connection,
-- which is not modelled.
unfoldable pub write_setup :
    {N : Type 0} → Endian → Ioman N → (fd : ℕ) → Channel → Option (Bool × Ioman N)
write_setup e man fd chan = do
  (activated, chan') ← channel_make_active (man.net.connected fd) chan
  (if activated
      then (do
        chan'' ← comm_node_notify_connect e man.node_id chan'
        some (true, record man { chans = put_channel man.chans fd chan''; fdset_valid = false }))
      else some (false, man))

unfoldable pub ioman_process_channel_write :
    {N : Type 0} → Endian → Ioman N → (fd : ℕ) → Option (Bool × Ioman N)
ioman_process_channel_write e man fd = do
  chan ← man.chans fd
  elim chan.state [
    | initial ↦ none
    | setup ↦ write_setup e man fd chan
    | active ↦ write_active man fd
    | blocking ↦ write_active man fd
  ]

-- What is done with one channel of the list: where it is dead, it is deleted.
unfoldable pub handle_one :
    {N : Type 0}
    → (process : Ioman N → ℕ → Option (Bool × Ioman N)) → (fd : ℕ) → Ioman N
    → Option (Bool × Ioman N)
handle_one process fd man = do
  (alive, man') ← process man fd
  (if alive
      then some (true, man')
      else (do man'' ← ioman_delete_channel man' fd; some (false, man'')))

-- The channels that go on, of those that are looked at. `ready` is the set from `select`, and
-- `process` is what is done with a channel that is ready.
unfoldable pub handle_loop :
    {N : Type 0}
    → (process : Ioman N → ℕ → Option (Bool × Ioman N)) → (ready : ℕ → Bool) → (fds : List ℕ)
    → Ioman N
    → Option (List ℕ × Ioman N)
handle_loop process ready [] man = some ([], man)
handle_loop process ready (fd ∷ fds) man = do
  (alive, man₁) ← (if ready fd then handle_one process fd man else some (true, man))
  (rest, man₂) ← handle_loop process ready fds man₁
  some (if alive then fd ∷ rest else rest, man₂)

-- No channel is added meanwhile, so that the list is written back at the end.
unfoldable pub ioman_handle_writables :
    {N : Type 0} → Endian → Ioman N → (w_fds : ℕ → Bool) → Option (Ioman N)
ioman_handle_writables e man w_fds = do
  (channels, man') ← handle_loop (ioman_process_channel_write e) w_fds man.channels man
  some (record man' { channels = channels })
