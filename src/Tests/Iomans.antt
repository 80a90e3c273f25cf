-- ===== src/Tests/Iomans.antt =====
-- The I/O manager of a node on small inputs.
use dlfree.Base.{
  ℕ, ◌+◌, ◌≡◌, ◌⊎◌, refl, true, false, Option, none, some, List, [], ◌∷◌, replicate, inl,
}
use dlfree.Std.Bytes.{little}
use dlfree.Comm.Channel.{
  channel_setup_create, base_channel_create, channel_is_readable, channel_is_writable,
}
use dlfree.Comm.Channel.Local.{channel_local_create}
use dlfree.Comm.Ioman.{
  Ioman, Net, FdSets, ioman_send_chunk, fd_set, no_fds, ioman_create, ioman_new_connection,
  ioman_set_fds, current_fds, set_channels, ioman_handle_event,
}
use dlfree.Comm.Ioman.Write.{handle_loop}
use dlfree.Comm.Ioman.Read.{Upcalls, ioman_handle_readables, handle_own}
use dlfree.Comm.Ioman.Cache.{IsFresh, has_event}
use dlfree.Comm.Ioman.Rounds.{no_calls, one_more, connects, readables, Run-Watches}
use dlfree.Comm.Ioman.Sets.{Watches}

-- A node that counts the calls.
abbrev counting : Upcalls ℕ
counting = record {
  lookup_rt = λ n src_id dst_id. some 1;
  setup_chunk = λ n info. some (replicate 200 0, n + 1);
  handle_chunk = λ n info chunk. some (n + 1);
  rtt_measure_start = λ n dst_id. some (n + 1);
  rtt_measure_end = λ n dst_id. some (n + 1);
  register_rt = λ n buff. some (false, n + 1);
}

abbrev quiet_net : Net
quiet_net = record { rx = λ _. []; out = λ _. record { tx = []; sent = [] }; connected = λ _. true }

abbrev memory : List ℕ
memory = replicate 100 7

abbrev created : Ioman ℕ
created = ioman_create 0 0 2 3 4 5 memory quiet_net

created-IsFresh : IsFresh created
unfolding ioman_create
created-IsFresh = inl (inl refl)

abbrev connecting_man : Ioman ℕ
connecting_man = ioman_new_connection created 6 memory

-- The event for the new channel is taken.
abbrev listed : Ioman ℕ
listed = record connecting_man { events = []; channels = 6 ∷ []; fdset_valid = false }

takes-event :
    ioman_handle_readables counting little memory (fd_set 3 no_fds) 0 connecting_man
    ≡ some (false, listed)
unfolding ioman_handle_readables handle_own ioman_handle_event ioman_new_connection ioman_create
    handle_loop
takes-event = refl

abbrev sets : FdSets
sets = record { r_fds = fd_set 5 (fd_set 4 (fd_set 3 no_fds)); w_fds = fd_set 6 no_fds; maxfd = 6 }

makes-sets : ioman_set_fds listed ≡ some (sets, record listed { cache = sets; fdset_valid = true })
unfolding ioman_set_fds current_fds set_channels ioman_new_connection ioman_create
    channel_local_create channel_setup_create base_channel_create channel_is_readable
    channel_is_writable
makes-sets = refl

Run-Watches_example :
    IsFresh (record listed { cache = sets; fdset_valid = true })
    × ((has_event listed.events ≡ true) ⊎ Watches listed sets)
Run-Watches_example =
    Run-Watches counting little memory created listed
      (record listed { cache = sets; fdset_valid = true }) sets created-IsFresh
      (one_more (one_more no_calls (connects 6 memory)) (readables (fd_set 3 no_fds) 0 takes-event))
      makes-sets

abbrev signals : Option (Option (Ioman ℕ)) → Option ℕ
signals (some (some man)) = some man.pipe
signals _ = none

send_chunk-signals : signals (ioman_send_chunk little created 1 7 2 0 (8 ∷ 9 ∷ []) 2) ≡ some 1
unfolding ioman_send_chunk ioman_create dlfree.Comm.Channel.Local.channel_local_push_chunk
    dlfree.Comm.Channel.channel_pack_buff dlfree.Comm.Msg.msg_info_pack dlfree.Std.Bytes.pack_int
    dlfree.Std.Bytes.pack_uint64 dlfree.Std.Bytes.store32 dlfree.Std.Bytes.store64
    channel_local_create base_channel_create
send_chunk-signals = refl
