-- ===== src/Comm/Ioman/Cache/Message.antt =====
-- What the I/O thread does with a message of src/comm/comm.c and with a chunk that it has read.
use dlfree.Base.{
  ℕ, ◌≡◌, ◌⊎◌, refl, Bool, true, false, Option, some, List, [], drop, if◌then◌else◌, inl, inr,
  none_ne_some, some_injective,
}
use dlfree.Base.Int.{ℤ, pos}
use dlfree.Std.Bytes.{Endian, ◌>>=◌}
use dlfree.Comm.Msg.{MsgInfo, MsgBuff}
use dlfree.Comm.Sock.{Arrival}
use dlfree.Comm.Channel.{
  Channel, ConnectState, in_progress, established, put_channel, size_of_len, front_of,
  channel_make_established, channel_pipeline_chunk,
}
use dlfree.Comm.Channel.Change.{Quiet}
use dlfree.Comm.Channel.Keep.{bind_some}
use dlfree.Comm.Ioman.{Ioman, bcastmsg, ioman_register_channel, ioman_bcast_msg}
use dlfree.Comm.Ioman.Read.{
  Upcalls, put_rx, put_read, MsgKind, ping0, ping1, pong0, pong1, rt, unknown, msg_kind,
  register_and_send, comm_node_handle_msg, ioman_get_nexthop_channel, pass_chunk,
}
use dlfree.Comm.Ioman.Cache.{Settled, Keeps, alike-Keeps, Quiet-SameSeen, has_event-append}
use dlfree.Comm.Ioman.Cache.Writing.{ioman_send_msg-Settled}

pub put_read-Keeps :
    {N : Type 0} (man : Ioman N) (fd : ℕ) (chan chan' : Channel) (rx : List Arrival)
    → man.chans fd ≡ some chan
    → Quiet chan chan'
    → Keeps man (put_read man fd chan' rx)
put_read-Keeps man fd chan chan' rx at q =
    alike-Keeps man (put_channel man.chans fd chan') man.node
      (record man.net { rx = put_rx man.net.rx fd rx }) man.channel_map
      (Quiet-SameSeen man.chans fd chan chan' at q)

pub put_chan-Keeps :
    {N : Type 0} (man : Ioman N) (fd : ℕ) (chan chan' : Channel) (node : N)
    → man.chans fd ≡ some chan
    → Quiet chan chan'
    → Keeps man (record man { node = node; chans = put_channel man.chans fd chan' })
put_chan-Keeps man fd chan chan' node at q =
    alike-Keeps man (put_channel man.chans fd chan') node man.net man.channel_map
      (Quiet-SameSeen man.chans fd chan chan' at q)

established-Quiet :
    (chan chan' : Channel) → channel_make_established chan ≡ some chan' → Quiet chan chan'
unfolding channel_make_established
established-Quiet chan chan' run = elim (ConnectState-cases chan.connect_state) [
  | inr was ↦ absurd (none_ne_some (rw (channel_make_established, was) at run))
  | inl was ↦
      rw (← some_injective (rw (channel_make_established, was) at run))
        (record { queue = refl; state = refl })
]
  where
    ConnectState-cases : (c : ConnectState) → (c ≡ in_progress) ⊎ (c ≡ established)
    ConnectState-cases in_progress = inl refl
    ConnectState-cases established = inr refl

MsgKind-cases :
    (k : MsgKind)
    → (k ≡ ping0) ⊎ ((k ≡ ping1) ⊎ ((k ≡ pong0) ⊎ ((k ≡ pong1) ⊎ ((k ≡ rt) ⊎ (k ≡ unknown)))))
MsgKind-cases ping0 = inl refl
MsgKind-cases ping1 = inr (inl refl)
MsgKind-cases pong0 = inr (inr (inl refl))
MsgKind-cases pong1 = inr (inr (inr (inl refl)))
MsgKind-cases rt = inr (inr (inr (inr (inl refl))))
MsgKind-cases unknown = inr (inr (inr (inr (inr refl))))

module _ {N : Type 0} (up : Upcalls N) (e : Endian) (fresh : List ℕ) where
  pub pass_chunk-Settled :
      (man man' : Ioman N) (fd : ℕ) (info : MsgInfo)
      → pass_chunk up e fresh man fd info ≡ some man'
      → Settled man'
  unfolding pass_chunk
  pass_chunk-Settled man man' fd info run =
      let (next, _, run₁) = bind_some (ioman_get_nexthop_channel up e fresh man info) _ _ run in
      let (pc, _, run₂) = bind_some (channel_pipeline_chunk fd next man.chans) _ _ run₁ in
      rw (← some_injective run₂) (inl refl)

  bcast-Settled :
      (man : Ioman N) (kind : ℤ) (buff : List ℕ) (len : ℕ)
      → Settled (ioman_bcast_msg man kind buff len)
  unfolding ioman_bcast_msg
  bcast-Settled man kind buff len = inr (has_event-append man.events (bcastmsg kind buff len))

  register_and_send-Settled :
      (man man' : Ioman N) (fd src_id : ℕ) (kind : ℤ)
      → register_and_send up e fresh man fd src_id kind ≡ some man'
      → Settled man'
  unfolding register_and_send
  register_and_send-Settled man man' fd src_id kind run =
      let (man₁, _, run₁) = bind_some (ioman_register_channel man src_id fd) _ _ run in
      let (node, _, run₂) = bind_some (up.rtt_measure_start man₁.node src_id) _ _ run₁ in
      ioman_send_msg-Settled e _ man' kind src_id [] 0 run₂

  pub comm_node_handle_msg-Keeps :
      (man man' : Ioman N) (fd : ℕ) (info : MsgInfo) (buff : MsgBuff)
      → comm_node_handle_msg up e fresh man fd info buff ≡ some man'
      → Keeps man man'
  unfolding comm_node_handle_msg
  comm_node_handle_msg-Keeps man man' fd info buff run = elim (MsgKind-cases (msg_kind info.kind)) [
    | inl k ↦
        let (src_id, _, run₁) =
          bind_some (size_of_len info.src_id) _ _ (rw (comm_node_handle_msg, k) at run) in
        inl (register_and_send-Settled man man' fd src_id (pos 3) run₁)
    | inr (inl k) ↦
        let (src_id, _, run₁) =
          bind_some (size_of_len info.src_id) _ _ (rw (comm_node_handle_msg, k) at run) in
        inl (register_and_send-Settled man man' fd src_id (pos 4) run₁)
    | inr (inr (inl k)) ↦
        let (src_id, _, run₁) =
          bind_some (size_of_len info.src_id) _ _ (rw (comm_node_handle_msg, k) at run) in
        let (node, _, run₂) = bind_some (up.rtt_measure_end man.node src_id) _ _ run₁ in
        inl (ioman_send_msg-Settled e _ man' (pos 5) src_id [] 0 run₂)
    | inr (inr (inr (inl k))) ↦
        let (src_id, _, run₁) =
          bind_some (size_of_len info.src_id) _ _ (rw (comm_node_handle_msg, k) at run) in
        let (node, _, run₂) = bind_some (up.rtt_measure_end man.node src_id) _ _ run₁ in
        let (chan, at, run₃) = bind_some (man.chans fd) _ _ run₂ in
        let (chan', made, run₄) = bind_some (channel_make_established chan) _ _ run₃ in
        rw (← some_injective run₄)
          (put_chan-Keeps man fd chan chan' node at (established-Quiet chan chan' made))
    | inr (inr (inr (inr (inl k)))) ↦
        let ((updated, node), _, run₂) =
          bind_some (up.register_rt man.node (drop buff.head buff.bytes)) _ _
            (rw (comm_node_handle_msg, k) at run) in
        by_updated updated node run₂
    | inr (inr (inr (inr (inr k)))) ↦ absurd (none_ne_some (rw (comm_node_handle_msg, k) at run))
  ]
    where
      by_updated :
          (updated : Bool) (node : N)
          → ◌≡◌ {A = Option (Ioman N)}
              (if updated
                then (front_of buff.len (drop buff.head buff.bytes) >>= (λ copy.
                    some (ioman_bcast_msg (record man { node = node }) (pos 6) copy buff.len)))
                else some (record man { node = node }))
              (some man')
          → Keeps man man'
      by_updated true node run =
          let (copy, _, run₁) = bind_some (front_of buff.len (drop buff.head buff.bytes)) _ _ run in
          rw (← some_injective run₁)
            (inl (bcast-Settled (record man { node = node }) (pos 6) copy buff.len))
      by_updated false node run =
          rw (← some_injective run)
            (alike-Keeps man man.chans node man.net man.channel_map (λ i. refl))
