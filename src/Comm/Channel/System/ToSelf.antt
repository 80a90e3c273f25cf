-- ===== src/Comm/Channel/System/ToSelf.antt =====
-- What the calls of the local channel leave of the order of the channels.
use dlfree.Base.{
  ℕ, ◌+◌, ◌-◌, ◌≡◌, refl, ap, Bool, true, false, Option, none, some, List, [], ◌∷◌, ◌++◌, ltb, ◌==◌,
  if◌then◌else◌, length, length-append, drop, inl, arith, none_ne_some, some_injective,
}
use dlfree.Base.Int.{pos}
use dlfree.Std.Bytes.{Endian, ◌>>=◌}
use dlfree.Comm.Msg.{MsgInfo, MsgBuff, msg_info_unpack}
use dlfree.Comm.Channel.{
  Channel, Channels, put_channel, queue_limit, channel_is_readable, channel_pack_buff,
}
use dlfree.Comm.Channel.Local.{Local, channel_local_push_chunk, channel_local_pop_chunk}
use dlfree.Comm.Channel.Waiting.{IsBuff, AllBuffs, more_buffs}
use dlfree.Comm.Channel.Keep.{bind_some}
use dlfree.Comm.Channel.Change.{Fits-some, channel_pack_buff-IsBuff}
use dlfree.Comm.Channel.Write.Served.{buffs-append}
use dlfree.Comm.Channel.System.Sound.{IsSound, placed-IsSound, changed-IsSound, readable-free}

module _ (e : Endian) (chans : Channels) (id : ℕ) (chan : Channel) (pipe : ℕ) (s : IsSound chans)
    (at : chans id ≡ some chan) where
  appended-IsSound :
      (chunk : MsgBuff)
      → IsBuff chunk
      → IsSound (put_channel chans id (record chan { buff_queue = chan.buff_queue ++ chunk ∷ [] }))
  appended-IsSound chunk is_buff =
      changed-IsSound chans id chan (record chan { buff_queue = chan.buff_queue ++ chunk ∷ [] }) s
        at
        (record {
          wait = refl;
          buffs = λ all. buffs-append chan.buff_queue chunk all is_buff;
          longer = rw (length-append {0} chan.buff_queue (chunk ∷ [])) (omega arith);
          fits = λ fits. fits;
        })
        (λ r. record {
          blocked = r.blocked;
          chunk = r.chunk;
          held = r.held;
          chunk_fits = r.chunk_fits;
        })

  pub local_pushed-IsSound :
      (l : Local) (minfo : MsgInfo) (buff : List ℕ) (len : ℕ)
      → channel_local_push_chunk e (record { chan = chan; pipe = pipe }) minfo buff len
        ≡ some (some l)
      → IsSound (put_channel chans id l.chan)
  unfolding channel_local_push_chunk
  local_pushed-IsSound l minfo buff len run =
      let (chunk, e_chunk, run₁) = bind_some (channel_pack_buff e minfo buff len) _ _ run in
      by_room chunk (channel_pack_buff-IsBuff e minfo buff len chunk e_chunk)
        (ltb (length chan.buff_queue) queue_limit) (some_injective run₁)
    where
      by_room :
          (chunk : MsgBuff)
          → IsBuff chunk
          → (room : Bool)
          → ◌≡◌ {A = Option Local}
              (if room
                then some (record {
                  chan = record chan { buff_queue = chan.buff_queue ++ chunk ∷ [] };
                  pipe = pipe + 1;
                })
                else none)
              (some l)
          → IsSound (put_channel chans id l.chan)
      by_room chunk is_buff true run =
          let same = ap (λ (x : Local). x.chan) (some_injective run) in
          rw (← same) (appended-IsSound chunk is_buff)
      by_room chunk is_buff false run = absurd (none_ne_some run)

  taken-IsSound :
      chan.wait_queue ≡ []
      → channel_is_readable chan ≡ true
      → (chunk : MsgBuff) (queue : List MsgBuff) (info : MsgInfo) → AllBuffs (chunk ∷ queue)
      → IsSound (
          put_channel chans id
            (record chan { buff_queue = queue; msg_info = info; curr_buff = some chunk }))
  taken-IsSound nobody readable chunk queue info (more_buffs mine others) =
      placed-IsSound chans id
        (some (record chan { buff_queue = queue; msg_info = info; curr_buff = some chunk })) s
        (λ w h. rw at h) (rw at at (s.orderly.once id)) others
        (λ j h. absurd (readable-free chan readable (rw at at (s.orderly.holds j id h))))
        (inl nobody) (Fits-some chunk mine)

  pub local_popped-IsSound :
      (chunk : MsgBuff) (l : Local)
      → chan.wait_queue ≡ []
      → channel_is_readable chan ≡ true
      → channel_local_pop_chunk e (record { chan = chan; pipe = pipe }) ≡ some (some (chunk, l))
      → IsSound (put_channel chans id (record l.chan { curr_buff = some chunk }))
  unfolding channel_local_pop_chunk
  local_popped-IsSound chunk l nobody readable run =
      by_queue (pipe == 0) chan.buff_queue (rw at at (s.orderly.buffs id)) run
    where
      by_queue :
          (empty : Bool) (queue : List MsgBuff)
          → AllBuffs queue
          → ◌≡◌ {A = Option (Option (MsgBuff × Local))}
              (if empty then some none else (elim queue [
                | [] ↦ none
                | b ∷ bs ↦ msg_info_unpack e chan.msg_info (drop b.head b.bytes) >>= (λ p. some (
                    some (
                      b,
                      record {
                        chan = record chan {
                          buff_queue = bs;
                          msg_info = record p.0 { remain = pos 0 };
                        };
                        pipe = pipe - 1;
                      },
                    )))
              ]))
              (some (some (chunk, l)))
          → IsSound (put_channel chans id (record l.chan { curr_buff = some chunk }))
      by_queue true queue all run = absurd (none_ne_some (some_injective run))
      by_queue false [] all run = absurd (none_ne_some run)
      by_queue false (b ∷ bs) all run =
          let (p, _, run₁) =
            bind_some (msg_info_unpack e chan.msg_info (drop b.head b.bytes)) _ _ run in
          let same = some_injective (some_injective run₁) in
          rw (← ap (λ q. q.0) same, ← ap (λ q. q.1) same)
            (taken-IsSound nobody readable b bs (record p.0 { remain = pos 0 }) all)
