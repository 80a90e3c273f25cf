-- ===== src/Comm/Ioman/Cache/Sending.antt =====
-- What `ioman_send_chunk` of src/comm/ioman.c leaves in the pipe ends the wait.
use dlfree.Base.{ℕ, ◌≡◌, Option, none, some, List, [], ◌∷◌, ◌++◌, inr, none_ne_some, some_injective}
use dlfree.Base.Int.{pos}
use dlfree.Std.Bytes.{Endian}
use dlfree.Comm.Data.{chunk_info}
use dlfree.Comm.Channel.{put_channel}
use dlfree.Comm.Channel.Local.{Local, channel_local_push_chunk}
use dlfree.Comm.Channel.Keep.{bind_some}
use dlfree.Comm.Ioman.{Ioman, newmsg, ioman_send_chunk}
use dlfree.Comm.Ioman.Cache.{Settled, has_event-append}

pub ioman_send_chunk-Settled :
    {N : Type 0} (e : Endian) (man man' : Ioman N) (dst_id sid tot_len seq : ℕ) (buff : List ℕ)
    (len : ℕ)
    → ioman_send_chunk e man dst_id sid tot_len seq buff len ≡ some (some man')
    → Settled man'
unfolding ioman_send_chunk
ioman_send_chunk-Settled e man man' dst_id sid tot_len seq buff len run =
    let (chan, _, run₁) = bind_some (man.chans man.local_chan) _ _ run in
    let (pushed, _, run₂) =
      bind_some
        (channel_local_push_chunk e (record { chan = chan; pipe = man.pipe })
          (chunk_info (pos man.node_id) (pos dst_id) sid tot_len seq len) buff len)
        _ _ run₁ in
    by_pushed pushed (some_injective run₂)
  where
    by_pushed :
        (pushed : Option Local)
        → ◌≡◌ {A = Option (Ioman _)}
            (elim pushed [
              | none ↦ none
              | some l ↦ some (record man {
                chans = put_channel man.chans man.local_chan l.chan;
                pipe = l.pipe;
                events = man.events ++ newmsg ∷ [];
              })
            ])
            (some man')
        → Settled man'
    by_pushed none e = absurd (none_ne_some e)
    by_pushed (some l) e = rw (← some_injective e) (inr (has_event-append man.events newmsg))
