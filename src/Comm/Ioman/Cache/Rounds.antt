-- ===== src/Comm/Ioman/Cache/Rounds.antt =====
-- The rounds of the I/O thread of src/comm/ioman.c, with what other threads ask of it in between.
use dlfree.Base.{
  ℕ, ◌≡◌, ◌⊎◌, refl, ap, Bool, true, false, Option, none, some, List, [], ◌∷◌, if◌then◌else◌, inl,
  inr, arith, none_ne_some, some_injective,
}
use dlfree.Base.Int.{ℤ}
use dlfree.Std.Bytes.{Endian, ◌>>=◌}
use dlfree.Comm.Msg.{MsgBuff}
use dlfree.Comm.Data.{eqb_ℤ}
use dlfree.Comm.Channel.{put_channel}
use dlfree.Comm.Channel.Local.{Local, channel_local_pop_chunk}
use dlfree.Comm.Channel.Keep.{bind_some}
use dlfree.Comm.Ioman.{
  Ioman, Event, newchan, newmsg, finalize, bcastmsg, ioman_handle_event, bcast_loop, accept_channel,
}
use dlfree.Comm.Ioman.Write.{handle_loop}
use dlfree.Comm.Ioman.Read.{
  Upcalls, pass_chunk, ioman_process_local_channel_read, ioman_process_channel_read, handle_own,
  ioman_handle_readables,
}
use dlfree.Comm.Ioman.Cache.{Settled, Keeps, Keeps-trans, Keeps-self}
use dlfree.Comm.Ioman.Cache.Writing.{put_channels-Keeps, handle_loop-Keeps}
use dlfree.Comm.Ioman.Cache.Reading.{pass_chunk-Settled, ioman_process_channel_read-Keeps}

Events-cases :
    (es : List Event)
    → (es ≡ [])
      ⊎ (((fd : ℕ) × (rest : List Event) × (es ≡ newchan fd ∷ rest))
          ⊎ (((rest : List Event) × (es ≡ newmsg ∷ rest))
              ⊎ (((rest : List Event) × (es ≡ finalize ∷ rest))
                  ⊎ ((kind : ℤ) × (buff : List ℕ) × (len : ℕ) × (rest : List Event) × (es
                        ≡ bcastmsg kind buff len ∷ rest)))))
Events-cases [] = inl refl
Events-cases (newchan fd ∷ rest) = inr (inl (fd, rest, refl))
Events-cases (newmsg ∷ rest) = inr (inr (inl (rest, refl)))
Events-cases (finalize ∷ rest) = inr (inr (inr (inl (rest, refl))))
Events-cases (bcastmsg kind buff len ∷ rest) = inr (inr (inr (inr (kind, buff, len, rest, refl))))

-- An event that does not end the thread makes the sets anew.
handle_event-Settled :
    {N : Type 0} (e : Endian) (man man' : Ioman N)
    → ioman_handle_event e man ≡ some (false, man')
    → Settled man'
unfolding ioman_handle_event
handle_event-Settled e man man' run = elim (Events-cases man.events) [
  | inl empty ↦ absurd (none_ne_some (rw (ioman_handle_event, empty) at run))
  | inr (inl (fd, rest, at)) ↦
      rw (← ap (λ p. p.1) (some_injective (rw (ioman_handle_event, at) at run))) (inl refl)
  | inr (inr (inl (rest, at))) ↦
      rw (← ap (λ p. p.1) (some_injective (rw (ioman_handle_event, at) at run))) (inl refl)
  | inr (inr (inr (inl (rest, at)))) ↦ absurd (
      let h : true ≡ false = ap (λ p. p.0) (some_injective (rw (ioman_handle_event, at) at run)) in
      ground (arith, h))
  | inr (inr (inr (inr (kind, buff, len, rest, at)))) ↦
      let (man₁, _, run₁) =
        bind_some (bcast_loop e (record man { events = rest }) kind buff len man.maxpeers 0) _ _
          (rw (ioman_handle_event, at) at run) in
      rw (← ap (λ p. p.1) (some_injective run₁)) (inl refl)
]

accept-invalid :
    {N : Type 0} (man : Ioman N) (accepted : ℕ) (fresh : List ℕ)
    → (accept_channel man accepted fresh).fdset_valid ≡ false
unfolding accept_channel
accept-invalid man accepted fresh = refl

module _ {N : Type 0} (up : Upcalls N) (e : Endian) (fresh : List ℕ) where
  local_read-Settled :
      (man man' : Ioman N)
      → ioman_process_local_channel_read up e fresh man ≡ some man'
      → Settled man'
  unfolding ioman_process_local_channel_read
  local_read-Settled man man' run =
      let (chan, _, run₁) = bind_some (man.chans man.local_chan) _ _ run in
      let (popped, _, run₂) =
        bind_some (channel_local_pop_chunk e (record { chan = chan; pipe = man.pipe })) _ _ run₁ in
      let ((chunk, after), _, run₃) = bind_some popped _ _ run₂ in
      by_target after chunk (eqb_ℤ after.chan.msg_info.src_id after.chan.msg_info.dst_id) run₃
    where
      by_target :
          (after : Local) (chunk : MsgBuff) (t : Bool)
          → ◌≡◌ {A = Option (Ioman N)}
              (let chan' = record after.chan { curr_buff = some chunk } in
                if t
                then none
                else pass_chunk up e fresh
                    (record man {
                      chans = put_channel man.chans man.local_chan chan';
                      pipe = after.pipe;
                    })
                    man.local_chan
                    chan'.msg_info)
              (some man')
          → Settled man'
      by_target after chunk true run = absurd (none_ne_some run)
      by_target after chunk false run = pass_chunk-Settled up e fresh _ man' man.local_chan _ run

  handle_own-Keeps :
      (r_fds : ℕ → Bool) (accepted : ℕ) (man man' : Ioman N)
      → handle_own up e fresh r_fds accepted man ≡ some (false, man')
      → Keeps man man'
  unfolding handle_own
  handle_own-Keeps r_fds accepted man man' run =
      let ((stop, man₁), e₁, run₁) =
        bind_some (if r_fds man.notify_fd then ioman_handle_event e man else some (false, man)) _ _
          run in
      by_stop (r_fds man.notify_fd) stop man₁ e₁ run₁
    where
      after_event :
          (r : Bool) (man₁ : Ioman N)
          → ◌≡◌ {A = Option (Bool × Ioman N)}
              (if r then ioman_handle_event e man else some (false, man))
              (some (false, man₁))
          → Keeps man man₁
      after_event true man₁ e₁ = inl (handle_event-Settled e man man₁ e₁)
      after_event false man₁ e₁ = rw (← ap (λ p. p.1) (some_injective e₁)) (Keeps-self man)

      accepts :
          (r : Bool) (man₁ : Ioman N)
          → Keeps man man₁
          → Keeps man (if r then accept_channel man₁ accepted fresh else man₁)
      accepts true man₁ k = inl (inl (accept-invalid man₁ accepted fresh))
      accepts false man₁ k = k

      reads :
          (r : Bool) (man₂ man₃ : Ioman N)
          → ◌≡◌ {A = Option (Ioman N)}
              (if r then ioman_process_local_channel_read up e fresh man₂ else some man₂)
              (some man₃)
          → Keeps man man₂
          → Keeps man man₃
      reads true man₂ man₃ e₃ k = inl (local_read-Settled man₂ man₃ e₃)
      reads false man₂ man₃ e₃ k = rw (← some_injective e₃) k

      by_stop :
          (r : Bool) (stop : Bool) (man₁ : Ioman N)
          → ◌≡◌ {A = Option (Bool × Ioman N)}
              (if r then ioman_handle_event e man else some (false, man))
              (some (stop, man₁))
          → ◌≡◌ {A = Option (Bool × Ioman N)}
              (if stop
                then some (true, man₁)
                else (let man₂ =
                      if r_fds man₁.lsock_fd then accept_channel man₁ accepted fresh else man₁ in
                    (if r_fds man₂.local_chan
                      then ioman_process_local_channel_read up e fresh man₂
                      else some man₂)
                    >>= (λ man₃. some (false, man₃))))
              (some (false, man'))
          → Keeps man man'
      by_stop r true man₁ e₁ run =
          absurd (let h : true ≡ false = ap (λ p. p.0) (some_injective run) in ground (arith, h))
      by_stop r false man₁ e₁ run =
          let man₂ = if r_fds man₁.lsock_fd then accept_channel man₁ accepted fresh else man₁ in
          let k = accepts (r_fds man₁.lsock_fd) man₁ (after_event r man₁ e₁) in
          let (man₃, e₃, run₁) =
            bind_some
              (if r_fds man₂.local_chan
                then ioman_process_local_channel_read up e fresh man₂
                else some man₂)
              _ _ run in
          rw (← ap (λ p. p.1) (some_injective run₁)) (reads (r_fds man₂.local_chan) man₂ man₃ e₃ k)

  pub handle_readables-Keeps :
      (r_fds : ℕ → Bool) (accepted : ℕ) (man man' : Ioman N)
      → ioman_handle_readables up e fresh r_fds accepted man ≡ some (false, man')
      → Keeps man man'
  unfolding ioman_handle_readables
  handle_readables-Keeps r_fds accepted man man' run =
      let ((stop, man₁), e₁, run₁) = bind_some (handle_own up e fresh r_fds accepted man) _ _ run in
      by_stop stop man₁ e₁ run₁
    where
      by_stop :
          (stop : Bool) (man₁ : Ioman N)
          → handle_own up e fresh r_fds accepted man ≡ some (stop, man₁)
          → ◌≡◌ {A = Option (Bool × Ioman N)}
              (if stop
                then some (true, man₁)
                else (handle_loop (ioman_process_channel_read up e fresh) r_fds man₁.channels man₁
                    >>= (λ r. some (false, record r.1 { channels = r.0 }))))
              (some (false, man'))
          → Keeps man man'
      by_stop true man₁ e₁ run =
          absurd (let h : true ≡ false = ap (λ p. p.0) (some_injective run) in ground (arith, h))
      by_stop false man₁ e₁ run =
          let ((channels, man₂), e₂, run₁) =
            bind_some (handle_loop (ioman_process_channel_read up e fresh) r_fds man₁.channels man₁)
              _ _ run in
          rw (← ap (λ p. p.1) (some_injective run₁)) (
            Keeps-trans man man₁ (record man₂ { channels = channels })
              (handle_own-Keeps r_fds accepted man man₁ e₁)
              (put_channels-Keeps man₁ man₂ channels (
                handle_loop-Keeps (ioman_process_channel_read up e fresh)
                  (ioman_process_channel_read-Keeps up e fresh) r_fds man₁.channels channels man₁
                  man₂ e₂)))
