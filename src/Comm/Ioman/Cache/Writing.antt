-- ===== src/Comm/Ioman/Cache/Writing.antt =====
-- Deleting, sending and writing of src/comm/ioman.c keep the sets fresh.
use dlfree.Base.{
  ℕ, ◌≡◌, ◌⊎◌, refl, ap, sym, ◌∙◌, Bool, true, false, ◌||◌, Option, none, some, List, [], ◌∷◌, ◌==◌,
  if◌then◌else◌, inl, inr, arith, Bool-cases, Option-cases, none_ne_some, some_injective,
}
use dlfree.Base.Int.{ℤ}
use dlfree.Std.Bytes.{Endian, ◌>>=◌}
use dlfree.Comm.Channel.{
  Channel, Channels, State, initial, setup, active, blocking, put_channel, channel_make_active,
}
use dlfree.Comm.Channel.Keep.{bind_some, if_some}
use dlfree.Comm.Channel.Write.{WriteStatus, write_ok, write_eagain, write_err, Out, channel_write}
use dlfree.Comm.Channel.Write.Quiet.{HeldUp, channel_write-quiet}
use dlfree.Comm.Ioman.{
  Ioman, newmsg, maps_to, put_peer, drop_channel, ioman_delete_channel, ioman_sys_send_msg,
  ioman_send_msg,
}
use dlfree.Comm.Ioman.Write.{
  put_out, is_ok, is_write_err, write_active, write_setup, ioman_process_channel_write,
  comm_node_notify_connect, handle_one, handle_loop, ioman_handle_writables,
}
use dlfree.Comm.Ioman.Cache.{
  seen, SameSeen, Settled, Same, Keeps, Same-Settled, Keeps-self, alike-Keeps, has_event-append,
}

pub ioman_delete_channel-Settled :
    {N : Type 0} (man man' : Ioman N) (fd : ℕ)
    → ioman_delete_channel man fd ≡ some man'
    → Settled man'
unfolding ioman_delete_channel
ioman_delete_channel-Settled {N} man man' fd run =
    let (chan, _, run₁) = bind_some (man.chans fd) _ _ run in
    elim (Option-cases chan.peer_id) [
      | inl unknown ↦ by_deleted (rw unknown at run₁)
      | inr (dst, known) ↦
          by_mapped dst (if_some (maps_to (man.channel_map dst) fd) _ _ (rw known at run₁))
    ]
  where
    by_deleted :
        ◌≡◌ {A = Option (Ioman N)}
          (some (record man { chans = drop_channel man.chans fd; fdset_valid = false }))
          (some man')
        → Settled man'
    by_deleted e = rw (← some_injective e) (inl refl)

    by_mapped :
        (dst : ℕ)
        → ◌≡◌ {A = Option (Ioman N)}
            (some (record man {
              chans = drop_channel man.chans fd;
              fdset_valid = false;
              channel_map = put_peer man.channel_map dst none;
            }))
            (some man')
        → Settled man'
    by_mapped dst e = rw (← some_injective e) (inl refl)

-- One channel is handled: a dead one is deleted.
module _ {N : Type 0} (process : Ioman N → ℕ → Option (Bool × Ioman N))
    (keeps : (man man' : Ioman N) (fd : ℕ)
      → process man fd ≡ some (true, man')
      → Keeps man man') where
  handle_one-Keeps :
      (man man' : Ioman N) (fd : ℕ) (alive : Bool)
      → handle_one process fd man ≡ some (alive, man')
      → ((alive ≡ true) × Keeps man man') ⊎ Settled man'
  unfolding handle_one
  handle_one-Keeps man man' fd alive run =
      let ((alive', man₁), e, run₁) = bind_some (process man fd) _ _ run in
      by_alive alive' man₁ e run₁
    where
      by_alive :
          (alive' : Bool) (man₁ : Ioman N)
          → process man fd ≡ some (alive', man₁)
          → ◌≡◌ {A = Option (Bool × Ioman N)}
              (if alive'
                then some (true, man₁)
                else (ioman_delete_channel man₁ fd >>= (λ man''. some (false, man''))))
              (some (alive, man'))
          → ((alive ≡ true) × Keeps man man') ⊎ Settled man'
      by_alive true man₁ e run = inl (
        sym (ap (λ p. p.0) (some_injective run)),
        rw (← ap (λ p. p.1) (some_injective run)) (keeps man man₁ fd e),
      )
      by_alive false man₁ e run =
          let (man₂, e₂, run₂) = bind_some (ioman_delete_channel man₁ fd) _ _ run in
          inr (
            rw (← ap (λ p. p.1) (some_injective run₂))
              (ioman_delete_channel-Settled man₁ man₂ fd e₂))

  -- The list is as before, or a channel was deleted.
  pub handle_loop-Keeps :
      (ready : ℕ → Bool) (fds rest : List ℕ) (man man' : Ioman N)
      → handle_loop process ready fds man ≡ some (rest, man')
      → Settled man' ⊎ (Same man man' × (rest ≡ fds))
  unfolding handle_loop
  handle_loop-Keeps ready [] rest man man' run =
      let e = some_injective run in
      inr (
        rw (← ap (λ p. p.1) e)
            (record { valid = refl; events = refl; cache = refl; channels = refl; fds = refl }),
        sym (ap (λ p. p.0) e),
      )
  handle_loop-Keeps ready (fd ∷ fds) rest man man' run =
      let ((alive, man₁), e₁, run₁) =
        bind_some (if ready fd then handle_one process fd man else some (true, man)) _ _ run in
      let ((rest', man₂), e₂, run₂) = bind_some (handle_loop process ready fds man₁) _ _ run₁ in
      by_parts alive man₁ rest' man₂ e₁ (handle_loop-Keeps ready fds rest' man₁ man₂ e₂) run₂
    where
      first :
          (r : Bool) (alive : Bool) (man₁ : Ioman N)
          → ◌≡◌ {A = Option (Bool × Ioman N)}
              (if r then handle_one process fd man else some (true, man))
              (some (alive, man₁))
          → ((alive ≡ true) × Keeps man man₁) ⊎ Settled man₁
      first true alive man₁ e = handle_one-Keeps man man₁ fd alive e
      first false alive man₁ e = inl (
        sym (ap (λ p. p.0) (some_injective e)),
        rw (← ap (λ p. p.1) (some_injective e)) (Keeps-self man),
      )

      by_parts :
          (alive : Bool) (man₁ : Ioman N) (rest' : List ℕ) (man₂ : Ioman N)
          → ◌≡◌ {A = Option (Bool × Ioman N)}
              (if ready fd then handle_one process fd man else some (true, man))
              (some (alive, man₁))
          → Settled man₂ ⊎ (Same man₁ man₂ × (rest' ≡ fds))
          → ◌≡◌ {A = Option (List ℕ × Ioman N)}
              (some (if alive then fd ∷ rest' else rest', man₂))
              (some (rest, man'))
          → Settled man' ⊎ (Same man man' × (rest ≡ fd ∷ fds))
      by_parts alive man₁ rest' man₂ e₁ later run =
          let e = some_injective run in
          let same : man₂ ≡ man' = ap (λ p. p.1) e in
          elim later [
            | inl settled ↦ inl (rw (← same) settled)
            | inr (s, all) ↦ elim (first (ready fd) alive man₁ e₁) [
              | inr settled ↦ inl (rw (← same) (Same-Settled man₁ man₂ s settled))
              | inl (lives, inl settled) ↦ inl (rw (← same) (Same-Settled man₁ man₂ s settled))
              | inl (lives, inr s₁) ↦ inr (
                rw (← same) (joined man₁ man₂ s₁ s),
                sym (ap (λ p. p.0) e) ∙ rw (lives, all) refl,
              )
            ]
          ]
        where
          joined : (man₁ man₂ : Ioman N) → Same man man₁ → Same man₁ man₂ → Same man man₂
          joined man₁ man₂ s t = record {
            valid = t.valid ∙ s.valid;
            events = t.events ∙ s.events;
            cache = t.cache ∙ s.cache;
            channels = t.channels ∙ s.channels;
            fds = t.fds ∙ s.fds;
          }

-- Writing to a channel that is held up leaves all others, and it, as they looked.
HeldUp-SameSeen :
    (id : ℕ) (chans chans' : Channels) → HeldUp id chans chans' → SameSeen chans chans'
HeldUp-SameSeen id chans chans' h j = elim (Bool-cases (j == id)) [
  | inr other ↦ ap seen (h.others j (λ e. absurd (ground (arith, other, e))))
  | inl here ↦
      let e : j ≡ id = ground (arith, here) in
      rw (e, h.present, h.present', h.had, h.has, h.state) refl
]

module _ {N : Type 0} (man man' : Ioman N) (fd : ℕ) where
  write_active-Keeps : write_active man fd ≡ some (true, man') → Keeps man man'
  unfolding write_active
  write_active-Keeps run =
      let ((stat, unblock, chans, out), e, run₁) =
        bind_some (channel_write fd man.chans (man.net.out fd)) _ _ run in
      by_stat stat unblock chans out e run₁
    where
      by_stat :
          (stat : WriteStatus) (unblock : Bool) (chans : Channels) (out : Out)
          → channel_write fd man.chans (man.net.out fd) ≡ some (stat, unblock, chans, out)
          → ◌≡◌ {A = Option (Bool × Ioman N)}
              (let written = record man {
                chans = chans;
                net = record man.net { out = put_out man.net.out fd out };
              } in
                some (
                  if is_write_err stat
                  then (false, written)
                  else (if is_ok stat || unblock
                      then (true, record written { fdset_valid = false })
                      else (true, written))))
              (some (true, man'))
          → Keeps man man'
      by_stat write_err unblock chans out e run =
          absurd (let h : false ≡ true = ap (λ p. p.0) (some_injective run) in ground (arith, h))
      by_stat write_ok unblock chans out e run =
          rw (← ap (λ p. p.1) (some_injective run)) (inl (inl refl))
      by_stat write_eagain true chans out e run =
          rw (← ap (λ p. p.1) (some_injective run)) (inl (inl refl))
      by_stat write_eagain false chans out e run =
          let h = channel_write-quiet fd man.chans chans (man.net.out fd) out e in
          rw (← ap (λ p. p.1) (some_injective run)) (
            alike-Keeps man chans man.node (record man.net { out = put_out man.net.out fd out })
              man.channel_map (HeldUp-SameSeen fd man.chans chans h))

  write_setup-Keeps :
      (e : Endian) (chan : Channel) → write_setup e man fd chan ≡ some (true, man') → Keeps man man'
  unfolding write_setup
  write_setup-Keeps e chan run =
      let ((activated, chan'), _, run₁) =
        bind_some (channel_make_active (man.net.connected fd) chan) _ _ run in
      by_result activated chan' run₁
    where
      by_result :
          (activated : Bool) (chan' : Channel)
          → ◌≡◌ {A = Option (Bool × Ioman N)}
              (if activated
                then (comm_node_notify_connect e man.node_id chan' >>= (λ chan''. some (
                  true,
                  record man { chans = put_channel man.chans fd chan''; fdset_valid = false },
                )))
                else some (false, man))
              (some (true, man'))
          → Keeps man man'
      by_result false chan' run =
          absurd (let h : false ≡ true = ap (λ p. p.0) (some_injective run) in ground (arith, h))
      by_result true chan' run =
          let (chan'', _, run₁) =
            bind_some (comm_node_notify_connect e man.node_id chan') _ _ run in
          rw (← ap (λ p. p.1) (some_injective run₁)) (inl (inl refl))

State-cases : (s : State) → (s ≡ initial) ⊎ ((s ≡ setup) ⊎ ((s ≡ active) ⊎ (s ≡ blocking)))
State-cases initial = inl refl
State-cases setup = inr (inl refl)
State-cases active = inr (inr (inl refl))
State-cases blocking = inr (inr (inr refl))

process_channel_write-Keeps :
    {N : Type 0} (e : Endian) (man man' : Ioman N) (fd : ℕ)
    → ioman_process_channel_write e man fd ≡ some (true, man')
    → Keeps man man'
unfolding ioman_process_channel_write
process_channel_write-Keeps e man man' fd run =
    let (chan, _, run₁) = bind_some (man.chans fd) _ _ run in
    elim (State-cases chan.state) [
      | inl st ↦ absurd (none_ne_some (rw st at run₁))
      | inr (inl st) ↦ write_setup-Keeps man man' fd e chan (rw st at run₁)
      | inr (inr (inl st)) ↦ write_active-Keeps man man' fd (rw st at run₁)
      | inr (inr (inr st)) ↦ write_active-Keeps man man' fd (rw st at run₁)
    ]

-- The list is written back; where it has changed, the sets are made anew.
pub put_channels-Keeps :
    {N : Type 0} (man man' : Ioman N) (rest : List ℕ)
    → Settled man' ⊎ (Same man man' × (rest ≡ man.channels))
    → Keeps man (record man' { channels = rest })
put_channels-Keeps man man' rest (inl (inl invalid)) = inl (inl invalid)
put_channels-Keeps man man' rest (inl (inr event)) = inl (inr event)
put_channels-Keeps man man' rest (inr (s, all)) =
    let e : rest ≡ man'.channels = all ∙ sym s.channels in rw e (inr s)

pub ioman_handle_writables-Keeps :
    {N : Type 0} (e : Endian) (man man' : Ioman N) (w_fds : ℕ → Bool)
    → ioman_handle_writables e man w_fds ≡ some man'
    → Keeps man man'
unfolding ioman_handle_writables
ioman_handle_writables-Keeps e man man' w_fds run =
    let ((channels, man₁), e₁, run₁) =
      bind_some (handle_loop (ioman_process_channel_write e) w_fds man.channels man) _ _ run in
    rw (← some_injective run₁) (
      put_channels-Keeps man man₁ channels (
        handle_loop-Keeps (ioman_process_channel_write e) (process_channel_write-Keeps e) w_fds
          man.channels channels man man₁ e₁))

-- A message that is sent comes with an event.
pub ioman_send_msg-Settled :
    {N : Type 0} (e : Endian) (man man' : Ioman N) (kind : ℤ) (dst_id : ℕ) (buff : List ℕ) (len : ℕ)
    → ioman_send_msg e man kind dst_id buff len ≡ some man'
    → Settled man'
unfolding ioman_send_msg
ioman_send_msg-Settled e man man' kind dst_id buff len run =
    let (fd, _, run₁) = bind_some (man.channel_map dst_id) _ _ run in
    let (man₁, _, run₂) = bind_some (ioman_sys_send_msg e man fd kind dst_id buff len) _ _ run₁ in
    rw (← some_injective run₂) (inr (has_event-append man₁.events newmsg))
