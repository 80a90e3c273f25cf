-- ===== src/Comm/Ioman/Cache/Reading.antt =====
-- Reading and the messages of the node keep the sets of src/comm/ioman.c fresh.
use dlfree.Base.{
  ℕ, ◌≡◌, ◌⊎◌, refl, ap, Bool, true, false, ◌||◌, Option, none, some, List, if◌then◌else◌, inl, inr,
  arith, Bool-cases, Option-cases, none_ne_some, some_injective,
}
use dlfree.Std.Bytes.{Endian, ◌>>=◌}
use dlfree.Comm.Msg.{MsgBuff}
use dlfree.Comm.Data.{msg_type_data, eqb_ℤ}
use dlfree.Comm.Sock.{Arrival}
use dlfree.Comm.Channel.{
  Channel, ReadStatus, read_ok, read_err, read_eagain, read_done, channel_read_header,
  channel_setup_chunk, channel_setup_chunk_with_buff, channel_setup_msg, channel_read_chunk,
  channel_read_msg,
}
use dlfree.Comm.Channel.Change.{
  channel_read_chunk-Changed, channel_read_msg-Changed, channel_setup_chunk-Changed,
  channel_setup_chunk_with_buff-Changed, channel_setup_msg-Changed,
}
use dlfree.Comm.Channel.Keep.{bind_some, if_some, channel_read_header-Kept}
use dlfree.Comm.Ioman.{Ioman}
use dlfree.Comm.Ioman.Read.{
  Upcalls, put_read, comm_node_handle_msg, to_self, setup_body, read_head, take_chunk, lives,
  is_zero, read_body, ioman_process_channel_read,
}
use dlfree.Comm.Ioman.Write.{msg_type_ping0}
use dlfree.Comm.Ioman.Cache.{Keeps, Keeps-trans, Keeps-self}
pub use dlfree.Comm.Ioman.Cache.Message.{pass_chunk-Settled}
use dlfree.Comm.Ioman.Cache.Message.{put_read-Keeps, put_chan-Keeps, comm_node_handle_msg-Keeps}

module _ {N : Type 0} (up : Upcalls N) (e : Endian) (fresh : List ℕ) where
  setup_body-Keeps :
      (man man' : Ioman N) (fd : ℕ) (chan : Channel)
      → man.chans fd ≡ some chan
      → setup_body up e fresh man fd chan ≡ some man'
      → Keeps man man'
  unfolding setup_body
  setup_body-Keeps man man' fd chan at run =
      elim (Bool-cases (eqb_ℤ chan.msg_info.kind msg_type_data)) [
        | inr other ↦
            let (chan', made, run₁) =
              bind_some (channel_setup_msg fresh chan) _ _ (rw (setup_body, other) at run) in
            rw (← some_injective run₁) (
              put_chan-Keeps man fd chan chan' man.node at
                (channel_setup_msg-Changed fresh chan chan' made).2)
        | inl is_data ↦ elim (Bool-cases (to_self up e fresh man chan.msg_info)) [
          | inl mine ↦
              let ((mem, node), _, run₁) =
                bind_some (up.setup_chunk man.node chan.msg_info) _ _
                  (rw (setup_body, is_data, mine) at run) in
              let (chan', made, run₂) =
                bind_some (channel_setup_chunk_with_buff chan mem) _ _ run₁ in
              rw (← some_injective run₂) (
                put_chan-Keeps man fd chan chan' node at
                  (channel_setup_chunk_with_buff-Changed chan chan' mem made).2)
          | inr passing ↦
              let (chan', made, run₁) =
                bind_some (channel_setup_chunk fresh chan) _ _
                  (rw (setup_body, is_data, passing) at run) in
              rw (← some_injective run₁) (
                put_chan-Keeps man fd chan chan' man.node at
                  (channel_setup_chunk-Changed fresh chan chan' made).2)
        ]
      ]

  ReadStatus-cases :
      (s : ReadStatus) → (s ≡ read_err) ⊎ ((s ≡ read_eagain) ⊎ ((s ≡ read_ok) ⊎ (s ≡ read_done)))
  ReadStatus-cases read_err = inl refl
  ReadStatus-cases read_eagain = inr (inl refl)
  ReadStatus-cases read_ok = inr (inr (inl refl))
  ReadStatus-cases read_done = inr (inr (inr refl))

  read_head-Keeps :
      (man man' : Ioman N) (fd : ℕ) (over : Option Bool)
      → read_head up e fresh man fd ≡ some (over, man')
      → Keeps man man'
  unfolding read_head
  read_head-Keeps man man' fd over run =
      let (chan, at, run₁) = bind_some (man.chans fd) _ _ run in
      elim (Option-cases chan.curr_buff) [
        | inr (b, held) ↦ rw (← ap (λ p. p.1) (some_injective (rw held at run₁))) (Keeps-self man)
        | inl free ↦
            let ((stat, chan', rx), e_header, run₂) =
              bind_some (channel_read_header e chan (man.net.rx fd)) _ _ (rw free at run₁) in
            by_stat chan at stat chan' rx e_header run₂
      ]
    where
      by_stat :
          (chan : Channel)
          → man.chans fd ≡ some chan
          → (stat : ReadStatus) (chan' : Channel) (rx : List Arrival)
          → channel_read_header e chan (man.net.rx fd) ≡ some (stat, chan', rx)
          → ◌≡◌ {A = Option (Option Bool × Ioman N)}
              (elim stat [
                | read_err ↦ some (some false, put_read man fd chan' rx)
                | read_eagain ↦ some (some true, put_read man fd chan' rx)
                | read_ok ↦
                    setup_body up e fresh (put_read man fd chan' rx) fd chan'
                    >>= (λ man''. some (none, man''))
                | read_done ↦ none
              ])
              (some (over, man'))
          → Keeps man man'
      by_stat chan at stat chan' rx e_header run = elim (ReadStatus-cases stat) [
        | inl s ↦ rw (← ap (λ p. p.1) (some_injective (rw s at run))) k
        | inr (inl s) ↦ rw (← ap (λ p. p.1) (some_injective (rw s at run))) k
        | inr (inr (inl s)) ↦
            let (man'', made, run₁) =
              bind_some (setup_body up e fresh (put_read man fd chan' rx) fd chan') _ _
                (rw s at run) in
            rw (← ap (λ p. p.1) (some_injective run₁)) (
              Keeps-trans man (put_read man fd chan' rx) man'' k
                (setup_body-Keeps (put_read man fd chan' rx) man'' fd chan' (ground arith) made))
        | inr (inr (inr s)) ↦ absurd (none_ne_some (rw s at run))
      ]
        where
          k : Keeps man (put_read man fd chan' rx)
          k =
              let kept = channel_read_header-Kept e chan chan' (man.net.rx fd) rx stat e_header in
              put_read-Keeps man fd chan chan' rx at
                (record { queue = kept.queue; state = kept.state })

  take_chunk-Keeps :
      (man man' : Ioman N) (fd : ℕ) (chan : Channel) (chunk : MsgBuff)
      → man.chans fd ≡ some chan
      → take_chunk up e fresh man fd chan chunk ≡ some man'
      → Keeps man man'
  unfolding take_chunk
  take_chunk-Keeps man man' fd chan chunk at run =
      elim (Bool-cases (to_self up e fresh man chan.msg_info)) [
        | inl mine ↦
            let (node, _, run₁) =
              bind_some (up.handle_chunk man.node chan.msg_info chunk) _ _
                (rw (take_chunk, mine) at run) in
            rw (← some_injective run₁) (
              put_chan-Keeps man fd chan (record chan { curr_buff = none }) node at
                (record { queue = refl; state = refl }))
        | inr passing ↦ inl (
            pass_chunk-Settled up e fresh man man' fd chan.msg_info
              (rw (take_chunk, passing) at run))
      ]

  read_body-Keeps :
      (man man' : Ioman N) (fd : ℕ) (alive : Bool)
      → read_body up e fresh man fd ≡ some (alive, man')
      → Keeps man man'
  unfolding read_body
  read_body-Keeps man man' fd alive run =
      let (chan, at, run₁) = bind_some (man.chans fd) _ _ run in
      elim (Bool-cases (eqb_ℤ chan.msg_info.kind msg_type_data)) [
        | inl is_data ↦
            let ((stat, whole, chan', rx), e_read, run₂) =
              bind_some (channel_read_chunk chan (man.net.rx fd)) _ _ (rw is_data at run₁) in
            by_chunk chan at stat whole chan' rx e_read run₂
        | inr other ↦
            let ((stat, whole, chan', rx), e_read, run₂) =
              bind_some (channel_read_msg chan (man.net.rx fd)) _ _ (rw other at run₁) in
            by_msg chan at stat whole chan' rx e_read run₂
      ]
    where
      by_chunk :
          (chan : Channel)
          → man.chans fd ≡ some chan
          → (stat : ReadStatus) (whole : Option MsgBuff) (chan' : Channel) (rx : List Arrival)
          → channel_read_chunk chan (man.net.rx fd) ≡ some (stat, whole, chan', rx)
          → ◌≡◌ {A = Option (Bool × Ioman N)}
              (elim whole [
                | none ↦ some (lives up e fresh stat, put_read man fd chan' rx)
                | some chunk ↦
                    take_chunk up e fresh (put_read man fd chan' rx) fd chan' chunk >>= (λ man'.
                      if is_zero up e fresh chan'.msg_info.remain then some (true, man') else none)
              ])
              (some (alive, man'))
          → Keeps man man'
      by_chunk chan at stat whole chan' rx e_read run =
          let k =
            put_read-Keeps man fd chan chan' rx at
              (channel_read_chunk-Changed chan chan' (man.net.rx fd) rx stat whole e_read).1 in
          elim (Option-cases whole) [
            | inl none_yet ↦ rw (← ap (λ p. p.1) (some_injective (rw none_yet at run))) k
            | inr (chunk, there) ↦
                let (man'', taken, run₁) =
                  bind_some (take_chunk up e fresh (put_read man fd chan' rx) fd chan' chunk) _ _
                    (rw there at run) in
                let last = if_some (is_zero up e fresh chan'.msg_info.remain) _ _ run₁ in
                rw (← ap (λ p. p.1) (some_injective last)) (
                  Keeps-trans man (put_read man fd chan' rx) man'' k (
                    take_chunk-Keeps (put_read man fd chan' rx) man'' fd chan' chunk (ground arith)
                      taken))
          ]

      by_msg :
          (chan : Channel)
          → man.chans fd ≡ some chan
          → (stat : ReadStatus) (whole : Option MsgBuff) (chan' : Channel) (rx : List Arrival)
          → channel_read_msg chan (man.net.rx fd) ≡ some (stat, whole, chan', rx)
          → ◌≡◌ {A = Option (Bool × Ioman N)}
              (elim whole [
                | none ↦ some (lives up e fresh stat, put_read man fd chan' rx)
                | some msg ↦
                    if to_self up e fresh man chan'.msg_info
                      || eqb_ℤ chan'.msg_info.kind msg_type_ping0
                    then (comm_node_handle_msg up e fresh
                          (put_read man fd chan' rx)
                          fd
                          chan'.msg_info
                          msg
                        >>= (λ man'. some (true, man')))
                    else none
              ])
              (some (alive, man'))
          → Keeps man man'
      by_msg chan at stat whole chan' rx e_read run =
          let k =
            put_read-Keeps man fd chan chan' rx at
              (channel_read_msg-Changed chan chan' (man.net.rx fd) rx stat whole e_read).1 in
          elim (Option-cases whole) [
            | inl none_yet ↦ rw (← ap (λ p. p.1) (some_injective (rw none_yet at run))) k
            | inr (msg, there) ↦
                let inner =
                  if_some
                    (to_self up e fresh man chan'.msg_info
                      || eqb_ℤ chan'.msg_info.kind msg_type_ping0)
                    _ _ (rw there at run) in
                let (man'', handled, last) =
                  bind_some
                    (comm_node_handle_msg up e fresh (put_read man fd chan' rx) fd chan'.msg_info
                      msg)
                    _ _ inner in
                rw (← ap (λ p. p.1) (some_injective last)) (
                  Keeps-trans man (put_read man fd chan' rx) man'' k (
                    comm_node_handle_msg-Keeps up e fresh (put_read man fd chan' rx) man'' fd
                      chan'.msg_info msg handled))
          ]

  pub ioman_process_channel_read-Keeps :
      (man man' : Ioman N) (fd : ℕ)
      → ioman_process_channel_read up e fresh man fd ≡ some (true, man')
      → Keeps man man'
  unfolding ioman_process_channel_read
  ioman_process_channel_read-Keeps man man' fd run =
      let ((over, man₁), head, run₁) = bind_some (read_head up e fresh man fd) _ _ run in
      let k = read_head-Keeps man man₁ fd over head in
      elim (Option-cases over) [
        | inl go_on ↦
            Keeps-trans man man₁ man' k (read_body-Keeps man₁ man' fd true (rw go_on at run₁))
        | inr (alive, stop) ↦ rw (← ap (λ p. p.1) (some_injective (rw stop at run₁))) k
      ]
