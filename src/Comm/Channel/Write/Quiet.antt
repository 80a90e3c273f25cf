-- ===== src/Comm/Channel/Write/Quiet.antt =====
-- A write that is held up and unblocks nobody changes nothing that `select` looks at.
use dlfree.Base.{
  ℕ, zero, suc, ◌+◌, ◌≡◌, ◌⊎◌, refl, ap, sym, ◌∙◌, Bool, false, Option, none, some, List, ◌∷◌,
  length, inl, inr, Option-cases, none_ne_some, some_injective,
}
use dlfree.Std.Bytes.{◌>>=◌}
use dlfree.Comm.Msg.{MsgBuff, msg_buff_send_len}
use dlfree.Comm.Channel.{Channel, Channels, put_channel}
use dlfree.Comm.Channel.Keep.{bind_some}
use dlfree.Comm.Channel.Write.{
  WriteStatus, write_ok, write_eagain, write_err, Out, send_loop, unblock_loop, write_loop,
  channel_write,
}
use dlfree.Comm.Channel.Write.Unblock.{List-cases}
use dlfree.Comm.Channel.Write.Total.{write_loop-empty}
pub use dlfree.Comm.Channel.Write.Blocked.{HeldUp}
use dlfree.Comm.Channel.Write.Blocked.{unblock_loop-quiet, HeldUp-later, HeldUp-now}

WriteStatus-cases : (s : WriteStatus) → (s ≡ write_ok) ⊎ ((s ≡ write_eagain) ⊎ (s ≡ write_err))
WriteStatus-cases write_ok = inl refl
WriteStatus-cases write_eagain = inr (inl refl)
WriteStatus-cases write_err = inr (inr refl)

ok_ne_eagain : {A : Type 0} → write_ok ≡ write_eagain → A
ok_ne_eagain e = absurd (cc)

err_ne_eagain : {A : Type 0} → write_err ≡ write_eagain → A
err_ne_eagain e = absurd (cc)

told :
    (u : Bool) (chans : Channels)
    → u ≡ false
    → ◌≡◌ {A = Option (Bool × Channels)} (some (u, chans)) (some (false, chans))
told u chans e = rw e refl

-- What the loop does with a chunk that was sent as far as possible.
write_next :
    (fuel id : ℕ)
    → Channels
    → Channel
    → List MsgBuff
    → Bool
    → WriteStatus
    → MsgBuff
    → ℕ
    → Out
    → Option (WriteStatus × Bool × Channels × Out)
write_next fuel id chans c q u write_ok b' n out = do
  (u', chans') ←
      unblock_loop (length c.wait_queue) id
        (put_channel chans id (record c { buff_queue = q; tx_count = c.tx_count + n })) u
  write_loop fuel id chans' u' out
write_next fuel id chans c q u write_eagain b' n out = some (
  write_eagain,
  u,
  put_channel chans id (record c { buff_queue = b' ∷ q; tx_count = c.tx_count + n }),
  out,
)
write_next fuel id chans c q u write_err b' n out = some (
  write_err,
  u,
  put_channel chans id (record c { buff_queue = b' ∷ q; tx_count = c.tx_count + n }),
  out,
)

write_loop-next :
    (fuel id : ℕ) (chans : Channels) (c : Channel) (b b' : MsgBuff) (q : List MsgBuff) (n : ℕ)
    (u : Bool) (stat : WriteStatus) (out out₁ : Out)
    → chans id ≡ some c
    → c.buff_queue ≡ b ∷ q
    → send_loop (msg_buff_send_len b) b (msg_buff_send_len b) 0 out ≡ some (stat, b', n, out₁)
    → write_loop (suc fuel) id chans u out ≡ write_next fuel id chans c q u stat b' n out₁
unfolding write_loop write_next
write_loop-next fuel id chans c b b' q n u write_ok out out₁ at queue s = rw (at, queue, s) refl
write_loop-next fuel id chans c b b' q n u write_eagain out out₁ at queue s = rw (at, queue, s) refl
write_loop-next fuel id chans c b b' q n u write_err out out₁ at queue s = rw (at, queue, s) refl

module _ (fuel id : ℕ) (chans chans' : Channels) (c : Channel) (b b' : MsgBuff) (q : List MsgBuff)
    (n : ℕ) (u : Bool) (out₁ out' : Out) (at : chans id ≡ some c) (queue : c.buff_queue ≡ b ∷ q)
    (ih : (chans₁ : Channels) (u₁ : Bool)
      → write_loop fuel id chans₁ u₁ out₁ ≡ some (write_eagain, false, chans', out')
      → (u₁ ≡ false) × HeldUp id chans₁ chans') where
  -- After the waiting channels have been looked at.
  after_unblock :
      (u₁ : Bool) (chans₁ : Channels)
      → unblock_loop
          (length c.wait_queue)
          id
          (put_channel chans id (record c { buff_queue = q; tx_count = c.tx_count + n }))
          u
        ≡ some (u₁, chans₁)
      → write_loop fuel id chans₁ u₁ out₁ ≡ some (write_eagain, false, chans', out')
      → (u ≡ false) × HeldUp id chans chans'
  after_unblock u₁ chans₁ e run =
      let (quiet, later) = ih chans₁ u₁ run in
      let (quiet', same) =
        unblock_loop-quiet (length c.wait_queue) id
          (put_channel chans id (record c { buff_queue = q; tx_count = c.tx_count + n })) chans₁ u
          (e ∙ told u₁ chans₁ quiet) in
      (
        quiet',
        HeldUp-later id chans chans' c (record c { buff_queue = q; tx_count = c.tx_count + n }) b q
            at queue refl (rw same at later),
      )

  write_next-quiet :
      (stat : WriteStatus)
      → write_next fuel id chans c q u stat b' n out₁ ≡ some (write_eagain, false, chans', out')
      → (u ≡ false) × HeldUp id chans chans'
  unfolding write_next
  write_next-quiet write_err run = err_ne_eagain (ap (λ p. p.0) (some_injective run))
  write_next-quiet write_eagain run =
      let run' = some_injective run in
      (
        ap (λ p. p.1) run',
        rw (← ap (λ p. p.2) run') (
            HeldUp-now id chans c (record c { buff_queue = b' ∷ q; tx_count = c.tx_count + n }) b b'
              q at queue refl refl),
      )
  write_next-quiet write_ok run =
      let ((u₁, chans₁), e, run') =
        bind_some
          (unblock_loop (length c.wait_queue) id
            (put_channel chans id (record c { buff_queue = q; tx_count = c.tx_count + n })) u)
          _ _ run in
      after_unblock u₁ chans₁ e run'

write_loop-missing :
    (fuel id : ℕ) (chans : Channels) (u : Bool) (out : Out)
    → chans id ≡ none
    → write_loop fuel id chans u out ≡ none
unfolding write_loop
write_loop-missing zero id chans u out e = rw e refl
write_loop-missing (suc fuel) id chans u out e = rw e refl

write_loop-no_fuel :
    (id : ℕ) (chans : Channels) (c : Channel) (b : MsgBuff) (q : List MsgBuff) (u : Bool)
    (out : Out)
    → chans id ≡ some c
    → c.buff_queue ≡ b ∷ q
    → write_loop zero id chans u out ≡ none
unfolding write_loop
write_loop-no_fuel id chans c b q u out at queue = rw (at, queue) refl

write_loop-stuck :
    (fuel id : ℕ) (chans : Channels) (c : Channel) (b : MsgBuff) (q : List MsgBuff) (u : Bool)
    (out : Out)
    → chans id ≡ some c
    → c.buff_queue ≡ b ∷ q
    → send_loop (msg_buff_send_len b) b (msg_buff_send_len b) 0 out ≡ none
    → write_loop (suc fuel) id chans u out ≡ none
unfolding write_loop
write_loop-stuck fuel id chans c b q u out at queue s = rw (at, queue, s) refl

-- The parts of a run of the loop that does not end with success.
write_loop-parts :
    (fuel id : ℕ) (chans chans' : Channels) (u : Bool) (out out' : Out)
    → write_loop fuel id chans u out ≡ some (write_eagain, false, chans', out')
    → (c : Channel) × (b : MsgBuff) × (q : List MsgBuff) × (chans id ≡ some c)
      × (c.buff_queue ≡ b ∷ q)
write_loop-parts fuel id chans chans' u out out' run = elim (Option-cases (chans id)) [
  | inl none_there ↦ absurd (missing fuel none_there run)
  | inr (c, at) ↦ elim (List-cases c.buff_queue) [
    | inl empty ↦ ok_ne_eagain (
        ap (λ p. p.0)
          (some_injective (sym (write_loop-empty fuel id chans c u out at empty) ∙ run)))
    | inr (b, q, queue) ↦ (c, b, q, at, queue)
  ]
]
  where
    missing :
        (fuel : ℕ)
        → chans id ≡ none
        → write_loop fuel id chans u out ≡ some (write_eagain, false, chans', out')
        → ⊥
    missing fuel e run = none_ne_some (sym (write_loop-missing fuel id chans u out e) ∙ run)

write_loop-quiet :
    (fuel id : ℕ) (chans chans' : Channels) (u : Bool) (out out' : Out)
    → write_loop fuel id chans u out ≡ some (write_eagain, false, chans', out')
    → (u ≡ false) × HeldUp id chans chans'
write_loop-quiet zero id chans chans' u out out' run =
    let (c, b, q, at, queue) = write_loop-parts zero id chans chans' u out out' run in
    absurd (none_ne_some (sym (write_loop-no_fuel id chans c b q u out at queue) ∙ run))
write_loop-quiet (suc fuel) id chans chans' u out out' run =
    let (c, b, q, at, queue) = write_loop-parts (suc fuel) id chans chans' u out out' run in
    elim (Option-cases (send_loop (msg_buff_send_len b) b (msg_buff_send_len b) 0 out)) [
      | inl stuck ↦
          absurd
            (none_ne_some (sym (write_loop-stuck fuel id chans c b q u out at queue stuck) ∙ run))
      | inr ((stat, b', n, out₁), s) ↦
          write_next-quiet fuel id chans chans' c b b' q n u out₁ out' at queue
            (λ chans₁ u₁ r. write_loop-quiet fuel id chans₁ chans' u₁ out₁ out' r) stat
            (sym (write_loop-next fuel id chans c b b' q n u stat out out₁ at queue s) ∙ run)
    ]

channel_write-there :
    (id : ℕ) (chans : Channels) (c : Channel) (out : Out)
    → chans id ≡ some c
    → channel_write id chans out
      ≡ write_loop (length c.buff_queue + length c.wait_queue) id chans false out
unfolding channel_write
channel_write-there id chans c out at = rw at refl

channel_write-missing :
    (id : ℕ) (chans : Channels) (out : Out) → chans id ≡ none → channel_write id chans out ≡ none
unfolding channel_write
channel_write-missing id chans out at = rw at refl

pub channel_write-quiet :
    (id : ℕ) (chans chans' : Channels) (out out' : Out)
    → channel_write id chans out ≡ some (write_eagain, false, chans', out')
    → HeldUp id chans chans'
channel_write-quiet id chans chans' out out' run = elim (Option-cases (chans id)) [
  | inl none_there ↦
      absurd (none_ne_some (sym (channel_write-missing id chans out none_there) ∙ run))
  | inr (c, at) ↦
      (write_loop-quiet (length c.buff_queue + length c.wait_queue) id chans chans' false out out'
        (sym (channel_write-there id chans c out at) ∙ run)).1
]
