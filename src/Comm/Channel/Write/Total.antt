-- ===== src/Comm/Channel/Write/Total.antt =====
-- `channel_write` returns, and keeps the order of the bytes and of the waiting channels.
use dlfree.Base.{
  has, ℕ, zero, suc, ◌+◌, ◌<◌, ◌≤◌, ◌≡◌, ◌≢◌, ◌⊎◌, refl, sym, ◌∙◌, Bool, true, false, Option, some,
  List, [], ◌∷◌, ◌++◌, length, inl, inr, arith, Bool-cases, ◌==◌,
}
use dlfree.Comm.Msg.{MsgBuff, msg_buff_send_len}
use dlfree.Comm.Channel.{Channel, Channels}
use dlfree.Comm.Channel.Waiting.{
  wait_of, queue_of, curr_of, state_of, IsOrderly, IsFull, AllFull, pending,
}
use dlfree.Comm.Channel.Write.{
  WriteStatus, write_ok, write_eagain, write_err, Out, send_loop, unblock_loop, write_loop,
  channel_write,
}
use dlfree.Comm.Channel.Write.Send.{send_loop-Sent}
use dlfree.Comm.Channel.Write.Requeue.{requeued, requeued-id}
use dlfree.Comm.Channel.Write.Unblock.{Freed, List-cases, unblock_loop-Unblocked}
use dlfree.Comm.Channel.Write.Order.{
  Written, nothing_left, first_fits, stopped, popped, popped-IsOrderly, went_on,
}

module _ (fuel id n : ℕ) (chans : Channels) (c : Channel) (b b' : MsgBuff) (q : List MsgBuff)
    (u : Bool) (stat : WriteStatus) (out out' : Out) (at : chans id ≡ some c)
    (queue : c.buff_queue ≡ b ∷ q)
    (sent : send_loop (msg_buff_send_len b) b (msg_buff_send_len b) 0 out
      ≡ some (stat, b', n, out')) where
  write_loop-stopped :
      (stat ≡ write_eagain) ⊎ (stat ≡ write_err)
      → write_loop (suc fuel) id chans u out
        ≡ some (stat, u, requeued chans id c (b' ∷ q) (c.tx_count + n), out')
  unfolding write_loop
  write_loop-stopped (inl e) = rw (at, queue, sent, e) refl
  write_loop-stopped (inr e) = rw (at, queue, sent, e) refl

  write_loop-went_on :
      (u₁ : Bool) (chans₁ : Channels)
      → stat ≡ write_ok
      → unblock_loop (length c.wait_queue) id (requeued chans id c q (c.tx_count + n)) u
        ≡ some (u₁, chans₁)
      → write_loop (suc fuel) id chans u out ≡ write_loop fuel id chans₁ u₁ out'
  unfolding write_loop
  write_loop-went_on u₁ chans₁ e unblocked = rw (at, queue, sent, e, unblocked) refl

pub write_loop-empty :
    (fuel id : ℕ) (chans : Channels) (c : Channel) (u : Bool) (out : Out)
    → chans id ≡ some c
    → c.buff_queue ≡ []
    → write_loop fuel id chans u out ≡ some (write_ok, u, chans, out)
unfolding write_loop
write_loop-empty zero id chans c u out at e = rw (at, e) refl
write_loop-empty (suc fuel) id chans c u out at e = rw (at, e) refl

nil_of_length : {A : Type 0} (xs : List A) → length xs ≤ 0 → xs ≡ []
nil_of_length [] h = refl
nil_of_length (x ∷ xs) h = absurd (omega arith)

abbrev pub Writes :
    (id : ℕ) (chans : Channels) (u : Bool) (out : Out)
    → Option (WriteStatus × Bool × Channels × Out)
    → Type 0
Writes id chans u out result =
    (stat : WriteStatus) × (u' : Bool) × (chans' : Channels) × (out' : Out) × (result
      ≡ some (stat, u', chans', out'))
    × Written id chans chans' u u' stat out.sent out'.sent

write_loop-Written :
    (fuel id : ℕ) (chans : Channels) (c : Channel) (u : Bool) (out : Out)
    → IsOrderly chans
    → chans id ≡ some c
    → length (queue_of (chans id)) + length (wait_of (chans id)) ≤ fuel
    → Writes id chans u out (write_loop fuel id chans u out)
write_loop-Written zero id chans c u out o at le =
    let le' = rw at at le in
    let e : c.buff_queue ≡ [] = nil_of_length c.buff_queue (omega (arith, le')) in
    (
      write_ok,
      u,
      chans,
      out,
      write_loop-empty 0 id chans c u out at e,
      nothing_left id chans u out.sent o (rw at e),
    )
write_loop-Written (suc fuel) id chans c u out o at le = elim (List-cases c.buff_queue) [
  | inl e ↦ (
    write_ok,
    u,
    chans,
    out,
    write_loop-empty (suc fuel) id chans c u out at e,
    nothing_left id chans u out.sent o (rw at e),
  )
  | inr (b, q, queue) ↦
      let (stat, b', n, out', sent, s) =
        send_loop-Sent (msg_buff_send_len b) (msg_buff_send_len b) 0 b out.tx out.sent
          (first_fits id chans c b q o at queue) (unfold msg_buff_send_len in refl) (omega arith) in
      elim s.status [
        | inr why ↦ (
          stat,
          u,
          requeued chans id c (b' ∷ q) (c.tx_count + n),
          out',
          write_loop-stopped fuel id n chans c b b' q u stat out out' at queue sent why,
          stopped id chans c b q o at queue b' (c.tx_count + n) u stat out out' s why,
        )
        | inl (ok, gone) ↦
            let count = c.tx_count + n in
            let (u₁, chans₁, run₁, ub, full, told) =
              unblock_loop-Unblocked (length c.wait_queue) id
                (popped id chans c b q o at queue count)
                (record c { buff_queue = q; tx_count = count }) u
                (popped-IsOrderly id chans c b q o at queue count)
                (requeued-id chans id c q count at) (omega arith) in
            let fewer : length (queue_of (chans₁ id)) + length (wait_of (chans₁ id))
                ≡ length q + length c.wait_queue =
              rw (requeued-id chans id c q count at) at ub.left in
            let le' = rw (at, queue) at le in
            let (stat', u₂, chans₂, out₂, run₂, w) =
              write_loop-Written fuel id chans₁ ub.chan u₁ out' ub.orderly ub.present
                (omega (arith, fewer, le')) in
            (
              stat',
              u₂,
              chans₂,
              out₂,
              write_loop-went_on fuel id n chans c b b' q u stat out out' at queue sent u₁ chans₁ ok
                    run₁
                  ∙ run₂,
              went_on id chans c b q o at queue count b' u u₁ u₂ stat stat' out out' chans₁ chans₂
                  out₂.sent s gone ub full told w,
            )
      ]
]

channel_write-Written :
    (id : ℕ) (chans : Channels) (c : Channel) (out : Out)
    → IsOrderly chans
    → chans id ≡ some c
    → Writes id chans false out (channel_write id chans out)
unfolding channel_write
channel_write-Written id chans c out o at =
    let (stat, u, chans', out', run, w) =
      write_loop-Written (length c.buff_queue + length c.wait_queue) id chans c false out o at
        (rw at (omega arith)) in
    (stat, u, chans', out', rw at run, w)

-- If who waits is blocked with a chunk and waits at one place, once, and not at itself, then a write
-- returns, whatever the socket takes: the bytes that it took, and behind them those that are still
-- to go, of the queue and then of the channels that wait, are the bytes from before in their order.
-- A write that ends with success leaves the queue empty, any other one leaves something in it.
pub channel_write-order :
    (id : ℕ) (chans : Channels) (c : Channel) (out : Out)
    → IsOrderly chans
    → chans id ≡ some c
    → (stat : WriteStatus) × (u : Bool) × (chans' : Channels) × (out' : Out) × (channel_write id
          chans out
        ≡ some (stat, u, chans', out'))
      × (out'.sent ++ pending chans' id ≡ out.sent ++ pending chans id)
      × (((stat ≡ write_ok) × (queue_of (chans' id) ≡ []))
          ⊎ (((stat ≡ write_eagain) ⊎ (stat ≡ write_err)) × (0 < length (queue_of (chans' id)))))
channel_write-order id chans c out o at =
    let (stat, u, chans', out', run, w) = channel_write-Written id chans c out o at in
    (stat, u, chans', out', run, w.conserved, w.status)

empty_wait : (c : Option Channel) → IsFull c → queue_of c ≡ [] → wait_of c ≡ []
empty_wait c (inl nobody) e = nobody
empty_wait c (inr full) e = let full' = rw e at full in absurd (omega (arith, full'))

-- Under the same conditions, and if nobody waits for a channel that has room, all this holds after a
-- write as well. A channel that has waited waits still, or is active without a chunk; where the
-- write ends with success, all of them are. The chunk in the hands of the channel itself is as before,
-- and no other channel has changed. Where the write does not
-- report that it has unblocked any, the states of all channels are as before.
pub channel_write-IsOrderly :
    (id : ℕ) (chans : Channels) (c : Channel) (out : Out)
    → IsOrderly chans
    → AllFull chans
    → chans id ≡ some c
    → (stat : WriteStatus) × (u : Bool) × (chans' : Channels) × (out' : Out) × (channel_write id
          chans out
        ≡ some (stat, u, chans', out'))
      × IsOrderly chans'
      × AllFull chans'
      × ((j : ℕ) → has j (wait_of (chans id)) ≡ true → Freed chans' id j)
      × (curr_of (chans' id) ≡ curr_of (chans id))
      × (stat ≡ write_ok → wait_of (chans' id) ≡ [])
      × ((j : ℕ) → j ≢ id → has j (wait_of (chans id)) ≡ false → chans' j ≡ chans j)
      × (u ≡ false → (j : ℕ) → state_of (chans' j) ≡ state_of (chans j))
channel_write-IsOrderly id chans c out o full at =
    let (stat, u, chans', out', run, w) = channel_write-Written id chans c out o at in
    (
      stat,
      u,
      chans',
      out',
      run,
      w.orderly,
      λ j. all_full chans' w j,
      w.freed,
      w.own_curr,
      λ ok. elim w.status [
        | inl (_, empty) ↦ empty_wait (chans' id) (w.own_full (full id)) empty
        | inr (inl e, _) ↦ absurd (let clash = sym ok ∙ e in cc)
        | inr (inr e, _) ↦ absurd (let clash = sym ok ∙ e in cc)
      ],
      w.frame,
      λ quiet. elim w.told [
        | inl said ↦ absurd (let clash = sym quiet ∙ said in cc)
        | inr (_, same) ↦ same
      ],
    )
  where
    all_full :
        {u : Bool} {stat : WriteStatus} {sent : List ℕ} (chans' : Channels)
        → Written id chans chans' false u stat out.sent sent
        → AllFull chans'
    all_full chans' w j = elim (Bool-cases (j == id)) [
      | inl here ↦ let e : j ≡ id = ground (arith, here) in rw e (w.own_full (full id))
      | inr there ↦ w.all_full j (λ e. absurd (ground (arith, there, e))) (full j)
    ]
