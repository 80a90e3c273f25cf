-- ===== src/Comm/Channel/Write.antt =====
-- `channel_write` of src/comm/channel.c: the chunks of the queue go to the socket in order, and each
-- chunk that is gone lets a waiting channel push its own.
pub mod Served
pub mod Unblock
pub mod Send
pub mod Requeue
pub mod Order
pub mod Total
pub mod Blocked
pub mod Quiet
use dlfree.Base.{
  ℕ, zero, suc, ◌+◌, ◌-◌, Bool, true, false, Option, none, some, List, [], ◌∷◌, ◌++◌, ltb, leb,
  ◌==◌, if◌then◌else◌, length, take, drop,
}
use dlfree.Std.Bytes.{◌>>=◌}
use dlfree.Comm.Msg.{MsgBuff, msg_buff_send_len}
use dlfree.Comm.Sock.{Departure, send_ok, send_eagain, send_err, sock_try_send_n}
use dlfree.Comm.Channel.{Channel, Channels, put_channel, queue_limit, channel_pipeline_chunk}

pub data WriteStatus : Type 0 where
  write_ok write_eagain write_err : WriteStatus

-- The outcomes of `send` that are to come, and the bytes that the socket has taken so far.
pub record Out : Type 0 where
  pub tx : List Departure
  pub sent : List ℕ

-- The loop over one chunk, with the bytes left and those taken. Each round but the last sends a byte
-- at least, so `len` rounds are enough.
unfoldable pub send_loop :
    (fuel : ℕ) → MsgBuff → (len count : ℕ) → Out → Option (WriteStatus × MsgBuff × ℕ × Out)
send_loop zero buff len count out = if len == 0 then some (write_ok, buff, count, out) else none
send_loop (suc fuel) buff len count out =
    if len == 0
    then some (write_ok, buff, count, out)
    else (let (stat, tx) = sock_try_send_n len out.tx in
        elim stat [
          | send_eagain ↦ some (write_eagain, buff, count, record out { tx = tx })
          | send_err ↦ some (write_err, buff, count, record out { tx = tx })
          | send_ok n ↦
              if leb (buff.head + n) (length buff.bytes)
              then send_loop fuel (record buff { head = buff.head + n }) (len - n) (count + n)
                  (record { tx = tx; sent = out.sent ++ take n (drop buff.head buff.bytes) })
              else none
        ])

-- The loop over the waiting channels, one round for each of them.
unfoldable pub unblock_loop : (fuel id : ℕ) → Channels → (unblock : Bool) → Option (Bool × Channels)
unblock_loop zero id chans unblock = some (unblock, chans)
unblock_loop (suc fuel) id chans unblock = do
  chan ← chans id
  elim chan.wait_queue [
    | [] ↦ some (unblock, chans)
    | waiter ∷ waiters ↦
        if ltb (length chan.buff_queue) queue_limit
        then (do
          (pushed, chans') ←
              channel_pipeline_chunk waiter id
                (put_channel chans id (record chan { wait_queue = waiters }))
          (if pushed then unblock_loop fuel id chans' true else none))
        else some (unblock, chans)
  ]

-- The loop over the queue. A round takes one chunk from the queue and the waiting channels together.
unfoldable pub write_loop :
    (fuel id : ℕ) → Channels → (unblock : Bool) → Out → Option (WriteStatus × Bool × Channels × Out)
write_loop zero id chans unblock out = do
  chan ← chans id
  elim chan.buff_queue [ [] ↦ some (write_ok, unblock, chans, out) | _ ∷ _ ↦ none ]
write_loop (suc fuel) id chans unblock out = do
  chan ← chans id
  elim chan.buff_queue [
    | [] ↦ some (write_ok, unblock, chans, out)
    | buff ∷ queue ↦ (do
      (stat, buff', n, out') ←
          send_loop (msg_buff_send_len buff) buff (msg_buff_send_len buff) 0 out
      let chan' = record chan { buff_queue = buff' ∷ queue; tx_count = chan.tx_count + n }
      elim stat [
        | write_ok ↦ (do
          (unblock', chans') ←
              unblock_loop (length chan.wait_queue) id
                (put_channel chans id (record chan' { buff_queue = queue })) unblock
          write_loop fuel id chans' unblock' out')
        | write_eagain ↦ some (write_eagain, unblock, put_channel chans id chan', out')
        | write_err ↦ some (write_err, unblock, put_channel chans id chan', out')
      ])
  ]

unfoldable pub channel_write :
    (id : ℕ) → Channels → Out → Option (WriteStatus × Bool × Channels × Out)
channel_write id chans out = do
  chan ← chans id
  write_loop (length chan.buff_queue + length chan.wait_queue) id chans false out
