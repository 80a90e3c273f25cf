-- ===== src/Comm/Delivery.antt =====
-- The data messages of a node of src/comm/comm.c, from their chunks to the calls that receive them:
-- `data_msg_map`, `recvd_data_msg_queues` and the counters. The table of unfinished messages is seen
-- as a function of the session id. A failed assertion, an access out of bounds and a missing pointer
-- are `none`.
pub mod Queues
pub mod First
pub mod Reach
use dlfree.Base.{
  ℕ, zero, suc, ◌+◌, ◌-◌, ◌^◌, Bool, true, false, Option, none, some, List, [], ◌∷◌, ◌++◌, ltb,
  ◌==◌, if◌then◌else◌, length, take, drop,
}
use dlfree.Base.Int.{ℤ, pos, negsuc}
use dlfree.Std.Bytes.{◌>>=◌}
use dlfree.Comm.Msg.{MsgInfo, MsgBuff}
use dlfree.Comm.Data.{
  DataMsg, Status, more, full, data_msg_create, data_msg_push_chunk, eqb_ℤ, write_at,
}
use dlfree.Comm.Channel.{size_of_len}
use dlfree.Comm.Routes.{max_peer}

-- A queue that was not made yet is `none`.
abbrev pub Queues : Type 0
Queues = ℕ → Option (List DataMsg)

pub record Delivery : Type 0 where
  pub msg_map : ℕ → Option DataMsg
  pub queues : Queues
  pub unacked : ℕ
  pub recvd : ℕ
  pub recvd_bytes : ℕ

abbrev pub put_msg : (ℕ → Option DataMsg) → ℕ → Option DataMsg → ℕ → Option DataMsg
put_msg map sid msg i = if i == sid then msg else map i

abbrev pub put_queue : Queues → ℕ → List DataMsg → Queues
put_queue queues src queue i = if i == src then some queue else queues i

abbrev pub queue_in : Option (List DataMsg) → List DataMsg
queue_in none = []
queue_in (some queue) = queue

abbrev pub queue_at : Queues → ℕ → List DataMsg
queue_at queues src = queue_in (queues src)

-- The id `(sid_t)-1` is not valid.
abbrev pub valid_sid : ℕ → Bool
valid_sid sid = if sid == 2 ^ 64 - 1 then false else true

-- The memory for the chunk: the rest of the memory of its message, which is made with the first
-- chunk of a session. `t` is the time and `fresh` the memory from `malloc`.
unfoldable pub comm_node_setup_chunk :
    (t : ℕ) → (fresh : List ℕ) → Delivery → MsgInfo → Option (List ℕ × Delivery)
comm_node_setup_chunk t fresh node header = do
  tot_len ← size_of_len header.tot_len
  (if valid_sid header.sid
      then (elim (node.msg_map header.sid) [
        | some msg ↦ some (drop msg.recvd msg.user_msg_data, node)
        | none ↦ some (
          fresh,
          record node {
            msg_map =
                put_msg node.msg_map header.sid
                  (some (data_msg_create fresh tot_len header.src_id t));
          },
        )
      ])
      else none)

unfoldable pub comm_node_deliver_chunk : Delivery → DataMsg → Option Delivery
comm_node_deliver_chunk node msg = do
  src ← size_of_len msg.src_id
  (if ltb src max_peer
      then some (record node {
        queues = put_queue node.queues src (queue_at node.queues src ++ msg ∷ []);
        unacked = node.unacked + 1;
        recvd = node.recvd + 1;
      })
      else none)

-- The bytes of the chunk stand in the memory of the message, from what was received on: its buffer
-- is a part of that memory.
unfoldable pub comm_node_handle_chunk : Delivery → MsgInfo → MsgBuff → Option Delivery
comm_node_handle_chunk node header chunk =
    if valid_sid header.sid
    then (do
      msg ← node.msg_map header.sid
      mem ← write_at msg.user_msg_data msg.recvd chunk.bytes
      (status, msg') ← data_msg_push_chunk (record msg { user_msg_data = mem }) header chunk
      let node' = record node { recvd_bytes = node.recvd_bytes + chunk.len }
      elim status [
        | more ↦ some (record node' { msg_map = put_msg node.msg_map header.sid (some msg') })
        | full ↦
            comm_node_deliver_chunk
              (record node' { msg_map = put_msg node.msg_map header.sid none }) msg'
      ])
    else none

-- What a receiving call comes to: it waits, or it returns, with a message or without one.
pub data Received : Type 0 where
  waits nothing : Received
  received : (src_id : ℕ) → (len : ℕ) → (buff : List ℕ) → Received

-- The loop over the sources from `src` on: the first message that waits, and the queues without it.
unfoldable pub recv_any_loop : (fuel src : ℕ) → Queues → Option (Option (ℕ × DataMsg × Queues))
recv_any_loop zero src queues = some none
recv_any_loop (suc fuel) src queues = elim (queue_at queues src) [
  | [] ↦ recv_any_loop fuel (src + 1) queues
  | msg ∷ rest ↦
      if eqb_ℤ msg.src_id (pos src) then some (some (src, msg, put_queue queues src rest)) else none
]

unfoldable pub comm_node_recv_any_data : Delivery → Option (Received × Delivery)
comm_node_recv_any_data node =
    if ltb 0 node.unacked
    then (do
      found ← recv_any_loop max_peer 0 node.queues
      elim found [
        | none ↦ some (nothing, record node { unacked = node.unacked - 1 })
        | some (src, msg, queues) ↦ some (
          received src msg.len msg.user_msg_data,
          record node { queues = queues; unacked = node.unacked - 1 },
        )
      ])
    else some (waits, node)

-- The pointer for the buffer is set to 0 first, so that the message cannot be stored.
unfoldable pub comm_node_recv_data : Delivery → (src_id : ℕ) → Option (Received × Delivery)
comm_node_recv_data node src_id =
    if ltb src_id max_peer
    then (elim (queue_at node.queues src_id) [ [] ↦ some (waits, node) | _ ∷ _ ↦ none ])
    else none
