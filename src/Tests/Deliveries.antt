-- ===== src/Tests/Deliveries.antt =====
-- A message of one chunk from the node 2.
use dlfree.Base.{ℕ, ◌+◌, ◌≡◌, ◌⊎◌, refl, Option, none, some, List, [], ◌∷◌}
use dlfree.Base.Int.{pos}
use dlfree.Comm.Msg.{MsgInfo, MsgBuff, msg_buff_create_on_buff}
use dlfree.Comm.Data.{DataMsg, chunk_info}
use dlfree.Comm.Routes.{max_peer}
use dlfree.Comm.Delivery.{
  Delivery, Received, waits, received, put_queue, comm_node_setup_chunk, comm_node_handle_chunk,
  comm_node_recv_any_data,
}
use dlfree.Comm.Delivery.Queues.{total}
use dlfree.Comm.Delivery.First.{IsFirst}
use dlfree.Comm.Delivery.Reach.{Reach, new, setup, chunk, new_node, comm_node_recv_any_data-Reach}

abbrev chunk_header : MsgInfo
chunk_header = chunk_info (pos 2) (pos 0) 7 2 0 2

abbrev chunk_buff : MsgBuff
chunk_buff = msg_buff_create_on_buff [] 2 (some (8 ∷ 9 ∷ []))

abbrev or_new : Option Delivery → Delivery
or_new none = new_node
or_new (some node) = node

abbrev node_of : Option (List ℕ × Delivery) → Delivery
node_of none = new_node
node_of (some (mem, node)) = node

abbrev with_session : Delivery
with_session = node_of (comm_node_setup_chunk 0 (0 ∷ 0 ∷ []) new_node chunk_header)

abbrev with_message : Delivery
with_message = or_new (comm_node_handle_chunk with_session chunk_header chunk_buff)

with_message-Reach : Reach with_message
unfolding comm_node_setup_chunk comm_node_handle_chunk dlfree.Comm.Data.write_at
    dlfree.Comm.Data.data_msg_create msg_buff_create_on_buff dlfree.Comm.Data.data_msg_push_chunk
    dlfree.Base.Int.◌-ℤ◌ dlfree.Comm.Delivery.comm_node_deliver_chunk
with_message-Reach =
    chunk chunk_header chunk_buff (setup 0 (0 ∷ 0 ∷ []) (0 ∷ 0 ∷ []) chunk_header new refl) refl

abbrev what : Option (Received × Delivery) → Option Received
what none = none
what (some (res, node)) = some res

receives : what (comm_node_recv_any_data with_message) ≡ some (received 2 2 (8 ∷ 9 ∷ []))
unfolding comm_node_setup_chunk comm_node_handle_chunk comm_node_recv_any_data
    dlfree.Comm.Data.write_at dlfree.Comm.Data.data_msg_create msg_buff_create_on_buff
    dlfree.Comm.Data.data_msg_push_chunk dlfree.Base.Int.◌-ℤ◌
    dlfree.Comm.Delivery.comm_node_deliver_chunk dlfree.Comm.Delivery.recv_any_loop
receives = refl

comm_node_recv_any_data-Reach_example :
    ((total with_message.queues max_peer 0 ≡ 0)
      × (comm_node_recv_any_data with_message ≡ some (waits, with_message)))
    ⊎ ((s : ℕ) × (m : DataMsg) × (rest : List DataMsg) × (node' : Delivery)
        × (comm_node_recv_any_data with_message ≡ some (received s m.len m.user_msg_data, node'))
        × IsFirst with_message.queues 0 s m rest
        × (node'.queues ≡ put_queue with_message.queues s rest)
        × Reach node')
comm_node_recv_any_data-Reach_example =
    comm_node_recv_any_data-Reach with_message with_message-Reach
