-- ===== src/Comm/Delivery/Reach.antt =====
-- A node whose I/O thread takes in chunks while others receive messages.
use dlfree.Base.{
  ℕ, zero, suc, ◌+◌, ◌≡◌, ◌⊎◌, refl, ap, sym, ◌∙◌, Option, none, some, List, [], ◌∷◌, ltb, drop,
  inl, inr, arith, none_ne_some, some_injective,
}
use dlfree.Comm.Msg.{MsgInfo, MsgBuff}
use dlfree.Comm.Data.{DataMsg, Status, more, full, data_msg_create, data_msg_push_chunk, write_at}
use dlfree.Comm.Routes.{max_peer}
use dlfree.Comm.Channel.{size_of_len}
use dlfree.Comm.Channel.Keep.{bind_some, if_some}
use dlfree.Comm.Delivery.{
  Delivery, put_msg, put_queue, queue_at, valid_sid, Received, waits, received,
  comm_node_setup_chunk, comm_node_deliver_chunk, comm_node_handle_chunk, comm_node_recv_any_data,
  comm_node_recv_data,
}
use dlfree.Comm.Delivery.Queues.{total, none_of, IsDelivery}
use dlfree.Comm.Delivery.First.{IsFirst, comm_node_recv_any_data-IsFirst, deliver_chunk-IsDelivery}

-- A new node, where the memory of its counter of messages that wait holds 0.
abbrev pub new_node : Delivery
new_node = record {
  msg_map = λ _. none;
  queues = λ _. none;
  unacked = 0;
  recvd = 0;
  recvd_bytes = 0;
}

-- The nodes that calls lead to.
pub data Reach : Delivery → Type 0 where
  new : Reach new_node
  setup :
      {node node' : Delivery} (t : ℕ) (fresh mem : List ℕ) (header : MsgInfo)
      → Reach node
      → comm_node_setup_chunk t fresh node header ≡ some (mem, node')
      → Reach node'
  chunk :
      {node node' : Delivery} (header : MsgInfo) (buff : MsgBuff)
      → Reach node
      → comm_node_handle_chunk node header buff ≡ some node'
      → Reach node'
  any :
      {node node' : Delivery} (res : Received)
      → Reach node
      → comm_node_recv_any_data node ≡ some (res, node')
      → Reach node'
  from :
      {node node' : Delivery} (src_id : ℕ) (res : Received)
      → Reach node
      → comm_node_recv_data node src_id ≡ some (res, node')
      → Reach node'

total-none : (n src : ℕ) → total (λ _. none) n src ≡ 0
unfolding total
total-none zero src = refl
total-none (suc n) src = let rest = total-none n (src + 1) in omega (arith, rest)

-- Only the queues and the counter matter.
same-IsDelivery :
    (node node' : Delivery)
    → node'.queues ≡ node.queues
    → node'.unacked ≡ node.unacked
    → IsDelivery node
    → IsDelivery node'
same-IsDelivery node node' q u d = record {
  counted = u ∙ (d.counted ∙ ap (λ queues. total queues max_peer 0) (sym q));
  of_source = rw q d.of_source;
}

setup_chunk-IsDelivery :
    (t : ℕ) (fresh mem : List ℕ) (node node' : Delivery) (header : MsgInfo)
    → comm_node_setup_chunk t fresh node header ≡ some (mem, node')
    → IsDelivery node
    → IsDelivery node'
unfolding comm_node_setup_chunk
setup_chunk-IsDelivery t fresh mem node node' header run d =
    let (tot_len, _, run₁) = bind_some (size_of_len header.tot_len) _ _ run in
    let run₂ = if_some (valid_sid header.sid) _ _ run₁ in
    by_msg tot_len (node.msg_map header.sid) run₂
  where
    by_msg :
        (tot_len : ℕ) (found : Option DataMsg)
        → ◌≡◌ {A = Option (List ℕ × Delivery)}
            (elim found [
              | some msg ↦ some (drop msg.recvd msg.user_msg_data, node)
              | none ↦ some (
                fresh,
                record node {
                  msg_map =
                      put_msg node.msg_map header.sid
                        (some (data_msg_create fresh tot_len header.src_id t));
                },
              )
            ])
            (some (mem, node'))
        → IsDelivery node'
    by_msg tot_len (some msg) e = let same = ap (λ p. p.1) (some_injective e) in rw (← same) d
    by_msg tot_len none e =
        let same = ap (λ p. p.1) (some_injective e) in
        same-IsDelivery node node' (ap (λ x. x.queues) (sym same)) (ap (λ x. x.unacked) (sym same))
          d

handle_chunk-IsDelivery :
    (node node' : Delivery) (header : MsgInfo) (buff : MsgBuff)
    → comm_node_handle_chunk node header buff ≡ some node'
    → IsDelivery node
    → IsDelivery node'
unfolding comm_node_handle_chunk
handle_chunk-IsDelivery node node' header buff run d =
    let run₁ = if_some (valid_sid header.sid) _ _ run in
    let (msg, _, run₂) = bind_some (node.msg_map header.sid) _ _ run₁ in
    let (mem, _, run₃) = bind_some (write_at msg.user_msg_data msg.recvd buff.bytes) _ _ run₂ in
    let ((status, msg'), _, run₄) =
      bind_some (data_msg_push_chunk (record msg { user_msg_data = mem }) header buff) _ _ run₃ in
    by_status status msg' run₄
  where
    counted_bytes : Delivery
    counted_bytes = record node { recvd_bytes = node.recvd_bytes + buff.len }

    by_status :
        (status : Status) (msg' : DataMsg)
        → ◌≡◌ {A = Option Delivery}
            (elim status [
              | more ↦ some (record node {
                recvd_bytes = node.recvd_bytes + buff.len;
                msg_map = put_msg node.msg_map header.sid (some msg');
              })
              | full ↦
                  comm_node_deliver_chunk
                    (record node {
                      recvd_bytes = node.recvd_bytes + buff.len;
                      msg_map = put_msg node.msg_map header.sid none;
                    })
                    msg'
            ])
            (some node')
        → IsDelivery node'
    by_status more msg' e =
        let same = some_injective e in
        same-IsDelivery node node' (ap (λ x. x.queues) (sym same)) (ap (λ x. x.unacked) (sym same))
          d
    by_status full msg' e =
        deliver_chunk-IsDelivery _ node' msg' (same-IsDelivery node _ refl refl d) e

recv_data-same :
    (node node' : Delivery) (src_id : ℕ) (res : Received)
    → comm_node_recv_data node src_id ≡ some (res, node')
    → node ≡ node'
unfolding comm_node_recv_data
recv_data-same node node' src_id res run =
    let run₁ = if_some (ltb src_id max_peer) _ _ run in by_queue (queue_at node.queues src_id) run₁
  where
    by_queue :
        (queue : List DataMsg)
        → ◌≡◌ {A = Option (Received × Delivery)}
            (elim queue [ [] ↦ some (waits, node) | _ ∷ _ ↦ none ])
            (some (res, node'))
        → node ≡ node'
    by_queue [] e = ap (λ p. p.1) (some_injective e)
    by_queue (x ∷ queue) e = absurd (none_ne_some e)

recv_any_data-IsDelivery :
    (node node' : Delivery) (res : Received)
    → comm_node_recv_any_data node ≡ some (res, node')
    → IsDelivery node
    → IsDelivery node'
recv_any_data-IsDelivery node node' res run d = elim (comm_node_recv_any_data-IsFirst node d) [
  | inl (_, run') ↦ let same = ap (λ p. p.1) (some_injective (sym run' ∙ run)) in rw (← same) d
  | inr (s, m, rest, node₁, run', _, _, d') ↦
      let same = ap (λ p. p.1) (some_injective (sym run' ∙ run)) in rw (← same) d'
]

Reach-IsDelivery : {node : Delivery} → Reach node → IsDelivery node
Reach-IsDelivery new = record { counted = sym (total-none max_peer 0); of_source = λ src. none_of }
Reach-IsDelivery (setup {node} {node'} t fresh mem header r run) =
    setup_chunk-IsDelivery t fresh mem node node' header run (Reach-IsDelivery r)
Reach-IsDelivery (chunk {node} {node'} header buff r run) =
    handle_chunk-IsDelivery node node' header buff run (Reach-IsDelivery r)
Reach-IsDelivery (any {node} {node'} res r run) =
    recv_any_data-IsDelivery node node' res run (Reach-IsDelivery r)
Reach-IsDelivery (from {node} {node'} src_id res r run) =
    rw (← recv_data-same node node' src_id res run) (Reach-IsDelivery r)

-- Whatever chunks came in and whatever messages were received before, if the counter of the node
-- started from 0, the call that receives from any source does not fail: it waits where no message
-- waits; else it returns the oldest message of the first source that has one, and just this message
-- is gone from the queues.
pub comm_node_recv_any_data-Reach :
    (node : Delivery)
    → Reach node
    → ((total node.queues max_peer 0 ≡ 0) × (comm_node_recv_any_data node ≡ some (waits, node)))
      ⊎ ((s : ℕ) × (m : DataMsg) × (rest : List DataMsg) × (node' : Delivery)
          × (comm_node_recv_any_data node ≡ some (received s m.len m.user_msg_data, node'))
          × IsFirst node.queues 0 s m rest
          × (node'.queues ≡ put_queue node.queues s rest)
          × Reach node')
comm_node_recv_any_data-Reach node r =
    elim (comm_node_recv_any_data-IsFirst node (Reach-IsDelivery r)) [
      | inl w ↦ inl w
      | inr (s, m, rest, node', run, first, left, _) ↦
          inr (s, m, rest, node', run, first, left, any (received s m.len m.user_msg_data) r run)
    ]
