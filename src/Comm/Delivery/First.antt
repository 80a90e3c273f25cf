-- ===== src/Comm/Delivery/First.antt =====
-- `comm_node_recv_any_data` finds the message that waits, and the counter stays right.
use dlfree.Base.{
  ℕ, zero, suc, ◌+◌, ◌-◌, ◌<◌, ◌≤◌, ◌≡◌, ◌⊎◌, refl, ap, ◌∙◌, true, Option, none, some, List, [],
  ◌∷◌, ◌++◌, ltb, ◌==◌, if◌then◌else◌, length, length-append, inl, inr, arith, Bool-cases,
  none_ne_some, some_injective,
}
use dlfree.Base.Int.{ℤ, pos, negsuc}
use dlfree.Comm.Data.{DataMsg, eqb_ℤ}
use dlfree.Comm.Routes.{max_peer}
use dlfree.Comm.Channel.{size_of_len}
use dlfree.Comm.Channel.Keep.{bind_some}
use dlfree.Comm.Delivery.{
  Queues, Delivery, put_queue, queue_at, recv_any_loop, waits, received, comm_node_deliver_chunk,
  comm_node_recv_any_data,
}
use dlfree.Comm.Delivery.Queues.{
  total, AllOf, one_of, AllOf-append, IsDelivery, total-put, put-AllOf,
}

-- The first source from `src` on that has a message.
abbrev pub IsFirst : Queues → (src s : ℕ) → DataMsg → List DataMsg → Type 0
IsFirst queues src s m rest =
    (src ≤ s)
    × (queue_at queues s ≡ m ∷ rest)
    × ((i : ℕ) → src ≤ i → i < s → queue_at queues i ≡ [])

List-cases :
    (q : List DataMsg) → (q ≡ []) ⊎ ((m : DataMsg) × (rest : List DataMsg) × (q ≡ m ∷ rest))
List-cases [] = inl refl
List-cases (m ∷ rest) = inr (m, rest, refl)

of_first :
    (src : ℕ) (m : DataMsg) (rest : List DataMsg)
    → AllOf src (m ∷ rest)
    → (m.src_id ≡ pos src) × AllOf src rest
of_first src m rest (one_of e a) = (e, a)

recv_any_loop-skip :
    (n src : ℕ) (queues : Queues)
    → queue_at queues src ≡ []
    → recv_any_loop (suc n) src queues ≡ recv_any_loop n (src + 1) queues
unfolding recv_any_loop
recv_any_loop-skip n src queues empty = rw (recv_any_loop, empty) refl

recv_any_loop-IsFirst :
    (n src : ℕ) (queues : Queues)
    → ((i : ℕ) → AllOf i (queue_at queues i))
    → 0 < total queues n src
    → (s : ℕ) × (m : DataMsg) × (rest : List DataMsg) × (recv_any_loop n src queues
        ≡ some (some (s, m, put_queue queues s rest)))
      × (s < src + n)
      × IsFirst queues src s m rest
unfolding recv_any_loop total
recv_any_loop-IsFirst zero src queues all lt = absurd (omega (arith, lt))
recv_any_loop-IsFirst (suc n) src queues all lt = elim (List-cases (queue_at queues src)) [
  | inl empty ↦
      let (s, m, rest, run, below, (le, at, before)) =
        recv_any_loop-IsFirst n (src + 1) queues all
          (let e : length (queue_at queues src) ≡ 0 = ap length empty in omega (arith, lt, e)) in
      (
        s,
        m,
        rest,
        recv_any_loop-skip n src queues empty ∙ run,
        omega (arith, below),
        (
          omega (arith, le),
          at,
          λ i le_i lt_i. elim (Bool-cases (i == src)) [
            | inl here ↦ let e : i ≡ src = ground (arith, here) in rw e empty
            | inr there ↦ before i (ground (arith, there, le_i)) lt_i
          ],
        ),
      )
  | inr (m, rest, at) ↦
      let (own, _) = of_first src m rest (rw at at (all src)) in
      let e : eqb_ℤ m.src_id (pos src) ≡ true = rw own (ground arith) in
      (
        src,
        m,
        rest,
        rw (recv_any_loop, at, e) refl,
        omega arith,
        (omega arith, at, λ i le_i lt_i. absurd (omega (arith, le_i, lt_i))),
      )
]

-- If the counter is the number of messages that wait, each in the queue of its source, then the
-- receiving call waits where there is none; else it returns the oldest message of the first source
-- that has one, and just this message is gone.
pub comm_node_recv_any_data-IsFirst :
    (node : Delivery)
    → IsDelivery node
    → ((total node.queues max_peer 0 ≡ 0) × (comm_node_recv_any_data node ≡ some (waits, node)))
      ⊎ ((s : ℕ) × (m : DataMsg) × (rest : List DataMsg) × (node' : Delivery)
          × (comm_node_recv_any_data node ≡ some (received s m.len m.user_msg_data, node'))
          × IsFirst node.queues 0 s m rest
          × (node'.queues ≡ put_queue node.queues s rest)
          × IsDelivery node')
unfolding comm_node_recv_any_data
comm_node_recv_any_data-IsFirst node d = elim (Bool-cases (ltb 0 node.unacked)) [
  | inr none_left ↦ let e = d.counted in inl (ground (arith, none_left, e), rw none_left refl)
  | inl some_left ↦
      let e = d.counted in
      let (s, m, rest, run, below, (le, at, before)) =
        recv_any_loop-IsFirst max_peer 0 node.queues d.of_source (ground (arith, some_left, e)) in
      let node' = record node {
        queues = put_queue node.queues s rest;
        unacked = node.unacked - 1;
      } in
      let changed = rw at at (total-put node.queues s rest max_peer 0 le below) in
      let all =
        put-AllOf node.queues s rest (of_first s m rest (rw at at (d.of_source s))).1 d.of_source in
      inr (
        s,
        m,
        rest,
        node',
        rw some_left (rw run refl),
        (le, at, before),
        refl,
        record { counted = ground (arith, changed, e); of_source = all },
      )
]

-- Delivering keeps the counter right.
pub deliver_chunk-IsDelivery :
    (node node' : Delivery) (msg : DataMsg)
    → IsDelivery node
    → comm_node_deliver_chunk node msg ≡ some node'
    → IsDelivery node'
unfolding comm_node_deliver_chunk
deliver_chunk-IsDelivery node node' msg d run =
    let (src, e_src, run₁) = bind_some (size_of_len msg.src_id) _ _ run in
    by_source src (size_of_len-pos msg.src_id src e_src) run₁
  where
    size_of_len-pos : (z : ℤ) (n : ℕ) → size_of_len z ≡ some n → z ≡ pos n
    size_of_len-pos (pos m) n e = ap pos (some_injective e)
    size_of_len-pos (negsuc m) n e = absurd (none_ne_some e)

    by_source :
        (src : ℕ)
        → msg.src_id ≡ pos src
        → ◌≡◌ {A = Option Delivery}
            (if ltb src max_peer
              then some (record node {
                queues = put_queue node.queues src (queue_at node.queues src ++ msg ∷ []);
                unacked = node.unacked + 1;
                recvd = node.recvd + 1;
              })
              else none)
            (some node')
        → IsDelivery node'
    by_source src own run = elim (Bool-cases (ltb src max_peer)) [
      | inr far ↦ absurd (none_ne_some (rw far at run))
      | inl near ↦
          let changed =
            total-put node.queues src (queue_at node.queues src ++ msg ∷ []) max_peer 0
              (omega arith) (ground (arith, near)) in
          let longer = length-append {0} (queue_at node.queues src) (msg ∷ []) in
          let e = d.counted in
          rw (← some_injective (rw near at run)) (record {
            counted = omega (arith, changed, longer, e);
            of_source =
                put-AllOf node.queues src _
                  (AllOf-append src (queue_at node.queues src) msg (d.of_source src) own)
                  d.of_source;
          })
    ]
