-- ===== src/Comm/Channel/Write/Requeue.antt =====
-- A channel with another queue: who waits, and with what, stays the same.
use dlfree.Base.{ℕ, ◌≡◌, ◌≢◌, refl, ap, ◌∙◌, some, List, ◌++◌, ◌==◌, inl, inr, arith, Bool-cases}
use dlfree.Comm.Msg.{MsgBuff}
use dlfree.Comm.Channel.{Channel, Channels, put_channel}
use dlfree.Comm.Channel.Waiting.{
  wait_of, curr_of, state_of, AllBuffs, IsOrderly, payloads, waiting_bytes, pending,
}
use dlfree.Comm.Channel.Write.Served.{waiting_bytes-eq}

module _ (chans : Channels) (id : ℕ) (c : Channel) (queue : List MsgBuff) (count : ℕ) where
  abbrev pub requeued : Channels
  requeued = put_channel chans id (record c { buff_queue = queue; tx_count = count })

  module _ (at : chans id ≡ some c) where
    pub requeued-wait_of : (j : ℕ) → wait_of (requeued j) ≡ wait_of (chans j)
    requeued-wait_of j = elim (Bool-cases (j == id)) [
      | inl here ↦ let e : j ≡ id = ground (arith, here) in rw (here, e, at) refl
      | inr there ↦ rw there refl
    ]

    pub requeued-curr_of : (j : ℕ) → curr_of (requeued j) ≡ curr_of (chans j)
    requeued-curr_of j = elim (Bool-cases (j == id)) [
      | inl here ↦ let e : j ≡ id = ground (arith, here) in rw (here, e, at) refl
      | inr there ↦ rw there refl
    ]

    pub requeued-state_of : (j : ℕ) → state_of (requeued j) ≡ state_of (chans j)
    requeued-state_of j = elim (Bool-cases (j == id)) [
      | inl here ↦ let e : j ≡ id = ground (arith, here) in rw (here, e, at) refl
      | inr there ↦ rw there refl
    ]

    pub requeued-id : requeued id ≡ some (record c { buff_queue = queue; tx_count = count })
    requeued-id = ground arith

    pub requeued-else : (j : ℕ) → j ≢ id → requeued j ≡ chans j
    requeued-else j h = ground (arith, h)

    pub requeued-IsOrderly : IsOrderly chans → AllBuffs queue → IsOrderly requeued
    requeued-IsOrderly o fits = record {
      buffs = λ j. elim (Bool-cases (j == id)) [
        | inl here ↦ rw here fits
        | inr there ↦ rw there (o.buffs j)
      ];
      holds = λ j x h.
          let r = o.holds j x (rw (← requeued-wait_of j) h) in
          record {
            blocked = requeued-state_of x ∙ r.blocked;
            chunk = r.chunk;
            held = requeued-curr_of x ∙ r.held;
            chunk_fits = r.chunk_fits;
          };
      once = λ j. rw (requeued-wait_of j) (o.once j);
      one_place = λ j j' x h h'.
          o.one_place j j' x (rw (← requeued-wait_of j) h) (rw (← requeued-wait_of j') h');
      others = λ j. rw (requeued-wait_of j) (o.others j);
    }

    -- The bytes on their way: those of the queue, and behind them those that have waited before.
    pub requeued-pending :
        pending requeued id ≡ payloads queue ++ waiting_bytes chans (wait_of (chans id))
    unfolding pending
    requeued-pending =
        rw (requeued-wait_of id, requeued-id)
          (ap (λ (l : List ℕ). payloads queue ++ l)
            (waiting_bytes-eq chans requeued (wait_of (chans id)) (λ x h. requeued-curr_of x)))
