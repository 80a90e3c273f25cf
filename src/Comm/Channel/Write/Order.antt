-- ===== src/Comm/Channel/Write/Order.antt =====
-- `channel_write` as a whole: what it sends, whom it unblocks, and that it ends.
use mathlib.Core.List.{append_assoc}
use dlfree.Base.{
  has, ℕ, ◌<◌, ◌≤◌, ◌≡◌, ◌≢◌, ◌⊎◌, refl, ap, sym, ◌∙◌, Bool, true, false, some, List, [], ◌∷◌, ◌++◌,
  length, inl, inr, arith, Bool-cases,
}
use dlfree.Comm.Msg.{MsgBuff}
use dlfree.Comm.Channel.{Channel, Channels, queue_limit}
use dlfree.Comm.Channel.Waiting.{
  wait_of, queue_of, curr_of, state_of, IsBuff, AllBuffs, more_buffs, IsOrderly, IsFull, payload,
  payloads, waiting_bytes, pending,
}
use dlfree.Comm.Channel.Write.{WriteStatus, write_ok, write_eagain, write_err, Out}
use dlfree.Comm.Channel.Write.Send.{Sent}
use dlfree.Comm.Channel.Write.Requeue.{
  requeued, requeued-wait_of, requeued-curr_of, requeued-state_of, requeued-id, requeued-else,
  requeued-IsOrderly, requeued-pending,
}
use dlfree.Comm.Channel.Write.Unblock.{Freed, Unblocked}

-- What a write to the channel `id` does to the channels.
pub record Written (id : ℕ) (chans chans' : Channels) (u u' : Bool) (stat : WriteStatus)
    (sent sent' : List ℕ) : Type 0 where
  pub orderly : IsOrderly chans'
  pub conserved : sent' ++ pending chans' id ≡ sent ++ pending chans id
  pub own_full : IsFull (chans id) → IsFull (chans' id)
  pub all_full : (j : ℕ) → j ≢ id → IsFull (chans j) → IsFull (chans' j)
  pub frame : (j : ℕ) → j ≢ id → has j (wait_of (chans id)) ≡ false → chans' j ≡ chans j
  pub freed : (j : ℕ) → has j (wait_of (chans id)) ≡ true → Freed chans' id j
  pub queues : (j : ℕ) → j ≢ id → queue_of (chans' j) ≡ queue_of (chans j)
  pub own_curr : curr_of (chans' id) ≡ curr_of (chans id)
  pub told : (u' ≡ true) ⊎ ((u' ≡ u) × ((j : ℕ) → state_of (chans' j) ≡ state_of (chans j)))
  pub status :
      ((stat ≡ write_ok) × (queue_of (chans' id) ≡ []))
      ⊎ (((stat ≡ write_eagain) ⊎ (stat ≡ write_err)) × (0 < length (queue_of (chans' id))))

pub nothing_left :
    (id : ℕ) (chans : Channels) (u : Bool) (sent : List ℕ)
    → IsOrderly chans
    → queue_of (chans id) ≡ []
    → Written id chans chans u u write_ok sent sent
nothing_left id chans u sent o e = record {
  orderly = o;
  conserved = refl;
  own_full = λ full. full;
  all_full = λ j h full. full;
  frame = λ j h out. refl;
  freed = λ j h. inl h;
  queues = λ j h. refl;
  own_curr = refl;
  told = inr (refl, λ j. refl);
  status = inl (refl, e);
}

regroup : (a b c d q w : List ℕ) → a ++ b ≡ c ++ d → a ++ ((b ++ q) ++ w) ≡ c ++ ((d ++ q) ++ w)
regroup a b c d q w e = spread a b ∙ (ap (λ (l : List ℕ). l ++ (q ++ w)) e ∙ sym (spread c d))
  where
    spread : (x y : List ℕ) → x ++ ((y ++ q) ++ w) ≡ (x ++ y) ++ (q ++ w)
    spread x y = ap (λ (l : List ℕ). x ++ l) (append_assoc y q w) ∙ sym (append_assoc x y (q ++ w))

module _ (id : ℕ) (chans : Channels) (c : Channel) (b : MsgBuff) (q : List MsgBuff)
    (o : IsOrderly chans) (at : chans id ≡ some c) (queue : c.buff_queue ≡ b ∷ q) where
  pub first_fits : IsBuff b
  first_fits =
      let all : AllBuffs (b ∷ q) = rw (at, queue) at (o.buffs id) in
      elim all [ more_buffs h hs ↦ h ]

  rest_fits : AllBuffs q
  rest_fits =
      let all : AllBuffs (b ∷ q) = rw (at, queue) at (o.buffs id) in
      elim all [ more_buffs h hs ↦ hs ]

  before : pending chans id ≡ (payload b ++ payloads q) ++ waiting_bytes chans (wait_of (chans id))
  unfolding pending payloads
  before = rw (at, queue) refl

  -- The chunk is not gone yet.
  pub stopped :
      (b' : MsgBuff) (count : ℕ) (u : Bool) (stat : WriteStatus) (out out' : Out)
      → Sent b b' stat out out'
      → (stat ≡ write_eagain) ⊎ (stat ≡ write_err)
      → Written id chans (requeued chans id c (b' ∷ q) count) u u stat out.sent out'.sent
  unfolding payloads
  stopped b' count u stat out out' s why =
      let here = requeued-id chans id c (b' ∷ q) count at in
      record {
        orderly = requeued-IsOrderly chans id c (b' ∷ q) count at o (more_buffs s.fits rest_fits);
        conserved =
            ap (λ (l : List ℕ). out'.sent ++ l) (requeued-pending chans id c (b' ∷ q) count at)
            ∙ (regroup out'.sent (payload b') out.sent (payload b) (payloads q)
                  (waiting_bytes chans (wait_of (chans id))) s.conserved
                ∙ ap (λ (l : List ℕ). out.sent ++ l) (sym before));
        own_full = λ full.
            let full' : (c.wait_queue ≡ []) ⊎ (queue_limit ≤ length (b ∷ q)) =
              rw (at, queue) at full in
            rw here full';
        all_full = λ j h full. rw (requeued-else chans id c (b' ∷ q) count at j h) full;
        frame = λ j h out. requeued-else chans id c (b' ∷ q) count at j h;
        freed = λ j h. inl (rw (requeued-wait_of chans id c (b' ∷ q) count at id) h);
        queues = λ j h. ap queue_of (requeued-else chans id c (b' ∷ q) count at j h);
        own_curr = requeued-curr_of chans id c (b' ∷ q) count at id;
        told = inr (refl, requeued-state_of chans id c (b' ∷ q) count at);
        status = inr (why, rw here (omega arith));
      }

  module _ (count : ℕ) where
    abbrev pub popped : Channels
    popped = requeued chans id c q count

    pub popped-IsOrderly : IsOrderly popped
    popped-IsOrderly = requeued-IsOrderly chans id c q count at o rest_fits

    -- The chunk is gone, some channels have pushed theirs, and then more is written.
    pub went_on :
        (b' : MsgBuff) (u u₁ u₂ : Bool) (stat stat' : WriteStatus) (out out' : Out)
        (chans₁ chans₂ : Channels) (sent₂ : List ℕ)
        → Sent b b' stat out out'
        → payload b' ≡ []
        → Unblocked id popped chans₁
        → IsFull (chans₁ id)
        → (u₁ ≡ true) ⊎ ((u₁ ≡ u) × (chans₁ ≡ popped))
        → Written id chans₁ chans₂ u₁ u₂ stat' out'.sent sent₂
        → Written id chans chans₂ u u₂ stat' out.sent sent₂
    unfolding payloads
    went_on b' u u₁ u₂ stat stat' out out' chans₁ chans₂ sent₂ s gone ub full told w = record {
      orderly = w.orderly;
      conserved =
          w.conserved
          ∙ (ap (λ (l : List ℕ). out'.sent ++ l)
                (ub.conserved ∙ requeued-pending chans id c q count at)
              ∙ (regroup out'.sent [] out.sent (payload b) (payloads q)
                    (waiting_bytes chans (wait_of (chans id))) (rw gone at s.conserved)
                  ∙ ap (λ (l : List ℕ). out.sent ++ l) (sym before)));
      own_full = λ _. w.own_full full;
      all_full = λ j h old.
          w.all_full j h (ub.all_full j h (rw (requeued-else chans id c q count at j h) old));
      frame = λ j h out.
          let out_popped : has j (wait_of (popped id)) ≡ false =
            rw (requeued-wait_of chans id c q count at id) out in
          w.frame j h (still_out j out_popped)
          ∙ (ub.frame j h out_popped ∙ requeued-else chans id c q count at j h);
      freed = λ j h. freed_by j (rw (requeued-wait_of chans id c q count at id) h);
      queues = λ j h.
          w.queues j h ∙ (ub.queues j h ∙ ap queue_of (requeued-else chans id c q count at j h));
      own_curr = w.own_curr ∙ (ub.own_curr ∙ requeued-curr_of chans id c q count at id);
      told = elim told [
        | inl yes_told ↦ elim w.told [ inl t ↦ inl t | inr (t, _) ↦ inl (t ∙ yes_told) ]
        | inr (same_u, same) ↦ elim w.told [
          | inl t ↦ inl t
          | inr (t, states) ↦ inr (
            t ∙ same_u,
            λ j.
                states j
                ∙ (ap (λ (f : Channels). state_of (f j)) same
                    ∙ requeued-state_of chans id c q count at j),
          )
        ]
      ];
      status = w.status;
    }
      where
        still_out :
            (j : ℕ) → has j (wait_of (popped id)) ≡ false → has j (wait_of (chans₁ id)) ≡ false
        still_out j out = elim (Bool-cases (has j (wait_of (chans₁ id)))) [
          | inr fine ↦ fine
          | inl clash ↦ let old = ub.fewer j clash in cc
        ]

        freed_by : (j : ℕ) → has j (wait_of (popped id)) ≡ true → Freed chans₂ id j
        freed_by j h = elim (Bool-cases (has j (wait_of (chans₁ id)))) [
          | inl waits ↦ w.freed j waits
          | inr gone' ↦
              let apart : j ≢ id =
                (λ e. let no = popped-IsOrderly.others id in let h' = rw e at h in cc) in
              let same = w.frame j apart gone' in
              elim (ub.freed j h) [
                | inl waits ↦ absurd (let clash = waits in cc)
                | inr (no_chunk, is_active) ↦
                    inr (ap curr_of same ∙ no_chunk, ap state_of same ∙ is_active)
              ]
        ]
