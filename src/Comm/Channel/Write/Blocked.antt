-- ===== src/Comm/Channel/Write/Blocked.antt =====
-- A channel that is held up by its socket, and the others, as an unblocking that does nothing leaves them.
use dlfree.Base.{
  ℕ, zero, suc, ◌≡◌, ◌≢◌, ap, sym, ◌∙◌, Bool, true, false, Option, some, List, ◌∷◌, ltb, length,
  inl, inr, arith, Bool-cases, none_ne_some, some_injective,
}
use dlfree.Comm.Msg.{MsgBuff}
use dlfree.Comm.Channel.{Channel, Channels, put_channel, queue_limit, channel_pipeline_chunk}
use dlfree.Comm.Channel.Keep.{bind_some}
use dlfree.Comm.Channel.Write.{unblock_loop}
use dlfree.Comm.Channel.Write.Unblock.{List-cases}

true_ne_false : {A : Type 0} → true ≡ false → A
true_ne_false e = absurd (ground (arith, e))

-- The loop over the waiting channels tells what it does.
pub unblock_loop-quiet :
    (fuel id : ℕ) (chans chans' : Channels) (u : Bool)
    → unblock_loop fuel id chans u ≡ some (false, chans')
    → (u ≡ false) × (chans' ≡ chans)
unfolding unblock_loop
unblock_loop-quiet zero id chans chans' u run =
    (ap (λ p. p.0) (some_injective run), sym (ap (λ p. p.1) (some_injective run)))
unblock_loop-quiet (suc fuel) id chans chans' u run =
    let (c, _, run₁) = bind_some (chans id) _ _ run in
    elim (List-cases c.wait_queue) [
      | inl nobody ↦ unchanged (rw nobody at run₁)
      | inr (w, ws, waits) ↦
          let run₂ = rw waits at run₁ in
          elim (Bool-cases (ltb (length c.buff_queue) queue_limit)) [
            | inr full ↦ unchanged (rw full at run₂)
            | inl room ↦
                let (pc, _, run₃) =
                  bind_some
                    (channel_pipeline_chunk w id
                      (put_channel chans id (record c { wait_queue = ws })))
                    _ _ (rw room at run₂) in
                elim (Bool-cases pc.0) [
                  | inr not_pushed ↦ absurd (none_ne_some (rw not_pushed at run₃))
                  | inl pushed ↦
                      true_ne_false
                        (unblock_loop-quiet fuel id pc.1 chans' true (rw pushed at run₃)).0
                ]
          ]
    ]
  where
    unchanged :
        ◌≡◌ {A = Option (Bool × Channels)} (some (u, chans)) (some (false, chans'))
        → (u ≡ false) × (chans' ≡ chans)
    unchanged e = (ap (λ p. p.0) (some_injective e), sym (ap (λ p. p.1) (some_injective e)))

-- The channel `id` has something to send before and after, in the same state; the others are the
-- same.
pub record HeldUp (id : ℕ) (chans chans' : Channels) : Type 0 where
  pub before : Channel
  pub present : chans id ≡ some before
  pub first : MsgBuff
  pub rest : List MsgBuff
  pub had : before.buff_queue ≡ first ∷ rest
  pub after : Channel
  pub present' : chans' id ≡ some after
  pub first' : MsgBuff
  pub rest' : List MsgBuff
  pub has : after.buff_queue ≡ first' ∷ rest'
  pub state : after.state ≡ before.state
  pub others : (j : ℕ) → j ≢ id → chans' j ≡ chans j

put_self : (chans : Channels) (id : ℕ) (c : Channel) → put_channel chans id c id ≡ some c
put_self chans id c = ground arith

put_other :
    (chans : Channels) (id : ℕ) (c : Channel) (j : ℕ) → j ≢ id → put_channel chans id c j ≡ chans j
put_other chans id c j h = ground (arith, h)

-- A chunk is gone, and then the loop is held up.
pub HeldUp-later :
    (id : ℕ) (chans chans' : Channels) (c c' : Channel) (b : MsgBuff) (q : List MsgBuff)
    → chans id ≡ some c
    → c.buff_queue ≡ b ∷ q
    → c'.state ≡ c.state
    → HeldUp id (put_channel chans id c') chans'
    → HeldUp id chans chans'
HeldUp-later id chans chans' c c' b q at queue same h =
    let again : h.before ≡ c' = some_injective (sym h.present ∙ put_self chans id c') in
    record {
      before = c;
      present = at;
      first = b;
      rest = q;
      had = queue;
      after = h.after;
      present' = h.present';
      first' = h.first';
      rest' = h.rest';
      has = h.has;
      state = h.state ∙ (ap (λ (x : Channel). x.state) again ∙ same);
      others = λ j out. h.others j out ∙ put_other chans id c' j out;
    }

pub HeldUp-now :
    (id : ℕ) (chans : Channels) (c c' : Channel) (b b' : MsgBuff) (q : List MsgBuff)
    → chans id ≡ some c
    → c.buff_queue ≡ b ∷ q
    → c'.buff_queue ≡ b' ∷ q
    → c'.state ≡ c.state
    → HeldUp id chans (put_channel chans id c')
HeldUp-now id chans c c' b b' q at queue queue' same = record {
  before = c;
  present = at;
  first = b;
  rest = q;
  had = queue;
  after = c';
  present' = put_self chans id c';
  first' = b';
  rest' = q;
  has = queue';
  state = same;
  others = λ j out. put_other chans id c' j out;
}
