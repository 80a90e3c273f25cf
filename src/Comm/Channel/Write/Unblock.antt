-- ===== src/Comm/Channel/Write/Unblock.antt =====
-- The loop of `channel_write` that lets waiting channels push their chunks.
use dlfree.Base.{
  has, ℕ, zero, suc, ◌+◌, ◌≤◌, ◌≡◌, ◌≢◌, ◌⊎◌, refl, ap, sym, ◌∙◌, Bool, true, false, none, some,
  List, [], ◌∷◌, ◌++◌, ltb, length, inl, inr, arith, Bool-cases,
}
use dlfree.Comm.Msg.{MsgBuff}
use dlfree.Comm.Channel.{Channel, Channels, active, queue_limit, channel_pipeline_chunk}
use dlfree.Comm.Channel.Waiting.{wait_of, queue_of, curr_of, state_of, IsOrderly, IsFull, pending}
use dlfree.Comm.Channel.Write.{unblock_loop}
use dlfree.Comm.Channel.Write.Served.{
  holder, without_waiter, served, pipeline-served, served-id, served-IsOrderly, served-pending,
  served-IsFull, served-freed, served-other, served-still_waits, served-has, served_unique,
  served-left, served-same_queue,
}

-- What became of a channel that waited for `id`: it waits still, or is active without a chunk.
abbrev pub Freed : Channels → (id j : ℕ) → Type 0
Freed chans id j =
    (has j (wait_of (chans id)) ≡ true)
    ⊎ ((curr_of (chans j) ≡ none) × (state_of (chans j) ≡ active))

-- The channels after some that waited for `id` have pushed their chunks.
pub record Unblocked (id : ℕ) (chans chans' : Channels) : Type 0 where
  pub orderly : IsOrderly chans'
  pub chan : Channel
  pub present : chans' id ≡ some chan
  pub conserved : pending chans' id ≡ pending chans id
  pub all_full : (j : ℕ) → j ≢ id → IsFull (chans j) → IsFull (chans' j)
  pub frame : (j : ℕ) → j ≢ id → has j (wait_of (chans id)) ≡ false → chans' j ≡ chans j
  pub freed : (j : ℕ) → has j (wait_of (chans id)) ≡ true → Freed chans' id j
  pub fewer : (j : ℕ) → has j (wait_of (chans' id)) ≡ true → has j (wait_of (chans id)) ≡ true
  pub queues : (j : ℕ) → j ≢ id → queue_of (chans' j) ≡ queue_of (chans j)
  pub own_curr : curr_of (chans' id) ≡ curr_of (chans id)
  pub left :
      length (queue_of (chans' id)) + length (wait_of (chans' id))
      ≡ length (queue_of (chans id)) + length (wait_of (chans id))

unchanged :
    (id : ℕ) (chans : Channels) (c : Channel)
    → IsOrderly chans
    → chans id ≡ some c
    → Unblocked id chans chans
unchanged id chans c o at = record {
  orderly = o;
  chan = c;
  present = at;
  conserved = refl;
  all_full = λ j h full. full;
  frame = λ j h out. refl;
  freed = λ j h. inl h;
  fewer = λ j h. h;
  queues = λ j h. refl;
  own_curr = refl;
  left = refl;
}

-- One channel has pushed its chunk, and then others.
module _ (chans : Channels) (id w : ℕ) (ws : List ℕ) (c : Channel) (o : IsOrderly chans)
    (at : chans id ≡ some c) (waits : c.wait_queue ≡ w ∷ ws) where
  waiter_holds : has w (wait_of (chans id)) ≡ true
  waiter_holds = rw (at, waits) (ground arith)

  waiter-ne : w ≢ id
  waiter-ne e = let h = waiter_holds in let no = o.others id in let h' = rw e at h in cc

  module _ (wc : Channel) (buff : MsgBuff) (is_waiter : chans w ≡ some wc)
      (has_chunk : wc.curr_buff ≡ some buff) (chans' : Channels) where
    then_more : Unblocked id (served chans id w ws c wc buff) chans' → Unblocked id chans chans'
    then_more u =
        let ne = waiter-ne in
        let served' = served chans id w ws c wc buff in
        record {
          orderly = u.orderly;
          chan = u.chan;
          present = u.present;
          conserved =
              u.conserved
              ∙ served-pending chans id w ws c wc buff ne is_waiter has_chunk at waits o;
          all_full = λ j h full.
              u.all_full j h
                (served-IsFull chans id w ws c wc buff ne is_waiter has_chunk at waits o j h full);
          frame = λ j h out.
              u.frame j h (still_out j out)
              ∙ served-other chans id w ws c wc buff ne is_waiter has_chunk at waits o j out h;
          freed = λ j h.
              elim (served-still_waits chans id w ws c wc buff ne is_waiter has_chunk at waits o j
                h) [ inl waits' ↦ u.freed j waits' | inr here ↦ was_freed j here ];
          fewer = λ j h.
              (served-has chans id w ws c wc buff ne is_waiter has_chunk at waits o id j
                (u.fewer j h)).0;
          queues = λ j h.
              u.queues j h
              ∙ served-same_queue chans id w ws c wc buff ne is_waiter has_chunk at waits o j h;
          own_curr =
              u.own_curr
              ∙ (ap curr_of (served-id chans id w ws c wc buff ne is_waiter has_chunk)
                  ∙ sym (ap curr_of at));
          left = u.left ∙ served-left chans id w ws c wc buff ne is_waiter has_chunk at waits o;
        }
      where
        still_out :
            (j : ℕ)
            → has j (wait_of (chans id)) ≡ false
            → has j (wait_of (served chans id w ws c wc buff id)) ≡ false
        still_out j out = elim (Bool-cases (has j (wait_of (served chans id w ws c wc buff id)))) [
          | inr fine ↦ fine
          | inl clash ↦
              let old =
                (served-has chans id w ws c wc buff waiter-ne is_waiter has_chunk at waits o id j
                  clash).0 in
              cc
        ]

        was_freed : (j : ℕ) → j ≡ w → Freed chans' id j
        was_freed j here =
            let ne = waiter-ne in
            let (no_chunk, active') =
              served-freed chans id w ws c wc buff ne is_waiter has_chunk at waits o in
            let same : chans' w ≡ served chans id w ws c wc buff w =
              u.frame w ne
                (served_unique chans id w ws c wc buff ne is_waiter has_chunk at waits o) in
            rw here (inr (ap curr_of same ∙ no_chunk, ap state_of same ∙ active'))

pub List-cases :
    {A : Type 0} (xs : List A) → (xs ≡ []) ⊎ ((x : A) × (rest : List A) × (xs ≡ x ∷ rest))
List-cases [] = inl refl
List-cases (x ∷ xs) = inr (x, xs, refl)

unblock_loop-step :
    (fuel id w : ℕ) (ws : List ℕ) (chans : Channels) (c wc : Channel) (buff : MsgBuff) (u : Bool)
    → chans id ≡ some c
    → c.wait_queue ≡ w ∷ ws
    → ltb (length c.buff_queue) queue_limit ≡ true
    → channel_pipeline_chunk w id (without_waiter chans id w ws c wc buff)
      ≡ some (true, served chans id w ws c wc buff)
    → unblock_loop (suc fuel) id chans u
      ≡ unblock_loop fuel id (served chans id w ws c wc buff) true
unfolding unblock_loop
unblock_loop-step fuel id w ws chans c wc buff u at waits room pushed =
    rw (at, waits, room, pushed) refl

-- The loop ends with nobody waiting, or with a full queue. It says so where it has changed anything.
pub unblock_loop-Unblocked :
    (fuel id : ℕ) (chans : Channels) (c : Channel) (u : Bool)
    → IsOrderly chans
    → chans id ≡ some c
    → length c.wait_queue ≤ fuel
    → (u' : Bool) × (chans' : Channels) × (unblock_loop fuel id chans u ≡ some (u', chans'))
      × Unblocked id chans chans'
      × IsFull (chans' id)
      × ((u' ≡ true) ⊎ ((u' ≡ u) × (chans' ≡ chans)))
unfolding unblock_loop
unblock_loop-Unblocked zero id chans c u o at le = (
  u,
  chans,
  refl,
  unchanged id chans c o at,
  rw at (inl (none_left c.wait_queue le)),
  inr (refl, refl),
)
  where
    none_left : (xs : List ℕ) → length xs ≤ 0 → xs ≡ []
    none_left [] h = refl
    none_left (x ∷ xs) h = absurd (omega arith)
unblock_loop-Unblocked (suc fuel) id chans c u o at le = elim (List-cases c.wait_queue) [
  | inl nobody ↦
      (u, chans, rw (at, nobody), unchanged id chans c o at, rw at (inl nobody), inr (refl, refl))
  | inr (w, ws, waits) ↦ elim (Bool-cases (ltb (length c.buff_queue) queue_limit)) [
    | inr no_room ↦ (
      u,
      chans,
      rw (at, waits, no_room),
      unchanged id chans c o at,
      rw at (inr (ground (arith, no_room))),
      inr (refl, refl),
    )
    | inl room ↦
        let ne = waiter-ne chans id w ws c o at waits in
        let r = o.holds id w (waiter_holds chans id w ws c o at waits) in
        let (wc, is_waiter, has_chunk) = holder (chans w) r.chunk r.held in
        let buff = r.chunk in
        let chans₁ = served chans id w ws c wc buff in
        let (u', chans', run, rest, full, told) =
          unblock_loop-Unblocked fuel id chans₁
            (record c { wait_queue = ws; buff_queue = c.buff_queue ++ buff ∷ [] }) true
            (served-IsOrderly chans id w ws c wc buff ne is_waiter has_chunk at waits o)
            (served-id chans id w ws c wc buff ne is_waiter has_chunk)
            (let le' = rw waits at le in omega (arith, le')) in
        (
          u',
          chans',
          unblock_loop-step fuel id w ws chans c wc buff u at waits room
                (pipeline-served chans id w ws c wc buff ne is_waiter has_chunk room)
              ∙ run,
          then_more chans id w ws c o at waits wc buff is_waiter has_chunk chans' rest,
          full,
          inl (elim told [ inl yes_told ↦ yes_told | inr (same, _) ↦ same ]),
        )
  ]
]
