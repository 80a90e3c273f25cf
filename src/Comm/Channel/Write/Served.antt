-- ===== src/Comm/Channel/Write/Served.antt =====
-- One round of the loop of `channel_write` that lets waiting channels push their chunks.
use mathlib.Core.List.{append_assoc, append-nil}
use dlfree.Base.{
  has, ℕ, ◌+◌, ◌≡◌, ◌≢◌, ◌⊎◌, refl, ap, sym, ◌∙◌, Bool, true, false, Option, none, some, List, [],
  ◌∷◌, ◌++◌, ltb, ◌==◌, if◌then◌else◌, length, length-append, inl, inr, arith, Bool-cases,
  none_ne_some, some_injective,
}
use dlfree.Comm.Msg.{MsgBuff}
use dlfree.Comm.Channel.{
  Channel, Channels, put_channel, active, queue_limit, channel_pipeline_chunk,
}
use dlfree.Comm.Channel.Waiting.{
  wait_of, queue_of, curr_of, state_of, IsBuff, AllBuffs, no_buffs, more_buffs, Holds, IsOrderly,
  IsFull, payload, payloads, waiting_bytes, pending,
}

-- A chunk is held by a channel.
pub holder :
    (c : Option Channel) (b : MsgBuff)
    → curr_of c ≡ some b
    → (chan : Channel) × (c ≡ some chan) × (chan.curr_buff ≡ some b)
holder none b e = absurd (none_ne_some e)
holder (some chan) b e = (chan, refl, e)

pub buffs-append :
    (bs : List MsgBuff) (b : MsgBuff) → AllBuffs bs → IsBuff b → AllBuffs (bs ++ b ∷ [])
buffs-append [] b no_buffs h = more_buffs h no_buffs
buffs-append (x ∷ bs) b (more_buffs hx hs) h = more_buffs hx (buffs-append bs b hs h)

pub payloads-append : (bs cs : List MsgBuff) → payloads (bs ++ cs) ≡ payloads bs ++ payloads cs
unfolding payloads
payloads-append [] cs = refl
payloads-append (b ∷ bs) cs =
    rw (payloads-append bs cs) (sym (append_assoc (payload b) (payloads bs) (payloads cs)))

-- The bytes that wait are those of the same chunks.
pub waiting_bytes-eq :
    (chans chans' : Channels) (ws : List ℕ)
    → ((w : ℕ) → has w ws ≡ true → curr_of (chans' w) ≡ curr_of (chans w))
    → waiting_bytes chans' ws ≡ waiting_bytes chans ws
unfolding waiting_bytes
waiting_bytes-eq chans chans' [] same = refl
waiting_bytes-eq chans chans' (w ∷ ws) same =
    rw (same w (ground arith), waiting_bytes-eq chans chans' ws (λ x h. same x (ground arith))) refl

module _ (chans : Channels) (id w : ℕ) (ws : List ℕ) (chan wc : Channel) (buff : MsgBuff) where
  -- The channel `w` has pushed its chunk onto the queue of `id`.
  abbrev pub without_waiter : Channels
  without_waiter = put_channel chans id (record chan { wait_queue = ws })

  abbrev pub served : Channels
  served =
      put_channel (put_channel without_waiter w (record wc { state = active; curr_buff = none })) id
        (record chan { wait_queue = ws; buff_queue = chan.buff_queue ++ buff ∷ [] })

  module _ (apart : w ≢ id) (is_waiter : chans w ≡ some wc)
      (has_chunk : wc.curr_buff ≡ some buff) where
    pub pipeline-served :
        ltb (length chan.buff_queue) queue_limit ≡ true
        → channel_pipeline_chunk w id without_waiter ≡ some (true, served)
    unfolding channel_pipeline_chunk
    pipeline-served room =
        let e : (w == id) ≡ false = ground (arith, apart) in
        let e' : (id == w) ≡ false = ground (arith, apart) in
        let e'' : (id == id) ≡ true = ground arith in
        rw (e, is_waiter, has_chunk, e', e'', room) refl

    pub served-id :
        served id
        ≡ some (record chan { wait_queue = ws; buff_queue = chan.buff_queue ++ buff ∷ [] })
    served-id = ground arith

    pub served-waiter : served w ≡ some (record wc { state = active; curr_buff = none })
    served-waiter = ground (arith, apart)

    pub served-else : (j : ℕ) → j ≢ id → j ≢ w → served j ≡ chans j
    served-else j h h' = ground (arith, h, h')

    module _ (at : chans id ≡ some chan) (waits : chan.wait_queue ≡ w ∷ ws)
        (o : IsOrderly chans) where
      at_waiter : (j : ℕ) → (j == w) ≡ true → chans j ≡ some wc
      at_waiter j here = let e : j ≡ w = ground (arith, here) in ap chans e ∙ is_waiter

      served-wait_of : (j : ℕ) → wait_of (served j) ≡ (if j == id then ws else wait_of (chans j))
      served-wait_of j = elim (Bool-cases (j == id)) [
        | inl same ↦ rw same refl
        | inr other ↦ elim (Bool-cases (j == w)) [
          | inl here ↦ rw (other, here) (sym (ap wait_of (at_waiter j here)))
          | inr there ↦ rw (other, there) refl
        ]
      ]

      served-queue_of :
          (j : ℕ)
          → queue_of (served j)
            ≡ (if j == id then chan.buff_queue ++ buff ∷ [] else queue_of (chans j))
      served-queue_of j = elim (Bool-cases (j == id)) [
        | inl same ↦ rw same refl
        | inr other ↦ elim (Bool-cases (j == w)) [
          | inl here ↦ rw (other, here) (sym (ap queue_of (at_waiter j here)))
          | inr there ↦ rw (other, there) refl
        ]
      ]

      pub served-same_queue : (j : ℕ) → j ≢ id → queue_of (served j) ≡ queue_of (chans j)
      served-same_queue j h =
          let e : (j == id) ≡ false = ground (arith, h) in
          served-queue_of j
          ∙ ap (λ (t : Bool). if t then chan.buff_queue ++ buff ∷ [] else queue_of (chans j)) e

      -- Channels other than `w` keep their chunk and their state.
      served-same :
          (j : ℕ)
          → j ≢ w
          → (curr_of (served j) ≡ curr_of (chans j)) × (state_of (served j) ≡ state_of (chans j))
      served-same j h = elim (Bool-cases (j == id)) [
        | inl same ↦
            let e : j ≡ id = ground (arith, same) in
            let here : chans j ≡ some chan = ap chans e ∙ at in
            (rw same (sym (ap curr_of here)), rw same (sym (ap state_of here)))
        | inr other ↦
            let there : (j == w) ≡ false = ground (arith, h) in
            (rw (other, there) refl, rw (other, there) refl)
      ]

      unique : has w ws ≡ false
      unique = let d = o.once id in let d' = rw (at, waits) at d in ground (arith, d')

      is_waiting : has w (wait_of (chans id)) ≡ true
      is_waiting = rw (at, waits) (ground arith)

      -- Who waits afterwards has waited before, and is not `w`.
      pub served-has :
          (j x : ℕ)
          → has x (wait_of (served j)) ≡ true
          → (has x (wait_of (chans j)) ≡ true) × (x ≢ w)
      served-has j x h =
          let h' = rw (served-wait_of j) at h in
          elim (Bool-cases (j == id)) [
            | inl same ↦
                let e : j ≡ id = ground (arith, same) in
                let in_ws : has x ws ≡ true = rw same at h' in
                (
                  rw (e, at, waits) (ground (arith, in_ws)),
                  λ e'. let clash = rw e' at in_ws in let u = unique in cc,
                )
            | inr other ↦
                let old : has x (wait_of (chans j)) ≡ true = rw other at h' in
                (
                  old,
                  λ e'.
                      let e : j ≡ id = o.one_place j id w (rw e' at old) is_waiting in
                      absurd (ground (arith, other, e)),
                )
          ]

      pub served-IsOrderly : IsOrderly served
      served-IsOrderly =
          let buff_fits : IsBuff buff =
            let r = o.holds id w is_waiting in
            let held = rw is_waiter at r.held in
            rw (some_injective (sym has_chunk ∙ held)) r.chunk_fits in
          record {
            buffs = λ j. rw (served-queue_of j) (elim (Bool-cases (j == id)) [
              | inl same ↦
                  rw same (buffs-append chan.buff_queue buff (rw at at (o.buffs id)) buff_fits)
              | inr other ↦ rw other (o.buffs j)
            ]);
            holds =
                λ j x h. let (old, apart') = served-has j x h in still x apart' (o.holds j x old);
            once = λ j. rw (served-wait_of j) (elim (Bool-cases (j == id)) [
              | inl same ↦
                  rw same (let d = o.once id in let d' = rw (at, waits) at d in ground (arith, d'))
              | inr other ↦ rw other (o.once j)
            ]);
            one_place =
                λ j j' x h h'. o.one_place j j' x (served-has j x h).0 (served-has j' x h').0;
            others = λ j. elim (Bool-cases (has j (wait_of (served j)))) [
              | inr fine ↦ fine
              | inl clash ↦ let old = (served-has j j clash).0 in absurd (let no = o.others j in cc)
            ];
          }
        where
          still : (x : ℕ) → x ≢ w → Holds (chans x) → Holds (served x)
          still x h r =
              let (same_curr, same_state) = served-same x h in
              record {
                blocked = same_state ∙ r.blocked;
                chunk = r.chunk;
                held = same_curr ∙ r.held;
                chunk_fits = r.chunk_fits;
              }

      pub served-pending : pending served id ≡ pending chans id
      unfolding pending waiting_bytes payloads
      served-pending =
          let e : (id == id) ≡ true = ground arith in
          let u = unique in
          let rest : waiting_bytes served ws ≡ waiting_bytes chans ws =
            waiting_bytes-eq chans served ws
              (λ x h. (served-same x (λ e'. let clash = rw e' at h in cc)).0) in
          let here : wait_of (served id) ≡ ws = rw (served-wait_of id, e) refl in
          let there : queue_of (served id) ≡ chan.buff_queue ++ buff ∷ [] =
            rw (served-queue_of id, e) refl in
          rw (here, there, rest, at, waits, is_waiter, has_chunk)
            (ap (λ (l : List ℕ). l ++ waiting_bytes chans ws)
                (payloads-append chan.buff_queue (buff ∷ []))
              ∙ (append_assoc (payloads chan.buff_queue) (payload buff ++ [])
                    (waiting_bytes chans ws)
                  ∙ ap (λ (l : List ℕ). payloads chan.buff_queue ++ (l ++ waiting_bytes chans ws))
                      (append-nil (payload buff))))

      pub served-IsFull : (j : ℕ) → j ≢ id → IsFull (chans j) → IsFull (served j)
      served-IsFull j other h =
          let e : (j == id) ≡ false = ground (arith, other) in
          rw (served-wait_of j, served-queue_of j, e) h

      pub served-freed : (curr_of (served w) ≡ none) × (state_of (served w) ≡ active)
      served-freed = (ap curr_of served-waiter, ap state_of served-waiter)

      pub served-other : (j : ℕ) → has j (wait_of (chans id)) ≡ false → j ≢ id → served j ≡ chans j
      served-other j h other =
          served-else j other (λ e. let clash = rw e at h in let yes_waits = is_waiting in cc)

      pub served-still_waits :
          (j : ℕ)
          → has j (wait_of (chans id)) ≡ true
          → (has j (wait_of (served id)) ≡ true) ⊎ (j ≡ w)
      served-still_waits j h =
          let e : (id == id) ≡ true = ground arith in
          let h' = rw (at, waits) at h in
          rw (served-wait_of id, e)
            (elim (Bool-cases (j == w)) [
              | inl here ↦ inr (ground (arith, here))
              | inr there ↦ inl (ground (arith, there, h'))
            ])

      pub served_unique : has w (wait_of (served id)) ≡ false
      served_unique = elim (Bool-cases (has w (wait_of (served id)))) [
        | inr out ↦ out
        | inl clash ↦ absurd ((served-has id w clash).1 refl)
      ]

      pub served-left :
          length (queue_of (served id)) + length (wait_of (served id))
          ≡ length (queue_of (chans id)) + length (wait_of (chans id))
      served-left =
          rw (served-id, at, waits) (omega (arith, length-append {0} chan.buff_queue (buff ∷ [])))
