-- ===== src/Comm/Channel/Pipeline.antt =====
-- `channel_pipeline_chunk` of src/comm/channel.c keeps the order of the waiting channels.
use dlfree.Base.{
  has, distinct, ℕ, ◌≡◌, ◌≢◌, ◌⊎◌, refl, ap, sym, ◌∙◌, true, false, ◌||◌, none, some, List, [], ◌∷◌,
  ◌++◌, ltb, ◌==◌, if◌then◌else◌, length, inl, inr, arith, Bool-cases,
}
use dlfree.Comm.Msg.{MsgBuff}
use dlfree.Comm.Channel.{
  Channel, Channels, put_channel, active, blocking, queue_limit, channel_pipeline_chunk,
}
use dlfree.Comm.Channel.Waiting.{wait_of, queue_of, IsBuff, Holds, IsOrderly, IsFull, AllFull}
use dlfree.Comm.Channel.Write.Served.{buffs-append}

has-append : (x id : ℕ) (xs : List ℕ) → has x (xs ++ id ∷ []) ≡ (has x xs || (x == id))
has-append x id [] = ground arith
has-append x id (y ∷ xs) = ground (arith, has-append x id xs)

distinct-append :
    (id : ℕ) (xs : List ℕ)
    → distinct xs ≡ true
    → has id xs ≡ false
    → distinct (xs ++ id ∷ []) ≡ true
distinct-append id [] d out = refl
distinct-append id (x ∷ xs) d out = ground (arith, has-append x id xs, distinct-append id xs)

-- The channel `id`, which is free, holds a chunk for `next`.
module _ (chans : Channels) (id next : ℕ) (chan target : Channel) (buff : MsgBuff)
    (o : IsOrderly chans) (at : chans id ≡ some chan) (there : chans next ≡ some target)
    (apart : id ≢ next) (holds_chunk : chan.curr_buff ≡ some buff) (fits : IsBuff buff)
    (unblocked : (j : ℕ) → has id (wait_of (chans j)) ≡ false) where
  abbrev pub pushed : Channels
  pushed =
      put_channel (put_channel chans id (record chan { state = active; curr_buff = none })) next
        (record target { buff_queue = target.buff_queue ++ buff ∷ [] })

  abbrev pub blocked : Channels
  blocked =
      put_channel (put_channel chans id (record chan { state = blocking })) next
        (record target { wait_queue = target.wait_queue ++ id ∷ [] })

  pub pipeline-pushed :
      ltb (length target.buff_queue) queue_limit ≡ true
      → channel_pipeline_chunk id next chans ≡ some (true, pushed)
  unfolding channel_pipeline_chunk
  pipeline-pushed room =
      let e : (next == id) ≡ false = ground (arith, apart) in
      rw (at, holds_chunk, there, e, room) refl

  pub pipeline-blocked :
      ltb (length target.buff_queue) queue_limit ≡ false
      → channel_pipeline_chunk id next chans ≡ some (false, blocked)
  unfolding channel_pipeline_chunk
  pipeline-blocked full =
      let e : (next == id) ≡ false = ground (arith, apart) in
      rw (at, there) (simp (holds_chunk, e, there, full))

  pushed-wait_of : (j : ℕ) → wait_of (pushed j) ≡ wait_of (chans j)
  pushed-wait_of j = elim (Bool-cases (j == next)) [
    | inl here ↦ let e : j ≡ next = ground (arith, here) in rw (here, e, there) refl
    | inr other ↦ elim (Bool-cases (j == id)) [
      | inl self ↦
          let e : j ≡ id = ground (arith, self) in
          rw (other, self) (sym (ap wait_of (ap chans e ∙ at)))
      | inr out ↦ rw (other, out) refl
    ]
  ]

  pushed-queue_of :
      (j : ℕ)
      → queue_of (pushed j)
        ≡ (if j == next then target.buff_queue ++ buff ∷ [] else queue_of (chans j))
  pushed-queue_of j = elim (Bool-cases (j == next)) [
    | inl here ↦ rw here refl
    | inr other ↦ elim (Bool-cases (j == id)) [
      | inl self ↦
          let e : j ≡ id = ground (arith, self) in
          rw (other, self) (sym (ap queue_of (ap chans e ∙ at)))
      | inr out ↦ rw (other, out) refl
    ]
  ]

  blocked-wait_of :
      (j : ℕ)
      → wait_of (blocked j)
        ≡ (if j == next then target.wait_queue ++ id ∷ [] else wait_of (chans j))
  blocked-wait_of j = elim (Bool-cases (j == next)) [
    | inl here ↦ rw here refl
    | inr other ↦ elim (Bool-cases (j == id)) [
      | inl self ↦
          let e : j ≡ id = ground (arith, self) in
          rw (other, self) (sym (ap wait_of (ap chans e ∙ at)))
      | inr out ↦ rw (other, out) refl
    ]
  ]

  blocked-queue_of : (j : ℕ) → queue_of (blocked j) ≡ queue_of (chans j)
  blocked-queue_of j = elim (Bool-cases (j == next)) [
    | inl here ↦ let e : j ≡ next = ground (arith, here) in rw (here, e, there) refl
    | inr other ↦ elim (Bool-cases (j == id)) [
      | inl self ↦
          let e : j ≡ id = ground (arith, self) in
          rw (other, self) (sym (ap queue_of (ap chans e ∙ at)))
      | inr out ↦ rw (other, out) refl
    ]
  ]

  pushed-Holds : (x : ℕ) → x ≢ id → Holds (chans x) → Holds (pushed x)
  pushed-Holds x out r = elim (Bool-cases (x == next)) [
    | inl here ↦
        let e : x ≡ next = ground (arith, here) in
        let r' : Holds (some target) = rw (e, there) at r in
        rw here (record {
          blocked = r'.blocked;
          chunk = r'.chunk;
          held = r'.held;
          chunk_fits = r'.chunk_fits;
        })
    | inr other ↦ let e : (x == id) ≡ false = ground (arith, out) in rw (other, e) r
  ]

  blocked-Holds : (x : ℕ) → x ≢ id → Holds (chans x) → Holds (blocked x)
  blocked-Holds x out r = elim (Bool-cases (x == next)) [
    | inl here ↦
        let e : x ≡ next = ground (arith, here) in
        let r' : Holds (some target) = rw (e, there) at r in
        rw here (record {
          blocked = r'.blocked;
          chunk = r'.chunk;
          held = r'.held;
          chunk_fits = r'.chunk_fits;
        })
    | inr other ↦ let e : (x == id) ≡ false = ground (arith, out) in rw (other, e) r
  ]

  not_id : (j x : ℕ) → has x (wait_of (chans j)) ≡ true → x ≢ id
  not_id j x h e = let no = unblocked j in let h' = rw e at h in cc

  pub pushed-IsOrderly : IsOrderly pushed
  pushed-IsOrderly = record {
    buffs = λ j. rw (pushed-queue_of j) (elim (Bool-cases (j == next)) [
      | inl here ↦ rw here (buffs-append target.buff_queue buff (rw there at (o.buffs next)) fits)
      | inr other ↦ rw other (o.buffs j)
    ]);
    holds = λ j x h.
        let h' = rw (pushed-wait_of j) at h in pushed-Holds x (not_id j x h') (o.holds j x h');
    once = λ j. rw (pushed-wait_of j) (o.once j);
    one_place = λ j j' x h h'.
        o.one_place j j' x (rw (pushed-wait_of j) at h) (rw (pushed-wait_of j') at h');
    others = λ j. rw (pushed-wait_of j) (o.others j);
  }

  pub pushed-AllFull :
      ltb (length target.buff_queue) queue_limit ≡ true → AllFull chans → AllFull pushed
  pushed-AllFull room full j =
      rw (pushed-wait_of j, pushed-queue_of j)
        (elim (Bool-cases (j == next)) [
          | inl here ↦
              let e : j ≡ next = ground (arith, here) in
              let old : IsFull (some target) = rw there at (full next) in
              rw (here, e, there)
                (elim old [
                  | inl nobody ↦ inl nobody
                  | inr much ↦ absurd (ground (arith, room, much))
                ])
          | inr other ↦ rw other (full j)
        ])

  -- Who waits now has waited before, or is `id` at `next`.
  blocked-has :
      (j x : ℕ)
      → has x (wait_of (blocked j)) ≡ true
      → (has x (wait_of (chans j)) ≡ true) ⊎ ((x ≡ id) × (j ≡ next))
  blocked-has j x h =
      let h' = rw (blocked-wait_of j) at h in
      elim (Bool-cases (j == next)) [
        | inr other ↦ inl (rw other at h')
        | inl here ↦
            let e : j ≡ next = ground (arith, here) in
            let h'' = rw (here, has-append x id target.wait_queue) at h' in
            elim (Bool-cases (has x target.wait_queue)) [
              | inl old ↦ inl (rw (e, there) old)
              | inr new ↦ inr (ground (arith, new, h''), e)
            ]
      ]

  blocked_self : Holds (blocked id)
  blocked_self =
      let e : (id == next) ≡ false = ground (arith, apart) in
      let e' : (id == id) ≡ true = ground arith in
      rw (e, e') (record { blocked = refl; chunk = buff; held = holds_chunk; chunk_fits = fits })

  pub blocked-IsOrderly : IsOrderly blocked
  blocked-IsOrderly = record {
    buffs = λ j. rw (blocked-queue_of j) (o.buffs j);
    holds = λ j x h. elim (blocked-has j x h) [
      | inl old ↦ blocked-Holds x (not_id j x old) (o.holds j x old)
      | inr (e, _) ↦ rw e blocked_self
    ];
    once = λ j. rw (blocked-wait_of j) (elim (Bool-cases (j == next)) [
      | inl here ↦ rw here (
          distinct-append id target.wait_queue (rw there at (o.once next))
            (rw there at (unblocked next)))
      | inr other ↦ rw other (o.once j)
    ]);
    one_place = λ j j' x h h'. elim (blocked-has j x h) [
      | inl old ↦ elim (blocked-has j' x h') [
        | inl old' ↦ o.one_place j j' x old old'
        | inr (e', _) ↦ absurd (not_id j x old e')
      ]
      | inr (e, e_next) ↦ elim (blocked-has j' x h') [
        | inl old' ↦ absurd (not_id j' x old' e)
        | inr (_, e_next') ↦ e_next ∙ sym e_next'
      ]
    ];
    others = λ j. elim (Bool-cases (has j (wait_of (blocked j)))) [
      | inr fine ↦ fine
      | inl clash ↦ elim (blocked-has j j clash) [
        | inl old ↦ absurd (let no = o.others j in cc)
        | inr (e, e_next) ↦ absurd (apart (sym e ∙ e_next))
      ]
    ];
  }

  pub blocked-AllFull :
      ltb (length target.buff_queue) queue_limit ≡ false → AllFull chans → AllFull blocked
  blocked-AllFull no_room full j = elim (Bool-cases (j == next)) [
    | inl here ↦ rw here (inr (ground (arith, no_room)))
    | inr other ↦ rw (blocked-wait_of j, blocked-queue_of j, other) (full j)
  ]
