-- ===== src/Graph/Router/Reach.antt =====
-- In a connected graph the breadth-first search gives every node an id, and `updown_assign_ids`
-- returns.
use mathlib.Core.List.{Memᴰ}
use dlfree.Base.{
  ℕ, zero, suc, ◌+◌, ◌<◌, ◌≡◌, ◌⊎◌, refl, sym, ◌∙◌, true, Option, none, some, inl, inr, arith,
  Bool-cases, Option-cases, ltb, List, [], ◌∷◌, ◌++◌, some_injective, none_ne_some,
}
use dlfree.Graph.Link.{Edge, Link}
use dlfree.Graph.Router.Updown.{
  put, Bfs, other_end, visit_conn, visit_conns, bfs_loop, bfs_start, all_assigned, updown_link,
  updown_assign_ids,
}
use dlfree.Graph.Router.Dfs.{updown_links-some}
use dlfree.Graph.Router.Bfs.{
  Numbered-start, start-Numbered, work, InRange, bfs_loop-some, loop_next, loop_ends, loop_fails,
  loop_empty, Queue-cases,
}

abbrev HasId : Bfs → ℕ → Type 0
HasId s p = (i : ℕ) × (s.assignids p ≡ some i)

Mem-snoc : (x : ℕ) (xs : List ℕ) → Memᴰ x (xs ++ x ∷ [])
Mem-snoc x [] = Memᴰ.head refl
Mem-snoc x (y ∷ xs) = Memᴰ.tail (Mem-snoc x xs)

Mem-append : (x : ℕ) (xs ys : List ℕ) → Memᴰ x xs → Memᴰ x (xs ++ ys)
Mem-append x [] ys mem = elim mem [ ]
Mem-append x (y ∷ xs) ys (Memᴰ.head e) = Memᴰ.head e
Mem-append x (y ∷ xs) ys (Memᴰ.tail mem) = Memᴰ.tail (Mem-append x xs ys mem)

put_cases :
    (ids : ℕ → Option ℕ) (c x p : ℕ)
    → ((p ≡ c) × (put ids c (some x) p ≡ some x)) ⊎ (put ids c (some x) p ≡ ids p)
put_cases ids c x p = ground arith

put-keeps :
    (ids : ℕ → Option ℕ) (c x p i : ℕ) → ids p ≡ some i → (j : ℕ) × (put ids c (some x) p ≡ some j)
put-keeps ids c x p i e = elim (put_cases ids c x p) [
  | inl (_, at) ↦ (x, at)
  | inr at ↦ (i, at ∙ e)
]

all_assigned-true :
    (s : Bfs) (n : ℕ) → ((p : ℕ) → p < n → HasId s p) → all_assigned s.assignids n ≡ true
unfolding all_assigned
all_assigned-true s zero h = refl
all_assigned-true s (suc n) h =
    rw (all_assigned, (h n (omega arith)).1) (all_assigned-true s n (λ p lt. h p (omega arith)))

start-work : (n root : ℕ) → root < n → work n (bfs_start root) < n + 1
unfolding bfs_start
start-work n root lt = omega (arith, (Numbered-start n root lt).count)

put_hit : (ids : ℕ → Option ℕ) (c x : ℕ) → put ids c (some x) c ≡ some x
put_hit ids c x = ground arith

start-HasId : (root : ℕ) → HasId (bfs_start root) root
unfolding bfs_start
start-HasId root = (0, put_hit (λ _. none) root 0)

Mem-cases : {A : Type 0} (x y : A) (ys : List A) → Memᴰ x (y ∷ ys) → (x ≡ y) ⊎ Memᴰ x ys
Mem-cases x y ys (Memᴰ.head e) = inl e
Mem-cases x y ys (Memᴰ.tail mem) = inr mem

only_member : {A : Type 0} (x y : A) → Memᴰ x (y ∷ []) → x ≡ y
only_member x y (Memᴰ.head e) = e
only_member x y (Memᴰ.tail mem) = elim mem [ ]

module _ {W : Type 0} where
  -- The nodes that edges lead to from the root.
  pub data Reach (conns_of : ℕ → List (Edge W)) (root : ℕ) : ℕ → Type 0 where
    start : {p : ℕ} → p ≡ root → Reach conns_of root p
    step :
        {p q : ℕ} (conn : Edge W)
        → Reach conns_of root p
        → Memᴰ conn (conns_of p)
        → q ≡ other_end p conn
        → Reach conns_of root q

  -- What the visit of some edges of a node does.
  record Grew (node : ℕ) (conns : List (Edge W)) (s s' : Bfs) : Type 0 where
    keeps : (p : ℕ) → HasId s p → HasId s' p
    children : (conn : Edge W) → Memᴰ conn conns → HasId s' (other_end node conn)
    queued : (p : ℕ) → HasId s' p → HasId s p ⊎ Memᴰ p s'.node_queue
    waits : (p : ℕ) → Memᴰ p s.node_queue → Memᴰ p s'.node_queue

  visit_conn-Grew :
      (n node : ℕ) (conn : Edge W) (s s' : Bfs)
      → visit_conn n node conn s ≡ some s'
      → Grew node (conn ∷ []) s s'
  unfolding visit_conn
  visit_conn-Grew n node conn s s' run = elim (Bool-cases (ltb (other_end node conn) n)) [
    | inr out ↦ absurd (let clash = rw out at run in cc)
    | inl within ↦ elim (Option-cases (s.assignids (other_end node conn))) [
      | inr (i, old) ↦
          let same : s ≡ s' = some_injective (rw (within, old) at run) in
          rw (← same) (record {
            keeps = λ p id. id;
            children = λ x mem. (i, rw (only_member x conn mem) old);
            queued = λ p id. inl id;
            waits = λ p mem. mem;
          })
      | inl new ↦
          let child = other_end node conn in
          let same = some_injective (rw (within, new) at run) in
          rw (← same) (record {
            keeps = λ p id. put-keeps s.assignids child s.idc p id.0 id.1;
            children =
                λ x mem. (s.idc, rw (only_member x conn mem) (put_hit s.assignids child s.idc));
            queued = λ p id. elim (put_cases s.assignids child s.idc p) [
              | inl (at, _) ↦ inr (rw at (Mem-snoc child s.node_queue))
              | inr other ↦ inl (id.0, sym other ∙ id.1)
            ];
            waits = λ p mem. Mem-append p s.node_queue (child ∷ []) mem;
          })
    ]
  ]

  Grew-trans :
      (node : ℕ) (conn : Edge W) (conns : List (Edge W)) (s s₁ s' : Bfs)
      → Grew node (conn ∷ []) s s₁
      → Grew node conns s₁ s'
      → Grew node (conn ∷ conns) s s'
  Grew-trans node conn conns s s₁ s' a b = record {
    keeps = λ p id. b.keeps p (a.keeps p id);
    children = λ x mem. elim (Mem-cases x conn conns mem) [
      | inl first ↦ b.keeps _ (a.children x (Memᴰ.head first))
      | inr rest ↦ b.children x rest
    ];
    queued = λ p id. elim (b.queued p id) [
      | inr mem ↦ inr mem
      | inl old ↦ elim (a.queued p old) [ inl id' ↦ inl id' | inr mem ↦ inr (b.waits p mem) ]
    ];
    waits = λ p mem. b.waits p (a.waits p mem);
  }

  visit_conns-Grew :
      (n node : ℕ) (conns : List (Edge W)) (s s' : Bfs)
      → visit_conns n node conns s ≡ some s'
      → Grew node conns s s'
  unfolding visit_conns
  visit_conns-Grew n node [] s s' run =
      let same : s ≡ s' = some_injective run in
      rw (← same) (record {
        keeps = λ p id. id;
        children = λ x mem. elim mem [ ];
        queued = λ p id. inl id;
        waits = λ p mem. mem;
      })
  visit_conns-Grew n node (conn ∷ conns) s s' run = elim (Option-cases (visit_conn n node conn s)) [
    | inl failed ↦ absurd (let clash = rw failed at run in cc)
    | inr (s₁, e) ↦
        Grew-trans node conn conns s s₁ s' (visit_conn-Grew n node conn s s₁ e)
          (visit_conns-Grew n node conns s₁ s' (rw e at run))
  ]

  -- A node with an id waits in the queue, or all the nodes next to it have ids.
  Closed : (ℕ → List (Edge W)) → Bfs → Type 0
  Closed conns_of s =
      (p : ℕ)
      → HasId s p
      → Memᴰ p s.node_queue
        ⊎ ((conn : Edge W) → Memᴰ conn (conns_of p) → HasId s (other_end p conn))

  Closed-next :
      (conns_of : ℕ → List (Edge W)) (node : ℕ) (queue : List ℕ) (s s₁ : Bfs)
      → s.node_queue ≡ node ∷ queue
      → Grew node (conns_of node) (record s { node_queue = queue }) s₁
      → Closed conns_of s
      → Closed conns_of s₁
  unfolding Closed
  Closed-next conns_of node queue s s₁ e g closed p id = elim (g.queued p id) [
    | inr mem ↦ inl mem
    | inl old ↦ elim (closed p old) [
      | inr next ↦ inr (λ conn mem. g.keeps _ (next conn mem))
      | inl mem ↦ elim (Mem-cases p node queue (rw e at mem)) [
        | inl same ↦ inr (λ conn at. rw same (g.children conn (rw same at at)))
        | inr mem' ↦ inl (g.waits p mem')
      ]
    ]
  ]

  bfs_loop-Closed :
      (n : ℕ) (conns_of : ℕ → List (Edge W)) (fuel : ℕ) (s s' : Bfs)
      → bfs_loop fuel n conns_of s ≡ some s'
      → Closed conns_of s
      → Closed conns_of s' × (s'.node_queue ≡ []) × ((p : ℕ) → HasId s p → HasId s' p)
  bfs_loop-Closed n conns_of zero s s' run closed = absurd (loop_empty n conns_of s s' run)
  bfs_loop-Closed n conns_of (suc fuel) s s' run closed =
      elim (Queue-cases n conns_of s.node_queue) [
        | inl e ↦
            let same : s ≡ s' = some_injective (sym (loop_ends n conns_of fuel s e) ∙ run) in
            rw (← same) (closed, e, λ p id. id)
        | inr (node, queue, e) ↦
            elim (Option-cases
              (visit_conns n node (conns_of node) (record s { node_queue = queue }))) [
                | inl failed ↦
                    absurd
                      (none_ne_some (sym (loop_fails n conns_of fuel node queue s e failed) ∙ run))
                | inr (s₁, e₁) ↦
                    let g = visit_conns-Grew n node (conns_of node) _ s₁ e₁ in
                    let (closed', empty, keeps) =
                      bfs_loop-Closed n conns_of fuel s₁ s'
                        (sym (loop_next n conns_of fuel node queue s s₁ e e₁) ∙ run)
                        (Closed-next conns_of node queue s s₁ e g closed) in
                    (closed', empty, λ p id. keeps p (g.keeps p id))
              ]
      ]

  Reach-HasId :
      (conns_of : ℕ → List (Edge W)) (root p : ℕ) (s : Bfs)
      → Closed conns_of s
      → s.node_queue ≡ []
      → HasId s root
      → Reach conns_of root p
      → HasId s p
  unfolding Closed
  Reach-HasId conns_of root p s closed empty id (start e) = rw e id
  Reach-HasId conns_of root q s closed empty id (step {p = p} conn reach mem e) =
      elim (closed p (Reach-HasId conns_of root p s closed empty id reach)) [
        | inl queued ↦ elim (rw empty at queued) [ ]
        | inr next ↦ rw e (next conn mem)
      ]

  start-Closed : (conns_of : ℕ → List (Edge W)) (root : ℕ) → Closed conns_of (bfs_start root)
  unfolding Closed bfs_start
  start-Closed conns_of root p id = elim (put_cases (λ _. none) root 0 p) [
    | inl (at, _) ↦ inl (Memᴰ.head at)
    | inr at ↦ absurd (none_ne_some (sym at ∙ id.1))
  ]

  -- Where the edges lie within the arrays and every node can be reached from the root, the
  -- breadth-first router returns its links: its loop ends and its assertion holds.
  pub updown_assign_ids-some :
      (root n : ℕ) (conns_of : ℕ → List (Edge W)) (conns : List (Edge W))
      → root < n
      → ((node : ℕ) (conn : Edge W) → Memᴰ conn (conns_of node) → InRange n conn)
      → ((conn : Edge W) → Memᴰ conn conns → InRange n conn)
      → ((p : ℕ) → p < n → Reach conns_of root p)
      → (links : List (Link W)) × (updown_assign_ids root n conns_of conns ≡ some links)
  unfolding updown_assign_ids
  updown_assign_ids-some root n conns_of conns lt h all connected =
      let good = start-Numbered n root lt in
      let (s, run) =
        bfs_loop-some n conns_of (n + 1) (bfs_start root) h (start-work n root lt) good in
      let (closed, empty, keeps) =
        bfs_loop-Closed n conns_of (n + 1) (bfs_start root) s run (start-Closed conns_of root) in
      let root_id = keeps root (start-HasId root) in
      let full =
        all_assigned-true s n
          (λ p h. Reach-HasId conns_of root p s closed empty root_id (connected p h)) in
      let (links, run') = updown_links-some n (updown_link s.assignids s.depths) conns all in
      let within : ltb root n ≡ true = ground arith in (links, rw (within, run, full) run')
