-- ===== src/Graph/Router/Bfs.antt =====
-- The breadth-first search of `updown_assign_ids`: it ends, and the ids that it gives are distinct
-- and bounded.
use mathlib.Core.List.{Memᴰ}
use dlfree.Base.{
  ℕ, zero, suc, ◌+◌, ◌<◌, ◌≤◌, ◌≡◌, ◌⊎◌, refl, ap, sym, ◌∙◌, true, Option, none, some, inl, inr,
  arith, Bool-cases, Option-cases, ltb, ◌==◌, List, [], ◌∷◌, ◌++◌, length, length-append,
  some_injective, none_ne_some,
}
use dlfree.Graph.Link.{Edge}
use dlfree.Graph.Router.Updown.{put, Bfs, other_end, visit_conn, visit_conns, bfs_loop, bfs_start}

abbrev unset : Option ℕ → ℕ
unset none = 1
unset (some _) = 0

-- The nodes below `n` that have no id.
pub unassigned : (ℕ → Option ℕ) → ℕ → ℕ
unassigned ids zero = 0
unassigned ids (suc n) = unset (ids n) + unassigned ids n

unassigned-same :
    (ids ids' : ℕ → Option ℕ) (n : ℕ)
    → ((p : ℕ) → p < n → ids' p ≡ ids p)
    → unassigned ids' n ≡ unassigned ids n
unfolding unassigned
unassigned-same ids ids' zero same = refl
unassigned-same ids ids' (suc n) same =
    rw (same n (omega arith), unassigned-same ids ids' n (λ p h. same p (omega arith)))

pub unassigned-put :
    (ids : ℕ → Option ℕ) (p x n : ℕ)
    → p < n
    → ids p ≡ none
    → suc (unassigned (put ids p (some x)) n) ≡ unassigned ids n
unfolding unassigned
unassigned-put ids p x zero h e = absurd (omega arith)
unassigned-put ids p x (suc n) h e = elim (Bool-cases (n == p)) [
  | inl same ↦
      let same' : n ≡ p = ground arith in
      rw (same', unassigned-same ids (put ids p (some x)) p (λ q lt. ground arith), e)
        (ground arith)
  | inr other ↦ ground (arith, other, unassigned-put ids p x n (ground (arith, other)) e)
]

pub unassigned-le : (ids : ℕ → Option ℕ) (n : ℕ) → unassigned ids n ≤ n
unfolding unassigned
unassigned-le ids zero = omega arith
unassigned-le ids (suc n) = ground (arith, unassigned-le ids n)

pub unassigned-none : (n : ℕ) → unassigned (λ _. none) n ≡ n
unfolding unassigned
unassigned-none zero = refl
unassigned-none (suc n) = omega (arith, unassigned-none n)

-- Distinct nodes have distinct ids, all below the counter.
pub record Numbered (n : ℕ) (ids : ℕ → Option ℕ) (idc : ℕ) : Type 0 where
  pub below : (p i : ℕ) → ids p ≡ some i → i < idc
  pub injective : (p q i : ℕ) → ids p ≡ some i → ids q ≡ some i → p ≡ q
  pub count : idc + unassigned ids n ≡ n

pub Numbered-put :
    (n : ℕ) (ids : ℕ → Option ℕ) (idc p : ℕ)
    → p < n
    → ids p ≡ none
    → Numbered n ids idc
    → Numbered n (put ids p (some idc)) (idc + 1)
Numbered-put n ids idc p h e k = record {
  below = λ q i at. ground (arith, k.below q i, at);
  injective =
      λ q q' i at at'. ground (arith, k.injective q q' i, k.below q i, k.below q' i, at, at');
  count = omega (arith, k.count, unassigned-put ids p idc n h e);
}

pub Numbered-start : (n root : ℕ) → root < n → Numbered n (put (λ _. none) root (some 0)) 1
Numbered-start n root h = record {
  below = λ q i at. ground (arith, at);
  injective = λ q q' i at at'. ground (arith, at, at');
  count = omega (arith, unassigned-put (λ _. none) root 0 n h refl, unassigned-none n);
}

pub start-Numbered :
    (n root : ℕ) → root < n → Numbered n (bfs_start root).assignids (bfs_start root).idc
unfolding bfs_start
start-Numbered n root h = Numbered-start n root h

-- What the search has left to do.
abbrev pub work : ℕ → Bfs → ℕ
work n s = unassigned s.assignids n + length s.node_queue

abbrev pub Good : ℕ → Bfs → Type 0
Good n s = Numbered n s.assignids s.idc

abbrev visited : ℕ → ℕ → Bfs → Bfs
visited node child s = record {
  assignids = put s.assignids child (some s.idc);
  depths = put s.depths child (s.depths node + 1);
  idc = s.idc + 1;
  node_queue = s.node_queue ++ child ∷ [];
}

module _ {W : Type 0} (n : ℕ) where
  abbrev pub InRange : Edge W → Type 0
  InRange conn = (conn.n0 < n) × (conn.n1 < n)

  visit_conn-Good :
      (node : ℕ) (conn : Edge W) (s s' : Bfs)
      → visit_conn n node conn s ≡ some s'
      → Good n s
      → Good n s' × (work n s' ≡ work n s)
  unfolding visit_conn
  visit_conn-Good node conn s s' run good = elim (Bool-cases (ltb (other_end node conn) n)) [
    | inr out ↦ absurd (let clash = rw out at run in cc)
    | inl within ↦ elim (Option-cases (s.assignids (other_end node conn))) [
      | inr (i, old) ↦
          let same : s ≡ s' = some_injective (rw (within, old) at run) in rw (← same) (good, refl)
      | inl new ↦
          let same = some_injective (rw (within, new) at run) in
          rw (← same) (
            Numbered-put n s.assignids s.idc (other_end node conn) (ground (arith, within)) new
                good,
            omega (
              arith,
              unassigned-put s.assignids (other_end node conn) s.idc n (ground (arith, within)) new,
              length-append s.node_queue (other_end node conn ∷ []),
            ),
          )
    ]
  ]

  pub other_end-lt : (node : ℕ) (conn : Edge W) → InRange conn → other_end node conn < n
  unfolding other_end
  other_end-lt node conn h = ground (arith, h)

  visit_conn-some :
      (node : ℕ) (conn : Edge W) (s : Bfs)
      → InRange conn
      → (s' : Bfs) × (visit_conn n node conn s ≡ some s')
  unfolding visit_conn
  visit_conn-some node conn s h =
      let within : ltb (other_end node conn) n ≡ true =
        let lt = other_end-lt node conn h in ground arith in
      elim (Option-cases (s.assignids (other_end node conn))) [
        | inl new ↦ (visited node (other_end node conn) s, rw (within, new))
        | inr (i, old) ↦ (s, rw (within, old))
      ]

  pub visit_conns-Good :
      (node : ℕ) (conns : List (Edge W)) (s s' : Bfs)
      → visit_conns n node conns s ≡ some s'
      → Good n s
      → Good n s' × (work n s' ≡ work n s)
  unfolding visit_conns
  visit_conns-Good node [] s s' run good =
      let same : s ≡ s' = some_injective run in rw (← same) (good, refl)
  visit_conns-Good node (conn ∷ conns) s s' run good =
      elim (Option-cases (visit_conn n node conn s)) [
        | inl failed ↦ absurd (let clash = rw failed at run in cc)
        | inr (s₁, e) ↦
            let (good₁, same₁) = visit_conn-Good node conn s s₁ e good in
            let (good', same) = visit_conns-Good node conns s₁ s' (rw e at run) good₁ in
            (good', same ∙ same₁)
      ]

  pub visit_conns-some :
      (node : ℕ) (conns : List (Edge W)) (s : Bfs)
      → ((conn : Edge W) → Memᴰ conn conns → InRange conn)
      → (s' : Bfs) × (visit_conns n node conns s ≡ some s')
  unfolding visit_conns
  visit_conns-some node [] s h = (s, refl)
  visit_conns-some node (conn ∷ conns) s h =
      let (s₁, e) = visit_conn-some node conn s (h conn (Memᴰ.head refl)) in
      let (s', e') = visit_conns-some node conns s₁ (λ x mem. h x (Memᴰ.tail mem)) in (s', rw e e')

  module _ (conns_of : ℕ → List (Edge W)) where
    pub loop_next :
        (fuel node : ℕ) (queue : List ℕ) (s s₁ : Bfs)
        → s.node_queue ≡ node ∷ queue
        → visit_conns n node (conns_of node) (record s { node_queue = queue }) ≡ some s₁
        → bfs_loop (suc fuel) n conns_of s ≡ bfs_loop fuel n conns_of s₁
    unfolding bfs_loop
    loop_next fuel node queue s s₁ e e' = rw (bfs_loop, e, e')

    pub loop_fails :
        (fuel node : ℕ) (queue : List ℕ) (s : Bfs)
        → s.node_queue ≡ node ∷ queue
        → visit_conns n node (conns_of node) (record s { node_queue = queue }) ≡ none
        → bfs_loop (suc fuel) n conns_of s ≡ none
    unfolding bfs_loop
    loop_fails fuel node queue s e e' = rw (bfs_loop, e, e')

    pub loop_empty : (s s' : Bfs) → bfs_loop zero n conns_of s ≡ some s' → ⊥
    unfolding bfs_loop
    loop_empty s s' run = none_ne_some run

    pub loop_ends :
        (fuel : ℕ) (s : Bfs) → s.node_queue ≡ [] → bfs_loop (suc fuel) n conns_of s ≡ some s
    unfolding bfs_loop
    loop_ends fuel s e = simp (bfs_loop, e)

    pub Queue-cases : (xs : List ℕ) → (xs ≡ []) ⊎ ((x : ℕ) × (rest : List ℕ) × (xs ≡ x ∷ rest))
    Queue-cases [] = inl refl
    Queue-cases (x ∷ xs) = inr (x, xs, refl)

    pop-work :
        (node : ℕ) (queue : List ℕ) (s : Bfs)
        → s.node_queue ≡ node ∷ queue
        → suc (work n (record s { node_queue = queue })) ≡ work n s
    pop-work node queue s e = let l = ap (λ xs. length xs) e in omega arith

    -- Each round takes one node from the queue, and a node enters it when it gets its id.
    pub bfs_loop-some :
        (fuel : ℕ) (s : Bfs)
        → ((node : ℕ) (conn : Edge W) → Memᴰ conn (conns_of node) → InRange conn)
        → work n s < fuel
        → Good n s
        → (s' : Bfs) × (bfs_loop fuel n conns_of s ≡ some s')
    bfs_loop-some zero s h enough good = absurd (omega arith)
    bfs_loop-some (suc fuel) s h enough good = elim (Queue-cases s.node_queue) [
      | inl e ↦ (s, loop_ends fuel s e)
      | inr (node, queue, e) ↦
          let (s₁, run) =
            visit_conns-some node (conns_of node) (record s { node_queue = queue }) (h node) in
          let (good₁, same) = visit_conns-Good node (conns_of node) _ s₁ run good in
          let (s', run') = bfs_loop-some fuel s₁ h (omega (arith, pop-work node queue s e)) good₁ in
          (s', loop_next fuel node queue s s₁ e run ∙ run')
    ]

    pub bfs_loop-Good :
        (fuel : ℕ) (s s' : Bfs) → bfs_loop fuel n conns_of s ≡ some s' → Good n s → Good n s'
    bfs_loop-Good zero s s' run good = absurd (loop_empty s s' run)
    bfs_loop-Good (suc fuel) s s' run good = elim (Queue-cases s.node_queue) [
      | inl e ↦ rw (← some_injective (sym (loop_ends fuel s e) ∙ run)) good
      | inr (node, queue, e) ↦
          elim (Option-cases
            (visit_conns n node (conns_of node) (record s { node_queue = queue }))) [
              | inl failed ↦
                  absurd (none_ne_some (sym (loop_fails fuel node queue s e failed) ∙ run))
              | inr (s₁, e₁) ↦
                  let (good₁, _) = visit_conns-Good node (conns_of node) _ s₁ e₁ good in
                  bfs_loop-Good fuel s₁ s' (sym (loop_next fuel node queue s s₁ e e₁) ∙ run) good₁
            ]
    ]
