-- ===== src/Graph/Router/Levels.antt =====
-- All the rounds of the ordered-link router: they end, and they lose no link.
use mathlib.Core.List.{Permᴰ, append-nil, Memᴰ}
use mathlib.Core.List.Permᴰ
use dlfree.Base.{
  ℕ, zero, suc, ◌+◌, ◌<◌, ◌≤◌, ◌≡◌, ◌≢◌, refl, ap, sym, ◌∙◌, true, some, List, [], ◌∷◌, ◌++◌, ltb,
  length, length-map, map, arith, inl, inr, ◌⊎◌, ℕ_discrete,
}
use dlfree.Std.UnionSet.{UnionSet, union_set_create, union_set_add}
use dlfree.Std.UnionSet.Add.{union_set_add-new}
use dlfree.Std.UnionSet.Merge.{IsUnionSet, create-IsUnionSet, create_empty}
use dlfree.Graph.Link.{Edge, Link, router_graph_link_create}
use dlfree.Graph.Router.Trees.{
  add_hosts, label_link, choose_links, choose_sp_tree_links, trees_loop,
  router_graph_make_spanning_trees,
}
use dlfree.Graph.Router.Choose.{
  Every, every_nil, every_cons, Every-snoc, Every-map, Known, Apart, Joined, EndsKnown, Labelled,
  conns_of_links, Chosen, choose_links-Chosen, take_link, Chosen-take, same_set, merge_ends,
  still_known, label-Labelled,
}

create-Apart : Apart union_set_create
unfolding Apart
create-Apart a b t t' other e e' = absurd (create_empty a t e)

add-Apart :
    (u : UnionSet) (host : ℕ)
    → IsUnionSet u
    → Apart u
    → (u' : UnionSet) × (union_set_add u host ≡ some u')
      × IsUnionSet u'
      × Apart u'
      × Known u' host
      × ((d : ℕ) → Known u d → Known u' d)
unfolding Apart
add-Apart u host v apart =
    let (u', run, v', here, old) = union_set_add-new u host v in
    (
      u',
      run,
      v',
      λ a b t t' other e e'. elim (ℕ_discrete a host) [
        | yes at_a ↦ elim (ℕ_discrete b host) [
          | yes at_b ↦ absurd (other (at_a ∙ sym at_b))
          | no not_b ↦ λ same.
              (old b not_b).1
                (sym (old b not_b).0 ∙ (e' ∙ (ap some (sym same) ∙ (sym e ∙ rw at_a here))))
        ]
        | no not_a ↦ elim (ℕ_discrete b host) [
          | yes at_b ↦ λ same.
              (old a not_a).1 (sym (old a not_a).0 ∙ (e ∙ (ap some same ∙ (sym e' ∙ rw at_b here))))
          | no not_b ↦ apart a b t t' other (sym (old a not_a).0 ∙ e) (sym (old b not_b).0 ∙ e')
        ]
      ],
      (u.ncells, here),
      λ d known. elim (ℕ_discrete d host) [
        | yes at ↦ (u.ncells, rw at here)
        | no other ↦ (known.0, (old d other).0 ∙ known.1)
      ],
    )

-- The hosts are items of sets of their own.
add_hosts-Apart :
    (hosts : List ℕ) (u : UnionSet)
    → IsUnionSet u
    → Apart u
    → (u' : UnionSet) × (add_hosts hosts u ≡ some u')
      × IsUnionSet u'
      × Apart u'
      × ((d : ℕ) → Memᴰ d hosts ⊎ Known u d → Known u' d)
unfolding add_hosts
add_hosts-Apart [] u v apart = (u, refl, v, apart, known)
  where
    known : (d : ℕ) → Memᴰ d [] ⊎ Known u d → Known u d
    known d (inl mem) = elim mem [ ]
    known d (inr k) = k
add_hosts-Apart (host ∷ hosts) u v apart =
    let (u₁, run₁, v₁, apart₁, here, keep₁) = add-Apart u host v apart in
    let (u', run, v', apart', keep) = add_hosts-Apart hosts u₁ v₁ apart₁ in
    (u', rw run₁ run, v', apart', λ d side. keep d (from_cons host hosts u u₁ d here keep₁ side))
  where
    from_cons :
        (host : ℕ) (hosts : List ℕ) (u u₁ : UnionSet) (d : ℕ)
        → Known u₁ host
        → ((d : ℕ) → Known u d → Known u₁ d)
        → Memᴰ d (host ∷ hosts) ⊎ Known u d
        → Memᴰ d hosts ⊎ Known u₁ d
    from_cons host hosts u u₁ d here keep₁ (inl (Memᴰ.head e)) = inr (rw e here)
    from_cons host hosts u u₁ d here keep₁ (inl (Memᴰ.tail mem)) = inl mem
    from_cons host hosts u u₁ d here keep₁ (inr k) = inr (keep₁ d k)

module _ {W : Type 0} (hosts : List ℕ) where
  -- The link joins two different hosts.
  abbrev Joins : Link W → Type 0
  Joins link = Memᴰ link.conn.n0 hosts × Memᴰ link.conn.n1 hosts × (link.conn.n0 ≢ link.conn.n1)

  sp_tree_is :
      (pool remain assigned : List (Link W)) (level : ℕ) (u : UnionSet)
      → add_hosts hosts union_set_create ≡ some u
      → choose_sp_tree_links hosts pool remain assigned level
        ≡ choose_links level pool remain assigned u
  unfolding choose_sp_tree_links
  sp_tree_is pool remain assigned level u e = rw e

  -- A round labels at least the first link of the pool.
  choose_sp_tree_links-first :
      (level : ℕ) (link : Link W) (pool assigned : List (Link W))
      → Joins link
      → Every Joins pool
      → Every (Labelled (level + 1)) assigned
      → (remain' assigned' : List (Link W)) × (choose_sp_tree_links hosts
            (link ∷ pool)
            []
            assigned
            level
          ≡ some (remain', assigned'))
        × Chosen Joins level (link ∷ pool) [] assigned remain' assigned'
        × (length remain' ≤ length pool)
  unfolding Apart Joined
  choose_sp_tree_links-first level link pool assigned (in0, in1, distinct) joins labelled =
      let (u, made, v, apart, known) =
        add_hosts-Apart hosts union_set_create create-IsUnionSet create-Apart in
      let (t, e) = known link.conn.n0 (inl in0) in
      let (t', e') = known link.conn.n1 (inl in1) in
      let other = apart link.conn.n0 link.conn.n1 t t' distinct e e' in
      let (u', merged, v', joined) = merge_ends u link.conn.n0 link.conn.n1 t t' v e e' other in
      let ends : Every (EndsKnown u) pool =
        Every-map (λ x j. (known _ (inl j.0), known _ (inl j.1))) joins in
      let (remain', assigned', run, c) =
        choose_links-Chosen Joins level pool [] (assigned ++ label_link level link ∷ []) u' v'
          (still_known u u' pool joined ends) joins every_nil
          (Every-snoc labelled (label-Labelled level link)) in
      (
        remain',
        assigned',
        sp_tree_is (link ∷ pool) [] assigned level u made
            ∙ (take_link level link pool [] assigned u u'
                  (same_set u _ _ t t' e e' ∙ ap some (ground (arith, other))) merged
                ∙ run),
        Chosen-take Joins level link pool [] assigned remain' assigned' c,
        omega (arith, c.fewer),
      )

  later :
      (level : ℕ) {links : List (Link W)}
      → Every (Labelled level) links
      → Every (Labelled (level + 1)) links
  later level labelled = Every-map (λ link at. (at.0, omega (arith, at.1), at.2, at.3)) labelled

  trees_next :
      (fuel : ℕ) (link : Link W) (pool assigned remain' assigned' : List (Link W)) (level : ℕ)
      → choose_sp_tree_links hosts (link ∷ pool) [] assigned level ≡ some (remain', assigned')
      → trees_loop (suc fuel) hosts (link ∷ pool) assigned level
        ≡ trees_loop fuel hosts remain' assigned' (level + 1)
  unfolding trees_loop
  trees_next fuel link pool assigned remain' assigned' level e = rw e

  trees_end :
      (fuel : ℕ) (assigned : List (Link W)) (level : ℕ)
      → trees_loop fuel hosts [] assigned level ≡ some (level, assigned)
  unfolding trees_loop
  trees_end zero assigned level = refl
  trees_end (suc fuel) assigned level = refl

  trees_loop-Labelled :
      (fuel : ℕ) (pool assigned : List (Link W)) (level : ℕ)
      → length pool ≤ fuel
      → Every Joins pool
      → Every (Labelled level) assigned
      → (levels : ℕ) × (links : List (Link W)) × (trees_loop fuel hosts pool assigned level
          ≡ some (levels, links))
        × Permᴰ (conns_of_links pool ++ conns_of_links assigned) (conns_of_links links)
        × Every (Labelled levels) links
  trees_loop-Labelled fuel [] assigned level enough joins labelled =
      (level, assigned, trees_end fuel assigned level, Permᴰ.refl _, labelled)
  trees_loop-Labelled zero (link ∷ pool) assigned level enough joins labelled = absurd (omega arith)
  trees_loop-Labelled (suc fuel) (link ∷ pool) assigned level enough (every_cons j joins) labelled =
      let (remain', assigned', run, c, fewer) =
        choose_sp_tree_links-first level link pool assigned j joins (later level labelled) in
      let (levels, links, run', perm, labelled') =
        trees_loop-Labelled fuel remain' assigned' (level + 1) (omega arith) c.kept c.labelled in
      (
        levels,
        links,
        trees_next fuel link pool assigned remain' assigned' level run ∙ run',
        Permᴰ.trans c.perm perm,
        labelled',
      )

  created-conns :
      (conns : List (Edge W)) → conns_of_links (map router_graph_link_create conns) ≡ conns
  unfolding router_graph_link_create
  created-conns [] = refl
  created-conns (conn ∷ conns) = ap (λ xs. conn ∷ xs) (created-conns conns)

  created-Joins :
      (conns : List (Edge W))
      → ((conn : Edge W)
          → Memᴰ conn conns
          → Memᴰ conn.n0 hosts × Memᴰ conn.n1 hosts × (conn.n0 ≢ conn.n1))
      → Every Joins (map router_graph_link_create conns)
  unfolding router_graph_link_create
  created-Joins [] h = every_nil
  created-Joins (conn ∷ conns) h =
      every_cons (h conn (Memᴰ.head refl)) (created-Joins conns (λ x mem. h x (Memᴰ.tail mem)))

  -- For the four known types of router, and edges that join different hosts in whatever order the
  -- shuffle or the sort leaves them, the ordered-link router returns: it makes one link of each
  -- edge and no others, each at one level in both directions, below the number of levels.
  pub router_graph_make_spanning_trees-Labelled :
      (arrange : ℕ → List (Edge W) → List (Edge W)) (conns : List (Edge W)) (kind : ℕ)
      → kind < 4
      → Permᴰ conns (arrange kind conns)
      → ((conn : Edge W)
          → Memᴰ conn (arrange kind conns)
          → Memᴰ conn.n0 hosts × Memᴰ conn.n1 hosts × (conn.n0 ≢ conn.n1))
      → (levels : ℕ) × (links : List (Link W)) × (router_graph_make_spanning_trees arrange hosts
            conns kind
          ≡ some (levels, links))
        × Permᴰ conns (conns_of_links links)
        × Every (Labelled levels) links
  unfolding router_graph_make_spanning_trees
  router_graph_make_spanning_trees-Labelled arrange conns kind known arranged joins =
      let edges = arrange kind conns in
      let pool = map router_graph_link_create edges in
      let (levels, links, run, perm, labelled) =
        trees_loop-Labelled (length edges) pool [] 0
          (omega (arith, length-map edges (router_graph_link_create {W = W})))
          (created-Joins edges joins) every_nil in
      let right : ltb kind 4 ≡ true = ground arith in
      (
        levels,
        links,
        rw right run,
        Permᴰ.trans arranged (rw (append-nil (conns_of_links pool), created-conns edges) at perm),
        labelled,
      )
