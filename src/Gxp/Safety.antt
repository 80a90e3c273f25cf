-- ===== src/Gxp/Safety.antt =====
-- The tables that the nodes compute by `gxp_router_run` with an up*/down* type.
use mathlib.Core.List.{Memᴰ}
use dlfree.Base.{
  ℕ, zero, suc, ◌+◌, ◌<◌, ◌≡◌, ◌≢◌, ◌⊎◌, refl, ap, sym, ◌∙◌, Option, none, some, List, [], ◌∷◌,
  ◌++◌, length, length-append, inl, inr, arith, Option-cases, some_injective, none_ne_some,
}
use dlfree.Std.Bytes.{◌>>=◌}
use dlfree.Struct.Rtable.{Rtable}
use dlfree.Graph.Weight.{Weight}
use dlfree.Graph.Link.{Edge, Link}
use dlfree.Graph.Overlay.{
  Node, Graph, overlay_edge_create, overlay_graph_create, overlay_graph_add_node, add_to_node,
  overlay_graph_add_conn, node_conns,
}
use dlfree.Graph.Deadlock.{DeadlockFree}
use dlfree.Graph.Dijkstra.{leveled_dijkstra_create, leveled_dijkstra_run}
use dlfree.Graph.Router.Updown.{updown_choose_root_node}
use dlfree.Graph.Router.Deadlock.{
  RunTables, Chain-table, updown_assign_ids-DeadlockFree, updown_dfs_assign_ids-DeadlockFree,
}
use dlfree.Gxp.Router.{
  RouteType, updown_bfs, updown_dfs, UpdownType, bfs, dfs, pids, router_graph_make_updown_tree,
  add_nodes, add_measured, add_row, add_rows, connect_all, levelled_links, gxp_router_run,
}

pub Mem-append-cases :
    {A : Type 0} (x : A) (xs ys : List A) → Memᴰ x (xs ++ ys) → Memᴰ x xs ⊎ Memᴰ x ys
Mem-append-cases x [] ys mem = inr mem
Mem-append-cases x (y ∷ xs) ys (Memᴰ.head e) = inl (Memᴰ.head e)
Mem-append-cases x (y ∷ xs) ys (Memᴰ.tail mem) = elim (Mem-append-cases x xs ys mem) [
  | inl m ↦ inl (Memᴰ.tail m)
  | inr m ↦ inr m
]

module _ {W : Type 0} where
  -- A graph of `n` hosts whose edges join different nodes.
  record Loopless (n : ℕ) (graph : Graph W) : Type 0 where
    hosts : length graph.hosts ≡ n
    distinct : (conn : Edge W) → Memᴰ conn graph.conns → conn.n0 ≢ conn.n1

  pub length-add_to_node :
      (pid : ℕ) (e : Edge W) (hosts : List (Node W))
      → length (add_to_node pid e hosts) ≡ length hosts
  unfolding add_to_node
  length-add_to_node pid e [] = refl
  length-add_to_node pid e (node ∷ hosts) = ground (arith, length-add_to_node pid e hosts)

  add_conn-Loopless :
      (n : ℕ) (graph graph' : Graph W) (way : Option (W × W)) (src dst : ℕ)
      → src ≢ dst
      → Loopless n graph
      → overlay_graph_add_conn graph way src dst ≡ some graph'
      → Loopless n graph'
  unfolding overlay_graph_add_conn overlay_edge_create
  add_conn-Loopless n graph graph' none src dst other l run = absurd (none_ne_some run)
  add_conn-Loopless n graph graph' (some (len, width)) src dst other l run =
      rw (← some_injective run) (record {
        hosts = length-add_to_node dst _ _ ∙ (length-add_to_node src _ graph.hosts ∙ l.hosts);
        distinct = λ conn mem. elim (Mem-append-cases conn graph.conns _ mem) [
          | inl old ↦ l.distinct conn old
          | inr new ↦ last conn new
        ];
      })
    where
      last :
          (conn : Edge W)
          → Memᴰ conn (record { n0 = src; n1 = dst; len = len; width = width } ∷ [])
          → conn.n0 ≢ conn.n1
      last conn (Memᴰ.head e) = rw e other
      last conn (Memᴰ.tail mem) = elim mem [ ]

module _ (w : Weight) (name : ℕ → List ℕ) (width : ℕ → ℕ → Option w.Carrier)
    (by_length : List (Edge w.Carrier) → List (Edge w.Carrier))
    (arrange : ℕ → List (Edge w.Carrier) → List (Edge w.Carrier))
    (bfs_trees : Graph w.Carrier → Option (ℕ × List (Link w.Carrier))) where
  open w use {Carrier}

  pub length-add_nodes :
      (k pid : ℕ) (graph : Graph Carrier)
      → (length (add_nodes w name width by_length arrange bfs_trees k pid graph).hosts
          ≡ length graph.hosts + k)
        × ((add_nodes w name width by_length arrange bfs_trees k pid graph).conns ≡ graph.conns)
  unfolding add_nodes overlay_graph_add_node
  length-add_nodes zero pid graph = (omega arith, refl)
  length-add_nodes (suc k) pid graph =
      let (size, same) =
        length-add_nodes k (pid + 1) (overlay_graph_add_node graph pid (name pid)) in
      (omega (arith, size, length-append graph.hosts _), same)

  module _ (conn_mat : ℕ → ℕ → Option Carrier) (no_self : (p : ℕ) → conn_mat p p ≡ none)
      (n : ℕ) where
    add_measured-Loopless :
        (src dst : ℕ) (graph graph' : Graph Carrier)
        → Loopless n graph
        → add_measured w name width by_length arrange bfs_trees (conn_mat src dst) src dst graph
          ≡ some graph'
        → Loopless n graph'
    unfolding add_measured
    add_measured-Loopless src dst graph graph' l run = elim (Option-cases (conn_mat src dst)) [
      | inl apart ↦ rw (← some_injective (rw apart at run)) l
      | inr (dist, e) ↦ elim (Option-cases (width src dst)) [
        | inl missing ↦ absurd (none_ne_some (rw (e, missing) at run))
        | inr (wide, e') ↦
            add_conn-Loopless n graph graph' (some (dist, wide)) src dst
              (λ same. none_ne_some (sym (no_self src) ∙ (ap (conn_mat src) same ∙ e))) l
              (rw (e, e') at run)
      ]
    ]

    add_row-Loopless :
        (src k dst : ℕ) (graph graph' : Graph Carrier)
        → Loopless n graph
        → add_row w name width by_length arrange bfs_trees conn_mat src k dst graph ≡ some graph'
        → Loopless n graph'
    unfolding add_row
    add_row-Loopless src zero dst graph graph' l run = rw (← some_injective run) l
    add_row-Loopless src (suc k) dst graph graph' l run =
        elim (Option-cases (
          add_measured w name width by_length arrange bfs_trees (conn_mat src dst) src dst graph)) [
            | inl failed ↦ absurd (none_ne_some (rw failed at run))
            | inr (g, e) ↦
                add_row-Loopless src k (dst + 1) g graph'
                  (add_measured-Loopless src dst graph g l e) (rw e at run)
          ]

    add_rows-Loopless :
        (k src : ℕ) (graph graph' : Graph Carrier)
        → Loopless n graph
        → add_rows w name width by_length arrange bfs_trees conn_mat n k src graph ≡ some graph'
        → Loopless n graph'
    unfolding add_rows
    add_rows-Loopless zero src graph graph' l run = rw (← some_injective run) l
    add_rows-Loopless (suc k) src graph graph' l run =
        elim (Option-cases
          (add_row w name width by_length arrange bfs_trees conn_mat src n 0 graph)) [
            | inl failed ↦ absurd (none_ne_some (rw failed at run))
            | inr (g, e) ↦
                add_rows-Loopless k (src + 1) g graph' (add_row-Loopless src n 0 graph g l e)
                  (rw e at run)
          ]

    connect_all-Loopless :
        (graph : Graph Carrier)
        → connect_all w name width by_length arrange bfs_trees conn_mat n ≡ some graph
        → Loopless n graph
    unfolding connect_all overlay_graph_create
    connect_all-Loopless graph run =
        let (size, same) = length-add_nodes n 0 (record { conns = []; hosts = [] }) in
        add_rows-Loopless n 0 _ graph
          (record { hosts = size ∙ omega arith; distinct = λ conn mem. elim (rw same at mem) [ ] })
          run

  tree-DeadlockFree :
      (graph : Graph Carrier) (n : ℕ) (t : UpdownType) (rand : ℕ) (links : List (Link Carrier))
      (tables : List Rtable)
      → Loopless n graph
      → router_graph_make_updown_tree by_length graph t rand ≡ some links
      → RunTables w (length graph.hosts) links tables
      → DeadlockFree tables
  unfolding router_graph_make_updown_tree
  tree-DeadlockFree graph n bfs rand links tables l run made =
      elim (Option-cases (updown_choose_root_node (pids graph) rand)) [
        | inl failed ↦ absurd (none_ne_some (rw failed at run))
        | inr (root, e) ↦
            updown_assign_ids-DeadlockFree w root (length graph.hosts) (node_conns graph)
              graph.conns links tables l.distinct (rw e at run) made
      ]
  tree-DeadlockFree graph n dfs rand links tables l run made =
      elim (Option-cases (updown_choose_root_node (pids graph) rand)) [
        | inl failed ↦ absurd (none_ne_some (rw failed at run))
        | inr (root, e) ↦
            updown_dfs_assign_ids-DeadlockFree w root (length graph.hosts)
              (λ pid. by_length (node_conns graph pid)) graph.conns links tables (rw e at run) made
      ]

  abbrev pub route : UpdownType → RouteType
  route bfs = updown_bfs
  route dfs = updown_dfs

  levelled_links-updown :
      (graph : Graph Carrier) (t : UpdownType) (rand : ℕ)
      → levelled_links w name width by_length arrange bfs_trees graph (route t) rand
        ≡ (do links ← router_graph_make_updown_tree by_length graph t rand; some (2, links))
  unfolding levelled_links
  levelled_links-updown graph bfs rand = refl
  levelled_links-updown graph dfs rand = refl

  module _ (conn_mat : ℕ → ℕ → Option Carrier) (n : ℕ) (t : UpdownType) (rand : ℕ) where
    abbrev run_of : ℕ → Option Rtable
    run_of idx =
        gxp_router_run w name width by_length arrange bfs_trees conn_mat n idx (route t) rand

    run_none :
        (idx : ℕ)
        → connect_all w name width by_length arrange bfs_trees conn_mat n ≡ none
        → run_of idx ≡ none
    unfolding gxp_router_run
    run_none idx e = rw e

    run_no_tree :
        (idx : ℕ) (graph : Graph Carrier)
        → connect_all w name width by_length arrange bfs_trees conn_mat n ≡ some graph
        → router_graph_make_updown_tree by_length graph t rand ≡ none
        → run_of idx ≡ none
    unfolding gxp_router_run
    run_no_tree idx graph e e' = rw (e, levelled_links-updown graph t rand, e')

    run_tree :
        (idx : ℕ) (graph : Graph Carrier) (links : List (Link Carrier))
        → connect_all w name width by_length arrange bfs_trees conn_mat n ≡ some graph
        → router_graph_make_updown_tree by_length graph t rand ≡ some links
        → run_of idx
          ≡ leveled_dijkstra_run w (leveled_dijkstra_create w (length graph.hosts) 2) links idx
    unfolding gxp_router_run
    run_tree idx graph links e e' = rw (e, levelled_links-updown graph t rand, e')

  -- Whatever round trips were measured between different nodes, and none of a node with itself: the
  -- tables that the nodes compute for one of the two up*/down* types let no channel wait for itself.
  pub gxp_router_run-DeadlockFree :
      (conn_mat : ℕ → ℕ → Option Carrier) (n : ℕ) (t : UpdownType) (rand : ℕ) (tables : List Rtable)
      → ((p : ℕ) → conn_mat p p ≡ none)
      → ((rt : Rtable)
          → Memᴰ rt tables
          → (idx : ℕ) × (idx < n)
            × (gxp_router_run w name width by_length arrange bfs_trees conn_mat n idx (route t) rand
                ≡ some rt))
      → DeadlockFree tables
  gxp_router_run-DeadlockFree conn_mat n t rand tables no_self made =
      elim (Option-cases (connect_all w name width by_length arrange bfs_trees conn_mat n)) [
        | inl failed ↦ λ c chain.
            let (rt, mem) = Chain-table w tables chain in
            let (idx, _, run) = made rt mem in
            none_ne_some (sym (run_none conn_mat n t rand idx failed) ∙ run)
        | inr (graph, e) ↦
            elim (Option-cases (router_graph_make_updown_tree by_length graph t rand)) [
              | inl failed ↦ λ c chain.
                  let (rt, mem) = Chain-table w tables chain in
                  let (idx, _, run) = made rt mem in
                  none_ne_some (sym (run_no_tree conn_mat n t rand idx graph e failed) ∙ run)
              | inr (links, e') ↦
                  let l = connect_all-Loopless conn_mat no_self n graph e in
                  tree-DeadlockFree graph n t rand links tables l e' (λ rt mem.
                    let (idx, lt, run) = made rt mem in
                    (
                      idx,
                      rw (← l.hosts) at lt,
                      sym (run_tree conn_mat n t rand idx graph links e e') ∙ run,
                    ))
            ]
      ]
