-- ===== src/Gxp/Returns.antt =====
-- `gxp_router_run` with the depth-first up*/down* type ends on every host.
use mathlib.Core.List.{Memᴰ}
use dlfree.Base.{
  ℕ, zero, suc, ◌+◌, ◌%◌, ◌<◌, ◌≡◌, ◌≢◌, ◌⊎◌, refl, ap, ◌∙◌, Option, none, some, List, [], ◌∷◌, map,
  length, length-map, get_elem?, inl, inr, arith, Option-cases, none_ne_some,
}
use dlfree.Struct.Rtable.{Rtable}
use dlfree.Graph.Weight.{Weight}
use dlfree.Graph.Link.{Edge, Link, router_graph_link_create}
use dlfree.Graph.Overlay.{Node, Graph, node_conns}
use dlfree.Graph.Dijkstra.{Dijkstra, leveled_dijkstra_create, setup, compute, leveled_dijkstra_run}
use dlfree.Graph.Dijkstra.Order.{Le}
use dlfree.Graph.Dijkstra.Setup.{IsUsable}
use dlfree.Graph.Dijkstra.Run.{IsTable, leveled_dijkstra_run-cases}
use dlfree.Graph.Router.Updown.{
  updown_choose_root_node, link_down, link_up, dfs_traverse, updown_dfs_link, updown_dfs_assign_ids,
}
use dlfree.Graph.Router.Orient.{updown_links-mem}
use dlfree.Graph.Router.Dfs.{updown_dfs_assign_ids-some}
use dlfree.Gxp.Router.{
  dfs, updown_dfs, pids, router_graph_make_updown_tree, connect_all, levelled_links, gxp_router_run,
}
use dlfree.Gxp.Sound.{IsFit, Sound, node_conns-IsFit, IsPositive, connect_all-Sound}

module _ (w : Weight) where
  open w use {Carrier}

  root_lt :
      (n i : ℕ) (hosts : List (Node Carrier))
      → i < length hosts
      → ((x : Node Carrier) → Memᴰ x hosts → x.pid < n)
      → (root : ℕ) × (get_elem? (map (λ (node : Node Carrier). node.pid) hosts) i ≡ some root)
        × (root < n)
  root_lt n i [] lt h = absurd (omega (arith, lt))
  root_lt n zero (x ∷ hosts) lt h = (x.pid, refl, h x (Memᴰ.head refl))
  root_lt n (suc i) (x ∷ hosts) lt h =
      root_lt n i hosts (ground (arith, lt)) (λ y m. h y (Memᴰ.tail m))

  dfs_link-conn :
      (visited : ℕ → Option ℕ) (conn : Edge Carrier) → (updown_dfs_link visited conn).conn ≡ conn
  unfolding updown_dfs_link link_down link_up router_graph_link_create
  dfs_link-conn visited conn = ground arith

  fit-IsUsable :
      (n : ℕ) (conn : Edge Carrier) (link : Link Carrier)
      → link.conn ≡ conn
      → IsFit w n conn
      → IsUsable w n link
  fit-IsUsable n conn link e fit =
      let fit' : IsFit w n link.conn = rw e fit in
      record { width = fit'.width; len = fit'.len; n0 = fit'.n0; n1 = fit'.n1 }

  dfs_links-IsUsable :
      (root n : ℕ) (conns_of : ℕ → List (Edge Carrier)) (conns : List (Edge Carrier))
      (links : List (Link Carrier))
      → ((conn : Edge Carrier) → Memᴰ conn conns → IsFit w n conn)
      → updown_dfs_assign_ids root n conns_of conns ≡ some links
      → (link : Link Carrier) → Memᴰ link links
      → IsUsable w n link
  unfolding updown_dfs_assign_ids
  dfs_links-IsUsable root n conns_of conns links fits run link mem =
      elim (Option-cases (dfs_traverse (n + 1) n conns_of root ((λ _. none), 0))) [
        | inl failed ↦ absurd (none_ne_some (rw failed at run))
        | inr (s, e) ↦
            let (conn, at, h0, h1, same) =
              updown_links-mem n (updown_dfs_link s.0) conns links link (rw e at run) mem in
            fit-IsUsable n conn link (rw same (dfs_link-conn s.0 conn)) (fits conn at)
      ]

  tree_is :
      (by_length : List (Edge Carrier) → List (Edge Carrier)) (graph : Graph Carrier)
      (n rand root : ℕ)
      → length graph.hosts ≡ n
      → updown_choose_root_node (pids graph) rand ≡ some root
      → router_graph_make_updown_tree by_length graph dfs rand
        ≡ updown_dfs_assign_ids root n (λ pid. by_length (node_conns graph pid)) graph.conns
  unfolding router_graph_make_updown_tree
  tree_is by_length graph n rand root size e = rw e (
      ap (λ k. updown_dfs_assign_ids root k (λ pid. by_length (node_conns graph pid)) graph.conns)
        size)

  root_is :
      (n : ℕ) (graph : Graph Carrier) (rand : ℕ)
      → 0 < n
      → Sound w n graph
      → (root : ℕ) × (updown_choose_root_node (pids graph) rand ≡ some root) × (root < n)
  unfolding updown_choose_root_node
  root_is n graph rand some_host s =
      let many : length (pids graph) ≡ n = length-map graph.hosts _ ∙ s.size in
      let small : rand % length (pids graph) < length graph.hosts =
        rw (many, s.size) (omega (arith, some_host)) in
      root_lt n (rand % length (pids graph)) graph.hosts small (λ x mem. (s.all_hosts x mem).small)

  dfs_tree-some :
      (by_length : List (Edge Carrier) → List (Edge Carrier)) (graph : Graph Carrier) (n rand : ℕ)
      → 0 < n
      → ((conns : List (Edge Carrier)) (conn : Edge Carrier)
          → Memᴰ conn (by_length conns)
          → Memᴰ conn conns)
      → Sound w n graph
      → (links : List (Link Carrier)) × (router_graph_make_updown_tree by_length graph dfs rand
          ≡ some links)
        × ((link : Link Carrier) → Memᴰ link links → IsUsable w n link)
  dfs_tree-some by_length graph n rand some_host sorted s =
      let (root, e, lt) = root_is n graph rand some_host s in
      let conns_of : ℕ → List (Edge Carrier) = (λ pid. by_length (node_conns graph pid)) in
      let (links, run) =
        updown_dfs_assign_ids-some n root conns_of graph.conns lt
          (λ node conn mem.
            let fit =
              node_conns-IsFit w n graph node s conn (sorted (node_conns graph node) conn mem) in
            (fit.n0, fit.n1))
          (λ conn mem. let fit = s.all_conns conn mem in (fit.n0, fit.n1)) in
      (
        links,
        tree_is by_length graph n rand root s.size e ∙ run,
        dfs_links-IsUsable root n conns_of graph.conns links s.all_conns run,
      )

module _ (w : Weight) (name : ℕ → List ℕ) (width : ℕ → ℕ → Option w.Carrier)
    (by_length : List (Edge w.Carrier) → List (Edge w.Carrier))
    (arrange : ℕ → List (Edge w.Carrier) → List (Edge w.Carrier))
    (bfs_trees : Graph w.Carrier → Option (ℕ × List (Link w.Carrier))) where
  open w use {Carrier, max_dist}

  run_links :
      (conn_mat : ℕ → ℕ → Option Carrier) (n idx rand : ℕ) (graph : Graph Carrier)
      (links : List (Link Carrier))
      → length graph.hosts ≡ n
      → connect_all w name width by_length arrange bfs_trees conn_mat n ≡ some graph
      → router_graph_make_updown_tree by_length graph dfs rand ≡ some links
      → gxp_router_run w name width by_length arrange bfs_trees conn_mat n idx updown_dfs rand
        ≡ leveled_dijkstra_run w (leveled_dijkstra_create w n 2) links idx
  unfolding gxp_router_run levelled_links
  run_links conn_mat n idx rand graph links size e e' =
      rw (e, e') (ap (λ k. leveled_dijkstra_run w (leveled_dijkstra_create w k 2) links idx) size)

  -- If every round trip that was measured is positive and comes with a positive width, and the sort
  -- adds no edges, then the depth-first up*/down* type connects the hosts, makes its links, and
  -- sets up and ends the search on every host: the host has a routing table with a path to every
  -- other, or some other host lies at the largest distance or beyond on both levels, and there is
  -- no table.
  pub gxp_router_run-cases :
      (conn_mat : ℕ → ℕ → Option Carrier) (n idx rand : ℕ)
      → IsPositive w width conn_mat
      → ((conns : List (Edge Carrier)) (conn : Edge Carrier)
          → Memᴰ conn (by_length conns)
          → Memᴰ conn conns)
      → idx < n
      → (graph : Graph Carrier) × (links : List (Link Carrier)) × (d d' : Dijkstra Carrier)
        × (connect_all w name width by_length arrange bfs_trees conn_mat n ≡ some graph)
        × (levelled_links w name width by_length arrange bfs_trees graph updown_dfs rand
            ≡ some (2, links))
        × (setup w (leveled_dijkstra_create w n 2) links ≡ some d)
        × (compute w d idx ≡ some d')
        × (((rt : Rtable) × (gxp_router_run w name width by_length arrange bfs_trees conn_mat n idx
                  updown_dfs rand
                ≡ some rt)
              × IsTable d.levels idx n rt)
            ⊎ ((gxp_router_run w name width by_length arrange bfs_trees conn_mat n idx updown_dfs
                    rand
                  ≡ none)
                × ((dst : ℕ) × (dst < n)
                    × (dst ≢ idx)
                    × ((k : ℕ) → k < 2 → Le w max_dist (d'.dist dst k)))))
  unfolding levelled_links
  gxp_router_run-cases conn_mat n idx rand positive sorted lt =
      let (graph, e, s) =
        connect_all-Sound w name width by_length arrange bfs_trees conn_mat n positive in
      let (links, e', usable) = dfs_tree-some w by_length graph n rand (omega arith) sorted s in
      let (d, d', e₁, e₂, result) = leveled_dijkstra_run-cases w n 2 links idx lt usable in
      let whole = run_links conn_mat n idx rand graph links s.size e e' in
      (
        graph,
        links,
        d,
        d',
        e,
        rw e',
        e₁,
        e₂,
        elim result [
          | inl (rt, made, table) ↦ inl (rt, whole ∙ made, table)
          | inr (failed, far) ↦ inr (whole ∙ failed, far)
        ],
      )
