-- ===== src/Gxp/Router.antt =====
-- `gxp_router_run` of src/gxp/gxp_router.c: from the matrix of connections to a routing table. The
-- names of the hosts, the widths of the ways between them, `rand`, the order that qsort and the
-- shuffle leave, and the links that the exchange of distances leads to for the type
-- GXP_RT_TYPE_ORDERED_BFS are parameters.
use dlfree.Base.{ℕ, zero, suc, ◌+◌, Option, none, some, List, map, length}
use dlfree.Std.Bytes.{◌>>=◌}
use dlfree.Struct.Rtable.{Rtable}
use dlfree.Graph.Weight.{Weight}
use dlfree.Graph.Link.{Edge, Link}
use dlfree.Graph.Overlay.{
  Node, Graph, overlay_graph_create, overlay_graph_add_node, overlay_graph_add_conn, node_conns,
}
use dlfree.Graph.Dijkstra.{leveled_dijkstra_create, leveled_dijkstra_run}
use dlfree.Graph.Router.Updown.{updown_choose_root_node, updown_assign_ids, updown_dfs_assign_ids}
use dlfree.Graph.Router.Trees.{
  router_graph_make_spanning_trees, router_graph_make_deadlock_prone_links,
}

-- `enum` of src/include/dlfree/gxp.h; any other number exits.
pub data RouteType : Type 0 where
  updown_bfs updown_dfs ordered_random ordered_band ordered_hops ordered_hub ordered_bfs deadlock :
      RouteType
  unknown : ℕ → RouteType

-- `enum updown_router_type` of src/graph/router.h.
pub data UpdownType : Type 0 where
  bfs dfs : UpdownType

module _ {W : Type 0} where
  abbrev pub pids : Graph W → List ℕ
  pids graph = map (λ (node : Node W). node.pid) graph.hosts

  -- `router_graph_make_updown_tree` of src/graph/router.c; the edges of a node in the order that
  -- the search takes them.
  unfoldable pub router_graph_make_updown_tree :
      (by_length : List (Edge W) → List (Edge W))
      → Graph W
      → UpdownType
      → (rand : ℕ) → Option (List (Link W))
  router_graph_make_updown_tree by_length graph bfs rand = do
    root ← updown_choose_root_node (pids graph) rand
    updown_assign_ids root (length graph.hosts) (node_conns graph) graph.conns
  router_graph_make_updown_tree by_length graph dfs rand = do
    root ← updown_choose_root_node (pids graph) rand
    updown_dfs_assign_ids root (length graph.hosts) (λ pid. by_length (node_conns graph pid))
        graph.conns

module _ (w : Weight) (name : ℕ → List ℕ) (width : ℕ → ℕ → Option w.Carrier)
    (by_length : List (Edge w.Carrier) → List (Edge w.Carrier))
    (arrange : ℕ → List (Edge w.Carrier) → List (Edge w.Carrier))
    (bfs_trees : Graph w.Carrier → Option (ℕ × List (Link w.Carrier))) where
  open w use {Carrier}

  -- The given number of hosts, from `pid` on.
  unfoldable pub add_nodes : ℕ → (pid : ℕ) → Graph Carrier → Graph Carrier
  add_nodes zero pid graph = graph
  add_nodes (suc k) pid graph = add_nodes k (pid + 1) (overlay_graph_add_node graph pid (name pid))

  -- An entry of the matrix; the length of the edge is the round trip that was measured, and `none`
  -- is `GXP_NO_RTT`.
  unfoldable pub add_measured :
      Option Carrier → (srcid dstid : ℕ) → Graph Carrier → Option (Graph Carrier)
  add_measured none srcid dstid graph = some graph
  add_measured (some dist) srcid dstid graph = do
    wide ← width srcid dstid
    overlay_graph_add_conn graph (some (dist, wide)) srcid dstid

  unfoldable pub add_row :
      (ℕ → ℕ → Option Carrier)
      → (srcid : ℕ) → ℕ
      → (dstid : ℕ) → Graph Carrier
      → Option (Graph Carrier)
  add_row conn_mat srcid zero dstid graph = some graph
  add_row conn_mat srcid (suc k) dstid graph = do
    graph' ← add_measured (conn_mat srcid dstid) srcid dstid graph
    add_row conn_mat srcid k (dstid + 1) graph'

  unfoldable pub add_rows :
      (ℕ → ℕ → Option Carrier) → (n : ℕ) → ℕ → (srcid : ℕ) → Graph Carrier → Option (Graph Carrier)
  add_rows conn_mat n zero srcid graph = some graph
  add_rows conn_mat n (suc k) srcid graph = do
    graph' ← add_row conn_mat srcid n 0 graph
    add_rows conn_mat n k (srcid + 1) graph'

  unfoldable pub connect_all :
      (ℕ → ℕ → Option Carrier) → (gxp_num_execs : ℕ) → Option (Graph Carrier)
  connect_all conn_mat n = add_rows conn_mat n n 0 (add_nodes n 0 overlay_graph_create)

  -- The number of levels and the links, by the type of the routing.
  unfoldable pub levelled_links :
      Graph Carrier → RouteType → (rand : ℕ) → Option (ℕ × List (Link Carrier))
  levelled_links graph updown_bfs rand = do
    links ← router_graph_make_updown_tree by_length graph bfs rand
    some (2, links)
  levelled_links graph updown_dfs rand = do
    links ← router_graph_make_updown_tree by_length graph dfs rand
    some (2, links)
  levelled_links graph ordered_random rand =
      router_graph_make_spanning_trees arrange (pids graph) graph.conns 0
  levelled_links graph ordered_band rand =
      router_graph_make_spanning_trees arrange (pids graph) graph.conns 1
  levelled_links graph ordered_hops rand =
      router_graph_make_spanning_trees arrange (pids graph) graph.conns 2
  levelled_links graph ordered_hub rand =
      router_graph_make_spanning_trees arrange (pids graph) graph.conns 3
  levelled_links graph ordered_bfs rand = bfs_trees graph
  levelled_links graph deadlock rand = some (1, router_graph_make_deadlock_prone_links graph.conns)
  levelled_links graph (unknown k) rand = none

  unfoldable pub gxp_router_run :
      (conn_mat : ℕ → ℕ → Option Carrier) (gxp_num_execs gxp_idx : ℕ)
      → RouteType
      → (rand : ℕ) → Option Rtable
  gxp_router_run conn_mat n gxp_idx rttype rand = do
    graph ← connect_all conn_mat n
    (levels, links) ← levelled_links graph rttype rand
    leveled_dijkstra_run w (leveled_dijkstra_create w (length graph.hosts) levels) links gxp_idx
