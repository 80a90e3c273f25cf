-- ===== src/Graph/Overlay.antt =====
-- src/graph/overlay.c: the overlay graph. A node is known by its pid, a name is its bytes, and an
-- edge is in the list of each of its ends and in that of the graph. What `xml_topology_traverse`
-- finds out about the way between two hosts, its length and width, is an argument.
use dlfree.Base.{
  ℕ, zero, suc, ◌+◌, ◌%◌, Bool, true, false, ◌&&◌, Option, none, some, List, [], ◌∷◌, ◌++◌, ltb,
  ◌==◌, if◌then◌else◌, length, get_elem?,
}
use dlfree.Std.Bytes.{◌>>=◌}
use dlfree.Graph.Link.{Edge}

pub record Node (W : Type 0) : Type 0 where
  pub pid : ℕ
  pub name : List ℕ
  pub conns : List (Edge W)

pub record Graph (W : Type 0) : Type 0 where
  pub conns : List (Edge W)
  pub hosts : List (Node W)

-- `strcmp` of two names.
abbrev pub same_name : List ℕ → List ℕ → Bool
same_name [] [] = true
same_name [] (b ∷ t) = false
same_name (a ∷ s) [] = false
same_name (a ∷ s) (b ∷ t) = (a == b) && same_name s t

module _ {W : Type 0} where
  unfoldable pub overlay_node_create : (pid : ℕ) → List ℕ → Node W
  overlay_node_create pid name = record { pid = pid; name = name; conns = [] }

  unfoldable pub overlay_edge_create : (n0 n1 : ℕ) → (len width : W) → Edge W
  overlay_edge_create n0 n1 len width = record { n0 = n0; n1 = n1; len = len; width = width }

  unfoldable pub overlay_graph_create : Graph W
  overlay_graph_create = record { conns = []; hosts = [] }

  -- The first host that is met, `none` for `NULL`.
  unfoldable pub find_host : (Node W → Bool) → List (Node W) → Option (Node W)
  find_host test [] = none
  find_host test (node ∷ hosts) = if test node then some node else find_host test hosts

  unfoldable pub overlay_graph_get_node : Graph W → List ℕ → Option (Node W)
  overlay_graph_get_node graph hostname =
      find_host (λ node. same_name node.name hostname) graph.hosts

  unfoldable pub overlay_graph_get_node_by_pid : Graph W → ℕ → Option (Node W)
  overlay_graph_get_node_by_pid graph pid = find_host (λ node. node.pid == pid) graph.hosts

  unfoldable pub overlay_graph_add_node : Graph W → (pid : ℕ) → List ℕ → Graph W
  overlay_graph_add_node graph pid hostname = record graph {
    hosts = graph.hosts ++ overlay_node_create pid hostname ∷ [];
  }

  -- `overlay_edge_vector_add` on the edges of the node with this pid.
  unfoldable pub add_to_node : ℕ → Edge W → List (Node W) → List (Node W)
  add_to_node pid e [] = []
  add_to_node pid e (node ∷ hosts) =
      if node.pid == pid
      then record node { conns = node.conns ++ e ∷ [] } ∷ hosts
      else node ∷ add_to_node pid e hosts

  -- The way between the two hosts must be on the topology.
  unfoldable pub overlay_graph_add_conn :
      Graph W → Option (W × W) → (src dst : ℕ) → Option (Graph W)
  overlay_graph_add_conn graph way src dst = do
    (len, width) ← way
    let e = overlay_edge_create src dst len width
    some (record {
      hosts = add_to_node dst e (add_to_node src e graph.hosts);
      conns = graph.conns ++ e ∷ [];
    })

  unfoldable pub overlay_graph_add_conn_by_pid :
      Graph W → Option (W × W) → (src_pid dst_pid : ℕ) → Option (Graph W)
  overlay_graph_add_conn_by_pid graph way src_pid dst_pid = do
    src ← overlay_graph_get_node_by_pid graph src_pid
    dst ← overlay_graph_get_node_by_pid graph dst_pid
    overlay_graph_add_conn graph way src.pid dst.pid

  -- The given number of hosts, from the i-th on, each with the next one around.
  unfoldable pub ring_loop : (ℕ → ℕ → Option (W × W)) → ℕ → (i : ℕ) → Graph W → Option (Graph W)
  ring_loop ways zero i graph = some graph
  ring_loop ways (suc k) i graph = do
    src ← get_elem? graph.hosts i
    dst ← get_elem? graph.hosts ((i + 1) % length graph.hosts)
    graph' ← overlay_graph_add_conn graph (ways src.pid dst.pid) src.pid dst.pid
    ring_loop ways k (i + 1) graph'

  -- On a graph that `overlay_graph_simulate_add_nodes` has given its hosts.
  unfoldable pub overlay_graph_simulate_ring : (ℕ → ℕ → Option (W × W)) → Graph W → Option (Graph W)
  overlay_graph_simulate_ring ways graph = ring_loop ways (length graph.hosts) 0 graph

  -- The edges of a node, in the graph.
  unfoldable pub node_conns : Graph W → ℕ → List (Edge W)
  node_conns graph pid = elim (overlay_graph_get_node_by_pid graph pid) [
    | none ↦ []
    | some node ↦ node.conns
  ]

-- The comparators of edges: -1, 0 and 1.
pub data Sign : Type 0 where
  before same after : Sign

module _ {W : Type 0} (less : W → W → Bool) where
  -- `eq` is the test `==` of C.
  unfoldable pub overlay_edge_sort_by_width : (eq : W → W → Bool) → (e0 e1 : Edge W) → Sign
  overlay_edge_sort_by_width eq e0 e1 =
      if less e1.width e0.width then before else if eq e0.width e1.width then same else after

  unfoldable pub overlay_edge_sort_by_length : (eq : W → W → Bool) → (e0 e1 : Edge W) → Sign
  overlay_edge_sort_by_length eq e0 e1 =
      if less e0.len e1.len then before else if eq e0.len e1.len then same else after

-- The number of edges of the ends, added.
unfoldable pub overlay_edge_sort_by_degree : {W : Type 0} → Graph W → (e0 e1 : Edge W) → Sign
overlay_edge_sort_by_degree graph e0 e1 =
    let c0 = length (node_conns graph e0.n0) + length (node_conns graph e0.n1) in
    let c1 = length (node_conns graph e1.n0) + length (node_conns graph e1.n1) in
    if ltb c0 c1 then before else if c0 == c1 then same else after
