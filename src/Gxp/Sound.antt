-- ===== src/Gxp/Sound.antt =====
-- The graph that `gxp_router_run` connects, when every round trip and every width is positive: its
-- hosts and edges lie within the arrays.
use mathlib.Core.List.{Memᴰ}
use dlfree.Base.{
  ℕ, zero, suc, ◌+◌, ◌<◌, ◌≤◌, ◌≡◌, refl, ◌∙◌, Bool, true, Option, some, List, [], ◌∷◌, ◌++◌,
  length, inl, inr, arith, Option-cases, Bool-cases, some_injective, none_ne_some, ◌==◌,
}
use dlfree.Graph.Weight.{Weight}
use dlfree.Graph.Link.{Edge, Link}
use dlfree.Graph.Overlay.{
  Node, Graph, overlay_node_create, overlay_edge_create, overlay_graph_create,
  overlay_graph_add_node, add_to_node, find_host, overlay_graph_get_node_by_pid,
  overlay_graph_add_conn, node_conns,
}
use dlfree.Gxp.Router.{add_nodes, add_measured, add_row, add_rows, connect_all}
use dlfree.Gxp.Safety.{Mem-append-cases, length-add_to_node, length-add_nodes}

module _ (w : Weight) (n : ℕ) where
  open w use {Carrier, less, zero_weight}

  pub record IsFit (conn : Edge Carrier) : Type 0 where
    pub width : less zero_weight conn.width ≡ true
    pub len : less zero_weight conn.len ≡ true
    pub n0 : conn.n0 < n
    pub n1 : conn.n1 < n

  pub record IsHost (node : Node Carrier) : Type 0 where
    pub small : node.pid < n
    pub fits : (conn : Edge Carrier) → Memᴰ conn node.conns → IsFit conn

  pub record Sound (graph : Graph Carrier) : Type 0 where
    pub size : length graph.hosts ≡ n
    pub all_hosts : (node : Node Carrier) → Memᴰ node graph.hosts → IsHost node
    pub all_conns : (conn : Edge Carrier) → Memᴰ conn graph.conns → IsFit conn

  append-IsFit :
      (conns : List (Edge Carrier)) (e : Edge Carrier)
      → ((conn : Edge Carrier) → Memᴰ conn conns → IsFit conn)
      → IsFit e
      → (conn : Edge Carrier) → Memᴰ conn (conns ++ e ∷ [])
      → IsFit conn
  append-IsFit conns e h fit conn mem = elim (Mem-append-cases conn conns _ mem) [
    | inl old ↦ h conn old
    | inr new ↦ last conn new
  ]
    where
      last : (conn : Edge Carrier) → Memᴰ conn (e ∷ []) → IsFit conn
      last conn (Memᴰ.head same) = rw same fit
      last conn (Memᴰ.tail mem) = elim mem [ ]

  grown-IsHost :
      (node : Node Carrier) (e : Edge Carrier)
      → IsHost node
      → IsFit e
      → IsHost (record node { conns = node.conns ++ e ∷ [] })
  grown-IsHost node e h fit = record {
    small = h.small;
    fits = append-IsFit node.conns e h.fits fit;
  }

  cons_hosts :
      (node : Node Carrier) (hosts : List (Node Carrier))
      → IsHost node
      → ((x : Node Carrier) → Memᴰ x hosts → IsHost x)
      → (x : Node Carrier) → Memᴰ x (node ∷ hosts)
      → IsHost x
  cons_hosts node hosts h t x (Memᴰ.head same) = rw same h
  cons_hosts node hosts h t x (Memᴰ.tail mem) = t x mem

  add_to_node-IsHost :
      (pid : ℕ) (e : Edge Carrier) (hosts : List (Node Carrier))
      → IsFit e
      → ((x : Node Carrier) → Memᴰ x hosts → IsHost x)
      → (x : Node Carrier) → Memᴰ x (add_to_node pid e hosts)
      → IsHost x
  unfolding add_to_node
  add_to_node-IsHost pid e [] fit h x mem = elim mem [ ]
  add_to_node-IsHost pid e (node ∷ hosts) fit h x mem = elim (Bool-cases (node.pid == pid)) [
    | inl here ↦
        cons_hosts _ hosts (grown-IsHost node e (h node (Memᴰ.head refl)) fit)
          (λ y m. h y (Memᴰ.tail m)) x (rw here at mem)
    | inr there ↦
        cons_hosts node _ (h node (Memᴰ.head refl))
          (add_to_node-IsHost pid e hosts fit (λ y m. h y (Memᴰ.tail m))) x (rw there at mem)
  ]

  add_conn-Sound :
      (graph : Graph Carrier) (src dst : ℕ) (len width : Carrier)
      → Sound graph
      → IsFit (overlay_edge_create src dst len width)
      → (graph' : Graph Carrier) × (overlay_graph_add_conn graph (some (len, width)) src dst
          ≡ some graph')
        × Sound graph'
  unfolding overlay_graph_add_conn
  add_conn-Sound graph src dst len width s fit = (
    _,
    refl,
    record {
      size = length-add_to_node dst _ _ ∙ (length-add_to_node src _ graph.hosts ∙ s.size);
      all_hosts =
          add_to_node-IsHost dst _ _ fit (add_to_node-IsHost src _ graph.hosts fit s.all_hosts);
      all_conns = append-IsFit graph.conns _ s.all_conns fit;
    },
  )

  find_host-IsFit :
      (test : Node Carrier → Bool) (hosts : List (Node Carrier)) (node : Node Carrier)
      → ((x : Node Carrier) → Memᴰ x hosts → IsHost x)
      → find_host test hosts ≡ some node
      → IsHost node
  unfolding find_host
  find_host-IsFit test [] node h found = absurd (none_ne_some found)
  find_host-IsFit test (x ∷ hosts) node h found = elim (Bool-cases (test x)) [
    | inl here ↦ rw (← some_injective (rw here at found)) (h x (Memᴰ.head refl))
    | inr there ↦ find_host-IsFit test hosts node (λ y m. h y (Memᴰ.tail m)) (rw there at found)
  ]

  pub node_conns-IsFit :
      (graph : Graph Carrier) (pid : ℕ)
      → Sound graph
      → (conn : Edge Carrier) → Memᴰ conn (node_conns graph pid)
      → IsFit conn
  unfolding node_conns overlay_graph_get_node_by_pid
  node_conns-IsFit graph pid s conn mem =
      elim (Option-cases (find_host (λ node. node.pid == pid) graph.hosts)) [
        | inl missing ↦ elim (rw (node_conns, overlay_graph_get_node_by_pid, missing) at mem) [ ]
        | inr (node, e) ↦
            (find_host-IsFit _ graph.hosts node s.all_hosts e).fits conn
              (rw (node_conns, overlay_graph_get_node_by_pid, e) at mem)
      ]

-- Every round trip is positive, and comes with a positive width.
unfoldable pub IsPositive : (w : Weight) (width conn_mat : ℕ → ℕ → Option w.Carrier) → Type 0
IsPositive w width conn_mat =
    (src dst : ℕ) (dist : w.Carrier)
    → conn_mat src dst ≡ some dist
    → (w.less w.zero_weight dist ≡ true)
      × ((wide : w.Carrier) × (width src dst ≡ some wide) × (w.less w.zero_weight wide ≡ true))

module _ (w : Weight) (name : ℕ → List ℕ) (width : ℕ → ℕ → Option w.Carrier)
    (by_length : List (Edge w.Carrier) → List (Edge w.Carrier))
    (arrange : ℕ → List (Edge w.Carrier) → List (Edge w.Carrier))
    (bfs_trees : Graph w.Carrier → Option (ℕ × List (Link w.Carrier))) where
  open w use {Carrier}

  add_nodes-IsHost :
      (n k pid : ℕ) (graph : Graph Carrier)
      → pid + k ≤ n
      → ((x : Node Carrier) → Memᴰ x graph.hosts → IsHost w n x)
      → (x : Node Carrier)
      → Memᴰ x (add_nodes w name width by_length arrange bfs_trees k pid graph).hosts
      → IsHost w n x
  unfolding add_nodes overlay_graph_add_node overlay_node_create
  add_nodes-IsHost n zero pid graph le h x mem = h x mem
  add_nodes-IsHost n (suc k) pid graph le h x mem =
      add_nodes-IsHost n k (pid + 1) _ (omega arith)
        (λ y m. elim (Mem-append-cases y graph.hosts _ m) [
          | inl old ↦ h y old
          | inr new ↦ last y new
        ])
        x mem
    where
      last : (y : Node Carrier) → Memᴰ y (overlay_node_create pid (name pid) ∷ []) → IsHost w n y
      last y (Memᴰ.head same) =
          rw same (record { small = omega arith; fits = λ conn none_there. elim none_there [ ] })
      last y (Memᴰ.tail mem) = elim mem [ ]

  module _ (conn_mat : ℕ → ℕ → Option Carrier) (n : ℕ)
      (positive : IsPositive w width conn_mat) where
    add_measured-Sound :
        (src dst : ℕ) (graph : Graph Carrier)
        → src < n
        → dst < n
        → Sound w n graph
        → (graph' : Graph Carrier) × (add_measured w name width by_length arrange bfs_trees
              (conn_mat src dst)
              src
              dst
              graph
            ≡ some graph')
          × Sound w n graph'
    unfolding add_measured overlay_edge_create IsPositive
    add_measured-Sound src dst graph h h' s = elim (Option-cases (conn_mat src dst)) [
      | inl apart ↦ (graph, rw apart, s)
      | inr (dist, e) ↦
          let (len, (wide, e', wide_pos)) = positive src dst dist e in
          let (graph', run, s') =
            add_conn-Sound w n graph src dst dist wide s
              (record { width = wide_pos; len = len; n0 = h; n1 = h' }) in
          (graph', rw (e, e') run, s')
    ]

    add_row-Sound :
        (src k dst : ℕ) (graph : Graph Carrier)
        → src < n
        → dst + k ≤ n
        → Sound w n graph
        → (graph' : Graph Carrier) × (add_row w name width by_length arrange bfs_trees conn_mat src
              k dst graph
            ≡ some graph')
          × Sound w n graph'
    unfolding add_row
    add_row-Sound src zero dst graph h le s = (graph, refl, s)
    add_row-Sound src (suc k) dst graph h le s =
        let (g, e, s') = add_measured-Sound src dst graph h (omega arith) s in
        let (g', e', s'') = add_row-Sound src k (dst + 1) g h (omega arith) s' in (g', rw e e', s'')

    add_rows-Sound :
        (k src : ℕ) (graph : Graph Carrier)
        → src + k ≤ n
        → Sound w n graph
        → (graph' : Graph Carrier) × (add_rows w name width by_length arrange bfs_trees conn_mat n k
              src graph
            ≡ some graph')
          × Sound w n graph'
    unfolding add_rows
    add_rows-Sound zero src graph le s = (graph, refl, s)
    add_rows-Sound (suc k) src graph le s =
        let (g, e, s') = add_row-Sound src n 0 graph (omega arith) (omega arith) s in
        let (g', e', s'') = add_rows-Sound k (src + 1) g (omega arith) s' in (g', rw e e', s'')

    pub connect_all-Sound :
        (graph : Graph Carrier) × (connect_all w name width by_length arrange bfs_trees conn_mat n
          ≡ some graph)
        × Sound w n graph
    unfolding connect_all overlay_graph_create
    connect_all-Sound =
        let (size, same) =
          length-add_nodes w name width by_length arrange bfs_trees n 0
            (record { conns = []; hosts = [] }) in
        add_rows-Sound n 0 _ (omega arith) (record {
          size = size ∙ omega arith;
          all_hosts = add_nodes-IsHost n n 0 _ (omega arith) (λ x mem. elim mem [ ]);
          all_conns = λ conn mem. elim (rw same at mem) [ ];
        })
