-- ===== src/Graph/Router/Updown.antt =====
-- The up*/down* routers of src/graph/router.c: `updown_assign_ids` and `updown_dfs_assign_ids`.
-- Arrays are functions of the pid, `none` stands for the id -1, and an access out of bounds, a
-- failed assertion, a division by zero and the end of the fuel give `none`.
use dlfree.Base.{
  ℕ, zero, suc, ◌+◌, ◌%◌, Bool, true, false, ◌&&◌, Option, none, some, List, [], ◌∷◌, ◌++◌, ltb,
  ◌==◌, if◌then◌else◌, get_elem?, length,
}
use dlfree.Std.Bytes.{◌>>=◌}
use dlfree.Graph.Link.{Edge, Link, router_graph_link_create}

-- An array with one entry written.
abbrev pub put {ℓ} : {X : Type ℓ} → (ℕ → X) → ℕ → X → ℕ → X
put f i x a = if a == i then x else f a

-- The search from the root: `assignids`, `depths`, `idc` and `node_queue`.
pub record Bfs : Type 0 where
  pub assignids : ℕ → Option ℕ
  pub depths : ℕ → ℕ
  pub idc : ℕ
  pub node_queue : List ℕ

-- `rand() % nnodes`, with the number that `rand` returns.
unfoldable pub updown_choose_root_node : List ℕ → (rand : ℕ) → Option ℕ
updown_choose_root_node hosts rand = get_elem? hosts (rand % length hosts)

unfoldable pub bfs_start : ℕ → Bfs
bfs_start root = record {
  assignids = put (λ _. none) root (some 0);
  depths = λ _. 0;
  idc = 1;
  node_queue = root ∷ [];
}

-- Whether the nodes below `n` all have an id.
unfoldable pub all_assigned : (ℕ → Option ℕ) → ℕ → Bool
all_assigned ids zero = true
all_assigned ids (suc n) = elim (ids n) [ none ↦ false | some _ ↦ all_assigned ids n ]

-- Ids are compared as the numbers of C, where an absent one is -1.
unfoldable pub less_id : Option ℕ → Option ℕ → Bool
less_id a none = false
less_id none (some b) = true
less_id (some a) (some b) = ltb a b

-- `visited` and `idc`.
abbrev pub Dfs : Type 0
Dfs = (ℕ → Option ℕ) × ℕ

module _ {W : Type 0} where
  -- The other end of an edge of the node.
  unfoldable pub other_end : ℕ → Edge W → ℕ
  other_end node conn = if conn.n0 == node then conn.n1 else conn.n0

  -- The body of the loop over the edges of a node.
  unfoldable pub visit_conn : (nnodes node : ℕ) → Edge W → Bfs → Option Bfs
  visit_conn nnodes node conn s =
      let child = other_end node conn in
      if ltb child nnodes
      then elim (s.assignids child) [
        | some _ ↦ some s
        | none ↦ some (record {
          assignids = put s.assignids child (some s.idc);
          depths = put s.depths child (s.depths node + 1);
          idc = s.idc + 1;
          node_queue = s.node_queue ++ child ∷ [];
        })
      ]
      else none

  unfoldable pub visit_conns : (nnodes node : ℕ) → List (Edge W) → Bfs → Option Bfs
  visit_conns nnodes node [] s = some s
  visit_conns nnodes node (conn ∷ conns) s = do
    s' ← visit_conn nnodes node conn s
    visit_conns nnodes node conns s'

  -- `node -> conns` of each node.
  unfoldable pub bfs_loop : ℕ → (nnodes : ℕ) → (ℕ → List (Edge W)) → Bfs → Option Bfs
  bfs_loop zero nnodes conns_of s = none
  bfs_loop (suc fuel) nnodes conns_of s = elim s.node_queue [
    | [] ↦ some s
    | node ∷ queue ↦ do
      s' ← visit_conns nnodes node (conns_of node) (record s { node_queue = queue })
      bfs_loop fuel nnodes conns_of s'
  ]

  -- The first end is up.
  unfoldable pub link_down : Edge W → Link W
  link_down conn = record (router_graph_link_create conn) {
    up = some conn.n0;
    down = some conn.n1;
    level_0 = some 1;
    level_1 = some 0;
  }

  unfoldable pub link_up : Edge W → Link W
  link_up conn = record (router_graph_link_create conn) {
    up = some conn.n1;
    down = some conn.n0;
    level_0 = some 0;
    level_1 = some 1;
  }

  unfoldable pub updown_link : (ℕ → Option ℕ) → (ℕ → ℕ) → Edge W → Link W
  updown_link ids depths conn =
      if ltb (depths conn.n0) (depths conn.n1)
      then link_down conn
      else if ltb (depths conn.n1) (depths conn.n0)
      then link_up conn
      else if less_id (ids conn.n0) (ids conn.n1)
      then link_down conn
      else link_up conn

  -- The loop over the edges, with the level that each gets.
  unfoldable pub updown_links :
      (nnodes : ℕ) → (Edge W → Link W) → List (Edge W) → Option (List (Link W))
  updown_links nnodes link_of [] = some []
  updown_links nnodes link_of (conn ∷ conns) =
      if ltb conn.n0 nnodes && ltb conn.n1 nnodes
      then (do links ← updown_links nnodes link_of conns; some (link_of conn ∷ links))
      else none

  unfoldable pub updown_assign_ids :
      (root nnodes : ℕ) → (ℕ → List (Edge W)) → List (Edge W) → Option (List (Link W))
  updown_assign_ids root nnodes conns_of conns =
      if ltb root nnodes
      then (do
        s ← bfs_loop (nnodes + 1) nnodes conns_of (bfs_start root)
        (if all_assigned s.assignids nnodes
            then updown_links nnodes (updown_link s.assignids s.depths) conns
            else none))
      else none

  -- The loop over the edges, with what visits the other end of one.
  unfoldable pub dfs_conns :
      (nnodes : ℕ) → (ℕ → Dfs → Option Dfs) → (node : ℕ) → List (Edge W) → Dfs → Option Dfs
  dfs_conns nnodes visit node [] s = some s
  dfs_conns nnodes visit node (conn ∷ conns) s =
      let peer = other_end node conn in
      if ltb peer nnodes
      then (do
        s' ← elim (s.0 peer) [ some _ ↦ some s | none ↦ visit peer s ]
        dfs_conns nnodes visit node conns s')
      else none

  -- The edges of a node come in the order of the sort.
  unfoldable pub dfs_traverse :
      ℕ → (nnodes : ℕ) → (ℕ → List (Edge W)) → (node : ℕ) → Dfs → Option Dfs
  dfs_traverse zero nnodes conns_of node s = none
  dfs_traverse (suc fuel) nnodes conns_of node (visited, idc) =
      if ltb node nnodes
      then dfs_conns nnodes (dfs_traverse fuel nnodes conns_of) node (conns_of node)
          (put visited node (some idc), idc + 1)
      else none

  -- Two ends with the same id leave the link without levels.
  unfoldable pub updown_dfs_link : (ℕ → Option ℕ) → Edge W → Link W
  updown_dfs_link visited conn =
      if less_id (visited conn.n0) (visited conn.n1)
      then link_down conn
      else if less_id (visited conn.n1) (visited conn.n0)
      then link_up conn
      else router_graph_link_create conn

  unfoldable pub updown_dfs_assign_ids :
      (root nnodes : ℕ) → (ℕ → List (Edge W)) → List (Edge W) → Option (List (Link W))
  updown_dfs_assign_ids root nnodes conns_of conns = do
    s ← dfs_traverse (nnodes + 1) nnodes conns_of root ((λ _. none), 0)
    updown_links nnodes (updown_dfs_link s.0) conns
