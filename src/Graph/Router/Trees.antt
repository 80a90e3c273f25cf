-- ===== src/Graph/Router/Trees.antt =====
-- The ordered-link router of src/graph/router.c, `router_graph_make_spanning_trees`, and the links
-- that are prone to deadlock. A node is its pid, also as an item of the union set. The order that
-- the shuffle or the sort leaves the edges in is a parameter, by the type of the router.
use dlfree.Base.{
  ℕ, zero, suc, ◌+◌, Option, none, some, List, [], ◌∷◌, ◌++◌, ltb, if◌then◌else◌, length, map,
}
use dlfree.Std.Bytes.{◌>>=◌}
use dlfree.Std.UnionSet.{
  UnionSet, union_set_create, union_set_add, union_set_is_same_set, union_set_merge_set,
}
use dlfree.Graph.Link.{Edge, Link, router_graph_link_create}

unfoldable pub add_hosts : List ℕ → UnionSet → Option UnionSet
add_hosts [] u = some u
add_hosts (host ∷ hosts) u = do u' ← union_set_add u host; add_hosts hosts u'

module _ {W : Type 0} where
  -- A link of both directions at one level.
  unfoldable pub label_link : ℕ → Link W → Link W
  label_link level link = record link { level_0 = some level; level_1 = some level }

  -- The loop while there are links in the pool: `remain` and `assigned`.
  unfoldable pub choose_links :
      (level : ℕ)
      → (pool remain assigned : List (Link W)) → UnionSet
      → Option (List (Link W) × List (Link W))
  choose_links level [] remain assigned u = some (remain, assigned)
  choose_links level (link ∷ pool) remain assigned u = do
    same ← union_set_is_same_set u link.conn.n0 link.conn.n1
    (if same then choose_links level pool (remain ++ link ∷ []) assigned u else (do
      u' ← union_set_merge_set u link.conn.n0 link.conn.n1
      choose_links level pool remain (assigned ++ label_link level link ∷ []) u'))

  unfoldable pub choose_sp_tree_links :
      (hosts : List ℕ) (pool remain assigned : List (Link W)) (level : ℕ)
      → Option (List (Link W) × List (Link W))
  choose_sp_tree_links hosts pool remain assigned level = do
    u ← add_hosts hosts union_set_create
    choose_links level pool remain assigned u

  -- The loop until no links are left: the number of levels and the links.
  unfoldable pub trees_loop :
      ℕ
      → (hosts : List ℕ) → (pool assigned : List (Link W)) → (level : ℕ)
      → Option (ℕ × List (Link W))
  trees_loop fuel hosts [] assigned level = some (level, assigned)
  trees_loop zero hosts (link ∷ pool) assigned level = none
  trees_loop (suc fuel) hosts (link ∷ pool) assigned level = do
    (remain, assigned') ← choose_sp_tree_links hosts (link ∷ pool) [] assigned level
    trees_loop fuel hosts remain assigned' (level + 1)

  -- Another type of router than the four known ones exits.
  unfoldable pub router_graph_make_spanning_trees :
      (arrange : ℕ → List (Edge W) → List (Edge W)) (hosts : List ℕ) (conns : List (Edge W))
      (kind : ℕ)
      → Option (ℕ × List (Link W))
  router_graph_make_spanning_trees arrange hosts conns kind =
      if ltb kind 4
      then trees_loop (length (arrange kind conns)) hosts
          (map router_graph_link_create (arrange kind conns)) [] 0
      else none

  -- Every link at level 0 in both directions.
  unfoldable pub router_graph_make_deadlock_prone_links : List (Edge W) → List (Link W)
  router_graph_make_deadlock_prone_links [] = []
  router_graph_make_deadlock_prone_links (conn ∷ conns) =
      label_link 0 (router_graph_link_create conn) ∷ router_graph_make_deadlock_prone_links conns
