-- ===== src/Tests/Graph.antt =====
-- A triangle of three nodes: the search of src/graph/dijkstra.c and the routers of
-- src/graph/router.c run on it.
use mathlib.Core.List.{Memᴰ}
use dlfree.Base.{ℕ, zero, suc, ◌<◌, ◌≡◌, ◌≢◌, ◌⊎◌, refl, none, some, List, [], ◌∷◌, arith}
use dlfree.Struct.Rtable.{
  Entry, Rtable, overlay_rtable_create, overlay_rtable_add_entry, overlay_rtable_entry_create,
  overlay_rtable_get_entry,
}
use dlfree.Graph.Weight.{nat_weight}
use dlfree.Graph.Link.{Edge, Link, router_graph_link_create}
use dlfree.Graph.Deadlock.{DeadlockFree}
use dlfree.Graph.Dijkstra.{
  Dijkstra, leveled_dijkstra_create, setup_link, setup, consider, scan_levels, scan_nodes,
  extract_min_node, relax, relax_levels, relax_node, relax_nodes, compute_loop, compute,
  choose_level, trace_back, calc_entry, calc_entries, calc_rt, leveled_dijkstra_run,
}
use dlfree.Graph.Dijkstra.Order.{Le}
use dlfree.Graph.Dijkstra.Setup.{IsUsable, setup-some}
use dlfree.Graph.Dijkstra.Run.{IsTable, leveled_dijkstra_run-cases, leveled_dijkstra_run-IsTable}
use dlfree.Graph.Router.Bfs.{InRange}
use dlfree.Graph.Router.Reach.{Reach, start, step, updown_assign_ids-some}
use dlfree.Graph.Router.Dfs.{updown_dfs_assign_ids-some}
use dlfree.Graph.Router.Updown.{
  other_end, visit_conn, visit_conns, bfs_loop, bfs_start, all_assigned, link_down, link_up,
  less_id, updown_link, updown_links, updown_assign_ids, dfs_conns, dfs_traverse, updown_dfs_link,
  updown_dfs_assign_ids,
}
use dlfree.Graph.Router.Deadlock.{
  RunTables, updown_assign_ids-DeadlockFree, updown_dfs_assign_ids-DeadlockFree,
}

abbrev edge : ℕ → ℕ → ℕ → Edge ℕ
edge a b len = record { n0 = a; n1 = b; len = len; width = 10 }

abbrev triangle : List (Edge ℕ)
triangle = edge 0 1 4 ∷ edge 1 2 5 ∷ edge 2 0 6 ∷ []

abbrev triangle_conns : ℕ → List (Edge ℕ)
triangle_conns zero = edge 0 1 4 ∷ edge 2 0 6 ∷ []
triangle_conns (suc zero) = edge 0 1 4 ∷ edge 1 2 5 ∷ []
triangle_conns (suc (suc p)) = edge 1 2 5 ∷ edge 2 0 6 ∷ []

-- Node 0 is the root, node 1 comes before node 2.
abbrev triangle_links : List (Link ℕ)
unfolding link_down link_up router_graph_link_create
triangle_links = link_down (edge 0 1 4) ∷ link_down (edge 1 2 5) ∷ link_up (edge 2 0 6) ∷ []

triangle-bfs : updown_assign_ids 0 3 triangle_conns triangle ≡ some triangle_links
unfolding updown_assign_ids updown_links updown_link less_id link_down link_up
    router_graph_link_create all_assigned bfs_start bfs_loop visit_conns visit_conn other_end
triangle-bfs = refl

triangle-dfs : updown_dfs_assign_ids 0 3 triangle_conns triangle ≡ some triangle_links
unfolding updown_dfs_assign_ids updown_links updown_dfs_link less_id link_down link_up
    router_graph_link_create dfs_traverse dfs_conns other_end
triangle-dfs = refl

-- The table of node 2: both its paths are direct.
abbrev entry : ℕ → List ℕ → ℕ → ℕ → Entry
entry dst path hops metric = record {
  dst_pid = dst;
  path = path;
  hops = hops;
  metric = metric;
  width = 10;
}

abbrev table_2 : Rtable
table_2 = record {
  srcpid = 2;
  nentry = 3;
  entries = some (entry 0 (2 ∷ 0 ∷ []) 1 6) ∷ some (entry 1 (2 ∷ 1 ∷ []) 1 5) ∷ none ∷ [];
}

triangle-run :
    leveled_dijkstra_run nat_weight (leveled_dijkstra_create nat_weight 3 2) triangle_links 2
    ≡ some table_2
unfolding leveled_dijkstra_run leveled_dijkstra_create setup setup_link compute compute_loop
    extract_min_node scan_nodes scan_levels consider relax_nodes relax_node relax_levels relax
    calc_rt calc_entries calc_entry choose_level trace_back overlay_rtable_create
    overlay_rtable_add_entry overlay_rtable_entry_create overlay_rtable_get_entry link_down link_up
    router_graph_link_create
triangle-run = refl

triangle-distinct : (conn : Edge ℕ) → Memᴰ conn triangle → conn.n0 ≢ conn.n1
triangle-distinct conn (Memᴰ.head e) = rw e (λ x. ground (arith, x))
triangle-distinct conn (Memᴰ.tail (Memᴰ.head e)) = rw e (λ x. ground (arith, x))
triangle-distinct conn (Memᴰ.tail (Memᴰ.tail (Memᴰ.head e))) = rw e (λ x. ground (arith, x))
triangle-distinct conn (Memᴰ.tail (Memᴰ.tail (Memᴰ.tail mem))) = elim mem [ ]

triangle-runs : RunTables nat_weight 3 triangle_links (table_2 ∷ [])
triangle-runs rt (Memᴰ.head e) = (2, omega arith, rw e triangle-run)
triangle-runs rt (Memᴰ.tail mem) = elim mem [ ]

updown_assign_ids-DeadlockFree_example : DeadlockFree (table_2 ∷ [])
updown_assign_ids-DeadlockFree_example =
    updown_assign_ids-DeadlockFree nat_weight 0 3 triangle_conns triangle triangle_links
      (table_2 ∷ []) triangle-distinct triangle-bfs triangle-runs

updown_dfs_assign_ids-DeadlockFree_example : DeadlockFree (table_2 ∷ [])
updown_dfs_assign_ids-DeadlockFree_example =
    updown_dfs_assign_ids-DeadlockFree nat_weight 0 3 triangle_conns triangle triangle_links
      (table_2 ∷ []) triangle-dfs triangle-runs

triangle_link-IsUsable : (link : Link ℕ) → Memᴰ link triangle_links → IsUsable nat_weight 3 link
unfolding link_down link_up router_graph_link_create
triangle_link-IsUsable link (Memᴰ.head e) =
    rw e (record { width = refl; len = refl; n0 = omega arith; n1 = omega arith })
triangle_link-IsUsable link (Memᴰ.tail (Memᴰ.head e)) =
    rw e (record { width = refl; len = refl; n0 = omega arith; n1 = omega arith })
triangle_link-IsUsable link (Memᴰ.tail (Memᴰ.tail (Memᴰ.head e))) =
    rw e (record { width = refl; len = refl; n0 = omega arith; n1 = omega arith })
triangle_link-IsUsable link (Memᴰ.tail (Memᴰ.tail (Memᴰ.tail mem))) = elim mem [ ]

leveled_dijkstra_run-cases_example :
    (let created = leveled_dijkstra_create nat_weight 3 2 in
      (d d' : Dijkstra ℕ) × (setup nat_weight created triangle_links ≡ some d)
      × (compute nat_weight d 2 ≡ some d')
      × (((rt : Rtable) × (leveled_dijkstra_run nat_weight created triangle_links 2 ≡ some rt)
            × IsTable d.levels 2 3 rt)
          ⊎ ((leveled_dijkstra_run nat_weight created triangle_links 2 ≡ none)
              × ((dst : ℕ) × (dst < 3)
                  × (dst ≢ 2)
                  × ((k : ℕ) → k < 2 → Le nat_weight nat_weight.max_dist (d'.dist dst k))))))
leveled_dijkstra_run-cases_example =
    leveled_dijkstra_run-cases nat_weight 3 2 triangle_links 2 (omega arith) triangle_link-IsUsable

in_triangle : (conn : Edge ℕ) → Memᴰ conn triangle → InRange 3 conn
in_triangle conn (Memᴰ.head e) = rw e (omega arith, omega arith)
in_triangle conn (Memᴰ.tail (Memᴰ.head e)) = rw e (omega arith, omega arith)
in_triangle conn (Memᴰ.tail (Memᴰ.tail (Memᴰ.head e))) = rw e (omega arith, omega arith)
in_triangle conn (Memᴰ.tail (Memᴰ.tail (Memᴰ.tail mem))) = elim mem [ ]

in_pair : (conn a b : Edge ℕ) → Memᴰ conn (a ∷ b ∷ []) → InRange 3 a → InRange 3 b → InRange 3 conn
in_pair conn a b (Memᴰ.head e) h h' = rw e h
in_pair conn a b (Memᴰ.tail (Memᴰ.head e)) h h' = rw e h'
in_pair conn a b (Memᴰ.tail (Memᴰ.tail mem)) h h' = elim mem [ ]

in_conns : (node : ℕ) (conn : Edge ℕ) → Memᴰ conn (triangle_conns node) → InRange 3 conn
in_conns zero conn mem =
    in_pair conn (edge 0 1 4) (edge 2 0 6) mem (omega arith, omega arith) (omega arith, omega arith)
in_conns (suc zero) conn mem =
    in_pair conn (edge 0 1 4) (edge 1 2 5) mem (omega arith, omega arith) (omega arith, omega arith)
in_conns (suc (suc n)) conn mem =
    in_pair conn (edge 1 2 5) (edge 2 0 6) mem (omega arith, omega arith) (omega arith, omega arith)

triangle_node-reached : (p : ℕ) → p < 3 → Reach triangle_conns 0 p
unfolding other_end
triangle_node-reached zero h = start refl
triangle_node-reached (suc zero) h = step (edge 0 1 4) (start refl) (Memᴰ.head refl) refl
triangle_node-reached (suc (suc zero)) h =
    step (edge 2 0 6) (start refl) (Memᴰ.tail (Memᴰ.head refl)) refl
triangle_node-reached (suc (suc (suc n))) h = absurd (omega arith)

updown_assign_ids-some_example :
    (links : List (Link ℕ)) × (updown_assign_ids 0 3 triangle_conns triangle ≡ some links)
updown_assign_ids-some_example =
    updown_assign_ids-some 0 3 triangle_conns triangle (omega arith) in_conns in_triangle
      triangle_node-reached

updown_dfs_assign_ids-some_example :
    (links : List (Link ℕ)) × (updown_dfs_assign_ids 0 3 triangle_conns triangle ≡ some links)
updown_dfs_assign_ids-some_example =
    updown_dfs_assign_ids-some 3 0 triangle_conns triangle (omega arith) in_conns in_triangle

triangle-setup :
    (d : Dijkstra ℕ) × (setup nat_weight (leveled_dijkstra_create nat_weight 3 2) triangle_links
      ≡ some d)
unfolding leveled_dijkstra_create
triangle-setup =
    setup-some nat_weight 3 2 triangle_links triangle_links (leveled_dijkstra_create nat_weight 3 2)
      refl triangle_link-IsUsable

leveled_dijkstra_run-IsTable_example : IsTable triangle-setup.0.levels 2 3 table_2
leveled_dijkstra_run-IsTable_example =
    leveled_dijkstra_run-IsTable nat_weight 3 2 triangle_links triangle-setup.0 2 table_2
      triangle-setup.1 (omega arith) triangle-run
