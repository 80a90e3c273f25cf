-- ===== src/Tests/Gxp.antt =====
-- `gxp_router_run` for two hosts that are connected.
use mathlib.Core.List.{Memᴰ}
use dlfree.Base.{
  ℕ, zero, suc, ◌<◌, ◌≡◌, ◌≢◌, ◌⊎◌, refl, some_injective, none_ne_some, Option, none, some, List,
  [], ◌∷◌, arith,
}
use dlfree.Struct.Rtable.{
  Rtable, overlay_rtable_create, overlay_rtable_add_entry, overlay_rtable_entry_create,
  overlay_rtable_get_entry,
}
use dlfree.Graph.Weight.{nat_weight}
use dlfree.Graph.Link.{Edge, Link, router_graph_link_create}
use dlfree.Graph.Overlay.{
  Graph, overlay_node_create, overlay_edge_create, overlay_graph_create, find_host,
  overlay_graph_get_node_by_pid, overlay_graph_add_node, add_to_node, overlay_graph_add_conn,
  node_conns,
}
use dlfree.Graph.Deadlock.{DeadlockFree}
use dlfree.Graph.Dijkstra.{
  Dijkstra, leveled_dijkstra_create, setup_link, setup, consider, scan_levels, scan_nodes,
  extract_min_node, relax, relax_levels, relax_node, relax_nodes, compute_loop, compute,
  choose_level, trace_back, calc_entry, calc_entries, calc_rt, leveled_dijkstra_run,
}
use dlfree.Graph.Router.Updown.{
  updown_choose_root_node, other_end, visit_conn, visit_conns, bfs_loop, bfs_start, all_assigned,
  link_down, link_up, less_id, updown_link, updown_links, updown_assign_ids,
}
use dlfree.Gxp.Router.{
  updown_bfs, updown_dfs, bfs, router_graph_make_updown_tree, add_nodes, add_measured, add_row,
  add_rows, connect_all, levelled_links, gxp_router_run,
}
use dlfree.Graph.Dijkstra.Order.{Le}
use dlfree.Graph.Dijkstra.Run.{IsTable}
use dlfree.Gxp.Sound.{IsPositive}
use dlfree.Gxp.Returns.{gxp_router_run-cases}
use dlfree.Gxp.Safety.{gxp_router_run-DeadlockFree}

abbrev name : ℕ → List ℕ
name p = p ∷ []

abbrev width : ℕ → ℕ → Option ℕ
width a b = some 10

abbrev by_length : List (Edge ℕ) → List (Edge ℕ)
by_length conns = conns

abbrev arrange : ℕ → List (Edge ℕ) → List (Edge ℕ)
arrange kind conns = conns

abbrev bfs_trees : Graph ℕ → Option (ℕ × List (Link ℕ))
bfs_trees graph = none

-- A round trip from host 0 to host 1.
abbrev conn_mat : ℕ → ℕ → Option ℕ
conn_mat zero (suc zero) = some 4
conn_mat _ _ = none

conn_mat-none : (p : ℕ) → conn_mat p p ≡ none
conn_mat-none zero = refl
conn_mat-none (suc p) = refl

abbrev table_0 : Rtable
table_0 = record {
  srcpid = 0;
  nentry = 2;
  entries =
      none
      ∷ some (record { dst_pid = 1; path = 0 ∷ 1 ∷ []; hops = 1; metric = 4; width = 10 })
      ∷ [];
}

run_0 :
    gxp_router_run nat_weight name width by_length arrange bfs_trees conn_mat 2 0 updown_bfs 0
    ≡ some table_0
unfolding gxp_router_run levelled_links connect_all add_rows add_row add_measured add_nodes
    router_graph_make_updown_tree updown_choose_root_node updown_assign_ids updown_links updown_link
    less_id link_down link_up router_graph_link_create all_assigned bfs_start bfs_loop visit_conns
    visit_conn other_end overlay_node_create overlay_edge_create overlay_graph_create find_host
    overlay_graph_get_node_by_pid overlay_graph_add_node add_to_node overlay_graph_add_conn
    node_conns leveled_dijkstra_run leveled_dijkstra_create setup setup_link compute compute_loop
    extract_min_node scan_nodes scan_levels consider relax_nodes relax_node relax_levels relax
    calc_rt calc_entries calc_entry choose_level trace_back overlay_rtable_create
    overlay_rtable_add_entry overlay_rtable_entry_create overlay_rtable_get_entry
run_0 = refl

only_table :
    (rt : Rtable)
    → Memᴰ rt (table_0 ∷ [])
    → (idx : ℕ) × (idx < 2)
      × (gxp_router_run nat_weight name width by_length arrange bfs_trees conn_mat 2 idx updown_bfs
            0
          ≡ some rt)
only_table rt (Memᴰ.head e) = (0, omega arith, rw e run_0)
only_table rt (Memᴰ.tail mem) = elim mem [ ]

gxp_router_run-DeadlockFree_example : DeadlockFree (table_0 ∷ [])
gxp_router_run-DeadlockFree_example =
    gxp_router_run-DeadlockFree nat_weight name width by_length arrange bfs_trees conn_mat 2 bfs 0
      (table_0 ∷ []) conn_mat-none only_table

conn_mat-IsPositive : IsPositive nat_weight width conn_mat
unfolding IsPositive
conn_mat-IsPositive zero zero dist e = absurd (none_ne_some e)
conn_mat-IsPositive zero (suc zero) dist e = (rw (← some_injective e) refl, (10, refl, refl))
conn_mat-IsPositive zero (suc (suc b)) dist e = absurd (none_ne_some e)
conn_mat-IsPositive (suc a) dst dist e = absurd (none_ne_some e)

gxp_router_run-cases_example :
    (graph : Graph ℕ) × (links : List (Link ℕ)) × (d d' : Dijkstra ℕ) × (connect_all nat_weight name
        width by_length arrange bfs_trees conn_mat 2
      ≡ some graph)
    × (levelled_links nat_weight name width by_length arrange bfs_trees graph updown_dfs 0
        ≡ some (2, links))
    × (setup nat_weight (leveled_dijkstra_create nat_weight 2 2) links ≡ some d)
    × (compute nat_weight d 0 ≡ some d')
    × (((rt : Rtable) × (gxp_router_run nat_weight name width by_length arrange bfs_trees conn_mat 2
              0 updown_dfs 0
            ≡ some rt)
          × IsTable d.levels 0 2 rt)
        ⊎ ((gxp_router_run nat_weight name width by_length arrange bfs_trees conn_mat 2 0 updown_dfs
                0
              ≡ none)
            × ((dst : ℕ) × (dst < 2)
                × (dst ≢ 0)
                × ((k : ℕ) → k < 2 → Le nat_weight nat_weight.max_dist (d'.dist dst k)))))
gxp_router_run-cases_example =
    gxp_router_run-cases nat_weight name width by_length arrange bfs_trees conn_mat 2 0 0
      conn_mat-IsPositive (λ conns conn mem. mem) (omega arith)
