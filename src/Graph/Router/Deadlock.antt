-- ===== src/Graph/Router/Deadlock.antt =====
-- The routing tables of the up*/down* routers are free of deadlock.
use mathlib.Core.List.{Memᴰ}
use dlfree.Base.{
  ℕ, ◌+◌, ◌<◌, ◌≡◌, ◌≢◌, ◌⊎◌, refl, sym, ◌∙◌, true, Option, none, some, inl, inr, arith, Bool-cases,
  Option-cases, ltb, List, none_ne_some,
}
use dlfree.Struct.Rtable.{Rtable}
use dlfree.Graph.Weight.{Weight}
use dlfree.Graph.Link.{Edge, Link, router_graph_link_create}
use dlfree.Graph.Deadlock.{Channel, waits, Chain, one, more, DeadlockFree, oriented-DeadlockFree}
use dlfree.Graph.Dijkstra.{Dijkstra, leveled_dijkstra_create, setup, leveled_dijkstra_run}
use dlfree.Graph.Dijkstra.Run.{runs-AllClimb}
use dlfree.Graph.Router.Updown.{
  Bfs, bfs_loop, bfs_start, all_assigned, less_id, updown_link, updown_links, updown_assign_ids,
  dfs_traverse, updown_dfs_link, updown_dfs_assign_ids,
}
use dlfree.Graph.Router.Bfs.{Numbered, start-Numbered, bfs_loop-Good}
use dlfree.Graph.Router.Orient.{
  Oriented, Unlabelled, position, link_down-Oriented, link_up-Oriented, updown_link-Oriented,
  updown_links-mem, setup-IsOriented,
}

-- The order of the visits of the depth-first search.
visit : Option ℕ → ℕ
visit none = 0
visit (some i) = i + 1

less_id-visit : (a b : Option ℕ) → less_id a b ≡ true → visit a < visit b
unfolding less_id visit
less_id-visit a none h = absurd (ground (arith, h))
less_id-visit none (some j) h = omega arith
less_id-visit (some i) (some j) h = ground (arith, h)

create-Unlabelled : {W : Type 0} (conn : Edge W) → Unlabelled (router_graph_link_create conn)
unfolding router_graph_link_create
create-Unlabelled conn = (refl, refl)

module _ {W : Type 0} where
  -- What a successful run of `updown_assign_ids` went through.
  record Assigned (root n : ℕ) (conns_of : ℕ → List (Edge W)) (conns : List (Edge W))
      (links : List (Link W)) : Type 0 where
    s : Bfs
    numbered : Numbered n s.assignids s.idc
    all : all_assigned s.assignids n ≡ true
    made : updown_links n (updown_link s.assignids s.depths) conns ≡ some links

  assigned :
      (root n : ℕ) (conns_of : ℕ → List (Edge W)) (conns : List (Edge W)) (links : List (Link W))
      → updown_assign_ids root n conns_of conns ≡ some links
      → Assigned root n conns_of conns links
  unfolding updown_assign_ids
  assigned root n conns_of conns links run = elim (Bool-cases (ltb root n)) [
    | inr out ↦ absurd (let clash = rw out at run in cc)
    | inl within ↦ elim (Option-cases (bfs_loop (n + 1) n conns_of (bfs_start root))) [
      | inl failed ↦ absurd (let clash = rw (within, failed) at run in cc)
      | inr (s, e) ↦ elim (Bool-cases (all_assigned s.assignids n)) [
        | inr missing ↦ absurd (let clash = rw (within, e, missing) at run in cc)
        | inl all ↦ record {
          s = s;
          numbered =
              bfs_loop-Good n conns_of (n + 1) (bfs_start root) s e
                (start-Numbered n root (ground (arith, within)));
          all = all;
          made = rw (within, e, all) at run;
        }
      ]
    ]
  ]

  -- Breadth-first levels lead up or down in one order of the nodes.
  updown_assign_ids-Oriented :
      (root n : ℕ) (conns_of : ℕ → List (Edge W)) (conns : List (Edge W)) (links : List (Link W))
      → ((conn : Edge W) → Memᴰ conn conns → conn.n0 ≢ conn.n1)
      → updown_assign_ids root n conns_of conns ≡ some links
      → (pos : ℕ → ℕ) × ((link : Link W) → Memᴰ link links → Oriented pos link)
  updown_assign_ids-Oriented root n conns_of conns links distinct run =
      let a = assigned root n conns_of conns links run in
      (
        position n a.s.assignids a.s.depths,
        λ link mem.
            let (conn, at, h0, h1, same) = updown_links-mem n _ conns links link a.made mem in
            rw same (
              updown_link-Oriented n a.s.idc a.s.assignids a.s.depths a.numbered a.all conn h0 h1
                (distinct conn at)),
      )

  updown_dfs_link-Oriented :
      (visited : ℕ → Option ℕ) (conn : Edge W)
      → Oriented (λ p. visit (visited p)) (updown_dfs_link visited conn)
        ⊎ Unlabelled (updown_dfs_link visited conn)
  unfolding updown_dfs_link
  updown_dfs_link-Oriented visited conn =
      elim (Bool-cases (less_id (visited conn.n0) (visited conn.n1))) [
        | inl down ↦ inl (
            rw down (
              link_down-Oriented (λ p. visit (visited p)) conn
                (less_id-visit (visited conn.n0) (visited conn.n1) down)))
        | inr not_down ↦ elim (Bool-cases (less_id (visited conn.n1) (visited conn.n0))) [
          | inl up ↦ inl (
              rw (not_down, up)
                (link_up-Oriented (λ p. visit (visited p)) conn
                  (less_id-visit (visited conn.n1) (visited conn.n0) up)))
          | inr not_up ↦ inr (rw (not_down, not_up) (create-Unlabelled conn))
        ]
      ]

  -- Depth-first levels lead up or down in one order of the nodes, where a link has levels.
  updown_dfs_assign_ids-Oriented :
      (root n : ℕ) (conns_of : ℕ → List (Edge W)) (conns : List (Edge W)) (links : List (Link W))
      → updown_dfs_assign_ids root n conns_of conns ≡ some links
      → (pos : ℕ → ℕ) × ((link : Link W) → Memᴰ link links → Oriented pos link ⊎ Unlabelled link)
  unfolding updown_dfs_assign_ids
  updown_dfs_assign_ids-Oriented root n conns_of conns links run =
      elim (Option-cases (dfs_traverse (n + 1) n conns_of root ((λ _. none), 0))) [
        | inl failed ↦ absurd (let clash = rw failed at run in cc)
        | inr (s, e) ↦ (
          λ p. visit (s.0 p),
          λ link mem.
              let (conn, at, h0, h1, same) =
                updown_links-mem n (updown_dfs_link s.0) conns links link (rw e at run) mem in
              rw same (updown_dfs_link-Oriented s.0 conn),
        )
      ]

module _ (w : Weight) where
  open w use {Carrier}

  -- Every table is what `leveled_dijkstra_run` gives some node for the links, with two levels.
  abbrev pub RunTables : (n : ℕ) → List (Link Carrier) → List Rtable → Type 0
  RunTables n links tables =
      (rt : Rtable)
      → Memᴰ rt tables
      → (src : ℕ) × (src < n)
        × (leveled_dijkstra_run w (leveled_dijkstra_create w n 2) links src ≡ some rt)

  links-DeadlockFree :
      (n : ℕ) (links : List (Link Carrier)) (d : Dijkstra Carrier) (tables : List Rtable)
      (pos : ℕ → ℕ)
      → ((link : Link Carrier) → Memᴰ link links → Oriented pos link ⊎ Unlabelled link)
      → setup w (leveled_dijkstra_create w n 2) links ≡ some d
      → RunTables n links tables
      → DeadlockFree tables
  links-DeadlockFree n links d tables pos oriented run made =
      oriented-DeadlockFree d.levels pos (setup-IsOriented w pos n links d oriented run) tables
        (runs-AllClimb w n 2 links d tables run made)

  -- Where `setup` fails, no node has a table.
  no_table :
      (n : ℕ) (links : List (Link Carrier)) (src : ℕ)
      → setup w (leveled_dijkstra_create w n 2) links ≡ none
      → leveled_dijkstra_run w (leveled_dijkstra_create w n 2) links src ≡ none
  unfolding leveled_dijkstra_run
  no_table n links src failed = rw failed

  pub Chain-table :
      (tables : List Rtable) {c d : Channel} → Chain tables c d → (rt : Rtable) × Memᴰ rt tables
  Chain-table tables (one (waits rt entry pre post mem _ _ _)) = (rt, mem)
  Chain-table tables (more chain _) = Chain-table tables chain

  all_links-DeadlockFree :
      (n : ℕ) (links : List (Link Carrier)) (tables : List Rtable) (pos : ℕ → ℕ)
      → ((link : Link Carrier) → Memᴰ link links → Oriented pos link ⊎ Unlabelled link)
      → RunTables n links tables
      → DeadlockFree tables
  all_links-DeadlockFree n links tables pos oriented made =
      elim (Option-cases (setup w (leveled_dijkstra_create w n 2) links)) [
        | inr (d, run) ↦ links-DeadlockFree n links d tables pos oriented run made
        | inl failed ↦ λ c chain.
            let (rt, mem) = Chain-table tables chain in
            let (src, _, run) = made rt mem in
            none_ne_some (sym (no_table n links src failed) ∙ run)
      ]

  -- With the links of `updown_assign_ids`, whose edges join different nodes, no tables that the
  -- nodes compute let a channel wait for itself.
  pub updown_assign_ids-DeadlockFree :
      (root n : ℕ) (conns_of : ℕ → List (Edge Carrier)) (conns : List (Edge Carrier))
      (links : List (Link Carrier)) (tables : List Rtable)
      → ((conn : Edge Carrier) → Memᴰ conn conns → conn.n0 ≢ conn.n1)
      → updown_assign_ids root n conns_of conns ≡ some links
      → RunTables n links tables
      → DeadlockFree tables
  updown_assign_ids-DeadlockFree root n conns_of conns links tables distinct run made =
      let (pos, oriented) = updown_assign_ids-Oriented root n conns_of conns links distinct run in
      all_links-DeadlockFree n links tables pos (λ link mem. inl (oriented link mem)) made

  -- With the links of `updown_dfs_assign_ids`, no tables that the nodes compute let a channel wait
  -- for itself.
  pub updown_dfs_assign_ids-DeadlockFree :
      (root n : ℕ) (conns_of : ℕ → List (Edge Carrier)) (conns : List (Edge Carrier))
      (links : List (Link Carrier)) (tables : List Rtable)
      → updown_dfs_assign_ids root n conns_of conns ≡ some links
      → RunTables n links tables
      → DeadlockFree tables
  updown_dfs_assign_ids-DeadlockFree root n conns_of conns links tables run made =
      let (pos, oriented) = updown_dfs_assign_ids-Oriented root n conns_of conns links run in
      all_links-DeadlockFree n links tables pos oriented made
