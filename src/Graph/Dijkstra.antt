-- ===== src/Graph/Dijkstra.antt =====
-- src/graph/dijkstra.c: shortest paths over pairs of a node and a level. The matrices are functions
-- of their indices. A failed assertion, an index out of bounds and `exit` are `none`, and so is the
-- end of the fuel, which no run meets.
pub mod Order
pub mod Scan
pub mod Count
pub mod Invariant
pub mod Relax
pub mod Search
pub mod Loop
pub mod Table
pub mod Fill
pub mod Setup
pub mod Run
use dlfree.Base.{
  ℕ, zero, suc, ◌+◌, ◌-◌, ◌*◌, Bool, true, false, ◌&&◌, Option, none, some, List, [], ◌∷◌, ltb,
  ◌==◌, if◌then◌else◌, length,
}
use dlfree.Std.Bytes.{◌>>=◌}
use dlfree.Struct.Rtable.{
  Entry, Rtable, overlay_rtable_entry_create, overlay_rtable_create, overlay_rtable_add_entry,
}
use dlfree.Graph.Weight.{Weight}
use dlfree.Graph.Link.{Link}

-- A matrix with one entry written.
abbrev pub write {ℓ} : {X : Type ℓ} → (ℕ → ℕ → X) → ℕ → ℕ → X → ℕ → ℕ → X
write f i j x a b = if a == i && b == j then x else f a b

pub record Dijkstra (W : Type 0) : Type 0 where
  pub num_nodes : ℕ
  pub num_levels : ℕ
  pub dist : ℕ → ℕ → W
  pub prev : ℕ → ℕ → Option ℕ
  pub prev_level : ℕ → ℕ → Option ℕ
  pub levels : ℕ → ℕ → Option ℕ
  pub metrics : ℕ → ℕ → W
  pub width : ℕ → ℕ → W
  pub reached : ℕ → ℕ → Bool

module _ (w : Weight) where
  open w use {Carrier, zero_weight, add, less, max_dist, max_width}

  -- The array `pid_to_node`, which nothing reads, is left out; filling it would be out of bounds for a
  -- node whose `pid` is not below `num_nodes`.
  unfoldable pub leveled_dijkstra_create : ℕ → ℕ → Dijkstra Carrier
  leveled_dijkstra_create num_nodes num_levels = record {
    num_nodes = num_nodes;
    num_levels = num_levels;
    dist = λ _ _. max_dist;
    prev = λ _ _. none;
    prev_level = λ _ _. none;
    levels = λ _ _. none;
    metrics = λ _ _. max_dist;
    width = λ _ _. zero_weight;
    reached = λ _ _. false;
  }

  -- The body of the loop in `setup`.
  unfoldable pub setup_link : Dijkstra Carrier → Link Carrier → Option (Dijkstra Carrier)
  setup_link d link =
      let e = link.conn in
      if less zero_weight e.width
        && less zero_weight e.len
        && (ltb e.n0 d.num_nodes && ltb e.n1 d.num_nodes)
      then some (record d {
        levels = write (write d.levels e.n0 e.n1 link.level_0) e.n1 e.n0 link.level_1;
        metrics = write (write d.metrics e.n0 e.n1 e.len) e.n1 e.n0 e.len;
        width = write (write d.width e.n0 e.n1 e.width) e.n1 e.n0 e.width;
      })
      else none

  unfoldable pub setup : Dijkstra Carrier → List (Link Carrier) → Option (Dijkstra Carrier)
  setup d [] = some d
  setup d (link ∷ links) = do d' ← setup_link d link; setup d' links

  -- The smallest distance seen so far and where it was seen.
  abbrev pub Best : Type 0
  Best = Carrier × Option (ℕ × ℕ)

  unfoldable pub consider : Dijkstra Carrier → ℕ → ℕ → Best → Best
  consider d p l (val, best) =
      if d.reached p l
      then (val, best)
      else if less (d.dist p l) val
      then (d.dist p l, some (p, l))
      else (val, best)

  -- The levels below the third argument, the highest first.
  unfoldable pub scan_levels : Dijkstra Carrier → ℕ → ℕ → Best → Best
  scan_levels d p zero b = b
  scan_levels d p (suc l) b = scan_levels d p l (consider d p l b)

  -- The given number of nodes, from `p` on.
  unfoldable pub scan_nodes : Dijkstra Carrier → ℕ → ℕ → Best → Best
  scan_nodes d zero p b = b
  scan_nodes d (suc k) p b = scan_nodes d k (p + 1) (scan_levels d p d.num_levels b)

  unfoldable pub extract_min_node : Dijkstra Carrier → Option (ℕ × ℕ) × Dijkstra Carrier
  extract_min_node d = elim (scan_nodes d d.num_nodes 0 (max_dist, none)).1 [
    | none ↦ (none, d)
    | some (p, l) ↦ (some (p, l), record d { reached = write d.reached p l true })
  ]

  -- One candidate (v, l) behind the extracted (u, level).
  unfoldable pub relax : (u level v l : ℕ) → Dijkstra Carrier → Option (Dijkstra Carrier)
  relax u level v l d =
      let new = add (d.dist u level) (d.metrics u v) in
      if less new (d.dist v l)
      then (if d.reached v l
          then none
          else some (record d {
            dist = write d.dist v l new;
            prev = write d.prev v l (some u);
            prev_level = write d.prev_level v l (some level);
          }))
      else some d

  -- The given number of levels, from `l` on.
  unfoldable pub relax_levels :
      (u level v : ℕ) → ℕ → ℕ → Dijkstra Carrier → Option (Dijkstra Carrier)
  relax_levels u level v zero l d = some d
  relax_levels u level v (suc k) l d = do
    d' ← relax u level v l d
    relax_levels u level v k (l + 1) d'

  unfoldable pub relax_node : (u level v : ℕ) → Dijkstra Carrier → Option (Dijkstra Carrier)
  relax_node u level v d = elim (d.levels u v) [
    | none ↦ some d
    | some e ↦ if ltb e level then some d else relax_levels u level v (d.num_levels - e) e d
  ]

  -- The given number of nodes, from `v` on.
  unfoldable pub relax_nodes : (u level : ℕ) → ℕ → ℕ → Dijkstra Carrier → Option (Dijkstra Carrier)
  relax_nodes u level zero v d = some d
  relax_nodes u level (suc k) v d = do d' ← relax_node u level v d; relax_nodes u level k (v + 1) d'

  unfoldable pub compute_loop : ℕ → Dijkstra Carrier → Option (Dijkstra Carrier)
  compute_loop zero d = none
  compute_loop (suc fuel) d =
      let (best, d') = extract_min_node d in
      elim best [
        | none ↦ some d'
        | some (u, level) ↦ do d'' ← relax_nodes u level d'.num_nodes 0 d'; compute_loop fuel d''
      ]

  -- Every round but the last reaches a new pair.
  unfoldable pub compute : Dijkstra Carrier → ℕ → Option (Dijkstra Carrier)
  compute d src =
      let d' = record d { dist = λ p l. if p == src then zero_weight else d.dist p l } in
      compute_loop (d.num_nodes * d.num_levels + 1) d'

  -- The level of the shortest way to `dst`, with its length: the levels below the third argument,
  -- the highest first.
  unfoldable pub choose_level :
      Dijkstra Carrier → (dst : ℕ) → ℕ → Carrier × Option ℕ → Carrier × Option ℕ
  choose_level d dst zero s = s
  choose_level d dst (suc l) (min_dist, level) =
      choose_level d dst l
        (if less (d.dist dst l) min_dist then (d.dist dst l, some l) else (min_dist, level))

  -- The walk over the previous pointers, with the nodes passed, the last one first, which is the
  -- order that the source reverses them to, and the smallest width.
  unfoldable pub trace_back :
      Dijkstra Carrier → ℕ → (node level : ℕ) → List ℕ → Carrier → Option (List ℕ × Carrier)
  trace_back d zero node level stack min_width = none
  trace_back d (suc fuel) node level stack min_width = elim (d.prev node level) [
    | none ↦ some (node ∷ stack, min_width)
    | some tmp_n ↦ do
      tmp_l ← d.prev_level node level
      trace_back d fuel tmp_n tmp_l (node ∷ stack)
          (if less min_width (d.width tmp_n node) then min_width else d.width tmp_n node)
  ]

  unfoldable pub calc_entry : Dijkstra Carrier → (dst : ℕ) → Option Entry
  calc_entry d dst = do
    let chosen = choose_level d dst d.num_levels (max_dist, none)
    level ← chosen.1
    traced ← trace_back d (d.num_nodes * d.num_levels + 1) dst level [] max_width
    let hops = length traced.0 - 1
    some (overlay_rtable_entry_create dst traced.0 hops (w.to_int chosen.0) (w.to_int traced.1))

  -- The given number of destinations, from `dst` on.
  unfoldable pub calc_entries :
      Dijkstra Carrier → (src : ℕ) → ℕ → (dst : ℕ) → Rtable → Option Rtable
  calc_entries d src zero dst rt = some rt
  calc_entries d src (suc k) dst rt = if dst == src then calc_entries d src k (dst + 1) rt else (do
    entry ← calc_entry d dst
    rt' ← overlay_rtable_add_entry rt entry
    calc_entries d src k (dst + 1) rt')

  unfoldable pub calc_rt : Dijkstra Carrier → (src : ℕ) → Option Rtable
  calc_rt d src = calc_entries d src d.num_nodes 0 (overlay_rtable_create src d.num_nodes)

  unfoldable pub leveled_dijkstra_run :
      Dijkstra Carrier → List (Link Carrier) → (src : ℕ) → Option Rtable
  leveled_dijkstra_run d links src = do d' ← setup d links; d'' ← compute d' src; calc_rt d'' src
