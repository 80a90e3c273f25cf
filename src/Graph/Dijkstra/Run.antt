-- ===== src/Graph/Dijkstra/Run.antt =====
-- `leveled_dijkstra_run` as a whole: links in, a routing table out.
use mathlib.Core.List.{Memᴰ}
use dlfree.Base.{
  ℕ, suc, ◌+◌, ◌*◌, ◌<◌, ◌≡◌, ◌≢◌, ◌⊎◌, refl, ap, sym, ◌∙◌, some_injective, none_ne_some, Bool,
  true, none, some, inl, inr, arith, ◌==◌, if◌then◌else◌, List, [], ◌∷◌, get_elem?, length,
  ℕ_discrete,
}
use dlfree.Struct.Rtable.{Entry, Rtable}
use dlfree.Graph.Weight.{Weight}
use dlfree.Graph.Link.{Link}
use dlfree.Graph.Route.{Levels, Climbs, StartsAt}
use dlfree.Graph.Deadlock.{AllClimb}
use dlfree.Graph.Dijkstra.{
  Dijkstra, leveled_dijkstra_create, setup, compute, calc_rt, leveled_dijkstra_run,
}
use dlfree.Graph.Dijkstra.Count.{left, left-le}
use dlfree.Graph.Dijkstra.Order.{Le}
use dlfree.Graph.Dijkstra.Invariant.{Inv}
use dlfree.Graph.Dijkstra.Loop.{Finished, compute_loop-Finished}
use dlfree.Graph.Dijkstra.Fill.{Filled, Complete, calc_rt-Complete}
use dlfree.Graph.Dijkstra.Setup.{Ready, IsUsable, create-Ready, setup-Ready, setup-some}

-- A table that holds, for every node but the source, a path that starts at the source, ends in the
-- node and climbs, and nothing else.
pub record IsTable (lv : Levels) (src n : ℕ) (rt : Rtable) : Type 0 where
  pub own : rt.srcpid ≡ src
  pub size : rt.nentry ≡ n
  pub slots : length rt.entries ≡ n
  pub free : get_elem? rt.entries src ≡ some none
  pub filled :
      (p : ℕ)
      → p < n
      → p ≢ src
      → (entry : Entry) × (get_elem? rt.entries p ≡ some (some entry))
        × (entry.dst_pid ≡ p)
        × StartsAt src entry.path
        × (length entry.path ≡ entry.hops + 1)
        × ((l : ℕ) × Climbs lv 0 entry.path p l)

enough :
    (n levels a b : ℕ) (reached : ℕ → ℕ → Bool)
    → a ≡ n
    → b ≡ levels
    → left reached n levels < a * b + 1
enough n levels a b reached e e' = let most = left-le reached n levels in rw (e, e') (omega arith)

module _ (w : Weight) where
  open w use {Carrier, zero_weight, less, max_dist, less_irrefl, less_asymm, max_dist_pos}

  module _ (n levels src : ℕ) (src_node : src < n) (all : List (Link Carrier))
      (d : Dijkstra Carrier) (r : Ready w n levels all d) where
    abbrev begun : Dijkstra Carrier
    begun = record d { dist = λ p l. if p == src then zero_weight else d.dist p l }

    begun-Inv : Inv w n levels src d.levels d.metrics zero_weight begun
    begun-Inv = record {
      num_nodes = r.num_nodes;
      num_levels = r.num_levels;
      same_levels = λ u v. refl;
      same_metrics = λ u v. refl;
      low = λ p l hp hl old. absurd (let new = r.reached p l in cc);
      high = λ p l hp hl new. ground (
        arith,
        r.dist p l,
        less_irrefl zero_weight,
        less_asymm zero_weight max_dist max_dist_pos,
      );
      untouched = λ p l e. ground (arith, r.dist p l);
      pending = λ p l u e. absurd (let new = r.prev p l in let clash = rw new at e in cc);
      traced = λ p l hp hl old. absurd (let new = r.reached p l in cc);
    }

    compute-Finished :
        (m : Carrier) × (d' : Dijkstra Carrier) × (compute w d src ≡ some d')
        × Finished w n levels src d.levels d.metrics r.positive m d'
    unfolding compute
    compute-Finished =
        compute_loop-Finished w n levels src d.levels d.metrics r.positive
          (d.num_nodes * d.num_levels + 1) zero_weight begun begun-Inv
          (enough n levels d.num_nodes d.num_levels d.reached r.num_nodes r.num_levels)

    Filled-IsTable :
        (lv : Levels) (metrics : ℕ → ℕ → Carrier)
        (positive : (u v e : ℕ) → lv u v ≡ some e → less zero_weight (metrics u v) ≡ true)
        (m : Carrier) (d' : Dijkstra Carrier)
        (fin : Finished w n levels src lv metrics positive m d') (rt : Rtable)
        → Filled w n levels src lv metrics positive m d' fin n rt
        → IsTable lv src n rt
    Filled-IsTable lv metrics positive m d' fin rt f = record {
      own = f.own;
      size = f.size;
      slots = f.slots;
      free = f.free src src_node (inl refl);
      filled = λ p h other.
          let (entry, at, route) = f.filled p h other in
          (entry, at, route.to_dst, route.starts, route.hops, (route.level, route.climbs));
    }

    -- The search ends, and the tables are read off; the table is missing only where some node lies
    -- at the largest distance or beyond.
    run-cases :
        (m : Carrier) × (d' : Dijkstra Carrier) × (compute w d src ≡ some d')
        × (((rt : Rtable) × (calc_rt w d' src ≡ some rt) × IsTable d.levels src n rt)
            ⊎ ((calc_rt w d' src ≡ none)
                × ((dst : ℕ) × (dst < n)
                    × (dst ≢ src)
                    × ((k : ℕ) → k < levels → Le w max_dist (d'.dist dst k)))))
    unfolding Complete
    run-cases =
        let (m, d', run, fin) = compute-Finished in
        (
          m,
          d',
          run,
          elim (calc_rt-Complete w n levels src d.levels d.metrics r.positive m d' fin) [
            | inl (rt, made, f) ↦
                inl (rt, made, Filled-IsTable d.levels d.metrics r.positive m d' fin rt f)
            | inr missing ↦ inr missing
          ],
        )

  module _ (n levels : ℕ) (links : List (Link Carrier)) where
    abbrev created : Dijkstra Carrier
    created = leveled_dijkstra_create w n levels

    run_is :
        (src : ℕ) (d d' : Dijkstra Carrier)
        → setup w created links ≡ some d
        → compute w d src ≡ some d'
        → leveled_dijkstra_run w created links src ≡ calc_rt w d' src
    unfolding leveled_dijkstra_run
    run_is src d d' e e' = rw (e, e')

    ready : (d : Dijkstra Carrier) → setup w created links ≡ some d → Ready w n levels links d
    ready d e =
        setup-Ready w n levels links links created d (λ x mem. mem) (create-Ready w n levels links)
          e

    -- With links that the assertions let pass, the run from any node reaches its end, and gives its
    -- table unless some node stays at the largest distance.
    pub leveled_dijkstra_run-cases :
        (src : ℕ)
        → src < n
        → ((link : Link Carrier) → Memᴰ link links → IsUsable w n link)
        → (d d' : Dijkstra Carrier) × (setup w created links ≡ some d)
          × (compute w d src ≡ some d')
          × (((rt : Rtable) × (leveled_dijkstra_run w created links src ≡ some rt)
                × IsTable d.levels src n rt)
              ⊎ ((leveled_dijkstra_run w created links src ≡ none)
                  × ((dst : ℕ) × (dst < n)
                      × (dst ≢ src)
                      × ((k : ℕ) → k < levels → Le w max_dist (d'.dist dst k)))))
    leveled_dijkstra_run-cases src h usable =
        let (d, e) =
          setup-some w n levels links links created (create-Ready w n levels links).num_nodes
            usable in
        let (m, d', e', result) = run-cases n levels src h links d (ready d e) in
        let whole = run_is src d d' e e' in
        (
          d,
          d',
          e,
          e',
          elim result [
            | inl (rt, made, table) ↦ inl (rt, whole ∙ made, table)
            | inr (failed, far) ↦ inr (whole ∙ failed, far)
          ],
        )

    -- What a run gives is a table over the levels of the links.
    pub leveled_dijkstra_run-IsTable :
        (d : Dijkstra Carrier) (src : ℕ) (rt : Rtable)
        → setup w created links ≡ some d
        → src < n
        → leveled_dijkstra_run w created links src ≡ some rt
        → IsTable d.levels src n rt
    leveled_dijkstra_run-IsTable d src rt e h run =
        let (m, d', e', result) = run-cases n levels src h links d (ready d e) in
        let whole = run_is src d d' e e' in
        elim result [
          | inl (rt', made, table) ↦
              let same : some rt' ≡ some rt = sym made ∙ (sym whole ∙ run) in
              rw (← some_injective same) table
          | inr (failed, far) ↦ absurd (none_ne_some (sym failed ∙ (sym whole ∙ run)))
        ]

  Mem-get_elem? :
      {A : Type 0} (xs : List A) (x : A)
      → Memᴰ x xs
      → (i : ℕ) × (i < length xs) × (get_elem? xs i ≡ some x)
  Mem-get_elem? [] x mem = elim mem [ ]
  Mem-get_elem? (y ∷ xs) x (Memᴰ.head e) = (0, omega arith, ap some (sym e))
  Mem-get_elem? (y ∷ xs) x (Memᴰ.tail mem) =
      let (i, lt, at) = Mem-get_elem? xs x mem in (suc i, omega (arith, lt), at)

  pub IsTable-Climbs :
      (lv : Levels) (src n : ℕ) (rt : Rtable) (entry : Entry)
      → IsTable lv src n rt
      → Memᴰ (some entry) rt.entries
      → (y : ℕ) × (m : ℕ) × Climbs lv 0 entry.path y m
  IsTable-Climbs lv src n rt entry t mem =
      let (p, lt, at) = Mem-get_elem? rt.entries (some entry) mem in
      elim (ℕ_discrete p src) [
        | yes e ↦ absurd (let own = rw e at at in none_ne_some (some_injective (sym t.free ∙ own)))
        | no other ↦
            let (entry', at', _, _, _, (l, climbs)) =
              t.filled p (let e = t.slots in omega arith) other in
            (p, l, rw (some_injective (some_injective (sym at ∙ at'))) climbs)
      ]

  pub runs-AllClimb :
      (n levels : ℕ) (links : List (Link Carrier)) (d : Dijkstra Carrier) (tables : List Rtable)
      → setup w (leveled_dijkstra_create w n levels) links ≡ some d
      → ((rt : Rtable)
          → Memᴰ rt tables
          → (src : ℕ) × (src < n)
            × (leveled_dijkstra_run w (leveled_dijkstra_create w n levels) links src ≡ some rt))
      → AllClimb d.levels tables
  runs-AllClimb n levels links d tables e made rt entry in_tables in_entries =
      let (src, h, run) = made rt in_tables in
      IsTable-Climbs d.levels src n rt entry
        (leveled_dijkstra_run-IsTable n levels links d src rt e h run) in_entries
