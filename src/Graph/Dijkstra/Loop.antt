-- ===== src/Graph/Dijkstra/Loop.antt =====
-- The whole loop of `compute`: it returns, and every pair that it leaves open lies out of reach.
use dlfree.Base.{
  ℕ, zero, suc, ◌+◌, ◌<◌, ◌≤◌, ◌≡◌, refl, ap, ◌∙◌, true, false, Option, none, some, arith,
}
use dlfree.Std.Bytes.{◌>>=◌}
use dlfree.Graph.Weight.{Weight}
use dlfree.Graph.Route.{Levels}
use dlfree.Graph.Dijkstra.{
  Dijkstra, Best, write, extract_min_node, scan_nodes, relax_nodes, compute_loop,
}
use dlfree.Graph.Dijkstra.Count.{left}
use dlfree.Graph.Dijkstra.Order.{Le}
use dlfree.Graph.Dijkstra.Scan.{IsCandidate, Found, scan_result}
use dlfree.Graph.Dijkstra.Invariant.{Inv}
use dlfree.Graph.Dijkstra.Relax.{Relaxed, relax_nodes-Relaxed}
use dlfree.Graph.Dijkstra.Search.{one_fewer, extracted-Relaxing}

module _ (w : Weight) where
  open w use {Carrier, less, max_dist}

  module _ (d : Dijkstra Carrier) where
    abbrev Out : Best w → Type 0
    Out b =
        (q k : ℕ)
        → q < d.num_nodes
        → k < d.num_levels
        → d.reached q k ≡ false
        → Le w b.0 (d.dist q k)

    -- The two outcomes of the scan.
    data Outcome : Best w → Type 0 where
      nothing : {b : Best w} → b.1 ≡ none → b.0 ≡ max_dist → Outcome b
      closest :
          {b : Best w} (p l : ℕ)
          → b.1 ≡ some (p, l)
          → b.0 ≡ d.dist p l
          → IsCandidate w d p l (d.dist p l)
          → Outcome b

    outcome : (b : Best w) → Found w d b → Outcome b
    outcome (val, none) f = nothing refl f
    outcome (val, some (p, l)) f = closest p l refl f.dist (record {
      node = f.node;
      level = f.level;
      unreached = f.unreached;
      dist = refl;
      close = rw (← f.dist) f.close;
    })

    abbrev scanned : Best w
    scanned = scan_nodes w d d.num_nodes 0 (max_dist, none)

    extract_nothing : scanned.1 ≡ none → extract_min_node w d ≡ (none, d)
    unfolding extract_min_node
    extract_nothing e = rw (extract_min_node, e)

    extract_closest :
        (p l : ℕ)
        → scanned.1 ≡ some (p, l)
        → extract_min_node w d ≡ (some (p, l), record d { reached = write d.reached p l true })
    unfolding extract_min_node
    extract_closest p l e = rw (extract_min_node, e)

    loop_ends : (fuel : ℕ) → scanned.1 ≡ none → compute_loop w (suc fuel) d ≡ some d
    unfolding compute_loop
    loop_ends fuel e = rw (compute_loop, extract_nothing e, extract_nothing e)

    loop_goes :
        (fuel p l : ℕ)
        → scanned.1 ≡ some (p, l)
        → (let d' = record d { reached = write d.reached p l true } in
            compute_loop w (suc fuel) d
            ≡ (relax_nodes w p l d.num_nodes 0 d' >>= compute_loop w fuel))
    unfolding compute_loop
    loop_goes fuel p l e = rw (compute_loop, extract_closest p l e, extract_closest p l e)

  module _ (n levels src : ℕ) (lv : Levels) (metrics : ℕ → ℕ → Carrier)
      (positive : (u v e : ℕ) → lv u v ≡ some e → less w.zero_weight (metrics u v) ≡ true) where
    -- The state that the search ends in: what it left open is out of reach.
    pub record Finished (m : Carrier) (d : Dijkstra Carrier) : Type 0 where
      pub inv : Inv w n levels src lv metrics m d
      pub far : (p l : ℕ) → p < n → l < levels → d.reached p l ≡ false → Le w max_dist (d.dist p l)

    fewer :
        (d d₁ : Dijkstra Carrier) (fuel p l : ℕ)
        → suc (left (write d.reached p l true) n levels) ≡ left d.reached n levels
        → d₁.reached ≡ write d.reached p l true
        → left d.reached n levels < suc fuel
        → left d₁.reached n levels < fuel
    fewer d d₁ fuel p l one same enough =
        let here : left d₁.reached n levels ≡ left (write d.reached p l true) n levels =
          ap (λ r. left r n levels) same in
        omega arith

    fits :
        (m : Carrier) (d : Dijkstra Carrier)
        → Inv w n levels src lv metrics m d
        → 0 + d.num_nodes ≤ n
    fits m d inv = let same : d.num_nodes ≡ n = inv.num_nodes in omega arith

    near :
        (m : Carrier) (d : Dijkstra Carrier) (p l : ℕ)
        → Inv w n levels src lv metrics m d
        → (scanned d).0 ≡ d.dist p l
        → Out d (scanned d)
        → (q k : ℕ) → q < n
        → k < levels
        → d.reached q k ≡ false
        → Le w (d.dist p l) (d.dist q k)
    near m d p l inv val least q k hq hk open_pair =
        let same_n : d.num_nodes ≡ n = inv.num_nodes in
        let same_l : d.num_levels ≡ levels = inv.num_levels in
        rw (← val) (least q k (omega arith) (omega arith) open_pair)

    then_loop :
        (fuel : ℕ) (r : Option (Dijkstra Carrier)) (d₁ d₂ : Dijkstra Carrier)
        → r ≡ some d₁
        → compute_loop w fuel d₁ ≡ some d₂
        → (r >>= compute_loop w fuel) ≡ some d₂
    then_loop fuel r d₁ d₂ e e' = rw e e'

    -- One round ends the search or reaches one more pair.
    pub compute_loop-Finished :
        (fuel : ℕ) (m : Carrier) (d : Dijkstra Carrier)
        → Inv w n levels src lv metrics m d
        → left d.reached n levels < fuel
        → (m' : Carrier) × (d' : Dijkstra Carrier) × (compute_loop w fuel d ≡ some d')
          × Finished m' d'
    unfolding Relaxed
    compute_loop-Finished zero m d inv enough = absurd (omega arith)
    compute_loop-Finished (suc fuel) m d inv enough =
        let (found, least) = scan_result w d in
        elim (outcome d (scanned d) found) [
          | nothing none_left far ↦ (
            m,
            d,
            loop_ends d fuel none_left,
            record {
              inv = inv;
              far = λ p l hp hl open_pair.
                  rw (← far) (
                    least p l (rw (← inv.num_nodes) at hp) (rw (← inv.num_levels) at hl) open_pair);
            },
          )
          | closest p l at val cand ↦
              let r =
                extracted-Relaxing w n levels src lv metrics m d inv p l cand
                  (near m d p l inv val least) positive in
              let (d₁, run, r₁, same) =
                relax_nodes-Relaxed w n levels src lv metrics positive p l d.num_nodes 0
                  (d.dist p l) _ (fits m d inv) r in
              let (m', d₂, run₂, fin) = compute_loop-Finished fuel (d.dist p l) d₁ r₁.inv (
                fewer d d₁ fuel p l
                  (one_fewer w n levels src lv metrics m d inv p l cand
                    (near m d p l inv val least))
                  same enough) in
              (m', d₂, loop_goes d fuel p l at ∙ then_loop fuel _ d₁ d₂ run run₂, fin)
        ]
