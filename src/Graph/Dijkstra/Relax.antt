-- ===== src/Graph/Dijkstra/Relax.antt =====
-- Relaxing the edges of the extracted pair: the assertion holds, and the invariant is kept.
use dlfree.Base.{
  ℕ, zero, suc, ◌+◌, ◌-◌, ◌<◌, ◌≤◌, ◌≡◌, ◌⊎◌, refl, ◌∙◌, true, false, Option, none, some, inl, inr,
  arith, Bool-cases, Option-cases, ltb, ◌==◌, ◌&&◌,
}
use dlfree.Graph.Weight.{Weight}
use dlfree.Graph.Route.{Levels}
use dlfree.Graph.Dijkstra.{Dijkstra, write, relax, relax_levels, relax_node, relax_nodes}
use dlfree.Graph.Dijkstra.Order.{Le}
use dlfree.Graph.Dijkstra.Invariant.{Inv, Pointer, Traced, Trace-frame}

-- Whether a pair is the one that is written.
pub pair_cases : (p v k l : ℕ) → ((p ≡ v) × (k ≡ l)) ⊎ ((p == v && k == l) ≡ false)
pair_cases p v k l = ground arith

pair_hit : (v l : ℕ) → (v == v && l == l) ≡ true
pair_hit v l = ground arith

module _ (w : Weight) (n levels src : ℕ) (lv : Levels) (metrics : ℕ → ℕ → w.Carrier)
    (positive : (u v e : ℕ) → lv u v ≡ some e → w.less w.zero_weight (metrics u v) ≡ true) where
  open w use {Carrier, add, less, max_dist, le_trans, add_grows, less_asymm}

  -- The search while the edges of (u, level) are relaxed, which was extracted at distance `m`.
  pub record Relaxing (u level : ℕ) (m : Carrier) (d : Dijkstra Carrier) : Type 0 where
    pub inv : Inv w n levels src lv metrics m d
    pub node : u < n
    pub in_levels : level < levels
    pub reached : d.reached u level ≡ true
    pub dist : d.dist u level ≡ m

  module _ (u level v l e : ℕ) (m : Carrier) (hv : v < n) (hl : l < levels) (edge : lv u v ≡ some e)
      (up : level ≤ e) (within : e ≤ l) where
    -- The distance that is offered to (v, l).
    abbrev offer : Carrier
    offer = add m (metrics u v)

    not_closer :
        (d : Dijkstra Carrier)
        → Relaxing u level m d
        → less offer (d.dist v l) ≡ true
        → d.reached v l ≡ false
    not_closer d r closer = elim (Bool-cases (d.reached v l)) [
      | inr new ↦ new
      | inl old ↦
          let far =
            le_trans (d.dist v l) m offer (r.inv.low v l hv hl old)
              (add_grows m (metrics u v) (positive u v e edge)) in
          cc
    ]

    abbrev updated : Dijkstra Carrier → Dijkstra Carrier
    updated d = record d {
      dist = write d.dist v l offer;
      prev = write d.prev v l (some u);
      prev_level = write d.prev_level v l (some level);
    }

    keep_reached :
        (d : Dijkstra Carrier)
        → d.reached v l ≡ false
        → (p k : ℕ) → d.reached p k ≡ true
        → (d.reached p k ≡ true)
          × ((updated d).prev p k ≡ d.prev p k)
          × ((updated d).prev_level p k ≡ d.prev_level p k)
    keep_reached d new p k old = elim (pair_cases p v k l) [
      | inr other ↦ (old, rw other, rw other)
      | inl (e, e') ↦ absurd (let clash = rw (e, e') at old in cc)
    ]

    updated-pending :
        (d : Dijkstra Carrier)
        → Relaxing u level m d
        → (p k u' : ℕ) → (updated d).prev p k ≡ some u'
        → Pointer w n levels src lv metrics (updated d) p k u'
    updated-pending d r p k u' e' = elim (pair_cases p v k l) [
      | inl (at_v, at_l) ↦
          let hit : (p == v && k == l) ≡ true = ground arith in
          let shown : some u ≡ some u' = rw hit at e' in
          let same : u ≡ u' = cc in
          record {
            k = level;
            e = e;
            prev_level = rw hit;
            reached = rw (← same) r.reached;
            node = rw (← same) r.node;
            level = r.in_levels;
            edge = rw (← same, at_v) edge;
            up = up;
            within = rw at_l within;
          }
      | inr other ↦
          let old = r.inv.pending p k u' (rw other at e') in
          record {
            k = old.k;
            e = old.e;
            prev_level = rw other old.prev_level;
            reached = old.reached;
            node = old.node;
            level = old.level;
            edge = old.edge;
            up = old.up;
            within = old.within;
          }
    ]

    updated-high :
        (d : Dijkstra Carrier)
        → Relaxing u level m d
        → (p k : ℕ) → p < n
        → k < levels
        → d.reached p k ≡ false
        → Le w m ((updated d).dist p k)
    updated-high d r p k hp hk open_pair = elim (pair_cases p v k l) [
      | inl (at_v, at_l) ↦
          let hit : (p == v && k == l) ≡ true = ground arith in
          rw hit (add_grows m (metrics u v) (positive u v e edge))
      | inr other ↦ rw other (r.inv.high p k hp hk open_pair)
    ]

    updated-low :
        (d : Dijkstra Carrier)
        → Relaxing u level m d
        → d.reached v l ≡ false
        → (p k : ℕ) → p < n
        → k < levels
        → d.reached p k ≡ true
        → Le w ((updated d).dist p k) m
    updated-low d r new p k hp hk old = elim (pair_cases p v k l) [
      | inl (at_v, at_l) ↦ absurd (let clash = rw (at_v, at_l) at old in cc)
      | inr other ↦ rw other (r.inv.low p k hp hk old)
    ]

    updated-untouched :
        (d : Dijkstra Carrier)
        → Relaxing u level m d
        → (p k : ℕ) → (updated d).prev p k ≡ none
        → (p ≡ src) ⊎ ((updated d).dist p k ≡ max_dist)
    updated-untouched d r p k e' = elim (pair_cases p v k l) [
      | inl (at_v, at_l) ↦
          let hit : (p == v && k == l) ≡ true = ground arith in
          absurd (let clash = rw hit at e' in cc)
      | inr other ↦ rw other (r.inv.untouched p k (rw other at e'))
    ]

    updated-traced :
        (d : Dijkstra Carrier)
        → Relaxing u level m d
        → d.reached v l ≡ false
        → (p k : ℕ) → p < n
        → k < levels
        → d.reached p k ≡ true
        → Traced w n levels src lv metrics (updated d) p k
    updated-traced d r new p k hp hk old =
        let t = r.inv.traced p k hp hk old in
        record {
          hops = t.hops;
          trace = Trace-frame w n levels src lv metrics d (updated d) (keep_reached d new) t.trace;
          short = t.short;
        }

    updated-Inv :
        (d : Dijkstra Carrier)
        → Relaxing u level m d
        → d.reached v l ≡ false
        → Inv w n levels src lv metrics m (updated d)
    updated-Inv d r new = record {
      num_nodes = r.inv.num_nodes;
      num_levels = r.inv.num_levels;
      same_levels = r.inv.same_levels;
      same_metrics = r.inv.same_metrics;
      low = updated-low d r new;
      high = updated-high d r;
      untouched = updated-untouched d r;
      pending = updated-pending d r;
      traced = updated-traced d r new;
    }

    still_at :
        (d : Dijkstra Carrier)
        → Relaxing u level m d
        → d.reached v l ≡ false
        → (updated d).dist u level ≡ m
    still_at d r new = elim (pair_cases u v level l) [
      | inl (at_v, at_l) ↦
          absurd (let clash = rw (← at_v, ← at_l) at new in let old = r.reached in cc)
      | inr other ↦ rw other r.dist
    ]

    -- One candidate is relaxed without a failed assertion; no pair is reached or given up.
    relax-Relaxing :
        (d : Dijkstra Carrier)
        → Relaxing u level m d
        → (d' : Dijkstra Carrier) × (relax w u level v l d ≡ some d')
          × Relaxing u level m d'
          × (d'.reached ≡ d.reached)
    unfolding relax
    relax-Relaxing d r =
        let at_offer : add (d.dist u level) (d.metrics u v) ≡ offer =
          rw (r.dist, r.inv.same_metrics u v) in
        elim (Bool-cases (less offer (d.dist v l))) [
          | inr far ↦ (d, rw (at_offer, far), r, refl)
          | inl closer ↦
              let new = not_closer d r closer in
              (
                updated d,
                rw (at_offer, closer, new),
                record {
                  inv = updated-Inv d r new;
                  node = r.node;
                  in_levels = r.in_levels;
                  reached = r.reached;
                  dist = still_at d r new;
                },
                refl,
              )
        ]

  -- What the loops below keep: they return, and they reach nothing.
  unfoldable pub Relaxed :
      (u level : ℕ) (m : Carrier) (d : Dijkstra Carrier) → Option (Dijkstra Carrier) → Type 0
  Relaxed u level m d result =
      (d' : Dijkstra Carrier) × (result ≡ some d')
      × Relaxing u level m d'
      × (d'.reached ≡ d.reached)

  relax_levels-Relaxed :
      (u level v e : ℕ) (m : Carrier)
      → v < n
      → lv u v ≡ some e
      → level ≤ e
      → (k l : ℕ) (d : Dijkstra Carrier) → e ≤ l
      → (k ≡ 0) ⊎ (l + k ≤ levels)
      → Relaxing u level m d
      → Relaxed u level m d (relax_levels w u level v k l d)
  unfolding relax_levels Relaxed
  relax_levels-Relaxed u level v e m hv edge up zero l d within fits r = (d, refl, r, refl)
  relax_levels-Relaxed u level v e m hv edge up (suc k) l d within fits r =
      let (d₁, run, r₁, same) =
        relax-Relaxing u level v l e m hv (omega arith) edge up within d r in
      let (d₂, run₂, r₂, same₂) =
        relax_levels-Relaxed u level v e m hv edge up k (l + 1) d₁ (omega arith) (inr (omega arith))
          r₁ in
      (d₂, rw run run₂, r₂, same₂ ∙ same)

  room :
      (u level e : ℕ) (m : Carrier) (d : Dijkstra Carrier)
      → Relaxing u level m d
      → (d.num_levels - e ≡ 0) ⊎ (e + (d.num_levels - e) ≤ levels)
  room u level e m d r = let same : d.num_levels ≡ levels = r.inv.num_levels in grind arith

  relax_node-Relaxed :
      (u level v : ℕ) (m : Carrier) (d : Dijkstra Carrier)
      → v < n
      → Relaxing u level m d
      → Relaxed u level m d (relax_node w u level v d)
  unfolding relax_node Relaxed
  relax_node-Relaxed u level v m d hv r = elim (Option-cases (lv u v)) [
    | inl missing ↦ (d, rw (r.inv.same_levels u v, missing, relax_node), r, refl)
    | inr (e, edge) ↦ elim (Bool-cases (ltb e level)) [
      | inl lower ↦ (d, rw (r.inv.same_levels u v, edge, relax_node, lower), r, refl)
      | inr up ↦
          let (d', run, r', same) =
            relax_levels-Relaxed u level v e m hv edge (ground arith) (d.num_levels - e) e d
              (omega arith) (room u level e m d r) r in
          (d', rw (r.inv.same_levels u v, edge, relax_node, up) run, r', same)
    ]
  ]

  pub relax_nodes-Relaxed :
      (u level k v : ℕ) (m : Carrier) (d : Dijkstra Carrier)
      → v + k ≤ n
      → Relaxing u level m d
      → Relaxed u level m d (relax_nodes w u level k v d)
  unfolding relax_nodes Relaxed
  relax_nodes-Relaxed u level zero v m d fits r = (d, refl, r, refl)
  relax_nodes-Relaxed u level (suc k) v m d fits r =
      let (d₁, run, r₁, same) = relax_node-Relaxed u level v m d (omega arith) r in
      let (d₂, run₂, r₂, same₂) = relax_nodes-Relaxed u level k (v + 1) m d₁ (omega arith) r₁ in
      (d₂, rw run run₂, r₂, same₂ ∙ same)
