-- ===== src/Graph/Dijkstra/Search.antt =====
-- The whole search: it returns, and every pair that it leaves open lies out of reach.
use dlfree.Base.{ℕ, suc, ◌<◌, ◌≡◌, refl, true, false, none, some, inl, inr, arith, Option-cases}
use dlfree.Graph.Weight.{Weight}
use dlfree.Graph.Route.{Levels}
use dlfree.Graph.Dijkstra.{Dijkstra, write}
use dlfree.Graph.Dijkstra.Count.{left, left-le, left-write}
use dlfree.Graph.Dijkstra.Order.{Le}
use dlfree.Graph.Dijkstra.Scan.{IsCandidate}
use dlfree.Graph.Dijkstra.Invariant.{Inv, source, hop, Traced, Trace-frame}
use dlfree.Graph.Dijkstra.Relax.{Relaxing, pair_cases}

module _ (w : Weight) (n levels src : ℕ) (lv : Levels) (metrics : ℕ → ℕ → w.Carrier) where
  open w use {
    Carrier, zero_weight, add, less, max_dist, le_trans, less_irrefl, less_asymm, max_dist_pos,
  }

  module _ (m : Carrier) (d : Dijkstra Carrier) (inv : Inv w n levels src lv metrics m d) (p l : ℕ)
      (found : IsCandidate w d p l (d.dist p l))
      (least : (q k : ℕ)
        → q < n
        → k < levels
        → d.reached q k ≡ false
        → Le w (d.dist p l) (d.dist q k)) where
    abbrev pub extracted : Dijkstra Carrier
    extracted = record d { reached = write d.reached p l true }

    hp : p < n
    hp = rw inv.num_nodes at found.node

    hl : l < levels
    hl = rw inv.num_levels at found.level

    pub one_fewer : suc (left extracted.reached n levels) ≡ left d.reached n levels
    one_fewer = left-write d.reached p l n levels hp hl found.unreached

    still_reached : (q k : ℕ) → d.reached q k ≡ true → extracted.reached q k ≡ true
    still_reached q k old = ground arith

    frame :
        (q k : ℕ)
        → d.reached q k ≡ true
        → (extracted.reached q k ≡ true)
          × (extracted.prev q k ≡ d.prev q k)
          × (extracted.prev_level q k ≡ d.prev_level q k)
    frame q k old = (still_reached q k old, refl, refl)

    now_reached : extracted.reached p l ≡ true
    now_reached = ground arith

    old_Traced :
        (q k : ℕ)
        → Traced w n levels src lv metrics d q k
        → Traced w n levels src lv metrics extracted q k
    old_Traced q k t = record {
      hops = t.hops;
      trace = Trace-frame w n levels src lv metrics d extracted frame t.trace;
      short = omega (arith, t.short, one_fewer);
    }

    at_source : d.prev p l ≡ none → p ≡ src
    at_source e = elim (inv.untouched p l e) [
      | inl at ↦ at
      | inr far ↦
          absurd (let clash = rw far at found.close in let no_less = less_irrefl max_dist in cc)
    ]

    new_Traced : Traced w n levels src lv metrics extracted p l
    unfolding old_Traced
    new_Traced = elim (Option-cases (d.prev p l)) [
      | inl e ↦ record {
        hops = 1;
        trace = source refl (at_source e) now_reached e;
        short = omega (arith, one_fewer, left-le d.reached n levels);
      }
      | inr (u, e) ↦
          let ptr = inv.pending p l u e in
          let t = inv.traced u ptr.k ptr.node ptr.level ptr.reached in
          record {
            hops = suc t.hops;
            trace =
                hop refl now_reached e ptr.prev_level ptr.edge ptr.up ptr.within
                  (old_Traced u ptr.k t).trace;
            short = omega (arith, t.short, one_fewer);
          }
    ]

    extracted-Inv : Inv w n levels src lv metrics (d.dist p l) extracted
    extracted-Inv = record {
      num_nodes = inv.num_nodes;
      num_levels = inv.num_levels;
      same_levels = inv.same_levels;
      same_metrics = inv.same_metrics;
      low = λ q k hq hk old. elim (pair_cases q p k l) [
        | inl (at_p, at_l) ↦ rw (at_p, at_l) (less_irrefl (d.dist p l))
        | inr other ↦
            le_trans (d.dist q k) m (d.dist p l) (inv.low q k hq hk (rw other at old))
              (inv.high p l hp hl found.unreached)
      ];
      high = λ q k hq hk open_pair. elim (pair_cases q p k l) [
        | inl (at_p, at_l) ↦
            absurd (let clash = rw (at_p, at_l) at open_pair in ground (arith, clash))
        | inr other ↦ least q k hq hk (rw other at open_pair)
      ];
      untouched = inv.untouched;
      pending = λ q k u e.
          let ptr = inv.pending q k u e in
          record {
            k = ptr.k;
            e = ptr.e;
            prev_level = ptr.prev_level;
            reached = still_reached u ptr.k ptr.reached;
            node = ptr.node;
            level = ptr.level;
            edge = ptr.edge;
            up = ptr.up;
            within = ptr.within;
          };
      traced = λ q k hq hk old. elim (pair_cases q p k l) [
        | inl (at_p, at_l) ↦ rw (at_p, at_l) new_Traced
        | inr other ↦ old_Traced q k (inv.traced q k hq hk (rw other at old))
      ];
    }

    module _
        (positive : (u v e : ℕ) → lv u v ≡ some e → less zero_weight (metrics u v) ≡ true) where
      pub extracted-Relaxing :
          Relaxing w n levels src lv metrics positive p l (d.dist p l) extracted
      extracted-Relaxing = record {
        inv = extracted-Inv;
        node = hp;
        in_levels = hl;
        reached = now_reached;
        dist = refl;
      }
