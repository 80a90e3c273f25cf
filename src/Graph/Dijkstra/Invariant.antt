-- ===== src/Graph/Dijkstra/Invariant.antt =====
-- The invariant of the search: distances, and the previous pointers as paths that climb.
use mathlib.Core.List.{append_assoc}
use dlfree.Base.{
  ℕ, zero, suc, ◌+◌, ◌*◌, ◌<◌, ◌≤◌, ◌≡◌, ◌⊎◌, refl, if◌then◌else◌, true, false, none, some, List,
  [], ◌∷◌, ◌++◌, arith,
}
use dlfree.Graph.Weight.{Weight}
use dlfree.Graph.Route.{Levels, Climbs, StartsAt, Climbs-snoc}
use dlfree.Graph.Dijkstra.{Dijkstra, trace_back}
use dlfree.Graph.Dijkstra.Order.{Le}
use dlfree.Graph.Dijkstra.Count.{left}

StartsAt-snoc :
    (src : ℕ) (path : List ℕ) (p : ℕ) → StartsAt src path → StartsAt src (path ++ p ∷ [])
StartsAt-snoc src [] p h = absurd h
StartsAt-snoc src (x ∷ path) p h = h

module _ (w : Weight) (n levels src : ℕ) (lv : Levels) (metrics : ℕ → ℕ → w.Carrier) where
  open w use {Carrier, zero_weight, less, max_dist, max_width}

  -- The previous pointers lead from (p, l) to the source, over `h` nodes that are reached.
  pub data Trace (d : Dijkstra Carrier) : ℕ → ℕ → ℕ → Type 0 where
    source :
        {h p l : ℕ} → h ≡ 1 → p ≡ src → d.reached p l ≡ true → d.prev p l ≡ none → Trace d h p l
    hop :
        {h p l u k e h' : ℕ}
        → h ≡ suc h'
        → d.reached p l ≡ true
        → d.prev p l ≡ some u
        → d.prev_level p l ≡ some k
        → lv u p ≡ some e
        → k ≤ e
        → e ≤ l
        → Trace d h' u k
        → Trace d h p l

  -- What a previous pointer says of a pair.
  pub record Pointer (d : Dijkstra Carrier) (p l u : ℕ) : Type 0 where
    pub k : ℕ
    pub e : ℕ
    pub prev_level : d.prev_level p l ≡ some k
    pub reached : d.reached u k ≡ true
    pub node : u < n
    pub level : k < levels
    pub edge : lv u p ≡ some e
    pub up : k ≤ e
    pub within : e ≤ l

  abbrev pub unreached : Dijkstra Carrier → ℕ
  unreached d = left d.reached n levels

  pub record Traced (d : Dijkstra Carrier) (p l : ℕ) : Type 0 where
    pub hops : ℕ
    pub trace : Trace d hops p l
    pub short : hops + unreached d ≤ n * levels

  -- `m` is the distance of the pair that was extracted last.
  pub record Inv (m : Carrier) (d : Dijkstra Carrier) : Type 0 where
    pub num_nodes : d.num_nodes ≡ n
    pub num_levels : d.num_levels ≡ levels
    pub same_levels : (u v : ℕ) → d.levels u v ≡ lv u v
    pub same_metrics : (u v : ℕ) → d.metrics u v ≡ metrics u v
    pub low : (p l : ℕ) → p < n → l < levels → d.reached p l ≡ true → Le w (d.dist p l) m
    pub high : (p l : ℕ) → p < n → l < levels → d.reached p l ≡ false → Le w m (d.dist p l)
    pub untouched : (p l : ℕ) → d.prev p l ≡ none → (p ≡ src) ⊎ (d.dist p l ≡ max_dist)
    pub pending : (p l u : ℕ) → d.prev p l ≡ some u → Pointer d p l u
    pub traced : (p l : ℕ) → p < n → l < levels → d.reached p l ≡ true → Traced d p l

  -- A trace stays where the reached pairs keep their pointers.
  pub Trace-frame :
      (d d' : Dijkstra Carrier)
      → ((p l : ℕ)
          → d.reached p l ≡ true
          → (d'.reached p l ≡ true)
            × (d'.prev p l ≡ d.prev p l)
            × (d'.prev_level p l ≡ d.prev_level p l))
      → {h p l : ℕ} → Trace d h p l
      → Trace d' h p l
  Trace-frame d d' keep {h} {p} {l} (source one at r e) =
      let (r', prev', _) = keep p l r in source one at r' (rw prev' e)
  Trace-frame d d' keep {h} {p} {l} (hop one r e e' edge up within t) =
      let (r', prev', level') = keep p l r in
      hop one r' (rw prev' e) (rw level' e') edge up within (Trace-frame d d' keep t)

  -- Along a trace the walk over the previous pointers ends within its fuel, in a path that starts
  -- at the source, climbs, and ends in the node.
  pub trace_back-Climbs :
      (d : Dijkstra Carrier) {h p l : ℕ} (fuel : ℕ) (stack : List ℕ) (width : Carrier)
      → Trace d h p l
      → h ≤ fuel
      → (path : List ℕ) × (width' : Carrier) × (trace_back w d fuel p l stack width
          ≡ some (path ++ stack, width'))
        × StartsAt src path
        × Climbs lv 0 path p l
  unfolding trace_back
  trace_back-Climbs d {p = p} {l = l} zero stack width (source one at r e) h = absurd (omega arith)
  trace_back-Climbs d {p = p} {l = l} (suc fuel) stack width (source one at r e) h =
      (p ∷ [], width, rw (e, trace_back), at, (refl, omega arith))
  trace_back-Climbs d zero stack width (hop one r e e' edge up within t) h = absurd (omega arith)
  trace_back-Climbs d {p = p} {l = l} (suc fuel) stack width
        (hop {u} {k} {e = lvl} one r e e' edge up within t) h =
      let (path, width', run, starts, climbs) =
        trace_back-Climbs d fuel (p ∷ stack)
          (if less width (d.width u p) then width else d.width u p) t (omega arith) in
      (
        path ++ p ∷ [],
        width',
        rw (e, e', trace_back, run, append_assoc path (p ∷ []) stack),
        StartsAt-snoc src path p starts,
        Climbs-snoc lv 0 path u p k l lvl climbs edge up within,
      )
