-- ===== src/Graph/Dijkstra/Scan.antt =====
-- `extract_min_node` finds a pair that is not reached yet and has the smallest distance.
use dlfree.Base.{
  ℕ, zero, suc, ◌+◌, ◌<◌, ◌≤◌, ◌≡◌, ◌⊎◌, refl, true, false, none, some, inl, inr, arith, Bool-cases,
}
use dlfree.Graph.Weight.{Weight}
use dlfree.Graph.Dijkstra.{Dijkstra, Best, consider, scan_levels, scan_nodes}
use dlfree.Graph.Dijkstra.Order.{Le, less_of_less_of_le}

module _ (w : Weight) where
  open w use {Carrier, less, max_dist, less_irrefl, le_trans, less_asymm}

  module _ (d : Dijkstra Carrier) where
    -- A pair of the matrices that is not reached and closer than the largest distance.
    pub record IsCandidate (p l : ℕ) (val : Carrier) : Type 0 where
      pub node : p < d.num_nodes
      pub level : l < d.num_levels
      pub unreached : d.reached p l ≡ false
      pub dist : val ≡ d.dist p l
      pub close : less val max_dist ≡ true

    abbrev pub Found : Best w → Type 0
    Found (val, none) = val ≡ max_dist
    Found (val, some (p, l)) = IsCandidate p l val

    -- What is known after the nodes below `p`, and the levels of `p` from `l` on.
    record Scanned (p l : ℕ) (b : Best w) : Type 0 where
      least :
          (q k : ℕ)
          → k < d.num_levels
          → (q < p) ⊎ ((q ≡ p) × (l ≤ k))
          → d.reached q k ≡ false
          → Le w b.0 (d.dist q k)
      small : Le w b.0 max_dist
      found : Found b

    -- The smallest distance only falls.
    consider-le : (p l : ℕ) (b : Best w) → Le w (consider w d p l b).0 b.0
    unfolding consider
    consider-le p l (val, best) = ground (arith, less_irrefl val, less_asymm (d.dist p l) val)

    consider-here :
        (p l : ℕ) (b : Best w) → d.reached p l ≡ false → Le w (consider w d p l b).0 (d.dist p l)
    unfolding consider
    consider-here p l (val, best) e = ground (arith, less_irrefl (d.dist p l))

    consider-Found :
        (p l : ℕ) (b : Best w)
        → p < d.num_nodes
        → l < d.num_levels
        → Le w b.0 max_dist
        → Found b
        → Found (consider w d p l b)
    unfolding consider
    consider-Found p l (val, best) hp hl small f = elim (Bool-cases (d.reached p l)) [
      | inl old ↦ rw old f
      | inr new ↦ elim (Bool-cases (less (d.dist p l) val)) [
        | inr far ↦ rw (new, far) f
        | inl near ↦
            rw (new, near)
              (record {
                node = hp;
                level = hl;
                unreached = new;
                dist = refl;
                close = less_of_less_of_le w (d.dist p l) val max_dist near small;
              })
      ]
    ]

    module _ (p l : ℕ) (b : Best w) where
      consider-Scanned :
          p < d.num_nodes
          → l < d.num_levels
          → Scanned p (suc l) b
          → Scanned p l (consider w d p l b)
      consider-Scanned hp hl s = record {
        least = λ q k in_range where_it_is open_pair. elim (here_or_before q k where_it_is) [
          | inl (e, e') ↦ here q k e e' open_pair
          | inr before ↦
              le_trans (consider w d p l b).0 b.0 (d.dist q k) (consider-le p l b)
                (s.least q k in_range before open_pair)
        ];
        small = le_trans (consider w d p l b).0 b.0 max_dist (consider-le p l b) s.small;
        found = consider-Found p l b hp hl s.small s.found;
      }
        where
          here_or_before :
              (q k : ℕ)
              → (q < p) ⊎ ((q ≡ p) × (l ≤ k))
              → ((q ≡ p) × (k ≡ l)) ⊎ ((q < p) ⊎ ((q ≡ p) × (suc l ≤ k)))
          here_or_before q k h = grind arith

          here :
              (q k : ℕ)
              → q ≡ p
              → k ≡ l
              → d.reached q k ≡ false
              → Le w (consider w d p l b).0 (d.dist q k)
          here q k e e' h = rw (e, e') (consider-here p l b (rw (e, e') at h))

    scan_levels-Scanned :
        (p l : ℕ) (b : Best w)
        → p < d.num_nodes
        → l ≤ d.num_levels
        → Scanned p l b
        → Scanned p 0 (scan_levels w d p l b)
    unfolding scan_levels
    scan_levels-Scanned p zero b hp hl s = s
    scan_levels-Scanned p (suc l) b hp hl s =
        scan_levels-Scanned p l (consider w d p l b) hp (omega arith)
          (consider-Scanned p l b hp (omega arith) s)

    -- Between two rows.
    next_row : (p : ℕ) (b : Best w) → Scanned p 0 b → Scanned (p + 1) d.num_levels b
    next_row p b s = record {
      least = λ q k in_range where_it_is open_pair. s.least q k in_range (grind arith) open_pair;
      small = s.small;
      found = s.found;
    }

    scan_nodes-Scanned :
        (k p n : ℕ) (b : Best w)
        → p + k ≡ n
        → n ≤ d.num_nodes
        → Scanned p d.num_levels b
        → Scanned n d.num_levels (scan_nodes w d k p b)
    unfolding scan_nodes
    scan_nodes-Scanned zero p n b e le s = let end : p ≡ n = omega arith in rw (← end) s
    scan_nodes-Scanned (suc k) p n b e le s =
        scan_nodes-Scanned k (p + 1) n (scan_levels w d p d.num_levels b) (omega arith) le
          (next_row p _ (scan_levels-Scanned p d.num_levels b (omega arith) (omega arith) s))

    -- The pair found is a candidate that no candidate is closer than; where none is found, every
    -- pair that is not reached lies at the largest distance or beyond.
    pub scan_result :
        (let b = scan_nodes w d d.num_nodes 0 (max_dist, none) in
          Found b
          × ((q k : ℕ)
              → q < d.num_nodes
              → k < d.num_levels
              → d.reached q k ≡ false
              → Le w b.0 (d.dist q k)))
    scan_result =
        let s =
          scan_nodes-Scanned d.num_nodes 0 d.num_nodes (max_dist, none) (omega arith) (omega arith)
            (record {
              least = λ q k in_range where_it_is open_pair. absurd (grind arith);
              small = less_irrefl max_dist;
              found = refl;
            }) in
        (s.found, λ q k hq hk e. s.least q k hk (inl hq) e)
