-- ===== src/Graph/Dijkstra/Setup.antt =====
-- What `setup` reads from the links: the levels of the edges, and positive lengths.
use mathlib.Core.List.{Memᴰ}
use dlfree.Base.{
  ℕ, ◌<◌, ◌≡◌, ◌⊎◌, refl, true, false, none, some, inl, inr, arith, Option-cases, List, [], ◌∷◌,
}
use dlfree.Graph.Weight.{Weight}
use dlfree.Graph.Link.{Link}
use dlfree.Graph.Dijkstra.{Dijkstra, leveled_dijkstra_create, setup_link, setup, write}

module _ (w : Weight) where
  open w use {Carrier, zero_weight, less, max_dist}

  -- A link that the assertions of `setup` let pass.
  pub record IsUsable (n : ℕ) (link : Link Carrier) : Type 0 where
    pub width : less zero_weight link.conn.width ≡ true
    pub len : less zero_weight link.conn.len ≡ true
    pub n0 : link.conn.n0 < n
    pub n1 : link.conn.n1 < n

  -- The link gives the level `e` to the way from `u` to `v`.
  unfoldable pub Gives : Link Carrier → (u v e : ℕ) → Type 0
  Gives link u v e =
      ((link.conn.n0 ≡ u) × (link.conn.n1 ≡ v) × (link.level_0 ≡ some e))
      ⊎ ((link.conn.n1 ≡ u) × (link.conn.n0 ≡ v) × (link.level_1 ≡ some e))

  module _ (n levels : ℕ) (all : List (Link Carrier)) where
    -- The state after some of the links.
    pub record Ready (d : Dijkstra Carrier) : Type 0 where
      pub num_nodes : d.num_nodes ≡ n
      pub num_levels : d.num_levels ≡ levels
      pub dist : (p l : ℕ) → d.dist p l ≡ max_dist
      pub prev : (p l : ℕ) → d.prev p l ≡ none
      pub reached : (p l : ℕ) → d.reached p l ≡ false
      pub positive : (u v e : ℕ) → d.levels u v ≡ some e → less zero_weight (d.metrics u v) ≡ true
      pub from_links :
          (u v e : ℕ)
          → d.levels u v ≡ some e
          → (link : Link Carrier) × Memᴰ link all × Gives link u v e

    pub create-Ready : Ready (leveled_dijkstra_create w n levels)
    unfolding leveled_dijkstra_create
    create-Ready = record {
      num_nodes = refl;
      num_levels = refl;
      dist = λ p l. refl;
      prev = λ p l. refl;
      reached = λ p l. refl;
      positive = λ u v e h. absurd (ground (arith, h));
      from_links = λ u v e h. absurd (ground (arith, h));
    }

    abbrev linked : Dijkstra Carrier → Link Carrier → Dijkstra Carrier
    linked d link =
        let e = link.conn in
        record d {
          levels = write (write d.levels e.n0 e.n1 link.level_0) e.n1 e.n0 link.level_1;
          metrics = write (write d.metrics e.n0 e.n1 e.len) e.n1 e.n0 e.len;
          width = write (write d.width e.n0 e.n1 e.width) e.n1 e.n0 e.width;
        }

    -- Where an entry comes from after the two writes.
    write_cases :
        {X : Type 0} (f : ℕ → ℕ → X) (a b u v : ℕ) (x y : X)
        → ((u ≡ b) × (v ≡ a) × (write (write f a b x) b a y u v ≡ y))
          ⊎ (((u ≡ a) × (v ≡ b) × (write (write f a b x) b a y u v ≡ x))
              ⊎ (write (write f a b x) b a y u v ≡ f u v))
    write_cases f a b u v x y = ground arith

    linked-Ready :
        (d : Dijkstra Carrier) (link : Link Carrier)
        → less zero_weight link.conn.len ≡ true
        → Memᴰ link all
        → Ready d
        → Ready (linked d link)
    unfolding Gives
    linked-Ready d link pos mem r =
        let a = link.conn.n0 in
        let b = link.conn.n1 in
        record {
          num_nodes = r.num_nodes;
          num_levels = r.num_levels;
          dist = r.dist;
          prev = r.prev;
          reached = r.reached;
          positive = λ u v e h. ground (arith, r.positive u v e, h, pos);
          from_links = λ u v e h. elim (write_cases d.levels a b u v link.level_0 link.level_1) [
            | inl (at_u, at_v, x) ↦
                (link, mem, inr (ground (arith, at_u), ground (arith, at_v), cc))
            | inr (inl (at_u, at_v, x)) ↦
                (link, mem, inl (ground (arith, at_u), ground (arith, at_v), cc))
            | inr (inr x) ↦ r.from_links u v e cc
          ];
        }

    setup_link-some :
        (d : Dijkstra Carrier) (link : Link Carrier)
        → d.num_nodes ≡ n
        → IsUsable n link
        → setup_link w d link ≡ some (linked d link)
    unfolding setup_link
    setup_link-some d link e u = ground (arith, e, u.width, u.len, u.n0, u.n1)

    setup_link-cases :
        (d d' : Dijkstra Carrier) (link : Link Carrier)
        → setup_link w d link ≡ some d'
        → (less zero_weight link.conn.len ≡ true) × (d' ≡ linked d link)
    unfolding setup_link
    setup_link-cases d d' link run = ground (arith, run)

    pub setup-Ready :
        (links : List (Link Carrier)) (d d' : Dijkstra Carrier)
        → ((link : Link Carrier) → Memᴰ link links → Memᴰ link all)
        → Ready d
        → setup w d links ≡ some d'
        → Ready d'
    unfolding setup
    setup-Ready [] d d' sub r run = let same : d ≡ d' = ground (arith, run) in rw (← same) r
    setup-Ready (link ∷ links) d d' sub r run = elim (Option-cases (setup_link w d link)) [
      | inl failed ↦ absurd (let clash = rw failed at run in ground (arith, clash))
      | inr (d₁, e) ↦
          let (pos, same) = setup_link-cases d d₁ link e in
          setup-Ready links (linked d link) d' (λ x mem. sub x (Memᴰ.tail mem))
            (linked-Ready d link pos (sub link (Memᴰ.head refl)) r) (rw (e, same) at run)
    ]

    pub setup-some :
        (links : List (Link Carrier)) (d : Dijkstra Carrier)
        → d.num_nodes ≡ n
        → ((link : Link Carrier) → Memᴰ link links → IsUsable n link)
        → (d' : Dijkstra Carrier) × (setup w d links ≡ some d')
    unfolding setup
    setup-some [] d e usable = (d, refl)
    setup-some (link ∷ links) d e usable =
        let (d', run) = setup-some links (linked d link) e (λ x mem. usable x (Memᴰ.tail mem)) in
        (d', rw (setup_link-some d link e (usable link (Memᴰ.head refl))) run)
