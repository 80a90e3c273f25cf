-- ===== src/Tests/Trees.antt =====
-- The ordered-link router on a triangle.
use mathlib.Core.List.{Memᴰ, Permᴰ}
use mathlib.Core.List.Permᴰ
use dlfree.Base.{ℕ, ◌≡◌, ◌≢◌, refl, some, List, [], ◌∷◌, arith}
use dlfree.Graph.Link.{Edge, Link}
use dlfree.Graph.Router.Trees.{router_graph_make_spanning_trees}
use dlfree.Graph.Router.Choose.{Every, Labelled, conns_of_links}
use dlfree.Graph.Router.Levels.{router_graph_make_spanning_trees-Labelled}

abbrev edge : ℕ → ℕ → Edge ℕ
edge a b = record { n0 = a; n1 = b; len = 5; width = 10 }

abbrev triangle : List (Edge ℕ)
triangle = edge 0 1 ∷ edge 1 2 ∷ edge 2 0 ∷ []

abbrev hosts : List ℕ
hosts = 0 ∷ 1 ∷ 2 ∷ []

abbrev arrange : ℕ → List (Edge ℕ) → List (Edge ℕ)
arrange kind conns = conns

triangle_joins :
    (conn : Edge ℕ)
    → Memᴰ conn triangle
    → Memᴰ conn.n0 hosts × Memᴰ conn.n1 hosts × (conn.n0 ≢ conn.n1)
triangle_joins conn (Memᴰ.head e) =
    rw e (Memᴰ.head refl, Memᴰ.tail (Memᴰ.head refl), λ x. ground (arith, x))
triangle_joins conn (Memᴰ.tail (Memᴰ.head e)) =
    rw e
      (Memᴰ.tail (Memᴰ.head refl), Memᴰ.tail (Memᴰ.tail (Memᴰ.head refl)), λ x. ground (arith, x))
triangle_joins conn (Memᴰ.tail (Memᴰ.tail (Memᴰ.head e))) =
    rw e (Memᴰ.tail (Memᴰ.tail (Memᴰ.head refl)), Memᴰ.head refl, λ x. ground (arith, x))
triangle_joins conn (Memᴰ.tail (Memᴰ.tail (Memᴰ.tail mem))) = elim mem [ ]

router_graph_make_spanning_trees-Labelled_example :
    (levels : ℕ) × (links : List (Link ℕ)) × (router_graph_make_spanning_trees arrange hosts
        triangle 2
      ≡ some (levels, links))
    × Permᴰ triangle (conns_of_links links)
    × Every (Labelled levels) links
router_graph_make_spanning_trees-Labelled_example =
    router_graph_make_spanning_trees-Labelled hosts arrange triangle 2 (omega arith)
      (Permᴰ.refl triangle) triangle_joins
