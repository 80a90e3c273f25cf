-- ===== src/Graph/Route.antt =====
-- Paths along which the levels of the edges do not fall: what `leveled_dijkstra` looks for.
use dlfree.Base.{ℕ, ◌≤◌, ◌≡◌, Option, some, List, [], ◌∷◌, ◌++◌, arith}

-- The levels of the directed edges, `levels` of src/graph/dijkstra.h.
abbrev pub Levels : Type 0
Levels = ℕ → ℕ → Option ℕ

-- The path ends in `y`; its edges exist, and their levels rise weakly from `k` to `m`.
abbrev pub Climbs : Levels → ℕ → List ℕ → ℕ → ℕ → Type 0
Climbs lv k [] y m = ⊥
Climbs lv k (x ∷ []) y m = (x ≡ y) × (k ≤ m)
Climbs lv k (x ∷ x' ∷ path) y m =
    (e : ℕ) × (lv x x' ≡ some e) × (k ≤ e) × Climbs lv e (x' ∷ path) y m

abbrev pub StartsAt : ℕ → List ℕ → Type 0
StartsAt a [] = ⊥
StartsAt a (x ∷ path) = x ≡ a

module _ (lv : Levels) where
  pub Climbs-snoc :
      (k : ℕ) (path : List ℕ) (y z m m' e : ℕ)
      → Climbs lv k path y m
      → lv y z ≡ some e
      → m ≤ e
      → e ≤ m'
      → Climbs lv k (path ++ z ∷ []) z m'
  Climbs-snoc k [] y z m m' e c edge h h' = absurd c
  Climbs-snoc k (x ∷ []) y z m m' e c edge h h' = (e, rw c.0 edge, omega arith, ground arith)
  Climbs-snoc k (x ∷ x' ∷ path) y z m m' e (e', edge', up, c) edge h h' =
      (e', edge', up, Climbs-snoc e' (x' ∷ path) y z m m' e c edge h h')

  -- Two edges that follow one another somewhere on the path.
  pub Climbs-turn :
      (k : ℕ) (pre : List ℕ) (u v w : ℕ) (post : List ℕ) (y m : ℕ)
      → Climbs lv k (pre ++ (u ∷ v ∷ w ∷ post)) y m
      → (e : ℕ) × (e' : ℕ) × (lv u v ≡ some e) × (lv v w ≡ some e') × (e ≤ e')
  Climbs-turn k [] u v w post y m (e, edge, _, (e', edge', up, _)) = (e, e', edge, edge', up)
  Climbs-turn k (x ∷ []) u v w post y m (_, _, _, c) = Climbs-turn _ [] u v w post y m c
  Climbs-turn k (x ∷ x' ∷ pre) u v w post y m (_, _, _, c) =
      Climbs-turn _ (x' ∷ pre) u v w post y m c
