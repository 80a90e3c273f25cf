-- ===== src/Graph/Deadlock.antt =====
-- Deadlock: a cycle of channels, each held by a message that waits for the next. A channel is a
-- directed edge, and a message that has crossed one waits for the next one on its path.
use mathlib.Core.List.{Memᴰ}
use dlfree.Base.{ℕ, ◌<◌, ◌≡◌, ◌⊎◌, some, List, ◌∷◌, ◌++◌, arith}
use dlfree.Struct.Rtable.{Entry, Rtable}
use dlfree.Graph.Route.{Levels, Climbs, Climbs-turn}

abbrev pub Channel : Type 0
Channel = ℕ × ℕ

-- The dependencies between channels that the routing tables of the nodes allow.
pub data Waits (tables : List Rtable) (c d : Channel) : Type 0 where
  waits :
      (rt : Rtable) (entry : Entry) (pre post : List ℕ)
      → Memᴰ rt tables
      → Memᴰ (some entry) rt.entries
      → entry.path ≡ pre ++ (c.0 ∷ c.1 ∷ d.1 ∷ post)
      → d.0 ≡ c.1
      → Waits tables c d

pub data Chain (tables : List Rtable) (c : Channel) : Channel → Type 0 where
  one : {d : Channel} → Waits tables c d → Chain tables c d
  more : {d d' : Channel} → Chain tables c d → Waits tables d d' → Chain tables c d'

abbrev pub DeadlockFree : List Rtable → Type 0
DeadlockFree tables = (c : Channel) → ¬ Chain tables c c

-- Every path of the tables climbs.
abbrev pub AllClimb : Levels → List Rtable → Type 0
AllClimb lv tables =
    (rt : Rtable) (entry : Entry)
    → Memᴰ rt tables
    → Memᴰ (some entry) rt.entries
    → (y : ℕ) × (m : ℕ) × Climbs lv 0 entry.path y m

-- The edges of level 0 lead up to smaller positions, those of level 1 down to larger ones.
abbrev pub IsOriented : Levels → (ℕ → ℕ) → Type 0
IsOriented lv pos =
    (u v e : ℕ) → lv u v ≡ some e → ((e ≡ 0) × (pos v < pos u)) ⊎ ((e ≡ 1) × (pos u < pos v))

module _ (lv : Levels) (pos : ℕ → ℕ) (oriented : IsOriented lv pos) (tables : List Rtable)
    (climb : AllClimb lv tables) where
  -- What a dependency does to the level and the position of the channel that is waited for.
  abbrev Below : (e p e' p' : ℕ) → Type 0
  Below e p e' p' = (e < e') ⊎ (((e ≡ 0) × (e' ≡ 0) × (p' < p)) ⊎ ((e ≡ 1) × (e' ≡ 1) × (p < p')))

  record Rises (c d : Channel) : Type 0 where
    from : ℕ
    to : ℕ
    level_from : lv c.0 c.1 ≡ some from
    level_to : lv d.0 d.1 ≡ some to
    rises : Below from (pos c.1) to (pos d.1)

  Waits-Rises : {c d : Channel} → Waits tables c d → Rises c d
  Waits-Rises {c} {d} (waits rt entry pre post in_tables in_entries on_path next) =
      let (y, m, path) = climb rt entry in_tables in_entries in
      let (e, e', edge, edge', up) =
        Climbs-turn lv 0 pre c.0 c.1 d.1 post y m (rw on_path at path) in
      record {
        from = e;
        to = e';
        level_from = edge;
        level_to = rw next edge';
        rises = ground (arith, oriented c.0 c.1 e edge, oriented c.1 d.1 e' edge');
      }

  Rises-trans : {c d d' : Channel} → Rises c d → Rises d d' → Rises c d'
  Rises-trans r s = record {
    from = r.from;
    to = s.to;
    level_from = r.level_from;
    level_to = s.level_to;
    rises = ground (arith, r.level_to, s.level_from);
  }

  Chain-Rises : {c d : Channel} → Chain tables c d → Rises c d
  Chain-Rises (one x) = Waits-Rises x
  Chain-Rises (more r x) = Rises-trans (Chain-Rises r) (Waits-Rises x)

  -- Where every edge leads up at level 0 or down at level 1 in some order of the nodes, and every
  -- path of the tables climbs, no channel waits for itself through any chain of dependencies.
  pub oriented-DeadlockFree : DeadlockFree tables
  oriented-DeadlockFree c r =
      let s = Chain-Rises r in ground (arith, s.rises, s.level_from, s.level_to)
