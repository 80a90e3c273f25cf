-- ===== src/Graph/Link.antt =====
-- Edges of the overlay and the links that a router makes of them: `overlay_edge` of
-- src/graph/overlay.h and `router_graph_link` of src/graph/router.h. A node is its pid, and an
-- absent level, -1 in the source, is `none`.
use dlfree.Base.{ℕ, Option, none}

module _ (W : Type 0) where
  pub record Edge : Type 0 where
    pub n0 : ℕ
    pub n1 : ℕ
    pub len : W
    pub width : W

  pub record Link : Type 0 where
    pub conn : Edge
    pub up : Option ℕ
    pub down : Option ℕ
    pub level_0 : Option ℕ
    pub level_1 : Option ℕ

module _ {W : Type 0} where
  unfoldable pub router_graph_link_create : Edge W → Link W
  router_graph_link_create conn = record {
    conn = conn;
    up = none;
    down = none;
    level_0 = none;
    level_1 = none;
  }
