-- ===== src/Graph/Router/Dfs.antt =====
-- The depth-first search of `updown_dfs_assign_ids` ends.
use mathlib.Core.List.{Memᴰ}
use dlfree.Base.{
  ℕ, zero, suc, ◌+◌, ◌<◌, ◌≤◌, ◌≡◌, refl, true, Option, none, some, inl, inr, arith, Option-cases,
  ltb, ◌&&◌, List, [], ◌∷◌,
}
use dlfree.Graph.Link.{Edge, Link}
use dlfree.Graph.Router.Updown.{
  put, Dfs, other_end, dfs_conns, dfs_traverse, updown_dfs_link, updown_links,
  updown_dfs_assign_ids,
}
use dlfree.Graph.Router.Bfs.{InRange, other_end-lt, unassigned, unassigned-put, unassigned-le}

-- The search returns, and has visited no fewer nodes.
abbrev Ends : ℕ → Dfs → Option Dfs → Type 0
Ends n s result = (s' : Dfs) × (result ≡ some s') × (unassigned s'.0 n ≤ unassigned s.0 n)

module _ {W : Type 0} (n : ℕ) where
  module _ (bound : ℕ) (visit : ℕ → Dfs → Option Dfs)
      (visit-Ends : (peer : ℕ) (s : Dfs)
        → peer < n
        → s.0 peer ≡ none
        → unassigned s.0 n ≤ bound
        → Ends n s (visit peer s)) where
    dfs_conns-Ends :
        (node : ℕ) (conns : List (Edge W)) (s : Dfs)
        → ((conn : Edge W) → Memᴰ conn conns → InRange n conn)
        → unassigned s.0 n ≤ bound
        → Ends n s (dfs_conns n visit node conns s)
    unfolding dfs_conns
    dfs_conns-Ends node [] s h enough = (s, refl, omega arith)
    dfs_conns-Ends node (conn ∷ conns) s h enough =
        let lt = other_end-lt n node conn (h conn (Memᴰ.head refl)) in
        let within : ltb (other_end node conn) n ≡ true = ground arith in
        elim (Option-cases (s.0 (other_end node conn))) [
          | inr (i, old) ↦
              rw (within, old) (dfs_conns-Ends node conns s (λ x mem. h x (Memᴰ.tail mem)) enough)
          | inl new ↦
              let (s₁, run, fewer) = visit-Ends (other_end node conn) s lt new enough in
              let (s', run', fewer') =
                dfs_conns-Ends node conns s₁ (λ x mem. h x (Memᴰ.tail mem)) (omega arith) in
              (s', rw (within, new, run) run', omega arith)
        ]

  -- A visit from a node without an id: every level of the recursion gives an id.
  dfs_traverse-Ends :
      (conns_of : ℕ → List (Edge W)) (fuel : ℕ)
      → ((node : ℕ) (conn : Edge W) → Memᴰ conn (conns_of node) → InRange n conn)
      → (node : ℕ) (s : Dfs) → node < n
      → s.0 node ≡ none
      → unassigned s.0 n ≤ fuel
      → Ends n s (dfs_traverse fuel n conns_of node s)
  unfolding dfs_traverse
  dfs_traverse-Ends conns_of zero h node (visited, idc) lt new enough =
      absurd (omega (arith, unassigned-put visited node idc n lt new))
  dfs_traverse-Ends conns_of (suc fuel) h node (visited, idc) lt new enough =
      let within : ltb node n ≡ true = ground arith in
      let one = unassigned-put visited node idc n lt new in
      let (s', run, fewer) =
        dfs_conns-Ends fuel (dfs_traverse fuel n conns_of) (dfs_traverse-Ends conns_of fuel h) node
          (conns_of node) (put visited node (some idc), idc + 1) (h node) (omega arith) in
      (s', rw within run, omega arith)

  pub updown_links-some :
      (link_of : Edge W → Link W) (conns : List (Edge W))
      → ((conn : Edge W) → Memᴰ conn conns → InRange n conn)
      → (links : List (Link W)) × (updown_links n link_of conns ≡ some links)
  unfolding updown_links
  updown_links-some link_of [] h = ([], refl)
  updown_links-some link_of (conn ∷ conns) h =
      let (h0, h1) = h conn (Memᴰ.head refl) in
      let within : (ltb conn.n0 n && ltb conn.n1 n) ≡ true = ground arith in
      let (links, run) = updown_links-some link_of conns (λ x mem. h x (Memᴰ.tail mem)) in
      (link_of conn ∷ links, rw (within, run))

  -- The depth-first router returns its links, whether or not the graph is connected.
  pub updown_dfs_assign_ids-some :
      (root : ℕ) (conns_of : ℕ → List (Edge W)) (conns : List (Edge W))
      → root < n
      → ((node : ℕ) (conn : Edge W) → Memᴰ conn (conns_of node) → InRange n conn)
      → ((conn : Edge W) → Memᴰ conn conns → InRange n conn)
      → (links : List (Link W)) × (updown_dfs_assign_ids root n conns_of conns ≡ some links)
  unfolding updown_dfs_assign_ids
  updown_dfs_assign_ids-some root conns_of conns lt h all =
      let (s, run, _) =
        dfs_traverse-Ends conns_of (n + 1) h root ((λ _. none), 0) lt refl
          (omega (arith, unassigned-le (λ _. none) n)) in
      let (links, run') = updown_links-some (updown_dfs_link s.0) conns all in (links, rw run run')
