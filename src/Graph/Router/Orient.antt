-- ===== src/Graph/Router/Orient.antt =====
-- The levels that the up*/down* routers give: 0 towards the root, 1 away from it.
use mathlib.Core.List.{Memᴰ}
use dlfree.Base.{
  ℕ, zero, suc, ◌+◌, ◌*◌, ◌<◌, ◌≡◌, ◌≢◌, ◌⊎◌, refl, sym, ◌∙◌, true, Option, none, some, inl, inr,
  arith, Bool-cases, Option-cases, ltb, ◌==◌, ◌&&◌, List, [], ◌∷◌, some_injective, none_ne_some,
}
use dlfree.Graph.Weight.{Weight}
use dlfree.Graph.Link.{Edge, Link, router_graph_link_create}
use dlfree.Graph.Deadlock.{IsOriented}
use dlfree.Graph.Dijkstra.{Dijkstra, leveled_dijkstra_create, setup}
use dlfree.Graph.Dijkstra.Setup.{Gives, create-Ready, setup-Ready}
use dlfree.Graph.Router.Updown.{
  all_assigned, link_down, link_up, less_id, updown_link, updown_links,
}
use dlfree.Graph.Router.Bfs.{Numbered}

-- An order of the nodes in which a link leads down at level 1 and up at level 0.
unfoldable pub Oriented : {W : Type 0} → (ℕ → ℕ) → Link W → Type 0
Oriented pos link =
    ((link.level_0 ≡ some 1) × (link.level_1 ≡ some 0) × (pos link.conn.n0 < pos link.conn.n1))
    ⊎ ((link.level_0 ≡ some 0) × (link.level_1 ≡ some 1) × (pos link.conn.n1 < pos link.conn.n0))

abbrev pub Unlabelled : {W : Type 0} → Link W → Type 0
Unlabelled link = (link.level_0 ≡ none) × (link.level_1 ≡ none)

-- Depth first, then the id.
unfoldable pub id_of : Option ℕ → ℕ
id_of none = 0
id_of (some i) = i

pub position : ℕ → (ℕ → Option ℕ) → (ℕ → ℕ) → ℕ → ℕ
position n ids depths p = depths p * n + id_of (ids p)

deeper : (n d d' i i' : ℕ) → d < d' → i < n → d * n + i < d' * n + i'
deeper n d d' i i' h lt = grind arith

all_assigned-some :
    (ids : ℕ → Option ℕ) (n p : ℕ) → all_assigned ids n ≡ true → p < n → (i : ℕ) × (ids p ≡ some i)
unfolding all_assigned
all_assigned-some ids zero p all h = absurd (omega arith)
all_assigned-some ids (suc n) p all h = elim (Option-cases (ids n)) [
  | inl missing ↦ absurd (let clash = rw (all_assigned, missing) at all in cc)
  | inr (i, e) ↦ elim (Bool-cases (p == n)) [
    | inl same ↦ let same' : p ≡ n = ground arith in (i, rw same' e)
    | inr other ↦ all_assigned-some ids n p (rw (all_assigned, e) at all) (ground (arith, other))
  ]
]

position-deeper :
    (n : ℕ) (ids : ℕ → Option ℕ) (depths : ℕ → ℕ) (p q i : ℕ)
    → ids p ≡ some i
    → i < n
    → depths p < depths q
    → position n ids depths p < position n ids depths q
unfolding position id_of
position-deeper n ids depths p q i e lt h =
    rw e (deeper n (depths p) (depths q) i (id_of (ids q)) h lt)

position-later :
    (n : ℕ) (ids : ℕ → Option ℕ) (depths : ℕ → ℕ) (p q i j : ℕ)
    → ids p ≡ some i
    → ids q ≡ some j
    → depths p ≡ depths q
    → i < j
    → position n ids depths p < position n ids depths q
unfolding position id_of
position-later n ids depths p q i j e e' same lt = rw (e, e', same) (omega arith)

has_id :
    (n idc : ℕ) (ids : ℕ → Option ℕ)
    → Numbered n ids idc
    → all_assigned ids n ≡ true
    → (p : ℕ) → p < n
    → (i : ℕ) × (ids p ≡ some i) × (i < n)
has_id n idc ids numbered all p h =
    let (i, e) = all_assigned-some ids n p all h in
    let lt = numbered.below p i e in let most = numbered.count in (i, e, omega arith)

module _ {W : Type 0} where
  pub link_down-Oriented :
      (pos : ℕ → ℕ) (conn : Edge W) → pos conn.n0 < pos conn.n1 → Oriented pos (link_down conn)
  unfolding Oriented link_down router_graph_link_create
  link_down-Oriented pos conn h = inl (refl, refl, h)

  pub link_up-Oriented :
      (pos : ℕ → ℕ) (conn : Edge W) → pos conn.n1 < pos conn.n0 → Oriented pos (link_up conn)
  unfolding Oriented link_up router_graph_link_create
  link_up-Oriented pos conn h = inr (refl, refl, h)

  link_down-conn : (conn : Edge W) → (link_down conn).conn ≡ conn
  unfolding link_down router_graph_link_create
  link_down-conn conn = refl

  module _ (n idc : ℕ) (ids : ℕ → Option ℕ) (depths : ℕ → ℕ) (numbered : Numbered n ids idc)
      (all : all_assigned ids n ≡ true) where
    pub updown_link-Oriented :
        (conn : Edge W)
        → conn.n0 < n
        → conn.n1 < n
        → conn.n0 ≢ conn.n1
        → Oriented (position n ids depths) (updown_link ids depths conn)
    unfolding updown_link less_id
    updown_link-Oriented conn h0 h1 distinct =
        let (i, e, lt) = has_id n idc ids numbered all conn.n0 h0 in
        let (j, e', lt') = has_id n idc ids numbered all conn.n1 h1 in
        elim (Bool-cases (ltb (depths conn.n0) (depths conn.n1))) [
          | inl down ↦ rw down (
              link_down-Oriented (position n ids depths) conn
                (position-deeper n ids depths conn.n0 conn.n1 i e lt (ground arith)))
          | inr not_down ↦ elim (Bool-cases (ltb (depths conn.n1) (depths conn.n0))) [
            | inl up ↦
                rw (not_down, up)
                  (link_up-Oriented (position n ids depths) conn
                    (position-deeper n ids depths conn.n1 conn.n0 j e' lt' (ground arith)))
            | inr not_up ↦
                let level : depths conn.n0 ≡ depths conn.n1 = ground arith in
                elim (Bool-cases (ltb i j)) [
                  | inl first ↦
                      rw (not_down, not_up, e, e', first)
                        (link_down-Oriented (position n ids depths) conn (
                          position-later n ids depths conn.n0 conn.n1 i j e e' level
                            (ground arith)))
                  | inr second ↦
                      let other : i ≢ j =
                        λ same. distinct (numbered.injective conn.n0 conn.n1 i e (rw same e')) in
                      rw (not_down, not_up, e, e', second)
                        (link_up-Oriented (position n ids depths) conn (
                          position-later n ids depths conn.n1 conn.n0 j i e' e (sym level)
                            (ground (arith, other, second))))
                ]
          ]
        ]

  no_member : (x : Link W) (xs : List (Link W)) → [] ≡ xs → Memᴰ x xs → ⊥
  no_member x xs e mem = elim (rw (← e) at mem) [ ]

  cons_member :
      (x y : Link W) (ys xs : List (Link W)) → y ∷ ys ≡ xs → Memᴰ x xs → (x ≡ y) ⊎ Memᴰ x ys
  cons_member x y ys xs e mem = member (rw (← e) at mem)
    where
      member : Memᴰ x (y ∷ ys) → (x ≡ y) ⊎ Memᴰ x ys
      member (Memᴰ.head e') = inl e'
      member (Memᴰ.tail mem') = inr mem'

  -- Every link is made of one of the edges, which lies within the arrays.
  pub updown_links-mem :
      (n : ℕ) (link_of : Edge W → Link W) (conns : List (Edge W)) (links : List (Link W))
      (link : Link W)
      → updown_links n link_of conns ≡ some links
      → Memᴰ link links
      → (conn : Edge W) × Memᴰ conn conns × (conn.n0 < n) × (conn.n1 < n) × (link ≡ link_of conn)
  unfolding updown_links
  updown_links-mem n link_of [] links link run mem =
      absurd (no_member link links (some_injective run) mem)
  updown_links-mem n link_of (conn ∷ conns) links link run mem =
      elim (Bool-cases (ltb conn.n0 n && ltb conn.n1 n)) [
        | inr out ↦ absurd (let clash = rw out at run in cc)
        | inl within ↦ elim (Option-cases (updown_links n link_of conns)) [
          | inl failed ↦ absurd (let clash = rw (within, failed) at run in cc)
          | inr (rest, e) ↦
              elim (cons_member link (link_of conn) rest links
                (some_injective (rw (within, e) at run)) mem) [
                  | inl same ↦
                      (conn, Memᴰ.head refl, ground (arith, within), ground (arith, within), same)
                  | inr mem' ↦
                      let (conn', at, h0, h1, same) =
                        updown_links-mem n link_of conns rest link e mem' in
                      (conn', Memᴰ.tail at, h0, h1, same)
                ]
        ]
      ]

-- The levels that `setup` reads from oriented links lead down and up in the order.
module _ (w : Weight) where
  open w use {Carrier}

  level_of : (a e : ℕ) (level : Option ℕ) → level ≡ some a → level ≡ some e → e ≡ a
  level_of a e level at at' = some_injective (sym at' ∙ at)

  Gives-Oriented :
      (pos : ℕ → ℕ) (link : Link Carrier) (u v e : ℕ)
      → Oriented pos link ⊎ Unlabelled link
      → Gives w link u v e
      → ((e ≡ 0) × (pos v < pos u)) ⊎ ((e ≡ 1) × (pos u < pos v))
  unfolding Oriented Gives
  Gives-Oriented pos link u v e (inl (inl (l0, l1, h))) (inl (a, b, l)) =
      inr (level_of 1 e _ l0 l, rw (← a, ← b) h)
  Gives-Oriented pos link u v e (inl (inl (l0, l1, h))) (inr (a, b, l)) =
      inl (level_of 0 e _ l1 l, rw (← a, ← b) h)
  Gives-Oriented pos link u v e (inl (inr (l0, l1, h))) (inl (a, b, l)) =
      inl (level_of 0 e _ l0 l, rw (← a, ← b) h)
  Gives-Oriented pos link u v e (inl (inr (l0, l1, h))) (inr (a, b, l)) =
      inr (level_of 1 e _ l1 l, rw (← a, ← b) h)
  Gives-Oriented pos link u v e (inr (l0, l1)) (inl (a, b, l)) = absurd (none_ne_some (sym l0 ∙ l))
  Gives-Oriented pos link u v e (inr (l0, l1)) (inr (a, b, l)) = absurd (none_ne_some (sym l1 ∙ l))

  pub setup-IsOriented :
      (pos : ℕ → ℕ) (n : ℕ) (links : List (Link Carrier)) (d : Dijkstra Carrier)
      → ((link : Link Carrier) → Memᴰ link links → Oriented pos link ⊎ Unlabelled link)
      → setup w (leveled_dijkstra_create w n 2) links ≡ some d
      → IsOriented d.levels pos
  setup-IsOriented pos n links d oriented run u v e at =
      let ready = setup-Ready w n 2 links links _ d (λ x mem. mem) (create-Ready w n 2 links) run in
      let (link, mem, gives) = ready.from_links u v e at in
      Gives-Oriented pos link u v e (oriented link mem) gives
