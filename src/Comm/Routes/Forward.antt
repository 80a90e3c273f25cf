-- ===== src/Comm/Routes/Forward.antt =====
-- Messages follow the path of the table of their source, hop by hop.
use mathlib.Core.List.{append_assoc}
use dlfree.Base.{
  ℕ, zero, suc, ◌+◌, ◌<◌, ◌≡◌, ◌≢◌, ap, sym, ◌∙◌, true, false, Option, none, some, List, [], ◌∷◌,
  ◌++◌, ltb, ◌==◌, if◌then◌else◌, length, length-append, arith, get_elem?,
}
use dlfree.Std.Bytes.{◌>>=◌}
use dlfree.Struct.Rtable.{Entry, Rtable, overlay_rtable_get_entry}
use dlfree.Comm.Routes.{Routes, max_peer, next_on_path, comm_node_lookup_rt}

-- The node is not on the path.
pub data Off (a : ℕ) : List ℕ → Type 0 where
  off_nil : Off a []
  off_cons : {x : ℕ} {xs : List ℕ} → x ≢ a → Off a xs → Off a (x ∷ xs)

-- No node comes twice.
pub data Simple : List ℕ → Type 0 where
  simple_nil : Simple []
  simple_cons : {x : ℕ} {xs : List ℕ} → Off x xs → Simple xs → Simple (x ∷ xs)

-- The nodes that a message from `src` to `dst` comes to from `here` on, where each node looks the
-- next one up in its own tables.
pub forward : (ℕ → Routes) → (src dst : ℕ) → ℕ → (here : ℕ) → Option (List ℕ)
forward nodes src dst zero here = none
forward nodes src dst (suc fuel) here = if here == dst then some (here ∷ []) else (do
  hop ← comm_node_lookup_rt (nodes here) src dst
  next ← hop
  rest ← forward nodes src dst fuel next
  some (here ∷ rest))

next_on_path-middle :
    (pre : List ℕ) (a b : ℕ) (post : List ℕ) (hops : ℕ)
    → Off a pre
    → length pre < hops
    → next_on_path hops a (pre ++ a ∷ b ∷ post) ≡ some (some b)
unfolding next_on_path
next_on_path-middle [] a b post zero off h = absurd (omega arith)
next_on_path-middle [] a b post (suc hops) off h = ground arith
next_on_path-middle (x ∷ []) a b post zero off h = absurd (omega arith)
next_on_path-middle (x ∷ []) a b post (suc hops) (off_cons ne off) h =
    let away : (x == a) ≡ false = ground (arith, ne) in
    rw away (next_on_path-middle [] a b post hops off (omega arith))
next_on_path-middle (x ∷ y ∷ pre) a b post zero off h = absurd (omega arith)
next_on_path-middle (x ∷ y ∷ pre) a b post (suc hops) (off_cons ne off) h =
    let away : (x == a) ≡ false = ground (arith, ne) in
    rw away (next_on_path-middle (y ∷ pre) a b post hops off (omega arith))

abbrev pub EndsIn : ℕ → List ℕ → Type 0
EndsIn y [] = ⊥
EndsIn y (x ∷ []) = x ≡ y
EndsIn y (x ∷ x' ∷ path) = EndsIn y (x' ∷ path)

Off-end : (a y : ℕ) (path : List ℕ) → Off a path → EndsIn y path → a ≢ y
Off-end a y [] off ends = absurd ends
Off-end a y (x ∷ []) (off_cons ne off) ends = λ e. ne (ends ∙ sym e)
Off-end a y (x ∷ x' ∷ path) (off_cons ne off) ends = Off-end a y (x' ∷ path) off ends

Off-middle : (x a : ℕ) (pre post : List ℕ) → Off x (pre ++ a ∷ post) → x ≢ a
Off-middle x a [] post (off_cons ne off) = λ e. ne (sym e)
Off-middle x a (y ∷ pre) post (off_cons ne off) = Off-middle x a pre post off

-- A node in the middle of a simple path is neither before nor behind.
Simple-middle :
    (pre : List ℕ) (a : ℕ) (post : List ℕ) → Simple (pre ++ a ∷ post) → Off a pre × Off a post
Simple-middle [] a post (simple_cons off simple) = (off_nil, off)
Simple-middle (x ∷ pre) a post (simple_cons off simple) =
    let (before, behind) = Simple-middle pre a post simple in
    (off_cons (Off-middle x a pre post off) before, behind)

EndsIn-suffix :
    (y : ℕ) (pre : List ℕ) (a : ℕ) (post : List ℕ)
    → EndsIn y (pre ++ a ∷ post)
    → EndsIn y (a ∷ post)
EndsIn-suffix y [] a post ends = ends
EndsIn-suffix y (x ∷ []) a post ends = ends
EndsIn-suffix y (x ∷ x' ∷ pre) a post ends = EndsIn-suffix y (x' ∷ pre) a post ends

module _ (nodes : ℕ → Routes) (src dst : ℕ) (rt : Rtable) (entry : Entry)
    (ids : (p : ℕ) → (nodes p).node_id ≡ p) (tables : (p : ℕ) → (nodes p).rts src ≡ some rt)
    (known : src < max_peer) (at : get_elem? rt.entries dst ≡ some (some entry))
    (whole : length entry.path ≡ entry.hops + 1) (simple : Simple entry.path)
    (ends : EndsIn dst entry.path) where
  lookup_is : (p : ℕ) → comm_node_lookup_rt (nodes p) src dst ≡ next_on_path entry.hops p entry.path
  unfolding comm_node_lookup_rt overlay_rtable_get_entry
  lookup_is p =
      let small : ltb src max_peer ≡ true = ground (arith, known) in
      rw (small, tables p, at) (ap (λ i. next_on_path entry.hops i entry.path) (ids p))

  forward-suffix :
      (pre : List ℕ) (here : ℕ) (post : List ℕ)
      → entry.path ≡ pre ++ here ∷ post
      → forward nodes src dst (length (here ∷ post)) here ≡ some (here ∷ post)
  unfolding forward
  forward-suffix pre here [] e =
      let last : here ≡ dst = EndsIn-suffix dst pre here [] (rw e at ends) in
      let stop : (here == dst) ≡ true = ground arith in rw stop
  forward-suffix pre here (b ∷ post) e =
      let (before, behind) = Simple-middle pre here (b ∷ post) (rw e at simple) in
      let later : EndsIn dst (b ∷ post) = EndsIn-suffix dst pre here (b ∷ post) (rw e at ends) in
      let other = Off-end here dst (b ∷ post) behind later in
      let go : (here == dst) ≡ false = ground (arith, other) in
      let size : length (pre ++ here ∷ b ∷ post) ≡ entry.hops + 1 = rw e at whole in
      let hop : comm_node_lookup_rt (nodes here) src dst ≡ some (some b) =
        lookup_is here
        ∙ (ap (next_on_path entry.hops here) e
            ∙ next_on_path-middle pre here b post entry.hops before
                (omega (arith, length-append pre (here ∷ b ∷ post)))) in
      rw (
        go,
        hop,
        forward-suffix (pre ++ here ∷ []) b post
            (e ∙ sym (append_assoc pre (here ∷ []) (b ∷ post))),
      )

  -- If every node has the table of the source, and the entry of the destination holds a whole path
  -- that ends there and visits no node twice, then the nodes hand a message that starts at the
  -- first node of the path from one to the next along just this path, up to the destination.
  pub forward-path :
      (first : ℕ) (rest : List ℕ)
      → entry.path ≡ first ∷ rest
      → forward nodes src dst (length entry.path) first ≡ some entry.path
  forward-path first rest e =
      ap (λ xs. forward nodes src dst (length xs) first) e
      ∙ (forward-suffix [] first rest e ∙ ap some (sym e))
